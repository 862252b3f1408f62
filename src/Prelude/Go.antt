-- ===== src/Prelude/Go.antt =====
-- Go's control flow as values: a call that returns a value or an error text, and a call that
-- returns or panics.
use Prim.Native.String
use Prim.Native.String.{String}
use mathlib.Core.Path.{◌≡◌, refl}

-- The pair `(value, err)` of a Go call; the error is read by its text alone.
pub data Result {ℓ} (V : Type ℓ) : Type ℓ where
  err : String → Result V
  ok : V → Result V

-- A call returns a value, or panics with the text of the panic's value.
pub data Outcome {ℓ} (A : Type ℓ) : Type ℓ where
  returns : A → Outcome A
  panics : String → Outcome A

-- A call whose error, if it has one, is returned at once: `if err != nil { return err }`.
infixl 5 ◌>>=◌
abbrev pub ◌>>=◌ {ℓ κ} : {V : Type ℓ} {W : Type κ} → Result V → (V → Result W) → Result W
err text >>= next = err text
ok v >>= next = next v

abbrev pub result_map {ℓ κ} : {V : Type ℓ} {W : Type κ} → (V → W) → Result V → Result W
result_map f (ok v) = ok (f v)
result_map f (err text) = err text

-- Where the whole succeeds, the call did, and so did what came after it.
pub >>=-eq-ok {ℓ κ} :
    {V : Type ℓ} {W : Type κ} (next : V → Result W) (call : Result V) {w : W}
    → (call >>= next) ≡ ok w
    → (v : V) × (next v ≡ ok w) × (call ≡ ok v)
>>=-eq-ok next (err text) whole = cc
>>=-eq-ok next (ok v) whole = (v, whole, refl)

infixr 65 ◌<>◌
-- Go's `+` on strings.
abbrev pub ◌<>◌ : String → String → String
s <> t = String.◌++◌ s t
