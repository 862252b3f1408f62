-- ===== src/Prelude/Sort.antt =====
-- The order in which encoding/json writes the keys of a map.
use Prim.Native.Char.{code}
use Prim.Native.String.{String}
use mathlib.Core.Bool.{Bool, true, false, ◌&&◌, ◌||◌}
use mathlib.Core.List.{List, [], ◌∷◌}
use custom_mcps.Prelude.Tests.{ltb, nat_eq, if◌then◌else◌}

-- Texts are compared by code points, which agrees with the order of their UTF-8 bytes.
unfoldable pub text_lt : String → String → Bool
text_lt String.[] String.[] = false
text_lt String.[] (String.◌∷◌ d t) = true
text_lt (String.◌∷◌ c s) String.[] = false
text_lt (String.◌∷◌ c s) (String.◌∷◌ d t) =
    ltb (code c) (code d) || (nat_eq (code c) (code d) && text_lt s t)

module _ {ℓ} {V : Type ℓ} where
  unfoldable pub insert_key : String → V → List (String × V) → List (String × V)
  insert_key k v [] = (k, v) ∷ []
  insert_key k v ((j, w) ∷ m) =
      if text_lt k j then (k, v) ∷ (j, w) ∷ m else (j, w) ∷ insert_key k v m

  unfoldable pub sort_keys : List (String × V) → List (String × V)
  unfolding insert_key text_lt
  sort_keys [] = []
  sort_keys ((k, v) ∷ m) = insert_key k v (sort_keys m)
