-- ===== src/Middleware/RateLimit/Tokens.antt =====
-- framework/middleware/ratelimit.go: a bucket of whole tokens, for requests at whole seconds, as the
-- specification of what a client is let through.
use custom_mcps.Prelude.{
  ℕ, suc, ◌+◌, ◌-◌, ◌*◌, ◌≤◌, Bool, true, false, List, [], ◌∷◌, ◌≡◌, arith, ltb, if◌then◌else◌,
}

-- A second, in nanoseconds.
abbrev pub second : ℕ
second = 1000000000

module _ (rate burst : ℕ) where
  -- The tokens after `g` seconds.
  abbrev pub after_gap : ℕ → ℕ → ℕ
  after_gap n g = if ltb burst (n + g * rate) then burst else n + g * rate

  -- Which requests are let through, by the seconds before each, from `n` tokens on.
  abbrev pub admits : List ℕ → ℕ → List Bool
  admits [] n = []
  admits (g ∷ gs) n = ltb 0 (after_gap n g) ∷ admits gs (after_gap n g - 1)

  after_gap-le : (n g : ℕ) → after_gap n g ≤ n + g * rate
  after_gap-le n g = ground arith

  pub after_gap-le-burst : (n g : ℕ) → after_gap n g ≤ burst
  after_gap-le-burst n g = ground arith

abbrev pub count : List Bool → ℕ
count [] = 0
count (true ∷ bs) = suc (count bs)
count (false ∷ bs) = count bs

abbrev pub total : List ℕ → ℕ
total [] = 0
total (g ∷ gs) = g + total gs

count-cons : (b : Bool) (bs : List Bool) → count (b ∷ bs) ≡ (if b then 1 else 0) + count bs
count-cons true bs = omega arith
count-cons false bs = omega arith

add_mul : (a b c : ℕ) → (a + b) * c ≡ a * c + b * c
add_mul a b c = grind arith

pub count-admits :
    (rate burst : ℕ) (gs : List ℕ) (n : ℕ) → count (admits rate burst gs n) ≤ n + total gs * rate
count-admits rate burst [] n = ground arith
count-admits rate burst (g ∷ gs) n =
    let m = after_gap rate burst n g in
    omega (
      arith,
      count-cons (ltb 0 m) (admits rate burst gs (m - 1)),
      taken m,
      count-admits rate burst gs (m - 1),
      after_gap-le rate burst n g,
      add_mul g (total gs) rate,
    )
  where
    taken : (m : ℕ) → (if ltb 0 m then 1 else 0) + (m - 1) ≤ m
    taken m = ground arith
