-- ===== src/Prelude/Maps.antt =====
-- Go's `map[string]V` as an association list in which a key stands once. What a range over the map
-- sees is the list in some order.
use mathlib.Core.Path.{◌≡◌, refl}
use mathlib.Core.List.{List, [], ◌∷◌}
use mathlib.Core.Option.{Option, none, some}
use mathlib.Core.Logic.{◌≢◌}
use Prim.Native.String.{String}
use native.Mathlib.Omega.{arith}
use text.Mathlib.Text.{◌==◌}
use text.Mathlib.TextEquality.{eq_iff}
use custom_mcps.Prelude.Tests.{if◌then◌else◌}
use custom_mcps.Prelude.Lists.{All}

module _ {ℓ} {V : Type ℓ} where
  -- `m[k]`
  unfoldable pub get : String → List (String × V) → Option V
  get k [] = none
  get k ((j, x) ∷ es) = if j == k then some x else get k es

  -- `m[k] = v`
  unfoldable pub put : String → V → List (String × V) → List (String × V)
  put k x [] = (k, x) ∷ []
  put k x ((j, w) ∷ es) = if j == k then (k, x) ∷ es else (j, w) ∷ put k x es

  -- `delete(m, k)`
  unfoldable pub delete : String → List (String × V) → List (String × V)
  delete k [] = []
  delete k ((j, x) ∷ es) = if j == k then es else (j, x) ∷ delete k es

  -- Every key stands once.
  abbrev pub Lacks : String → List (String × V) → Type 0
  Lacks k es = All (λ e. e.0 ≢ k) es

  abbrev pub IsMap : List (String × V) → Type 0
  IsMap [] = Unit
  IsMap ((k, x) ∷ es) = Lacks k es × IsMap es

  pub get-put :
      (k j : String) (x : V) (es : List (String × V))
      → get j (put k x es) ≡ (if k == j then some x else get j es)
  unfolding get put
  get-put k j x [] = refl
  get-put k j x ((i, w) ∷ es) = ground (arith, eq_iff k j, eq_iff i k, eq_iff i j, get-put k j x es)

  pub get_of_Lacks : (k : String) (es : List (String × V)) → Lacks k es → get k es ≡ none
  unfolding get
  get_of_Lacks k [] h = refl
  get_of_Lacks k ((j, x) ∷ es) h = ground (arith, eq_iff j k, get_of_Lacks k es h.1)

  pub get-delete :
      (k j : String) (es : List (String × V))
      → IsMap es
      → get j (delete k es) ≡ (if k == j then none else get j es)
  unfolding get delete
  get-delete k j [] h = ground (arith, eq_iff k j)
  get-delete k j ((i, w) ∷ es) h =
      ground
        (arith, eq_iff k j, eq_iff i k, eq_iff i j, get-delete k j es h.1, get_of_Lacks i es h.0)

  Lacks-put :
      (k j : String) (x : V) (es : List (String × V)) → j ≢ k → Lacks k es → Lacks k (put j x es)
  unfolding put
  Lacks-put k j x [] n h = (n, tt)
  Lacks-put k j x ((i, w) ∷ es) n h = ground (arith, eq_iff i j, Lacks-put k j x es n h.1)

  pub put-IsMap : (k : String) (x : V) (es : List (String × V)) → IsMap es → IsMap (put k x es)
  unfolding put
  put-IsMap k x [] h = (tt, tt)
  put-IsMap k x ((j, w) ∷ es) h =
      ground (arith, eq_iff j k, Lacks-put j k x es, put-IsMap k x es h.1)

  Lacks-delete : (k j : String) (es : List (String × V)) → Lacks k es → Lacks k (delete j es)
  unfolding delete
  Lacks-delete k j [] h = tt
  Lacks-delete k j ((i, w) ∷ es) h = ground (arith, eq_iff i j, Lacks-delete k j es h.1)

  pub delete-IsMap : (k : String) (es : List (String × V)) → IsMap es → IsMap (delete k es)
  unfolding delete
  delete-IsMap k [] h = tt
  delete-IsMap k ((j, w) ∷ es) h =
      ground (arith, eq_iff j k, Lacks-delete j k es h.0, delete-IsMap k es h.1)

  pub delete-Lacks : (k : String) (es : List (String × V)) → IsMap es → Lacks k (delete k es)
  unfolding delete
  delete-Lacks k [] h = tt
  delete-Lacks k ((j, w) ∷ es) h = ground (arith, eq_iff j k, delete-Lacks k es h.1)
