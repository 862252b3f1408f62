-- ===== src/Middleware/Laws.antt =====
-- The order in which middleware is applied.
use custom_mcps.Prelude.{List, [], ◌∷◌, ◌++◌, ◌≡◌, refl, sym, ap, ◌∙◌}
use mathlib.Core.List.{reverse, reverse-cons}
use custom_mcps.Middleware.{wrap_each, chain}

module _ {ℓ} {H : Type ℓ} where
  wrap_each-append :
      (xs ys : List (H → H)) (final : H)
      → wrap_each (xs ++ ys) final ≡ wrap_each ys (wrap_each xs final)
  unfolding wrap_each
  wrap_each-append [] ys final = refl
  wrap_each-append (m ∷ xs) ys final = wrap_each-append xs ys (m final)

  -- The first middleware of a list is the outermost wrapper.
  pub chain-cons :
      (m : H → H) (ms : List (H → H)) (final : H) → chain (m ∷ ms) final ≡ m (chain ms final)
  unfolding chain wrap_each
  chain-cons m ms final =
      ap (λ xs. wrap_each xs final) (reverse-cons m ms)
      ∙ wrap_each-append (reverse ms) (m ∷ []) final

  chain_nil : (h : H) → chain [] h ≡ h
  unfolding chain wrap_each
  chain_nil h = refl

  -- Chaining two lists one after the other is one chain inside the other.
  pub chain-append :
      (xs ys : List (H → H)) (final : H) → chain (xs ++ ys) final ≡ chain xs (chain ys final)
  chain-append [] ys final = sym (chain_nil (chain ys final))
  chain-append (m ∷ xs) ys final =
      chain-cons m (xs ++ ys) final
      ∙ ap m (chain-append xs ys final)
      ∙ sym (chain-cons m xs (chain ys final))
