-- ===== src/Middleware/Metrics/Laws.antt =====
-- The collector counts every status it is given.
use custom_mcps.Prelude.{
  ℕ, suc, ◌+◌, ◌%◌, ◌^◌, List, [], ◌∷◌, ◌≡◌, refl, ◌∙◌, length, nat_eq, Bool-cases, inl, inr,
  if◌then◌else◌, arith,
}
use custom_mcps.Middleware.Metrics.{Collector, empty_collector, count_up, record_request}

-- The counter of a code; a code that was never counted has none, which reads as 0.
abbrev pub count_of : ℕ → List (ℕ × ℕ) → ℕ
count_of code [] = 0
count_of code ((c, n) ∷ counts) = if nat_eq c code then n else count_of code counts

-- How often a code is among the codes of the requests.
abbrev pub occurrences : ℕ → List (ℕ × ℕ) → ℕ
occurrences code [] = 0
occurrences code ((c, d) ∷ requests) =
    if nat_eq c code then suc (occurrences code requests) else occurrences code requests

-- The requests are recorded from the last of the list to the first.
abbrev pub record_all : List (ℕ × ℕ) → Collector
record_all [] = empty_collector
record_all ((c, d) ∷ requests) = record_request c d (record_all requests)

count_of-count_up :
    (code c : ℕ) (counts : List (ℕ × ℕ))
    → count_of code (count_up c counts)
      ≡ (if nat_eq c code then (count_of code counts + 1) % 2 ^ 64 else count_of code counts)
unfolding count_up
count_of-count_up code c [] = refl
count_of-count_up code c ((k, n) ∷ counts) = ground (arith, count_of-count_up code c counts)

succ_mod : (n m : ℕ) → n ≡ m % 2 ^ 64 → (n + 1) % 2 ^ 64 ≡ suc m % 2 ^ 64
succ_mod n m h = omega arith

-- Whatever requests are recorded, the total is their number and the counter of each status is the
-- number of requests with that status, up to the wrap-around of the counters at 2 ^ 64.
pub record_all-count :
    (requests : List (ℕ × ℕ)) (code : ℕ)
    → ((record_all requests).total_requests ≡ length requests % 2 ^ 64)
      × (count_of code (record_all requests).status_codes ≡ occurrences code requests % 2 ^ 64)
unfolding record_request
record_all-count [] code = (omega arith, omega arith)
record_all-count ((c, d) ∷ requests) code =
    let (total, count) = record_all-count requests code in
    (
      succ_mod _ (length requests) total,
      count_of-count_up code c (record_all requests).status_codes
          ∙ elim (Bool-cases (nat_eq c code)) [
            | inl same ↦ rw same (succ_mod _ (occurrences code requests) count)
            | inr other ↦ rw other count
          ],
    )
