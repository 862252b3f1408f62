-- ===== src/Middleware/RateLimit/Laws.antt =====
-- How many requests a bucket lets through, and that clients do not share one.
use custom_mcps.Prelude.{
  ℕ, zero, suc, ◌-◌, ◌≤◌, ◌<◌, ◌^◌, String, Bool, true, false, none, List, ◌≡◌, refl, ap, ◌∙◌,
  arith, ltb, Bool-cases, inl, inr, if◌then◌else◌, ◌≢◌, eq_of_ne, eq_refl,
}
use custom_mcps.Prelude.Int.{ℤ, pos, sub_ℕ}
use custom_mcps.Prelude.Float.{Float64, Ieee}
use custom_mcps.Prelude.Maps.{get, get-put}
use custom_mcps.Http.{HttpRequest, Writer, HttpHandler}
use custom_mcps.Middleware.RateLimit.{
  TokenBucket, duration, refilled, take_token, allow, client_ip, bucket_of, bucket_or, answer,
  rate_limit, too_many,
}

module _ {F : Type 0} (f : Float64 F) (ieee : Ieee f) where
  -- A bucket never holds more than its maximum.
  abbrev pub IsCapped : TokenBucket F → Type 0
  IsCapped tb = f.less tb.max_tokens tb.tokens ≡ false

  refilled-IsCapped : (now : ℕ) (tb : TokenBucket F) → IsCapped (refilled f now tb)
  unfolding refilled
  refilled-IsCapped now tb =
      let elapsed = f.seconds (duration (sub_ℕ now tb.last_refill)) in
      let level = f.add tb.tokens (f.mul elapsed tb.refill_rate) in
      elim (Bool-cases (f.less tb.max_tokens level)) [
        | inl over ↦ rw over (ieee.less_irrefl tb.max_tokens)
        | inr fits ↦ rw fits fits
      ]

  take_token-IsCapped : (tb : TokenBucket F) → IsCapped tb → IsCapped (take_token f tb).1
  take_token-IsCapped tb h = elim (Bool-cases (f.less tb.tokens (f.of_int (pos 1)))) [
    | inl short ↦ rw short h
    | inr enough ↦ rw enough (ieee.pred-not-above tb.tokens tb.max_tokens h enough)
  ]

  -- Whenever a bucket is asked, and however full it was before, it ends up holding no more than
  -- its maximum.
  pub allow-IsCapped : (now : ℕ) (tb : TokenBucket F) → IsCapped (allow f now tb).1
  unfolding allow
  allow-IsCapped now tb = take_token-IsCapped (refilled f now tb) (refilled-IsCapped now tb)

sub_self : (n : ℕ) → duration (sub_ℕ n n) ≡ pos 0
unfolding duration
sub_self n = ap duration (no_time n)
  where
    no_time : (n : ℕ) → sub_ℕ n n ≡ pos 0
    no_time n = ground arith

module _ {F : Type 0} (f : Float64 F) (ieee : Ieee f) (rate burst : ℕ) (small_rate : rate ≤ 2 ^ 53)
    (small : burst ≤ 2 ^ 53) (now : ℕ) where
  -- The bucket after k requests at one instant.
  abbrev level : ℕ → TokenBucket F
  level k = record {
    tokens = f.of_int (pos (burst - k));
    max_tokens = f.of_int (pos burst);
    refill_rate = f.of_int (pos rate);
    last_refill = now;
  }

  refilled-level : (k : ℕ) → refilled f now (level k) ≡ level k
  unfolding refilled
  refilled-level k = rw (sub_self now) (
      rw (ieee.add_nothing (burst - k) rate (omega arith) small_rate)
        (rw (ieee.less_exact burst (burst - k) small (omega arith)) (rw (not_over burst k))))
    where
      not_over : (b k : ℕ) → ltb b (b - k) ≡ false
      not_over b k = ground arith

  one_less :
      (k : ℕ)
      → ltb k burst ≡ true
      → f.sub (f.of_int (pos (burst - k))) (f.of_int (pos 1)) ≡ f.of_int (pos (burst - suc k))
  one_less k below =
      ap (λ n. f.sub (f.of_int (pos n)) (f.of_int (pos 1))) (split burst k below)
      ∙ ieee.pred_exact (burst - suc k) (bound burst k below small)
    where
      split : (b k : ℕ) → ltb k b ≡ true → b - k ≡ suc (b - suc k)
      split b k h = ground arith

      bound : (b k : ℕ) → ltb k b ≡ true → b ≤ 2 ^ 53 → b - suc k < 2 ^ 53
      bound b k h small = ground arith

  -- One more token is gone, if there was one.
  allow-level : (k : ℕ) → allow f now (level k) ≡ (ltb k burst, level (suc k))
  unfolding allow
  allow-level k = ap (take_token f) (refilled-level k) ∙ elim (Bool-cases (ltb k burst)) [
    | inl below ↦
        rw (ieee.less_exact (burst - k) 1 (omega arith) (omega arith), enough burst k below, below)
          (ap (λ x. (true, record (level k) { tokens = x })) (one_less k below))
    | inr above ↦
        rw (ieee.less_exact (burst - k) 1 (omega arith) (omega arith), short burst k above, above)
          (ap (λ n. (false, record (level k) { tokens = f.of_int (pos n) }))
            (used_up burst k above))
  ]
    where
      enough : (b k : ℕ) → ltb k b ≡ true → ltb (b - k) 1 ≡ false
      enough b k h = ground arith

      short : (b k : ℕ) → ltb k b ≡ false → ltb (b - k) 1 ≡ true
      short b k h = ground arith

      used_up : (b k : ℕ) → ltb k b ≡ false → b - k ≡ b - suc k
      used_up b k h = ground arith

  module _ (host_of : String → String) (next : HttpHandler) (r : HttpRequest)
      (buckets : List (String × TokenBucket F)) (w : Writer) where
    -- The buckets after k requests of one client at one instant.
    abbrev pub repeated : ℕ → List (String × TokenBucket F)
    repeated zero = buckets
    repeated (suc k) = (rate_limit f host_of (pos rate) (pos burst) next now now r (repeated k) w).0

    bucket_of-repeated :
        get (client_ip f host_of (pos rate) (pos burst) r) buckets ≡ none
        → (k : ℕ) → bucket_of f host_of (pos rate) (pos burst) now r (repeated k) ≡ level k
    unfolding bucket_of rate_limit
    bucket_of-repeated fresh zero =
        rw (fresh, bucket_or)
          (ap (λ n. record (level 0) { tokens = f.of_int (pos n) }) (minus_zero burst))
      where
        minus_zero : (b : ℕ) → b ≡ b - 0
        minus_zero b = omega arith
    bucket_of-repeated fresh (suc k) =
        let ip = client_ip f host_of (pos rate) (pos burst) r in
        let before = bucket_of f host_of (pos rate) (pos burst) now r (repeated k) in
        rw (get-put ip ip (allow f now before).1 (repeated k), eq_refl ip, bucket_or)
          (ap (λ b. (allow f now b).1) (bucket_of-repeated fresh k) ∙ ap (λ x. x.1) (allow-level k))

    -- With a rate and a burst of at most 2 ^ 53: of the requests that a client with no bucket yet
    -- makes at one instant, exactly the first `burst` reach the next handler, and each one after
    -- these is answered with status 429.
    pub rate_limit_burst :
        (k : ℕ)
        → get (client_ip f host_of (pos rate) (pos burst) r) buckets ≡ none
        → (rate_limit f host_of (pos rate) (pos burst) next now now r (repeated k) w).1
          ≡ (if ltb k burst then next r w else too_many w)
    unfolding rate_limit
    rate_limit_burst k fresh =
        ap (λ b. answer f host_of (pos rate) (pos burst) next r w (allow f now b).0)
          (bucket_of-repeated fresh k)
        ∙ ap (λ x. answer f host_of (pos rate) (pos burst) next r w x.0) (allow-level k)
        ∙ either (ltb k burst)
      where
        either :
            (b : Bool)
            → answer f host_of (pos rate) (pos burst) next r w b
              ≡ (if b then next r w else too_many w)
        either true = refl
        either false = refl

-- A request leaves the buckets of every other client as they were.
pub rate_limit-other :
    {F : Type 0} (f : Float64 F) (host_of : String → String) (rate burst : ℤ) (next : HttpHandler)
    (created now : ℕ) (r : HttpRequest) (buckets : List (String × TokenBucket F)) (w : Writer)
    (other : String)
    → client_ip f host_of rate burst r ≢ other
    → get other (rate_limit f host_of rate burst next created now r buckets w).0 ≡ get other buckets
unfolding rate_limit
rate_limit-other f host_of rate burst next created now r buckets w other differ =
    get-put (client_ip f host_of rate burst r) other _ buckets ∙ rw (eq_of_ne _ _ differ)
