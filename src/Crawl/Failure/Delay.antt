-- ===== src/Crawl/Failure/Delay.antt =====
-- internal/crawl/worker.go: how long a failed row waits.
use native.Mathlib.Nat.{pow-suc}
use league_of_legends.Prelude.{
  double, double_pow, half_jitter, ℕ, zero, suc, pred, ◌+◌, ◌*◌, ◌^◌, ◌/◌, ◌%◌, ◌≤◌, ◌<◌, ◌≡◌, refl,
  ap, ◌∙◌, min, arith, pos, ◌+ℤ◌, ltb_ℤ, Duration, if_cases, ltb,
}
use league_of_legends.Crawl.Failure.{Policy, grow, failure_backoff, int63n, half, retry_delay}

ltb-pos : (a b : ℕ) → ltb_ℤ (pos a) (pos b) ≡ ltb a b
ltb-pos a b = ground arith

-- The loop ends at a delay that, capped, is `d` doubled `n` times and capped.
abbrev Doubled : ℕ → ℕ → ℕ → Duration → Type 0
Doubled d m n x = (k : ℕ) × (x ≡ pos k) × (min k m ≡ min (d * 2 ^ n) m)

grow_capped : (n d m k : ℕ) → m ≤ d → min d m ≡ min (d * 2 ^ n) m
grow_capped zero d m k h = omega arith
grow_capped (suc n) d m k h =
    omega (arith, grow_capped n d m k h, pow-suc 2 n, ap (λ (t : ℕ). d * t) (pow-suc 2 n))

grow-Doubled : (n d m : ℕ) → m ≤ 2 ^ 61 → d < 2 ^ 62 → Doubled d m n (grow n (pos d) (pos m))
unfolding grow
grow-Doubled zero d m h dh = (d, refl, omega arith)
grow-Doubled (suc n) d m h dh =
    if_cases (Doubled d m (suc n)) (ltb_ℤ (pos d) (pos m))
      (λ t.
        let lt : d < m = ground arith in
        let (k, e, c) = grow-Doubled n (d + d) m h (omega arith) in
        (k, ap (λ x. grow n x (pos m)) (double d dh) ∙ e, c ∙ ap (λ x. min x m) (double_pow n d)))
      (λ f. let ge : m ≤ d = ground arith in (d, refl, grow_capped (suc n) d m 0 ge))

-- With a base and a longest delay that are not negative and at most 2^61 ns (73 years), the pause
-- after `consecutive` failures is the base doubled once for each failure after the first, capped at
-- the longest delay.
pub failure_backoff_lem :
    (o : Policy) (base max_delay consecutive : ℕ)
    → o.retry_base ≡ pos base
    → o.retry_max ≡ pos max_delay
    → base ≤ 2 ^ 61
    → max_delay ≤ 2 ^ 61
    → failure_backoff o consecutive ≡ pos (min (base * 2 ^ pred consecutive) max_delay)
unfolding failure_backoff
failure_backoff_lem o base m c eb em hb hm =
    let (k, e, cap) = grow-Doubled (pred c) base m hm (omega arith) in
    rw (eb, em, e)
      (if_cases (λ (x : Duration). x ≡ pos (min (base * 2 ^ pred c) m)) (ltb_ℤ (pos m) (pos k))
        (λ t. let lt : m < k = ground arith in ap pos (omega (arith, cap, lt)))
        (λ f. let ge : k ≤ m = ground arith in ap pos (omega (arith, cap, ge))))

pos-add : (a b : ℕ) → pos a +ℤ pos b ≡ pos (a + b)
unfolding ◌+ℤ◌
pos-add a b = ground arith

-- Under the same conditions a retry waits at least half of that pause (rounded down) and at most all
-- of it, whatever the generator gives.
pub retry_delay_bounds :
    (o : Policy) (base max_delay attempts random : ℕ)
    → o.retry_base ≡ pos base
    → o.retry_max ≡ pos max_delay
    → base ≤ 2 ^ 61
    → max_delay ≤ 2 ^ 61
    → (k : ℕ) × (retry_delay o random attempts ≡ pos k)
      × (min (base * 2 ^ pred attempts) max_delay / 2 ≤ k)
      × (k ≤ min (base * 2 ^ pred attempts) max_delay)
unfolding retry_delay
retry_delay_bounds o base m c random eb em hb hm =
    let d = min (base * 2 ^ pred c) m in
    let (low, high) = half_jitter random d in
    (
      d / 2 + random % suc (d / 2),
      ap (λ x. half x +ℤ int63n random (half x +ℤ pos 1))
            (failure_backoff_lem o base m c eb em hb hm)
          ∙ ap (λ x. pos (d / 2) +ℤ int63n random x) (pos-add (d / 2) 1 ∙ ap pos (omega arith))
          ∙ pos-add (d / 2) (random % suc (d / 2)),
      low,
      high,
    )
