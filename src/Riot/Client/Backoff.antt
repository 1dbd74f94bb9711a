-- ===== src/Riot/Client/Backoff.antt =====
-- internal/riot/client.go: how long a call backs off before its next attempt.
use native.Mathlib.Nat.{pow-suc}
use league_of_legends.Prelude.{
  double, double_pow, half_jitter, ℕ, zero, suc, ◌+◌, ◌*◌, ◌^◌, ◌/◌, ◌%◌, ◌≤◌, ◌<◌, ◌≡◌, refl, ap,
  ◌∙◌, min, arith, pos, ◌*ℤ◌, leb_ℤ, ltb_ℤ, int64, Duration, if_cases,
}
use league_of_legends.Riot.Client.{ClientOptions}
use league_of_legends.Riot.Client.Perform.{doubled, backoff, jittered}

pow_pos : (n d : ℕ) → d ≤ d * 2 ^ n
pow_pos zero d = omega arith
pow_pos (suc n) d = omega (arith, pow_pos n d, pow-suc 2 n, ap (λ (t : ℕ). d * t) (pow-suc 2 n))

-- The doublings end at a delay that, capped, is `d` doubled `n` times and capped.
abbrev Doubled : ℕ → ℕ → ℕ → Duration → Type 0
Doubled d m n x = (k : ℕ) × (x ≡ pos k) × (min k m ≡ min (d * 2 ^ n) m)

doubled-Doubled : (n d m : ℕ) → m ≤ 2 ^ 61 → d < 2 ^ 62 → Doubled d m n (doubled n (pos d) (pos m))
unfolding doubled
doubled-Doubled zero d m h dh = (d, refl, omega arith)
doubled-Doubled (suc n) d m h dh =
    if_cases (Doubled d m (suc n)) (leb_ℤ (pos m) (int64 (pos d *ℤ pos 2)))
      (λ t.
        let reached : m ≤ d + d = ground (arith, ap (λ x. leb_ℤ (pos m) x) (double d dh)) in
        (m, refl, omega (arith, pow_pos n (d + d), double_pow n d)))
      (λ f.
        let below : d + d < m = ground (arith, ap (λ x. leb_ℤ (pos m) x) (double d dh)) in
        let (k, e, c) = doubled-Doubled n (d + d) m h (omega arith) in
        (
          k,
          ap (λ x. doubled n x (pos m)) (double d dh) ∙ e,
          c ∙ ap (λ x. min x m) (double_pow n d),
        ))

-- With a base and a longest backoff that are not negative and at most 2^61 ns, the backoff before
-- attempt `attempt + 2` lies between half (rounded down) and all of the base doubled once for each
-- attempt after the first, capped at the longest backoff, whatever the random number is.
pub backoff_bounds :
    (o : ClientOptions) (base limit attempt random : ℕ)
    → o.backoff_base ≡ pos base
    → o.backoff_max ≡ pos limit
    → base ≤ 2 ^ 61
    → limit ≤ 2 ^ 61
    → (k : ℕ) × (backoff o random (suc attempt) ≡ pos k)
      × (min (base * 2 ^ attempt) limit / 2 ≤ k)
      × (k ≤ min (base * 2 ^ attempt) limit)
unfolding backoff
backoff_bounds o base m attempt random eb em hb hm =
    let (k, e, cap) = doubled-Doubled attempt base m hm (omega arith) in
    let d = min (base * 2 ^ attempt) m in
    let (low, high) = half_jitter random d in
    (
      d / 2 + random % suc (d / 2),
      rw (eb, em, e)
          (if_cases (λ (x : Duration). jittered random x ≡ pos (d / 2 + random % suc (d / 2)))
            (ltb_ℤ (pos m) (pos k))
            (λ t.
              let lt : m < k = ground arith in
              ap (λ x. pos (x / 2 + random % suc (x / 2))) (omega (arith, cap, lt)))
            (λ f.
              let ge : k ≤ m = ground arith in
              ap (λ x. pos (x / 2 + random % suc (x / 2))) (omega (arith, cap, ge)))),
      low,
      high,
    )
