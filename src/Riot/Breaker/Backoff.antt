-- ===== src/Riot/Breaker/Backoff.antt =====
-- internal/riot/breaker.go: the backoff of a breaker that only ever fails.
use native.Mathlib.Nat.{pow-suc, add-zero, add-suc, suc-add}
use league_of_legends.Prelude.{
  ℕ, zero, suc, ◌+◌, ◌*◌, ◌^◌, ◌≤◌, ◌<◌, ◌≡◌, Bool, true, false, dec_lt, subst, ap, ◌∙◌, List, [],
  ◌∷◌, length, min, arith, pos, Time, Duration, int64, ◌*ℤ◌,
}
use league_of_legends.Riot.Breaker.{Breaker, next_backoff, trip, record_failure, fail}

-- The failures of a list of instants, one after the other.
unfoldable pub fails : List Time → Breaker → Breaker
fails [] b = b
fails (now ∷ ts) b = fails ts (fail b now).0

double : (n : ℕ) → n < 2 ^ 62 → int64 (pos n *ℤ pos 2) ≡ pos (n + n)
unfolding ◌*ℤ◌ int64
double n h = ground arith

next_backoff-grow :
    (t m : ℕ) (cooldown : Duration)
    → m < 2 ^ 62
    → 1 ≤ t
    → t ≤ m
    → next_backoff false (pos t) cooldown (pos m) ≡ pos (min (t + t) m)
unfolding next_backoff
next_backoff-grow t m cooldown h t1 tm = ground (arith, double t)

-- Doubling from the cooldown, k times, capped at the longest wait.
abbrev pub doubled : ℕ → ℕ → ℕ → ℕ
doubled c m k = min (c * 2 ^ k) m

doubled-bounds : (c m k : ℕ) → 1 ≤ c → 1 ≤ m → (1 ≤ doubled c m k) × (doubled c m k ≤ m)
doubled-bounds c m zero c1 m1 = omega arith
doubled-bounds c m (suc k) c1 m1 =
    omega (arith, doubled-bounds c m k c1 m1, pow-suc 2 k, ap (λ (t : ℕ). c * t) (pow-suc 2 k))

doubled-suc : (c m k : ℕ) → min (doubled c m k + doubled c m k) m ≡ doubled c m (suc k)
doubled-suc c m k = omega (arith, ap (λ (t : ℕ). c * t) (pow-suc 2 k))

next_backoff-doubled :
    (c m k : ℕ)
    → m < 2 ^ 62
    → 1 ≤ c
    → 1 ≤ m
    → next_backoff false (pos (doubled c m k)) (pos c) (pos m) ≡ pos (doubled c m (suc k))
next_backoff-doubled c m k h c1 m1 =
    let (low, high) = doubled-bounds c m k c1 m1 in
    next_backoff-grow (doubled c m k) m (pos c) h low high ∙ ap pos (doubled-suc c m k)

-- A breaker that has tripped k + 1 times since its last success.
pub record Tripping (c m k : ℕ) (b : Breaker) : Type 0 where
  pub cooldown_is : b.cooldown ≡ pos c
  pub max_wait_is : b.max_wait ≡ pos m
  pub reached : b.threshold ≤ b.consecutive
  pub backoff_is : b.backoff ≡ pos (doubled c m k)

record_failure-trips :
    (b : Breaker) (auth : Bool) (now : Time)
    → b.threshold ≤ b.consecutive + 1
    → record_failure b auth now
      ≡ (trip (record b { consecutive = b.consecutive + 1 }) auth now, true)
unfolding record_failure
record_failure-trips b auth now h = ground arith

record_failure-counts :
    (b : Breaker) (auth : Bool) (now : Time)
    → b.consecutive + 1 < b.threshold
    → record_failure b auth now ≡ (record b { consecutive = b.consecutive + 1 }, false)
unfolding record_failure
record_failure-counts b auth now h = ground arith

next_backoff-first :
    (c m : ℕ) → 1 ≤ c → 1 ≤ m → next_backoff false (pos 0) (pos c) (pos m) ≡ pos (doubled c m 0)
unfolding next_backoff
next_backoff-first c m c1 m1 = ground arith

-- A breaker that has not tripped since its last success, or at all.
pub record Fresh (c m : ℕ) (b : Breaker) : Type 0 where
  pub cooldown_is : b.cooldown ≡ pos c
  pub max_wait_is : b.max_wait ≡ pos m
  pub closed : b.backoff ≡ pos 0
  pub below : b.consecutive < b.threshold

module _ (c m : ℕ) (h : m < 2 ^ 62) (c1 : 1 ≤ c) (m1 : 1 ≤ m) where
  fail-Tripping :
      (k : ℕ) {b : Breaker} (now : Time) → Tripping c m k b → Tripping c m (suc k) (fail b now).0
  unfolding fail
  fail-Tripping k {b} now t = rw (record_failure-trips b false now (omega arith)) (
      unfold trip in
      record {
        cooldown_is = t.cooldown_is;
        max_wait_is = t.max_wait_is;
        reached = omega arith;
        backoff_is = cc (next_backoff-doubled c m k h c1 m1);
      })

  fails-Tripping :
      (k : ℕ) (ts : List Time) {b : Breaker}
      → Tripping c m k b
      → Tripping c m (k + length ts) (fails ts b)
  unfolding fails
  fails-Tripping k [] t = rw (add-zero k) t
  fails-Tripping k (now ∷ ts) {b} t =
      rw (add-suc k (length ts), ← suc-add k (length ts))
        (fails-Tripping (suc k) ts (fail-Tripping k now t))

  first_trip-Tripping :
      (b : Breaker) (now : Time)
      → Fresh c m b
      → b.consecutive + 1 ≡ b.threshold
      → Tripping c m 0 (fail b now).0
  unfolding fail
  first_trip-Tripping b now f e = rw (record_failure-trips b false now (omega arith)) (
      unfold trip in
      record {
        cooldown_is = f.cooldown_is;
        max_wait_is = f.max_wait_is;
        reached = omega arith;
        backoff_is = cc (next_backoff-first c m c1 m1);
      })

  counted-Fresh :
      (b : Breaker) (now : Time)
      → Fresh c m b
      → b.consecutive + 1 < b.threshold
      → (fail b now).0 ≡ record b { consecutive = b.consecutive + 1 }
  unfolding fail
  counted-Fresh b now f l = rw (record_failure-counts b false now l)

  -- A breaker that is fresh or has just heard a good reply waits, after as many failures in a row as
  -- the threshold and k more, for the cooldown doubled k times, or the longest wait if that is less.
  pub fails-Tripping-Fresh :
      (ts : List Time) (k : ℕ) (b : Breaker)
      → Fresh c m b
      → b.consecutive + length ts ≡ b.threshold + k
      → Tripping c m k (fails ts b)
  unfolding fails
  fails-Tripping-Fresh [] k b f e = absurd (omega arith)
  fails-Tripping-Fresh (now ∷ ts) k b f e = elim (dec_lt (b.consecutive + 1) b.threshold) [
    | yes below ↦ rw (counted-Fresh b now f below) (
        fails-Tripping-Fresh ts k (record b { consecutive = b.consecutive + 1 })
          (record {
            cooldown_is = f.cooldown_is;
            max_wait_is = f.max_wait_is;
            closed = f.closed;
            below = below;
          })
          (omega arith))
    | no reached ↦
        let all : Tripping c m (0 + length ts) (fails ts (fail b now).0) =
          fails-Tripping 0 ts (first_trip-Tripping b now f (omega (arith, f.below))) in
        let e' : 0 + length ts ≡ k = omega (arith, f.below) in
        subst (λ (n : ℕ). Tripping c m n (fails ts (fail b now).0)) e' all
  ]
