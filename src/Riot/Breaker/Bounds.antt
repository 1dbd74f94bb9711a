-- ===== src/Riot/Breaker/Bounds.antt =====
-- internal/riot/breaker.go: what holds of a breaker after any calls, at instants that do not fall.
use league_of_legends.Prelude.{
  ℕ, zero, suc, seconds, ◌+◌, ◌^◌, ◌≤◌, ◌≡◌, ◌↔◌, inl, inr, Bool, Bool-cases, ltb, true, false,
  arith, ℤ, pos, negsuc, ◌+ℤ◌, ◌≤ℤ◌, ◌<ℤ◌, Time, Duration, int64, +ℤ_parts, -ℤ_parts, eq_of_parts,
  ◌*ℤ◌, pos_part,
}
use league_of_legends.Riot.Breaker.{
  default_int, default_duration, Breaker, new_breaker, state, remaining, next_backoff, trip,
  record_failure, fail, fail_auth, succeed,
}

-- A call that changes the breaker.
pub data Event : Type 0 where
  failed refused succeeded : Event

unfoldable pub apply : Event → Breaker → Time → Breaker
apply failed b now = (fail b now).0
apply refused b now = (fail_auth b now).0
apply succeeded b now = succeed b

-- The breakers that calls lead to from a new one, with the instant of the last call.
pub data Reach (threshold : ℤ) (cooldown max_wait : Duration) : Breaker → Time → Type 0 where
  start :
      {now : Time}
      → pos 0 ≤ℤ now
      → Reach threshold cooldown max_wait (new_breaker threshold cooldown max_wait) now
  call :
      {b : Breaker} {last now : Time} (e : Event)
      → Reach threshold cooldown max_wait b last
      → last ≤ℤ now
      → Reach threshold cooldown max_wait (apply e b now) now

pub record Inv (b : Breaker) (last : Time) : Type 0 where
  pub threshold_pos : 1 ≤ b.threshold
  pub cooldown_pos : pos 0 <ℤ b.cooldown
  pub max_wait_pos : pos 0 <ℤ b.max_wait
  pub max_wait_small : b.max_wait <ℤ pos (2 ^ 62)
  pub backoff_nonneg : pos 0 ≤ℤ b.backoff
  pub backoff_capped : b.backoff ≤ℤ b.max_wait
  pub last_nonneg : pos 0 ≤ℤ last
  pub open_capped : b.open_until ≤ℤ last +ℤ b.max_wait
  pub tripped : pos 0 <ℤ b.backoff → b.threshold ≤ b.consecutive

double :
    (d : Duration)
    → pos 0 ≤ℤ d
    → d <ℤ pos (2 ^ 62)
    → int64 (d *ℤ pos 2) ≡ pos (pos_part d + pos_part d)
unfolding ◌*ℤ◌ int64
double (pos n) h k = ground arith
double (negsuc n) h k = ground arith

next_backoff-bounds :
    (auth : Bool) (backoff cooldown max_wait : Duration)
    → pos 0 <ℤ cooldown
    → pos 0 <ℤ max_wait
    → max_wait <ℤ pos (2 ^ 62)
    → pos 0 ≤ℤ backoff
    → backoff ≤ℤ max_wait
    → (pos 0 <ℤ next_backoff auth backoff cooldown max_wait)
      × (next_backoff auth backoff cooldown max_wait ≤ℤ max_wait)
unfolding next_backoff
next_backoff-bounds auth backoff cooldown max_wait c m s n b = ground (arith, double backoff n)

trip-Inv :
    (auth : Bool) {b : Breaker} {now : Time}
    → Inv b now
    → b.threshold ≤ b.consecutive
    → Inv (trip b auth now) now
unfolding trip
trip-Inv auth {b} {now} v reached = ground (
  arith,
  next_backoff-bounds auth b.backoff b.cooldown b.max_wait,
  +ℤ_parts now (next_backoff auth b.backoff b.cooldown b.max_wait),
  +ℤ_parts now b.max_wait,
)

counted-Inv :
    {b : Breaker} {last now : Time}
    → Inv b last
    → last ≤ℤ now
    → Inv (record b { consecutive = b.consecutive + 1 }) now
counted-Inv {b} {last} {now} v h = omega (arith, +ℤ_parts last b.max_wait, +ℤ_parts now b.max_wait)

record_failure-Inv :
    (auth : Bool) {b : Breaker} {last now : Time}
    → Inv b last
    → last ≤ℤ now
    → Inv (record_failure b auth now).0 now
unfolding record_failure
record_failure-Inv auth {b} v h = elim (Bool-cases (ltb (b.consecutive + 1) b.threshold)) [
  | inl below ↦ rw below (counted-Inv v h)
  | inr reached ↦ rw reached (trip-Inv auth (counted-Inv v h) (ground arith))
]

apply-Inv :
    (e : Event) {b : Breaker} {last now : Time} → Inv b last → last ≤ℤ now → Inv (apply e b now) now
unfolding apply fail fail_auth succeed
apply-Inv failed v h = record_failure-Inv false v h
apply-Inv refused v h = record_failure-Inv true v h
apply-Inv succeeded {b} {now = now} v h = omega (arith, +ℤ_parts now b.max_wait)

default_int-pos : (v : ℤ) {fallback : ℕ} → 1 ≤ fallback → 1 ≤ default_int v fallback
default_int-pos (pos zero) h = h
default_int-pos (pos (suc n)) h = omega arith
default_int-pos (negsuc n) h = h

default_duration-pos :
    (v fallback : Duration) → pos 0 <ℤ fallback → pos 0 <ℤ default_duration v fallback
default_duration-pos v fallback f = ground arith

default_duration-bounds :
    (v fallback limit : Duration)
    → pos 0 <ℤ fallback
    → fallback <ℤ limit
    → v <ℤ limit
    → (pos 0 <ℤ default_duration v fallback) × (default_duration v fallback <ℤ limit)
default_duration-bounds v fallback limit f l h = ground arith

new_breaker-Inv :
    (threshold : ℤ) (cooldown max_wait : Duration) {now : Time}
    → max_wait <ℤ pos (2 ^ 62)
    → pos 0 ≤ℤ now
    → Inv (new_breaker threshold cooldown max_wait) now
unfolding new_breaker
new_breaker-Inv threshold cooldown max_wait {now} s h = omega (
  arith,
  default_int-pos threshold {fallback = 5} (omega arith),
  default_duration-pos cooldown (seconds 30) (omega arith),
  default_duration-bounds max_wait (seconds 120) (pos (2 ^ 62)) (omega arith) (omega arith) s,
  +ℤ_parts now (default_duration max_wait (seconds 120)),
)

-- However it is configured (with a longest wait under 2 ^ 62 ns), and after any calls at instants
-- that do not fall: the backoff lies between 0 and the longest wait, the breaker opens no further
-- than the longest wait ahead, and it has a backoff only once the threshold is reached.
pub Reach-Inv :
    {threshold : ℤ} {cooldown max_wait : Duration} {b : Breaker} {last : Time}
    → max_wait <ℤ pos (2 ^ 62)
    → Reach threshold cooldown max_wait b last
    → Inv b last
Reach-Inv s (start h) = new_breaker-Inv _ _ _ s h
Reach-Inv s (call e r h) = apply-Inv e (Reach-Inv s r) h

-- So no call is ever made to wait longer than the longest wait: `state` and `remaining` report the
-- same wait, it is at most the longest one, and a call is refused outright only when the backoff has
-- reached it.
pub Reach-wait :
    {threshold : ℤ} {cooldown max_wait : Duration} {b : Breaker} {last : Time} (now : Time)
    → max_wait <ℤ pos (2 ^ 62)
    → Reach threshold cooldown max_wait b last
    → last ≤ℤ now
    → ((state b now).0 ≡ remaining b now)
      × (pos 0 ≤ℤ remaining b now)
      × (remaining b now ≤ℤ b.max_wait)
      × ((state b now).1 ≡ true ↔ (pos 0 <ℤ remaining b now) × (b.backoff ≡ b.max_wait))
unfolding state remaining
Reach-wait {b = b} {last} now s r h =
    let v = Reach-Inv s r in
    ground
      (arith, -ℤ_parts b.open_until now, +ℤ_parts last b.max_wait, eq_of_parts b.backoff b.max_wait)
