-- ===== src/Riot/Breaker.antt =====
-- internal/riot/breaker.go: the circuit breaker. A method takes the breaker that it locks, and the
-- instant that its clock reads, and returns the new breaker.
mod Examples
pub mod Bounds
pub mod Allow
pub mod Backoff
use league_of_legends.Prelude.{
  ℕ, zero, suc, ◌+◌, ◌*◌, Bool, true, false, List, [], ◌∷◌, Option, none, some, ltb, if◌then◌else◌,
  ℤ, pos, negsuc, ◌+ℤ◌, ◌-ℤ◌, ◌*ℤ◌, ltb_ℤ, leb_ℤ, min_ℤ, Time, Duration, zero_time, seconds, int64,
}

pub record Breaker : Type 0 where
  pub threshold : ℕ
  pub cooldown : Duration
  pub max_wait : Duration
  pub consecutive : ℕ
  pub open_until : Time
  pub backoff : Duration
  pub trips : ℕ

-- `if v <= 0 { v = fallback }`, for an int and for a duration.
abbrev pub default_int : ℤ → ℕ → ℕ
default_int (pos zero) fallback = fallback
default_int (pos (suc n)) fallback = suc n
default_int (negsuc n) fallback = fallback

abbrev pub default_duration : Duration → Duration → Duration
default_duration v fallback = if leb_ℤ v (pos 0) then fallback else v

unfoldable pub new_breaker : ℤ → Duration → Duration → Breaker
new_breaker threshold cooldown max_wait = record {
  threshold = default_int threshold 5;
  cooldown = default_duration cooldown (seconds 30);
  max_wait = default_duration max_wait (seconds 120);
  consecutive = 0;
  open_until = zero_time;
  backoff = pos 0;
  trips = 0;
}

-- How long the breaker stays closed to new work, and whether it has stopped rather than paused.
unfoldable pub state : Breaker → Time → Duration × Bool
state b now =
    if ltb_ℤ now b.open_until
    then (b.open_until -ℤ now, leb_ℤ b.max_wait b.backoff)
    else (pos 0, false)

unfoldable pub remaining : Breaker → Time → Duration
remaining b now = if ltb_ℤ now b.open_until then b.open_until -ℤ now else pos 0

-- The `switch` of `record`.
unfoldable pub next_backoff : Bool → Duration → Duration → Duration → Duration
next_backoff auth backoff cooldown max_wait =
    if auth
    then max_wait
    else if leb_ℤ backoff (pos 0)
    then min_ℤ cooldown max_wait
    else if ltb_ℤ backoff max_wait
    then min_ℤ (int64 (backoff *ℤ pos 2)) max_wait
    else backoff

-- `record` from the `switch` on.
unfoldable pub trip : Breaker → Bool → Time → Breaker
trip b auth now =
    let backoff' = next_backoff auth b.backoff b.cooldown b.max_wait in
    record b { backoff = backoff'; open_until = now +ℤ backoff'; trips = b.trips + 1 }

-- `record`. The Boolean is whether this call tripped the breaker.
unfoldable pub record_failure : Breaker → Bool → Time → Breaker × Bool
record_failure b auth now =
    let b' = record b { consecutive = b.consecutive + 1 } in
    if ltb b'.consecutive b'.threshold then (b', false) else (trip b' auth now, true)

unfoldable pub fail : Breaker → Time → Breaker × Bool
fail b now = record_failure b false now

unfoldable pub fail_auth : Breaker → Time → Breaker × Bool
fail_auth b now = record_failure b true now

unfoldable pub succeed : Breaker → Breaker
succeed b = record b { consecutive = 0; open_until = zero_time; backoff = pos 0 }

-- What a context that is done reports.
pub data ContextError : Type 0 where
  canceled deadline_exceeded : ContextError

-- What one turn of the loop of `allow` sees: the breaker and the clock as they are when the turn
-- takes the lock (other callers may have changed the breaker while this one slept), `ctx.Err()`,
-- and what the turn's `Sleep` returns.
pub record Turn : Type 0 where
  pub breaker : Breaker
  pub now : Time
  pub ctx_err : Option ContextError
  pub sleep_err : Option ContextError

-- `returns e` is a return with the context's error or, at `none`, with nil; `sleeping` is a call
-- that has not returned within the turns it was given.
pub data Allowed : Type 0 where
  returns : Option ContextError → Allowed
  circuit_open : Allowed
  sleeping : Allowed

-- Either the turn returns, or it has slept and the loop goes on.
unfoldable pub allow_turn : Turn → Option Allowed
allow_turn t =
    let (wait, stop) = state t.breaker t.now in
    if leb_ℤ wait (pos 0)
    then some (returns t.ctx_err)
    else if stop
    then some circuit_open
    else elim t.sleep_err [ none ↦ none | some e ↦ some (returns (some e)) ]

unfoldable pub allow : List Turn → Allowed
allow [] = sleeping
allow (t ∷ ts) = elim (allow_turn t) [ none ↦ allow ts | some result ↦ result ]
