-- ===== src/Riot/Breaker/Examples.antt =====
-- internal/riot/breaker.go: runs of the breaker, and the theorems about it at concrete breakers.
use league_of_legends.Prelude.{
  ◌≡◌, refl, true, [], ◌∷◌, none, arith, pos, ◌+ℤ◌, ◌-ℤ◌, ◌*ℤ◌, ◌≤ℤ◌, ◌<ℤ◌, seconds, Time, int64,
  ◌≢◌, ◌⊎◌, ◌↔◌,
}
use league_of_legends.Riot.Breaker.{
  Breaker, new_breaker, state, remaining, next_backoff, trip, record_failure, fail, fail_auth, Turn,
  returns, circuit_open, allow_turn, allow,
}
use league_of_legends.Riot.Breaker.Bounds.{
  Reach, start, call, failed, refused, apply, Inv, Reach-Inv, Reach-wait,
}
use league_of_legends.Riot.Breaker.Backoff.{fails, Tripping, fails-Tripping-Fresh}
use league_of_legends.Riot.Breaker.Allow.{allow_open, allow-fail_auth, allow_returns}

-- Threshold 2, cooldown 30 s, longest wait 2 min.
abbrev small : Breaker
small = new_breaker (pos 2) (seconds 30) (pos 0)

abbrev t0 : Time
t0 = seconds 1_000

backoffs :
    ((fails (t0 ∷ []) small).backoff ≡ pos 0)
    × ((fails (t0 ∷ t0 ∷ []) small).backoff ≡ seconds 30)
    × ((fails (t0 ∷ t0 ∷ t0 ∷ []) small).backoff ≡ seconds 60)
    × ((fails (t0 ∷ t0 ∷ t0 ∷ t0 ∷ t0 ∷ []) small).backoff ≡ seconds 120)
unfolding fails fail record_failure trip next_backoff new_breaker int64 ◌*ℤ◌
backoffs = (refl, refl, refl, refl)

abbrev two_failures :
    Reach (pos 2) (seconds 30) (pos 0) (apply refused (apply failed small t0) t0) t0
two_failures =
    call {last = t0} refused (call {last = t0} failed (start (omega arith)) (omega arith))
      (omega arith)

Reach-Inv_example : Inv (apply refused (apply failed small t0) t0) t0
Reach-Inv_example = Reach-Inv (omega arith) two_failures

Reach-wait_example :
    let b = apply refused (apply failed small t0) t0 in
    ((state b t0).0 ≡ remaining b t0)
    × (pos 0 ≤ℤ remaining b t0)
    × (remaining b t0 ≤ℤ b.max_wait)
    × ((state b t0).1 ≡ true ↔ (pos 0 <ℤ remaining b t0) × (b.backoff ≡ b.max_wait))
Reach-wait_example = Reach-wait t0 (omega arith) two_failures (omega arith)

fails-Tripping-Fresh_example :
    Tripping 30_000_000_000 120_000_000_000 1 (fails (t0 ∷ t0 ∷ t0 ∷ []) small)
unfolding new_breaker
fails-Tripping-Fresh_example =
    fails-Tripping-Fresh 30_000_000_000 120_000_000_000 (omega arith) (omega arith) (omega arith)
      (t0 ∷ t0 ∷ t0 ∷ []) 1 small
      (record { cooldown_is = refl; max_wait_is = refl; closed = refl; below = omega arith }) refl

abbrev once_failed : Breaker
once_failed = record small { consecutive = 1 }

abbrev refused_turn : Turn
refused_turn = record {
  breaker = (fail_auth once_failed t0).0;
  now = seconds 1_060;
  ctx_err = none;
  sleep_err = none;
}

abbrev paused_turn : Turn
paused_turn = record {
  breaker = record small { open_until = seconds 1_030; backoff = seconds 30 };
  now = t0;
  ctx_err = none;
  sleep_err = none;
}

abbrev woken_turn : Turn
woken_turn = record paused_turn { now = seconds 1_031 }

allow_open_example : allow (paused_turn ∷ []) ≢ returns none
unfolding new_breaker
allow_open_example = allow_open (paused_turn ∷ []) (omega arith, tt)

allow-fail_auth_example : allow (refused_turn ∷ []) ≡ circuit_open
unfolding new_breaker ◌+ℤ◌
allow-fail_auth_example =
    allow-fail_auth once_failed t0 refused_turn [] (omega arith) refl (omega arith)

allow_returns_example :
    (allow (paused_turn ∷ woken_turn ∷ []) ≡ circuit_open)
    ⊎ (allow (paused_turn ∷ woken_turn ∷ []) ≡ returns none)
    ⊎ (allow (paused_turn ∷ woken_turn ∷ []) ≡ returns none)
unfolding new_breaker ◌+ℤ◌ ◌-ℤ◌ state
allow_returns_example = allow_returns paused_turn woken_turn [] refl (omega arith) refl

allows_after_cooldown : allow (paused_turn ∷ woken_turn ∷ []) ≡ returns none
unfolding new_breaker ◌+ℤ◌ ◌-ℤ◌ state allow allow_turn
allows_after_cooldown = refl
