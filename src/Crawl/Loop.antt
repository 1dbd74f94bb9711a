-- ===== src/Crawl/Loop.antt =====
-- internal/crawl/worker.go: `Worker.Run`, and internal/riot/expiry.go: the deadline of the key.
mod Examples
pub mod Stop
use league_of_legends.Prelude.{
  ℕ, ◌+◌, Bool, true, false, not, ◌&&◌, ◌||◌, List, [], ◌∷◌, Option, none, some, if◌then◌else◌, ℤ,
  pos, ltb_ℤ, leb_ℤ, ◌+ℤ◌, ◌-ℤ◌, Time, Duration, is_zero, seconds, String,
}
use league_of_legends.Store.Row.{QueueKind}
use league_of_legends.Store.Close.{reset_stuck_claims}
use league_of_legends.Raw.Writer.{Writer, flush}
use league_of_legends.Crawl.Failure.{Policy, failure_backoff, half, int63n}
use league_of_legends.Crawl.Worker.{World}
use league_of_legends.Crawl.Walk.{Site, StepEnv, step}

-- `KeyExpiry`: the declared deadline; the zero time declares none.
abbrev pub KeyExpiry : Type 0
KeyExpiry = Time

unfoldable pub remaining_key : KeyExpiry → Time → Option Duration
remaining_key at now = if is_zero at then none else some (at -ℤ now)

-- `Check`: whether it returns the error.
unfoldable pub key_expired : KeyExpiry → Time → Bool
key_expired at now = not (is_zero at || ltb_ℤ now at)

-- The parts of `WorkerOptions` and `Deps` that the loop reads.
pub record LoopOptions : Type 0 where
  pub policy : Policy
  pub kind : QueueKind
  pub poll_interval : Duration
  pub claim_grace : Duration
  pub key_expiry : KeyExpiry

abbrev pub max_rate_limit_pause : Duration
max_rate_limit_pause = seconds 60

abbrev pub claim_recovery_limit : ℤ
claim_recovery_limit = pos 1000

-- What one round of the loop sees: the context before it and after a step that failed, the clock, the
-- pacer, whether a key can be had (or none is needed), whether the sleep of the round is served, and,
-- for a stop, whether the flush finds its own context done and which directories it can finalise.
pub record LoopRound : Type 0 where
  pub stopped : Bool
  pub stopped_after : Bool
  pub now : Time
  pub has_key : Bool
  pub blocked : Option (Duration × Bool)
  pub sleeps : Bool
  pub random : ℕ
  pub step_env : StepEnv
  pub flush_done : Bool
  pub finalizes : String → Bool

-- `expired` is the error of the key's deadline, alone or joined with that of the flush.
pub data RunEnd : Type 0 where
  stopped_clean flush_failed : RunEnd
  expired : Bool → RunEnd

-- The worker between two rounds: the site, the failures in a row, and the sleeps that it asked for,
-- the latest first. (How long it paused is state of its log only.)
pub record Running : Type 0 where
  pub site : Site
  pub failures : ℕ
  pub sleeps : List Duration

-- `shutdown`, with whether the flush succeeded.
unfoldable pub shutdown : LoopRound → Running → Running × Bool
shutdown r w =
    let (writer', ok) = flush r.flush_done r.finalizes w.site.world.writer in
    (record w { site = record w.site { world = record w.site.world { writer = writer' } } }, ok)

-- `pause`: how long, if at all.
unfoldable pub pause : LoopRound → Option Duration
pause r = elim r.blocked [
  | none ↦ none
  | some (wait, blocked) ↦
      if blocked && ltb_ℤ (pos 0) wait
      then some (if ltb_ℤ max_rate_limit_pause wait then max_rate_limit_pause else wait)
      else none
]

-- `idleWait`.
unfoldable pub idle_wait : LoopOptions → ℕ → Duration
idle_wait o random = half o.poll_interval +ℤ int63n random (half o.poll_interval +ℤ pos 1)

-- A round either goes on to the next one or ends the run.
pub data Turned : Type 0 where
  goes_on : Running → Turned
  ends : Running → RunEnd → Turned

abbrev pub stop : LoopRound → Running → Turned
stop r w = let (w', ok) = shutdown r w in ends w' (if ok then stopped_clean else flush_failed)

-- A sleep that is cut short stops the run.
unfoldable pub sleep_then : LoopRound → Duration → Running → Turned
sleep_then r d w =
    let w' : Running = record w { sleeps = d ∷ w.sleeps } in
    if r.sleeps then goes_on w' else stop r w'

-- What follows a `Step`.
unfoldable pub after_step : LoopOptions → LoopRound → Running → Site × Bool × Bool → Turned
after_step o r w (site, worked, err) =
    let failed : Running = record w { site = site; failures = w.failures + 1 } in
    let went : Running = record w { site = site; failures = 0 } in
    if err
    then (if r.stopped_after
        then stop r (record w { site = site })
        else sleep_then r (failure_backoff o.policy failed.failures) failed)
    else if worked
    then goes_on went
    else sleep_then r (idle_wait o r.random) went

-- One round of the loop of `Run`.
unfoldable pub turn : LoopOptions → LoopRound → Running → Turned
turn o r w =
    if r.stopped
    then stop r w
    else if key_expired o.key_expiry r.now
    then (let (w', ok) = shutdown r w in ends w' (expired ok))
    else if r.has_key
    then elim (pause r) [
      | some wait ↦ sleep_then r wait w
      | none ↦ after_step o r w (step o.policy o.kind r.step_env w.site)
    ]
    else sleep_then r o.poll_interval w

-- The loop, over the rounds that are looked at; `none` is a run that goes on after them.
unfoldable pub run_loop : LoopOptions → List LoopRound → Running → Running × Option RunEnd
run_loop o [] w = (w, none)
run_loop o (r ∷ rs) w = elim (turn o r w) [
  | goes_on w' ↦ run_loop o rs w'
  | ends w' e ↦ (w', some e)
]

-- What `recoverClaims` sees: whether the run is stopping, whether the store can reset claims, whether
-- its statement succeeds, and the clocks of the worker and of the store.
pub record RecoverEnv : Type 0 where
  pub stopped : Bool
  pub can_reset : Bool
  pub reset_ok : Bool
  pub now : Time
  pub store_now : Time

-- `recoverClaims`. An error is logged only.
unfoldable pub recover_claims : LoopOptions → RecoverEnv → Site → Site
recover_claims o e s =
    let (q, reclaimed) =
      reset_stuck_claims (e.now -ℤ o.claim_grace) claim_recovery_limit e.store_now s.world.queue in
    if not e.stopped && (e.can_reset && e.reset_ok)
    then record s { world = record s.world { queue = q } }
    else s

-- `Run`.
unfoldable pub run : LoopOptions → RecoverEnv → List LoopRound → Site → Running × Option RunEnd
run o e rounds s =
    run_loop o rounds (record { site = recover_claims o e s; failures = 0; sleeps = [] })
