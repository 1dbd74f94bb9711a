-- ===== src/Riot/Client/Budget.antt =====
-- internal/riot/client.go: how often a call sends, and how long it waits on Riot's word.
use league_of_legends.Prelude.{
  ℕ, zero, suc, ◌≤◌, ◌+◌, Bool, ◌==◌, pos, ◌+ℤ◌, ◌-ℤ◌, ◌≤ℤ◌, +ℤ_parts, -ℤ_parts, Duration, arith,
  seconds,
}
use league_of_legends.Riot.Breaker.{default_duration}
use league_of_legends.Riot.Client.{
  ClientOptions, Options, with_defaults, Client, Round, ClientError, Step, ended, again, Call,
  no_attempt,
}
use league_of_legends.Riot.Client.Perform.{try_once, loop, perform}
use league_of_legends.Riot.Client.Cases.{try_once-P, step_both}

abbrev InBudget : ClientOptions → Duration → Type 0
InBudget o paid = (pos 0 ≤ℤ paid) × (paid ≤ℤ o.retry_wait_budget)

abbrev BudgetStep : ClientOptions → Step → Type 0
BudgetStep o (ended c did result) = Unit
BudgetStep o (again c paid e) = InBudget o paid

pays-InBudget :
    (o : ClientOptions) (paid wait : Duration)
    → InBudget o paid
    → pos 0 ≤ℤ wait
    → wait ≤ℤ o.retry_wait_budget -ℤ paid
    → InBudget o (paid +ℤ wait)
pays-InBudget o paid wait h l w =
    omega (arith, +ℤ_parts paid wait, -ℤ_parts o.retry_wait_budget paid)

try_once-BudgetStep :
    (o : ClientOptions) (r : Round) (attempt : ℕ) (last : Bool) (paid : Duration) (c : Client)
    → InBudget o paid
    → BudgetStep o (try_once o r attempt last c paid)
try_once-BudgetStep o r attempt last paid c h =
    try_once-P o r attempt last paid (BudgetStep o) (λ c' did e. tt) (λ c'. tt)
      (λ c' response body e a. tt) (λ c' e. h) (λ c' wait e l w. pays-InBudget o paid wait h l w) c

abbrev BudgetCall : ClientOptions → ℕ → Call → Type 0
BudgetCall o most call = (call.sent ≤ most) × InBudget o call.paid

loop-BudgetCall :
    (o : ClientOptions) (rounds : ℕ → Round) (ctx_done : Bool) (left from : ℕ) (c : Client)
    (sent : ℕ) (paid : Duration) (e : ClientError)
    → InBudget o paid
    → BudgetCall o (sent + left) (loop o rounds ctx_done left from c sent paid e)
unfolding loop
loop-BudgetCall o rounds ctx_done zero from c sent paid e h = (omega arith, h)
loop-BudgetCall o rounds ctx_done (suc left) from c sent paid e h =
    step_both (BudgetStep o) (BudgetCall o (sent + suc left))
      (try_once o (rounds from) from (left == 0) c paid)
      (try_once-BudgetStep o (rounds from) from (left == 0) paid c h)
      (λ c' did result t. (ground arith, h))
      (λ c' paid' e' h'.
        let (most, budget) =
          loop-BudgetCall o rounds ctx_done left (suc from) c' (suc sent) paid' e' h' in
        (omega (arith, most), budget))

default_duration-nonneg :
    (v fallback : Duration) → pos 0 ≤ℤ fallback → pos 0 ≤ℤ default_duration v fallback
default_duration-nonneg v fallback h = ground arith

-- However a client is configured, and whatever its attempts see: a call sends at most as many
-- requests as it has attempts, and the waits for Riot's Retry-After that it pays, in all, are not
-- negative and stay within its retry wait budget.
pub perform-bounds :
    (given : Options) (rounds : ℕ → Round) (ctx_done : Bool) (c : Client)
    → ((perform (with_defaults given) rounds ctx_done c).sent ≤ (with_defaults given).max_attempts)
      × (pos 0 ≤ℤ (perform (with_defaults given) rounds ctx_done c).paid)
      × ((perform (with_defaults given) rounds ctx_done c).paid
          ≤ℤ (with_defaults given).retry_wait_budget)
unfolding perform with_defaults
perform-bounds given rounds ctx_done c =
    let o = with_defaults given in
    let (most, budget) =
      loop-BudgetCall o rounds ctx_done o.max_attempts 1 c 0 (pos 0) no_attempt
        (omega arith, default_duration-nonneg given.retry_wait_budget (seconds 60) (omega arith)) in
    (omega (arith, most), budget.0, budget.1)
