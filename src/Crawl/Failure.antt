-- ===== src/Crawl/Failure.antt =====
-- internal/crawl/worker.go: how long a failed row waits, and what becomes of it.
pub mod Refund
pub mod Delay
pub mod Suspended
pub mod Burial
use league_of_legends.Prelude.{
  ℕ, zero, suc, pred, ◌-◌, ◌/◌, ◌%◌, ◌==◌, Bool, true, false, ◌&&◌, ◌||◌, Option, none, some,
  if◌then◌else◌, leb, ltb, ℤ, pos, negsuc, ◌+ℤ◌, ◌*ℤ◌, ltb_ℤ, leb_ℤ, Time, Duration, int64, String,
}
use league_of_legends.Store.Row.{QueueItem, Queue}
use league_of_legends.Store.Close.{retry_job, dead_letter_job, release_job}

-- What `errors.Is` and `errors.As` tell of a client's error: whether it wraps ErrCircuitOpen, a
-- RateLimitedError, or the error of a context, the status of a StatusError, and its short cause.
pub record FetchError : Type 0 where
  pub circuit_open : Bool
  pub rate_limited : Bool
  pub context : Bool
  pub status : Option ℕ
  pub cause : String

pub data FailureClass : Type 0 where
  transient limited key_refused gone bad_request cancelled : FailureClass

unfoldable pub classify_status : ℕ → FailureClass
classify_status s =
    if s == 404 || s == 410
    then gone
    else if s == 400 || s == 422
    then bad_request
    else if s == 401 || s == 403
    then key_refused
    else if s == 429
    then limited
    else transient

unfoldable pub classify : FetchError → FailureClass
classify e =
    if e.rate_limited
    then limited
    else if e.context
    then cancelled
    else elim e.status [ none ↦ transient | some s ↦ classify_status s ]

-- The parts of `WorkerOptions` that the failure policy reads.
pub record Policy : Type 0 where
  pub max_attempts : ℕ
  pub retry_base : Duration
  pub retry_max : Duration

-- The loop of `retryDelay` and `failureBackoff`, with the rounds `attempts - 1` that are left.
unfoldable pub grow : ℕ → Duration → Duration → Duration
grow zero delay retry_max = delay
grow (suc n) delay retry_max =
    let next = grow n (int64 (delay *ℤ pos 2)) retry_max in
    if ltb_ℤ delay retry_max then next else delay

-- `failureBackoff`.
unfoldable pub failure_backoff : Policy → ℕ → Duration
failure_backoff o consecutive =
    let delay = grow (pred consecutive) o.retry_base o.retry_max in
    if ltb_ℤ o.retry_max delay then o.retry_max else delay

-- `rng.Int63n`: what the generator gives for a positive bound. (It panics at another one.)
abbrev pub int63n : ℕ → ℤ → ℤ
int63n random (pos n) = pos (random % n)
int63n random (negsuc n) = pos 0

-- Go's division of an int64 by 2 cuts towards zero.
abbrev pub half : ℤ → ℤ
half (pos n) = pos (n / 2)
half (negsuc n) = if ltb n 1 then pos 0 else negsuc (suc n / 2 - 1)

-- `retryDelay`.
unfoldable pub retry_delay : Policy → ℕ → ℕ → Duration
retry_delay o random attempts =
    let d = failure_backoff o attempts in half d +ℤ int63n random (half d +ℤ pos 1)

-- What the handlers see: the clock, the context of the run, the random numbers, the pacer (`none` if
-- there is none), whether the store can refund an attempt, and whether its call succeeds.
pub record HandlerEnv : Type 0 where
  pub now : Time
  pub stopped : Bool
  pub random : ℕ
  pub random' : ℕ
  pub blocked : Option (Duration × Bool)
  pub can_release : Bool
  pub store_ok : Bool

-- `rateLimitDelay`.
unfoldable pub rate_limit_delay : HandlerEnv → Duration → Duration
rate_limit_delay e base = elim e.blocked [
  | none ↦ base
  | some (wait, blocked) ↦
      if blocked && ltb_ℤ (pos 0) wait
      then (if leb_ℤ base (pos 0) then wait else wait +ℤ int63n e.random' base)
      else base
]

-- One statement of the store: applied, or failed with an error. The Boolean is the error.
abbrev pub call : Bool → Queue → Queue → Queue × Bool
call ok after before = if ok then (after, false) else (before, true)

-- `retryDetached`: an error of the store is logged only.
unfoldable pub retry_detached : HandlerEnv → QueueItem → String → Queue → Queue × Bool
retry_detached e item cause q = (if e.store_ok then retry_job item.id e.now cause q else q, false)

-- `requeueAfter`.
unfoldable pub requeue_after : HandlerEnv → QueueItem → String → Duration → Queue → Queue × Bool
requeue_after e item cause delay q =
    if e.stopped
    then retry_detached e item cause q
    else call e.store_ok (retry_job item.id (e.now +ℤ delay) cause q) q

-- `requeue`.
unfoldable pub requeue : Policy → HandlerEnv → QueueItem → String → Queue → Queue × Bool
requeue o e item cause q = requeue_after e item cause (retry_delay o e.random item.attempts) q

-- `release`.
unfoldable pub release : Policy → HandlerEnv → QueueItem → String → Queue → Queue × Bool
release o e item cause q =
    let not_before = e.now +ℤ retry_delay o e.random item.attempts in
    if e.can_release
    then call e.store_ok (release_job item.id not_before cause q) q
    else requeue o e item cause q

-- `Store.DeadLetterJob`.
unfoldable pub dead_letter : HandlerEnv → QueueItem → String → Queue → Queue × Bool
dead_letter e item cause q = call e.store_ok (dead_letter_job item.id e.now cause q) q

-- The part of `handleFetchFailure` that a class of its own does not decide.
unfoldable pub retry_or_bury : Policy → HandlerEnv → QueueItem → String → Queue → Queue × Bool
retry_or_bury o e item cause q =
    if e.stopped
    then retry_detached e item cause q
    else if leb o.max_attempts item.attempts
    then dead_letter e item cause q
    else requeue_after e item cause (rate_limit_delay e (retry_delay o e.random item.attempts)) q

-- The `switch` of `handleFetchFailure`.
unfoldable pub handle_class :
    FailureClass → Policy → HandlerEnv → QueueItem → String → Queue → Queue × Bool
handle_class gone o e item cause q = dead_letter e item cause q
handle_class bad_request o e item cause q = dead_letter e item cause q
handle_class key_refused o e item cause q = release o e item cause q
handle_class _ o e item cause q = retry_or_bury o e item cause q

-- `handleFetchFailure`.
unfoldable pub handle_fetch_failure :
    Policy → HandlerEnv → QueueItem → FetchError → Queue → Queue × Bool
handle_fetch_failure o e item err q =
    if err.circuit_open
    then release o e item err.cause q
    else handle_class (classify err) o e item err.cause q

-- `handleArchiveFailure`.
unfoldable pub handle_archive_failure :
    Policy → HandlerEnv → QueueItem → String → Queue → Queue × Bool
handle_archive_failure o e item cause q =
    if leb o.max_attempts item.attempts
    then dead_letter e item cause q
    else requeue o e item cause q
