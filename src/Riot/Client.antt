-- ===== src/Riot/Client.antt =====
-- internal/riot/client.go: one call of the API, which is a run of attempts, with the breaker and the
-- limiter it shares with the calls before it. Calls are taken one after another.
pub mod Examples
pub mod Perform
pub mod Cases
pub mod Answer
pub mod Budget
pub mod Backoff
pub mod Retry
pub mod Persist
pub mod Release
use league_of_legends.Prelude.{
  ℕ, zero, suc, ◌+◌, ◌*◌, ◌/◌, ◌%◌, ◌==◌, Bool, true, false, ◌&&◌, ◌||◌, not, List, [], ◌∷◌, Option,
  none, some, map, length, if◌then◌else◌, leb, ltb, ℤ, pos, negsuc, ◌+ℤ◌, ◌-ℤ◌, ◌*ℤ◌, ltb_ℤ, leb_ℤ,
  Time, Duration, seconds, milliseconds, int64, is_zero, String,
}
use league_of_legends.Riot.Breaker.{
  Breaker, ContextError, canceled, deadline_exceeded, Turn, Allowed, returns, circuit_open,
  sleeping, allow, fail, fail_auth, succeed, remaining, new_breaker, default_int, default_duration,
}
use league_of_legends.Riot.Limiter.{Limiter, RateLimitHeaders, reserve, observe, penalize, blocked}

-- The options that a call reads, once `NewClient` has put the defaults in.
pub record ClientOptions : Type 0 where
  pub timeout : Duration
  pub retry_wait_budget : Duration
  pub max_attempts : ℕ
  pub max_body_bytes : ℕ
  pub backoff_base : Duration
  pub backoff_max : Duration

-- The options as the caller gives them.
pub record Options : Type 0 where
  pub timeout : Duration
  pub retry_wait_budget : Duration
  pub max_attempts : ℤ
  pub max_body_bytes : ℤ
  pub backoff_base : Duration
  pub backoff_max : Duration
  pub breaker_threshold : ℤ
  pub breaker_cooldown : Duration
  pub breaker_max_wait : Duration

abbrev pub default_retry_wait_budget : Duration
default_retry_wait_budget = seconds 60

-- The defaults of `NewClient`.
unfoldable pub with_defaults : Options → ClientOptions
with_defaults o = record {
  timeout = default_duration o.timeout (seconds 10);
  retry_wait_budget = default_duration o.retry_wait_budget default_retry_wait_budget;
  max_attempts = default_int o.max_attempts 5;
  max_body_bytes = default_int o.max_body_bytes (64 * 1_048_576);
  backoff_base = default_duration o.backoff_base (milliseconds 500);
  backoff_max = default_duration o.backoff_max (seconds 30);
}

-- What calls share.
pub record Client : Type 0 where
  pub breaker : Breaker
  pub limiter : Limiter

-- `NewClient`, with the limiter it is given.
unfoldable pub new_client : Options → Limiter → ClientOptions × Client
new_client o limiter = (
  with_defaults o,
  record {
    breaker = new_breaker o.breaker_threshold o.breaker_cooldown o.breaker_max_wait;
    limiter = limiter;
  },
)

-- `Blocked`.
unfoldable pub client_blocked : Client → Time → Duration × Bool
client_blocked c now =
    let wait = blocked c.limiter now in
    let wait' = if ltb_ℤ wait (remaining c.breaker now) then remaining c.breaker now else wait in
    (wait', ltb_ℤ (pos 0) wait')

-- A body is the bytes that are read, or `none` where reading or unpacking fails.
pub record Response : Type 0 where
  pub status : ℕ
  pub headers : RateLimitHeaders
  pub retry_after : Duration
  pub content : Option (List ℕ)
  pub closes : Bool

-- What the HTTP client brings back: `no_response` is an error of its own, or a request that cannot be
-- built.
pub data Reply : Type 0 where
  no_response : Reply
  responds : Response → Reply

-- One round of the wait for the breaker: the clock, the context's error, and what sleeping returns.
pub record Pause : Type 0 where
  pub now : Time
  pub ctx_err : Option ContextError
  pub sleep_err : Option ContextError

-- What one attempt sees. `wait_at`, `wait_ctx` and `wait_sleep` are the clock, the context's error
-- and the outcome of sleeping in the limiter's `Wait`; `cause` and `parent` are the causes for which
-- the attempt's context and the caller's are done; `sleep` is the outcome of the sleep that ends it.
pub record Round : Type 0 where
  pub pauses : List Pause
  pub key : Option String
  pub wait_at : Time
  pub wait_ctx : Option ContextError
  pub wait_sleep : Option ContextError
  pub reply : Reply
  pub now : Time
  pub cause : Option ContextError
  pub parent : Option ContextError
  pub sleep : Option ContextError
  pub random : ℕ

pub data ClientError : Type 0 where
  -- The breaker is open for longer than it waits, or the context ended while it waited.
  breaker_open : ClientError
  breaker_wait : ContextError → ClientError
  no_api_key : ClientError
  -- The two answers of `ownDeadline`.
  parent_ended : ContextError → ClientError
  call_deadline : ContextError → ClientError
  transport : ClientError
  -- `RateLimitedError`: the attempts, the Retry-After, and whether the call gave up waiting.
  rate_limited : ℕ → Duration → Bool → ClientError
  bad_status : ℕ → ClientError
  slept : ContextError → ClientError
  no_attempt : ClientError

-- `pending` is a call that still waits for the breaker after the pauses it was given.
pub data Result : Type 0 where
  ok : List ℕ → Result
  err : ClientError → Result
  pending : Result

-- Where one attempt leads: the call ends, or it goes on with what it has paid and its last error.
-- The Boolean of `ended` is whether the attempt sent its request.
pub data Step : Type 0 where
  ended : Client → Bool → Result → Step
  again : Client → Duration → ClientError → Step

-- A finished call: how often it sent, how long it waited on Retry-After, and its result.
pub record Call : Type 0 where
  pub client : Client
  pub sent : ℕ
  pub paid : Duration
  pub result : Result
