-- ===== src/Riot/Client/Perform.antt =====
-- internal/riot/client.go: `do` and what it calls.
use league_of_legends.Prelude.{
  ℕ, zero, suc, ◌+◌, ◌/◌, ◌%◌, ◌==◌, Bool, true, false, ◌&&◌, ◌||◌, List, Option, none, some, map,
  length, if◌then◌else◌, leb, ltb, pos, negsuc, ◌+ℤ◌, ◌-ℤ◌, ◌*ℤ◌, ltb_ℤ, leb_ℤ, Duration, int64,
  String,
}
use league_of_legends.Riot.Breaker.{
  Breaker, ContextError, Turn, Allowed, returns, circuit_open, sleeping, allow, fail, fail_auth,
  succeed, remaining,
}
use league_of_legends.Riot.Limiter.{Limiter, reserve, observe, penalize}
use league_of_legends.Riot.Client.{
  ClientOptions, Client, Response, Reply, no_response, responds, Pause, Round, ClientError,
  breaker_open, breaker_wait, no_api_key, parent_ended, call_deadline, transport, rate_limited,
  bad_status, slept, no_attempt, ok, err, pending, Step, ended, again, Call,
}

-- `Limiter.Wait`.
unfoldable pub limiter_wait : Limiter → Round → Limiter × Option ContextError
limiter_wait l r =
    let (l', wait) = reserve l r.wait_at in
    elim r.wait_ctx [
      | some e ↦ (l, some e)
      | none ↦ (l', (if leb_ℤ wait (pos 0) then none else r.wait_sleep))
    ]

-- `ownDeadline`, for the error of a context.
unfoldable pub own_deadline : Option ContextError → ContextError → ClientError
own_deadline none e = call_deadline e
own_deadline (some cause) e = parent_ended cause

-- `readBody`: a body of more than `max` bytes is an error.
unfoldable pub read_body : ℕ → Option (List ℕ) → Option (List ℕ)
read_body max none = none
read_body max (some bytes) = if ltb max (length bytes) then none else some bytes

-- The doublings of `backoff`, with the rounds that are left.
unfoldable pub doubled : ℕ → Duration → Duration → Duration
doubled zero d limit = d
doubled (suc n) d limit =
    let d' = int64 (d *ℤ pos 2) in
    let rest = doubled n d' limit in if leb_ℤ limit d' then limit else rest

-- Half of a duration and up to as much again. Go's factor is a float64 of [0, 1), whose product is
-- rounded, so that the whole may be reached.
abbrev pub jittered : ℕ → Duration → Duration
jittered random (pos d) = pos (d / 2 + random % suc (d / 2))
jittered random (negsuc d) = pos 0

abbrev pub before : ℕ → ℕ
before zero = zero
before (suc n) = n

-- `backoff`.
unfoldable pub backoff : ClientOptions → ℕ → ℕ → Duration
backoff o random attempt =
    let d = doubled (before attempt) o.backoff_base o.backoff_max in
    jittered random (if ltb_ℤ o.backoff_max d then o.backoff_max else d)

-- `sleep`.
abbrev pub sleep_for : Round → Duration → Option ContextError
sleep_for r d = if leb_ℤ d (pos 0) then none else r.sleep

-- `rateLimitedWait`.
unfoldable pub rate_limited_wait : Duration → Duration → Duration → Duration × Bool
rate_limited_wait after fallback remaining =
    let wait = if leb_ℤ after (pos 0) then fallback else after in (wait, ltb_ℤ remaining wait)

-- The retry of a transport error and of a server error: back off, unless it is the last attempt.
unfoldable pub retry_later :
    ClientOptions → Round → ℕ → Bool → Client → Duration → ClientError → Step
retry_later o r attempt last c paid e =
    if last then again c paid e else elim (sleep_for r (backoff o r.random attempt)) [
      | none ↦ again c paid e
      | some s ↦ ended c true (err (slept s))
    ]

-- What becomes of a 429 once the limiter and the breaker know: `wait` is what it asks for. `paid` is the
-- sum of the waits that were slept through: Go adds a wait before it sleeps, and reads the sum again only
-- if the sleep was not cut short.
unfoldable pub pay_429 : Round → ℕ → Bool → Client → Duration → Duration → Step
pay_429 r attempt last c paid wait =
    if last then again c paid (rate_limited attempt wait false) else elim (sleep_for r wait) [
      | none ↦ again c (paid +ℤ wait) (rate_limited attempt wait false)
      | some s ↦ ended c true (
          err (elim r.parent [
            | some cause ↦ own_deadline (some cause) s
            | none ↦ rate_limited attempt wait true
          ]))
    ]

-- The case of a 429.
unfoldable pub answer_429 : ClientOptions → Round → ℕ → Bool → Client → Duration → Duration → Step
answer_429 o r attempt last c paid retry_after =
    let (wait, suspended) =
      rate_limited_wait retry_after (backoff o r.random attempt) (o.retry_wait_budget -ℤ paid) in
    let c' : Client = record {
      breaker = (fail c.breaker r.now).0;
      limiter = penalize c.limiter wait r.now;
    } in
    if suspended
    then ended c' true (err (rate_limited attempt wait true))
    else pay_429 r attempt last c' paid wait

-- The `switch` on the status.
unfoldable pub answer :
    ClientOptions → Round → ℕ → Bool → Client → Duration → Response → List ℕ → Step
answer o r attempt last c paid response body =
    let s = response.status in
    if leb 200 s && ltb s 300
    then ended (record c { breaker = succeed c.breaker }) true (ok body)
    else if s == 429
    then answer_429 o r attempt last c paid response.retry_after
    else if leb 500 s
    then retry_later o r attempt last c paid (bad_status s)
    else ended (if s == 403 then record c { breaker = (fail_auth c.breaker r.now).0 } else c) true
        (err (bad_status s))

-- An attempt without a usable response.
unfoldable pub no_answer : ClientOptions → Round → ℕ → Bool → Client → Duration → Step
no_answer o r attempt last c paid = elim r.cause [
  | some e ↦ ended c true (err (own_deadline r.parent e))
  | none ↦ retry_later o r attempt last c paid transport
]

-- `attempt`, and what `do` makes of it: the limiter observes the headers of every response.
unfoldable pub request : ClientOptions → Round → ℕ → Bool → Client → Duration → Reply → Step
request o r attempt last c paid no_response = no_answer o r attempt last c paid
request o r attempt last c paid (responds response) =
    let c' : Client = record c { limiter = observe c.limiter response.headers r.now } in
    elim (read_body o.max_body_bytes response.content) [
      | none ↦ no_answer o r attempt last c' paid
      | some body ↦
          if response.closes
          then answer o r attempt last c' paid response body
          else no_answer o r attempt last c' paid
    ]

-- The loop's body once the breaker has let the attempt through.
unfoldable pub send : ClientOptions → Round → ℕ → Bool → Client → Duration → Option String → Step
send o r attempt last c paid none = ended c false (err no_api_key)
send o r attempt last c paid (some key) =
    let (limiter', wait_err) = limiter_wait c.limiter r in
    let c' : Client = record c { limiter = limiter' } in
    elim wait_err [
      | some e ↦ ended c' false (err (own_deadline r.parent e))
      | none ↦ request o r attempt last c' paid r.reply
    ]

abbrev pub turn_of : Breaker → Pause → Turn
turn_of b p = record { breaker = b; now = p.now; ctx_err = p.ctx_err; sleep_err = p.sleep_err }

-- What the breaker's answer leads to.
unfoldable pub after_breaker : ClientOptions → Round → ℕ → Bool → Client → Duration → Allowed → Step
after_breaker o r attempt last c paid sleeping = ended c false pending
after_breaker o r attempt last c paid circuit_open = ended c false (err breaker_open)
after_breaker o r attempt last c paid (returns (some e)) = ended c false (err (breaker_wait e))
after_breaker o r attempt last c paid (returns none) = send o r attempt last c paid r.key

-- The body of the loop.
unfoldable pub try_once : ClientOptions → Round → ℕ → Bool → Client → Duration → Step
try_once o r attempt last c paid =
    after_breaker o r attempt last c paid (allow (map (turn_of c.breaker) r.pauses))

-- After the loop: a 429 whose call has ended meanwhile counts as suspended.
unfoldable pub last_error : Bool → ClientError → ClientError
last_error ctx_done (rate_limited attempts wait suspended) =
    rate_limited attempts wait (suspended || ctx_done)
last_error ctx_done e = e

-- The loop, with the attempts that are left. `rounds n` is what attempt `n` sees.
unfoldable pub loop :
    ClientOptions → (ℕ → Round) → Bool → ℕ → ℕ → Client → ℕ → Duration → ClientError → Call
loop o rounds ctx_done zero attempt c sent paid e = record {
  client = c;
  sent = sent;
  paid = paid;
  result = err (last_error ctx_done e);
}
loop o rounds ctx_done (suc left) attempt c sent paid e =
    elim (try_once o (rounds attempt) attempt (left == 0) c paid) [
      | ended c' did result ↦ record {
        client = c';
        sent = (if did then suc sent else sent);
        paid = paid;
        result = result;
      }
      | again c' paid' e' ↦ loop o rounds ctx_done left (suc attempt) c' (suc sent) paid' e'
    ]

-- `do`. `ctx_done` is whether the call's context is done after the loop.
unfoldable pub perform : ClientOptions → (ℕ → Round) → Bool → Client → Call
perform o rounds ctx_done c = loop o rounds ctx_done o.max_attempts 1 c 0 (pos 0) no_attempt
