-- ===== src/Crawl/Failure/Suspended.antt =====
-- internal/crawl/worker.go with internal/riot/client.go: what the worker makes of an error of the
-- client, and how long the row of a suspended call waits.
use league_of_legends.Prelude.{
  ℕ, ◌≤◌, ◌<◌, ◌≡◌, ap, ◌∙◌, sym, subst, Bool, true, false, none, some, String, ℤ, pos, negsuc,
  min_ℤ, ◌+ℤ◌, ◌≤ℤ◌, ◌<ℤ◌, +ℤ_parts, Duration, arith,
}
use league_of_legends.Store.Row.{QueueItem, Queue}
use league_of_legends.Store.Close.{retry_job}
use league_of_legends.Riot.Client.{
  ClientOptions, Client, Response, client_blocked, Round, ClientError, breaker_open, breaker_wait,
  parent_ended, call_deadline, rate_limited, bad_status, slept, err,
}
use league_of_legends.Riot.Client.Perform.{perform}
use league_of_legends.Riot.Client.Release.{Suspends, perform-releases}
use league_of_legends.Crawl.Failure.{
  FetchError, Policy, HandlerEnv, handle_fetch_failure, handle_class, retry_or_bury, requeue_after,
  retry_delay, rate_limit_delay, classify, int63n,
}

-- What `errors.Is` and `errors.As` see in an error of the client, with its text.
unfoldable pub fetch_error : String → ClientError → FetchError
fetch_error text e = record {
  circuit_open = elim e [ breaker_open ↦ true | _ ↦ false ];
  rate_limited = elim e [ rate_limited attempts wait suspended ↦ true | _ ↦ false ];
  context = elim e [
    | breaker_wait c ↦ true
    | parent_ended c ↦ true
    | call_deadline c ↦ true
    | slept c ↦ true
    | _ ↦ false
  ];
  status = elim e [ bad_status s ↦ some s | _ ↦ none ];
  cause = text;
}

int63n_nonneg : (random : ℕ) (bound : ℤ) → pos 0 ≤ℤ int63n random bound
int63n_nonneg random (pos n) = omega arith
int63n_nonneg random (negsuc n) = omega arith

-- A row that waits for a client that is shut waits for as long as it is.
rate_limit_delay-blocked :
    (e : HandlerEnv) (base wait : Duration)
    → e.blocked ≡ some (wait, true)
    → pos 0 <ℤ wait
    → wait ≤ℤ rate_limit_delay e base
unfolding rate_limit_delay
rate_limit_delay-blocked e base wait b h =
    ground (arith, b, h, int63n_nonneg e.random' base, +ℤ_parts wait (int63n e.random' base))

client_blocked-true :
    (c : Client) (now wait : Duration)
    → pos 0 <ℤ wait
    → wait ≤ℤ (client_blocked c now).0
    → (client_blocked c now).1 ≡ true
unfolding client_blocked
client_blocked-true c now wait h l = ground (arith, h, l)

-- Where the run goes on and the row has attempts left, a rate-limited row is retried.
limited-retried :
    (o : Policy) (e : HandlerEnv) (item : QueueItem) (text : String) (attempts : ℕ)
    (wait : Duration) (suspended : Bool) (q : Queue)
    → e.stopped ≡ false
    → e.store_ok ≡ true
    → item.attempts < o.max_attempts
    → handle_fetch_failure o e item (fetch_error text (rate_limited attempts wait suspended)) q ≡ (
      retry_job item.id (e.now +ℤ rate_limit_delay e (retry_delay o e.random item.attempts)) text q,
      false,
    )
unfolding handle_fetch_failure handle_class retry_or_bury requeue_after classify fetch_error
limited-retried o e item text attempts wait suspended q stopped stored left =
    ground (arith, stopped, stored, left)

suspension_pos :
    (budget retry_after max_retry_after : Duration)
    → pos 0 ≤ℤ budget
    → budget <ℤ retry_after
    → pos 0 <ℤ max_retry_after
    → pos 0 <ℤ min_ℤ retry_after max_retry_after
suspension_pos budget retry_after max_retry_after b h m = ground (arith, b, h, m)

blocked-rate_limit_delay :
    (c : Client) (e : HandlerEnv) (base wait : Duration)
    → e.blocked ≡ some (client_blocked c e.now)
    → pos 0 <ℤ wait
    → wait ≤ℤ (client_blocked c e.now).0
    → wait ≤ℤ rate_limit_delay e base
blocked-rate_limit_delay c e base wait b h l =
    let is : e.blocked ≡ some ((client_blocked c e.now).0, true) =
      b ∙ ap (λ t. some ((client_blocked c e.now).0, t)) (client_blocked-true c e.now wait h l) in
    let reached =
      rate_limit_delay-blocked e base (client_blocked c e.now).0 is (omega (arith, h, l)) in
    omega (arith, l, reached)

-- A row whose call gets, at its first attempt, a 429 that asks for more than the whole retry wait
-- budget is put back, neither retired nor read as a shutdown, to wait for at least Riot's Retry-After, up to
-- the longest that the limiter honours; if the run goes on, the row has attempts left, the store
-- answers, and the client is asked at the instant of the 429 how long it is blocked.
pub suspended-waits :
    (o : ClientOptions) (rounds : ℕ → Round) (ctx_done : Bool) (c : Client) (response : Response)
    (h : Suspends o c (rounds 1) response) (p : Policy) (e : HandlerEnv) (item : QueueItem)
    (text : String) (q : Queue)
    → 1 ≤ o.max_attempts
    → pos 0 <ℤ c.limiter.max_retry_after
    → e.stopped ≡ false
    → e.store_ok ≡ true
    → item.attempts < p.max_attempts
    → e.now ≡ (rounds 1).now
    → e.blocked ≡ some (client_blocked (perform o rounds ctx_done c).client e.now)
    → (x : ClientError) × (delay : Duration) × ((perform o rounds ctx_done c).result ≡ err x)
      × (min_ℤ response.retry_after c.limiter.max_retry_after ≤ℤ delay)
      × (handle_fetch_failure p e item (fetch_error text x) q
          ≡ (retry_job item.id (e.now +ℤ delay) text q, false))
suspended-waits o rounds ctx_done c response h p e item text q one m stopped stored left at b =
    let (sent, paid, result, shut) = perform-releases o rounds ctx_done c response h one in
    let wait = min_ℤ response.retry_after c.limiter.max_retry_after in
    (
      rate_limited 1 response.retry_after true,
      rate_limit_delay e (retry_delay p e.random item.attempts),
      result,
      blocked-rate_limit_delay (perform o rounds ctx_done c).client e
          (retry_delay p e.random item.attempts) wait b
          (suspension_pos o.retry_wait_budget response.retry_after c.limiter.max_retry_after
            h.budget_nonneg h.over_budget m)
          (subst (λ t. wait ≤ℤ (client_blocked (perform o rounds ctx_done c).client t).0) (sym at)
            shut),
      limited-retried p e item text 1 response.retry_after true q stopped stored left,
    )
