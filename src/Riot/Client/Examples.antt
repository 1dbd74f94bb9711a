-- ===== src/Riot/Client/Examples.antt =====
-- internal/riot/client.go: calls of a client, and the theorems about them there.
use league_of_legends.Prelude.{
  ℕ, ◌+◌, ◌≤◌, ◌<◌, ◌≡◌, refl, true, false, [], ◌∷◌, none, some, pos, ◌+ℤ◌, ◌-ℤ◌, ◌*ℤ◌, ◌≤ℤ◌, Time,
  Duration, seconds, milliseconds, zero_time, int64, leb, if_cases, Never, arith, ◌==◌,
  if◌then◌else◌,
}
use league_of_legends.Riot.Breaker.{new_breaker, allow, allow_turn, state, fail, record_failure}
use league_of_legends.Riot.Limiter.{
  RateLimitHeaders, reserve, wait_of, longest_wait, blocked, observe, penalize,
}
use league_of_legends.Riot.Client.{
  Options, ClientOptions, with_defaults, Client, new_client, Response, Reply, responds, Round, ok,
}
use league_of_legends.Riot.Client.Perform.{
  perform, loop, try_once, after_breaker, send, limiter_wait, request, answer, answer_429, pay_429,
  retry_later, read_body, doubled, backoff, rate_limited_wait,
}
use league_of_legends.Riot.Client.Answer.{Answered, IsReset, perform-ok}
use league_of_legends.Riot.Client.Budget.{perform-bounds}
use league_of_legends.Riot.Client.Retry.{Passes, Retries, Delivers, server_error}
use league_of_legends.Riot.Client.Persist.{perform-persists}
use league_of_legends.Riot.Client.Release.{Suspends}

abbrev pub start : Time
start = seconds 1000

abbrev given : Options
given = record {
  timeout = pos 0;
  retry_wait_budget = pos 0;
  max_attempts = pos 3;
  max_body_bytes = pos 0;
  backoff_base = pos 0;
  backoff_max = pos 0;
  breaker_threshold = pos 0;
  breaker_cooldown = pos 0;
  breaker_max_wait = pos 0;
}

abbrev pub options : ClientOptions
options = record {
  timeout = seconds 10;
  retry_wait_budget = seconds 60;
  max_attempts = 3;
  max_body_bytes = 67_108_864;
  backoff_base = milliseconds 500;
  backoff_max = seconds 30;
}

abbrev pub client : Client
client = record {
  breaker = record {
    threshold = 5;
    cooldown = seconds 30;
    max_wait = seconds 120;
    consecutive = 0;
    open_until = zero_time;
    backoff = pos 0;
    trips = 0;
  };
  limiter = record {
    ceiling = [];
    max_retry_after = seconds 300;
    app = [];
    method = [];
    blocked_until = zero_time;
    advertised = false;
  };
}

made : new_client given client.limiter ≡ (options, client)
unfolding new_client with_defaults new_breaker
made = refl

abbrev headers : RateLimitHeaders
headers = record {
  has_application = false;
  has_method = false;
  app_limit = [];
  app_count = [];
  method_limit = [];
  method_count = [];
}

abbrev pub answered : ℕ → Duration → Response
answered status retry_after = record {
  status = status;
  headers = headers;
  retry_after = retry_after;
  content = some (123 ∷ 125 ∷ []);
  closes = true;
}

abbrev round_of : Reply → Round
round_of reply = record {
  pauses = record { now = start; ctx_err = none; sleep_err = none } ∷ [];
  key = some "RGAPI";
  wait_at = start;
  wait_ctx = none;
  wait_sleep = none;
  reply = reply;
  now = start;
  cause = none;
  parent = none;
  sleep = none;
  random = 7;
}

-- A server error, then a 429 of twenty seconds, then the body.
abbrev rounds : ℕ → Round
rounds n =
    if n == 1
    then round_of (responds (answered 503 (pos 0)))
    else if n == 2
    then round_of (responds (answered 429 (seconds 20)))
    else round_of (responds (answered 200 (pos 0)))

pays_and_returns :
    (perform options rounds false client).result ≡ ok (123 ∷ 125 ∷ [])
    × (perform options rounds false client).paid ≡ seconds 20
    × (perform options rounds false client).sent ≡ 3
unfolding perform loop try_once after_breaker allow allow_turn state send limiter_wait reserve
    wait_of longest_wait blocked request observe read_body answer retry_later backoff doubled int64
    ◌*ℤ◌ answer_429 rate_limited_wait pay_429 fail record_failure penalize ◌-ℤ◌ ◌+ℤ◌
pays_and_returns = (refl, refl, refl)

perform-ok_example :
    (n : ℕ) × (1 ≤ n)
    × (n ≤ 3)
    × ((perform options rounds false client).sent ≡ n)
    × Answered options (rounds n) (123 ∷ 125 ∷ [])
    × IsReset (perform options rounds false client).client
perform-ok_example = perform-ok options rounds false client (123 ∷ 125 ∷ []) pays_and_returns.0

perform-bounds_example :
    ((perform (with_defaults given) rounds false client).sent ≤ (with_defaults given).max_attempts)
    × (pos 0 ≤ℤ (perform (with_defaults given) rounds false client).paid)
    × ((perform (with_defaults given) rounds false client).paid
        ≤ℤ (with_defaults given).retry_wait_budget)
perform-bounds_example = perform-bounds given rounds false client

passes : (reply : Reply) → Passes client.breaker (round_of reply)
passes reply = record {
  pause = record { now = start; ctx_err = none; sleep_err = none };
  pauses_left = [];
  pauses = refl;
  closed = omega arith;
  alive = refl;
  key = "RGAPI";
  has_key = refl;
  wait_alive = refl;
  wait_slept = refl;
}

-- Two server errors, then the body.
abbrev failing : ℕ → Round
failing n =
    if leb 3 n
    then round_of (responds (answered 200 (pos 0)))
    else round_of (responds (answered 502 (pos 0)))

server_fails : Retries options client.breaker (round_of (responds (answered 502 (pos 0))))
server_fails = record {
  passes = passes (responds (answered 502 (pos 0)));
  failure = server_error (omega arith);
  alive = refl;
  slept = refl;
}

failing-Retries : (n : ℕ) → 1 ≤ n → n < 1 + 2 → Retries options client.breaker (failing n)
failing-Retries n low high =
    if_cases (Retries options client.breaker) (leb 3 n)
      (λ t. let never : Never {0} = ground (arith, t, high) in elim never [ ]) (λ f. server_fails)

delivers : Delivers options client.breaker (failing (1 + 2)) (123 ∷ 125 ∷ [])
delivers = record {
  passes = passes (responds (answered 200 (pos 0)));
  response = answered 200 (pos 0);
  reply = refl;
  accepted = record {
    status_low = omega arith;
    status_high = omega arith;
    read = refl;
    fits = omega arith;
    closed = refl;
  };
}

perform-persists_example :
    ((perform options failing false client).result ≡ ok (123 ∷ 125 ∷ []))
    × ((perform options failing false client).sent ≡ 3)
perform-persists_example =
    perform-persists options failing false client 2 (123 ∷ 125 ∷ []) (omega arith) failing-Retries
      delivers

-- Every answer is a 429 of two minutes.
abbrev pub throttled : ℕ → Round
throttled n = round_of (responds (answered 429 (seconds 120)))

read_small : read_body options.max_body_bytes (some (123 ∷ 125 ∷ [])) ≡ some (123 ∷ 125 ∷ [])
unfolding read_body
read_small = refl

pub throttled-Suspends : Suspends options client (throttled 1) (answered 429 (seconds 120))
throttled-Suspends = record {
  passes = passes (responds (answered 429 (seconds 120)));
  reply = refl;
  status = refl;
  body = 123 ∷ 125 ∷ [];
  read = read_small;
  closed = refl;
  budget_nonneg = omega arith;
  over_budget = omega arith;
}
