-- ===== src/Riot/Client/Release.antt =====
-- internal/riot/client.go: a 429 whose Retry-After a call cannot pay.
use league_of_legends.Prelude.{
  ℕ, zero, suc, ◌≤◌, ◌≡◌, refl, ap, ◌∙◌, sym, subst, Bool, true, false, ◌==◌, leb, ltb, ◌&&◌, List,
  Option, some, Never, pos, leb_ℤ, ltb_ℤ, min_ℤ, ◌+ℤ◌, ◌-ℤ◌, ◌≤ℤ◌, ◌<ℤ◌, +ℤ_parts, -ℤ_parts, Time,
  Duration, arith, if◌then◌else◌, if_cases, option_cases, none_some, true_false,
}
use league_of_legends.Riot.Breaker.{ContextError}
use league_of_legends.Riot.Limiter.{Limiter, reserve, observe, penalize, blocked}
use league_of_legends.Riot.Client.{
  ClientOptions, Client, client_blocked, Response, responds, Round, rate_limited, err, Step, ended,
  again, Call, no_attempt,
}
use league_of_legends.Riot.Client.Perform.{
  try_once, limiter_wait, request, answer, answer_429, rate_limited_wait, read_body, loop, perform,
}
use league_of_legends.Riot.Client.Cases.{step_both}
use league_of_legends.Riot.Client.Retry.{Passes, try_once-Passes}

-- The round is answered with a 429 that can be read, and that asks to wait longer than the whole
-- budget of a call.
pub record Suspends (o : ClientOptions) (c : Client) (r : Round) (response : Response)
    : Type 0 where
  pub passes : Passes c.breaker r
  pub reply : r.reply ≡ responds response
  pub status : response.status ≡ 429
  pub body : List ℕ
  pub read : read_body o.max_body_bytes response.content ≡ some body
  pub closed : response.closes ≡ true
  pub budget_nonneg : pos 0 ≤ℤ o.retry_wait_budget
  pub over_budget : o.retry_wait_budget <ℤ response.retry_after

-- The limiter is shut at `now` for a Retry-After of `wait`, up to the longest it honours.
abbrev IsShut : Duration → Duration → Time → Limiter → Type 0
IsShut max_retry_after wait now l = min_ℤ wait max_retry_after ≤ℤ blocked l now

penalize-IsShut :
    (l : Limiter) (wait : Duration) (now : Time)
    → IsShut l.max_retry_after wait now (penalize l wait now)
unfolding penalize blocked
penalize-IsShut l wait now = ground (
  arith,
  +ℤ_parts now wait,
  +ℤ_parts now l.max_retry_after,
  -ℤ_parts (now +ℤ wait) now,
  -ℤ_parts (now +ℤ l.max_retry_after) now,
  -ℤ_parts l.blocked_until now,
)

limiter_wait-max_retry_after :
    (l : Limiter) (r : Round) → (limiter_wait l r).0.max_retry_after ≡ l.max_retry_after
unfolding limiter_wait reserve
limiter_wait-max_retry_after l r =
    option_cases (λ (x : Limiter × Option ContextError). x.0.max_retry_after ≡ l.max_retry_after)
      r.wait_ctx (λ n. refl) (λ e s. refl)

-- The attempt ends the call with the suspension, and leaves the limiter shut.
abbrev Suspended : Duration → Duration → Time → Step → Type 0
Suspended max_retry_after wait now (ended c did result) =
    (did ≡ true)
    × (result ≡ err (rate_limited 1 wait true))
    × IsShut max_retry_after wait now c.limiter
Suspended max_retry_after wait now (again c paid e) = Never

answer_429-Suspended :
    (o : ClientOptions) (r : Round) (last : Bool) (c : Client) (wait : Duration)
    → pos 0 ≤ℤ o.retry_wait_budget
    → o.retry_wait_budget <ℤ wait
    → Suspended c.limiter.max_retry_after wait r.now (answer_429 o r 1 last c (pos 0) wait)
unfolding answer_429 rate_limited_wait
answer_429-Suspended o r last c wait b h =
    let positive : leb_ℤ wait (pos 0) ≡ false = ground (arith, b, h) in
    let over : ltb_ℤ (o.retry_wait_budget -ℤ pos 0) wait ≡ true =
      ground (arith, h, -ℤ_parts o.retry_wait_budget (pos 0)) in
    rw positive (rw over (refl, refl, penalize-IsShut c.limiter wait r.now))

answer-Suspended :
    (o : ClientOptions) (r : Round) (last : Bool) (c : Client) (x : Response) (body : List ℕ)
    → x.status ≡ 429
    → pos 0 ≤ℤ o.retry_wait_budget
    → o.retry_wait_budget <ℤ x.retry_after
    → Suspended c.limiter.max_retry_after x.retry_after r.now (answer o r 1 last c (pos 0) x body)
unfolding answer
answer-Suspended o r last c x body e b h =
    let P : Step → Type 0 = Suspended c.limiter.max_retry_after x.retry_after r.now in
    if_cases P (leb 200 x.status && ltb x.status 300)
      (λ t. let n : Never {0} = ground (arith, e, t) in elim n [ ])
      (λ f.
        if_cases P (x.status == 429) (λ t. answer_429-Suspended o r last c x.retry_after b h)
          (λ g. let n : Never {0} = ground (arith, e, g) in elim n [ ]))

request-Suspended :
    (o : ClientOptions) (r : Round) (last : Bool) (c : Client) (x : Response) (body : List ℕ)
    → x.status ≡ 429
    → read_body o.max_body_bytes x.content ≡ some body
    → x.closes ≡ true
    → pos 0 ≤ℤ o.retry_wait_budget
    → o.retry_wait_budget <ℤ x.retry_after
    → Suspended c.limiter.max_retry_after x.retry_after r.now
        (request o r 1 last c (pos 0) (responds x))
unfolding request observe
request-Suspended o r last c x body e read closed b h =
    let P : Step → Type 0 = Suspended c.limiter.max_retry_after x.retry_after r.now in
    option_cases P (read_body o.max_body_bytes x.content) (λ n. none_some n read)
      (λ body' s.
        if_cases P x.closes (λ t. answer-Suspended o r last _ x body' e b h)
          (λ f. true_false closed f))

try_once-Suspended :
    (o : ClientOptions) (r : Round) (last : Bool) (c : Client) (x : Response) (h : Suspends o c r x)
    → Suspended c.limiter.max_retry_after x.retry_after r.now (try_once o r 1 last c (pos 0))
try_once-Suspended o r last c x h =
    let c' : Client = record c { limiter = (limiter_wait c.limiter r).0 } in
    subst (Suspended c.limiter.max_retry_after x.retry_after r.now)
      (sym (
        try_once-Passes o r 1 last c (pos 0) h.passes ∙ ap (request o r 1 last c' (pos 0)) h.reply))
      (subst (λ m. Suspended m x.retry_after r.now (request o r 1 last c' (pos 0) (responds x)))
        (limiter_wait-max_retry_after c.limiter r)
        (request-Suspended o r last c' x h.body h.status h.read h.closed h.budget_nonneg
          h.over_budget))

-- What a call released by a 429 leaves.
abbrev Released : Duration → Duration → Time → Call → Type 0
Released max_retry_after wait now call =
    (call.sent ≡ 1)
    × (call.paid ≡ pos 0)
    × (call.result ≡ err (rate_limited 1 wait true))
    × IsShut max_retry_after wait now call.client.limiter

loop-Released :
    (o : ClientOptions) (rounds : ℕ → Round) (ctx_done : Bool) (c : Client) (attempts : ℕ)
    (x : Response) (h : Suspends o c (rounds 1) x)
    → 1 ≤ attempts
    → Released c.limiter.max_retry_after x.retry_after
        (rounds 1).now
        (loop o rounds ctx_done attempts 1 c 0 (pos 0) no_attempt)
unfolding loop
loop-Released o rounds ctx_done c zero x h one = ground arith
loop-Released o rounds ctx_done c (suc left) x h one =
    let wait = x.retry_after in
    step_both (Suspended c.limiter.max_retry_after wait (rounds 1).now)
      (Released c.limiter.max_retry_after wait (rounds 1).now)
      (try_once o (rounds 1) 1 (left == 0) c (pos 0))
      (try_once-Suspended o (rounds 1) (left == 0) c x h)
      (λ c' did result s. (ap (λ d. if d then 1 else 0) s.0, refl, s.1, s.2))
      (λ c' paid e s. elim s [ ])

shut-blocked :
    (c : Client) (max_retry_after wait : Duration) (now : Time)
    → IsShut max_retry_after wait now c.limiter
    → min_ℤ wait max_retry_after ≤ℤ (client_blocked c now).0
unfolding client_blocked
shut-blocked c m wait now h = ground (arith, h)

-- A call whose first attempt gets through and is answered with a 429 that asks for more than the
-- whole retry wait budget sends that one request, waits for nothing, and returns the suspension with
-- Riot's own Retry-After; and from then on the client reports itself blocked for that long, up to the
-- longest Retry-After that the limiter honours.
pub perform-releases :
    (o : ClientOptions) (rounds : ℕ → Round) (ctx_done : Bool) (c : Client) (x : Response)
    (h : Suspends o c (rounds 1) x)
    → 1 ≤ o.max_attempts
    → ((perform o rounds ctx_done c).sent ≡ 1)
      × ((perform o rounds ctx_done c).paid ≡ pos 0)
      × ((perform o rounds ctx_done c).result ≡ err (rate_limited 1 x.retry_after true))
      × (min_ℤ x.retry_after c.limiter.max_retry_after
          ≤ℤ (client_blocked (perform o rounds ctx_done c).client (rounds 1).now).0)
unfolding perform
perform-releases o rounds ctx_done c x h one =
    let (sent, paid, result, shut) = loop-Released o rounds ctx_done c o.max_attempts x h one in
    (
      sent,
      paid,
      result,
      shut-blocked (perform o rounds ctx_done c).client c.limiter.max_retry_after x.retry_after
          (rounds 1).now shut,
    )
