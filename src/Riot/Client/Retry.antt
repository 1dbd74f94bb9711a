-- ===== src/Riot/Client/Retry.antt =====
-- internal/riot/client.go: what one attempt does where it may be retried, and where it is answered.
use league_of_legends.Prelude.{
  ℕ, ◌≤◌, ◌≡◌, refl, ap, ◌∙◌, sym, subst, Bool, true, false, ◌==◌, leb, ltb, ◌&&◌, List, ◌∷◌,
  Option, none, some, String, Never, ◌≤ℤ◌, Duration, arith, map, if_cases, if_both, option_both,
  length, option_cases, none_some, true_false, if_cases,
}
use league_of_legends.Riot.Breaker.{Breaker, Turn, allow, allow_turn, returns, state}
use league_of_legends.Riot.Limiter.{Limiter}
use league_of_legends.Riot.Client.{
  ClientOptions, Client, Response, Reply, no_response, responds, Pause, Round, ClientError, ok,
  Step, ended, again, transport, bad_status,
}
use league_of_legends.Riot.Client.Perform.{
  try_once, after_breaker, send, limiter_wait, request, no_answer, answer, retry_later, read_body,
  turn_of, sleep_for, backoff,
}
use league_of_legends.Riot.Client.Cases.{Accepted}

-- The round finds the breaker `b` closed, a key, and a limiter that lets it through.
pub record Passes (b : Breaker) (r : Round) : Type 0 where
  pub pause : Pause
  pub pauses_left : List Pause
  pub pauses : r.pauses ≡ pause ∷ pauses_left
  pub closed : b.open_until ≤ℤ pause.now
  pub alive : pause.ctx_err ≡ none
  pub key : String
  pub has_key : r.key ≡ some key
  pub wait_alive : r.wait_ctx ≡ none
  pub wait_slept : r.wait_sleep ≡ none

-- The round's attempt gets no response, none that can be read, or a status of 500 or more, and
-- no context ends.
pub data IsFailure (o : ClientOptions) : Reply → Type 0 where
  lost : IsFailure o no_response
  unreadable :
      {x : Response} → read_body o.max_body_bytes x.content ≡ none → IsFailure o (responds x)
  unclosed : {x : Response} → x.closes ≡ false → IsFailure o (responds x)
  server_error : {x : Response} → 500 ≤ x.status → IsFailure o (responds x)

pub record Retries (o : ClientOptions) (b : Breaker) (r : Round) : Type 0 where
  pub passes : Passes b r
  pub failure : IsFailure o r.reply
  pub alive : r.cause ≡ none
  pub slept : r.sleep ≡ none

pub record Delivers (o : ClientOptions) (b : Breaker) (r : Round) (body : List ℕ) : Type 0 where
  pub passes : Passes b r
  pub response : Response
  pub reply : r.reply ≡ responds response
  pub accepted : Accepted o response body

open_turn :
    (b : Breaker) (pause : Pause) (rest : List Turn)
    → b.open_until ≤ℤ pause.now
    → pause.ctx_err ≡ none
    → allow (turn_of b pause ∷ rest) ≡ returns none
unfolding allow allow_turn state
open_turn b pause rest closed alive = ground (arith, closed, alive)

open_allow :
    (b : Breaker) (r : Round) → Passes b r → allow (map (turn_of b) r.pauses) ≡ returns none
open_allow b r p = rw p.pauses (open_turn b p.pause _ p.closed p.alive)

lets_through :
    (l : Limiter) (r : Round)
    → r.wait_ctx ≡ none
    → r.wait_sleep ≡ none
    → (limiter_wait l r).1 ≡ none
unfolding limiter_wait
lets_through l r alive slept = ground (arith, alive, slept)

after_wait :
    (o : ClientOptions) (r : Round) (attempt : ℕ) (last : Bool) (c : Client) (paid : Duration)
    (key : String)
    → (limiter_wait c.limiter r).1 ≡ none
    → send o r attempt last c paid (some key)
      ≡ request o r attempt last (record c { limiter = (limiter_wait c.limiter r).0 }) paid r.reply
unfolding send
after_wait o r attempt last c paid key e =
    let c' : Client = record c { limiter = (limiter_wait c.limiter r).0 } in
    option_cases (λ (s : Step). s ≡ request o r attempt last c' paid r.reply)
      (limiter_wait c.limiter r).1 (λ n. refl) (λ x s. none_some e s)

-- Past the breaker, the key and the limiter, an attempt is its request.
pub try_once-Passes :
    (o : ClientOptions) (r : Round) (attempt : ℕ) (last : Bool) (c : Client) (paid : Duration)
    → Passes c.breaker r
    → try_once o r attempt last c paid
      ≡ request o r attempt last (record c { limiter = (limiter_wait c.limiter r).0 }) paid r.reply
unfolding try_once after_breaker
try_once-Passes o r attempt last c paid p =
    ap (after_breaker o r attempt last c paid) (open_allow c.breaker r p)
    ∙ ap (send o r attempt last c paid) p.has_key
    ∙ after_wait o r attempt last c paid p.key (lets_through c.limiter r p.wait_alive p.wait_slept)

-- The attempt goes on, with the breaker as it was.
abbrev pub Retried : Breaker → Step → Type 0
Retried b (ended c did result) = Never
Retried b (again c paid e) = c.breaker ≡ b

sleep_for-none : (r : Round) (d : Duration) → r.sleep ≡ none → sleep_for r d ≡ none
sleep_for-none r d e = ground (arith, e)

retry_later-Retried :
    (o : ClientOptions) (r : Round) (attempt : ℕ) (last : Bool) (c : Client) (paid : Duration)
    (e : ClientError)
    → r.sleep ≡ none
    → Retried c.breaker (retry_later o r attempt last c paid e)
unfolding retry_later
retry_later-Retried o r attempt last c paid e slept =
    rw (sleep_for-none r (backoff o r.random attempt) slept)
      (if_both (Retried c.breaker) last refl refl)

no_answer-Retried :
    (o : ClientOptions) (r : Round) (attempt : ℕ) (last : Bool) (c : Client) (paid : Duration)
    → r.cause ≡ none
    → r.sleep ≡ none
    → Retried c.breaker (no_answer o r attempt last c paid)
unfolding no_answer
no_answer-Retried o r attempt last c paid alive slept =
    option_cases (Retried c.breaker) r.cause
      (λ n. retry_later-Retried o r attempt last c paid transport slept) (λ x s. none_some alive s)

answer-Retried :
    (o : ClientOptions) (r : Round) (attempt : ℕ) (last : Bool) (c : Client) (paid : Duration)
    (response : Response) (body : List ℕ)
    → 500 ≤ response.status
    → r.sleep ≡ none
    → Retried c.breaker (answer o r attempt last c paid response body)
unfolding answer
answer-Retried o r attempt last c paid response body high slept =
    let s = response.status in
    let no_success : (leb 200 s && ltb s 300) ≡ false = ground (arith, high) in
    let no_429 : (s == 429) ≡ false = ground (arith, high) in
    let server : leb 500 s ≡ true = ground (arith, high) in
    rw (no_success, no_429, server)
      (retry_later-Retried o r attempt last c paid (bad_status s) slept)

request-Retried :
    (o : ClientOptions) (r : Round) (attempt : ℕ) (last : Bool) (c : Client) (paid : Duration)
    (reply : Reply)
    → IsFailure o reply
    → r.cause ≡ none
    → r.sleep ≡ none
    → Retried c.breaker (request o r attempt last c paid reply)
unfolding request
request-Retried o r attempt last c paid no_response lost alive slept =
    no_answer-Retried o r attempt last c paid alive slept
request-Retried o r attempt last c paid (responds x) (unreadable e) alive slept =
    option_cases (Retried c.breaker) (read_body o.max_body_bytes x.content)
      (λ n. no_answer-Retried o r attempt last _ paid alive slept) (λ body s. none_some e s)
request-Retried o r attempt last c paid (responds x) (unclosed e) alive slept =
    option_both (Retried c.breaker) (read_body o.max_body_bytes x.content)
      (no_answer-Retried o r attempt last _ paid alive slept)
      (λ body.
        if_cases (Retried c.breaker) x.closes (λ s. true_false s e)
          (λ n. no_answer-Retried o r attempt last _ paid alive slept))
request-Retried o r attempt last c paid (responds x) (server_error high) alive slept =
    option_both (Retried c.breaker) (read_body o.max_body_bytes x.content)
      (no_answer-Retried o r attempt last _ paid alive slept)
      (λ body.
        if_both (Retried c.breaker) x.closes
          (answer-Retried o r attempt last _ paid x body high slept)
          (no_answer-Retried o r attempt last _ paid alive slept))

pub try_once-Retried :
    (o : ClientOptions) (r : Round) (attempt : ℕ) (last : Bool) (c : Client) (paid : Duration)
    → Retries o c.breaker r
    → Retried c.breaker (try_once o r attempt last c paid)
try_once-Retried o r attempt last c paid h =
    subst (Retried c.breaker) (sym (try_once-Passes o r attempt last c paid h.passes))
      (request-Retried o r attempt last _ paid r.reply h.failure h.alive h.slept)

-- The attempt returns the body.
abbrev pub Delivered : List ℕ → Step → Type 0
Delivered body (ended c did result) = (did ≡ true) × (result ≡ ok body)
Delivered body (again c paid e) = Never

read_fits :
    (most : ℕ) (content : Option (List ℕ)) (body : List ℕ)
    → content ≡ some body
    → length body ≤ most
    → read_body most content ≡ some body
unfolding read_body
read_fits most none body e h = ground arith
read_fits most (some bytes) body e h = ground arith

request-Delivered :
    (o : ClientOptions) (r : Round) (attempt : ℕ) (last : Bool) (c : Client) (paid : Duration)
    (x : Response) (body : List ℕ)
    → Accepted o x body
    → Delivered body (request o r attempt last c paid (responds x))
unfolding request answer read_body
request-Delivered o r attempt last c paid x body a =
    let success : (leb 200 x.status && ltb x.status 300) ≡ true =
      ground (arith, a.status_low, a.status_high) in
    let read : read_body o.max_body_bytes x.content ≡ some body =
      read_fits o.max_body_bytes x.content body a.read a.fits in
    option_cases (Delivered body) (read_body o.max_body_bytes x.content) (λ n. none_some n read)
      (λ body' s.
        if_cases (Delivered body) x.closes
          (λ closed.
            if_cases (Delivered body) (leb 200 x.status && ltb x.status 300)
              (λ t. (refl, ap ok (ground (arith, s, read)))) (λ f. true_false success f))
          (λ f. true_false a.closed f))

pub try_once-Delivered :
    (o : ClientOptions) (r : Round) (attempt : ℕ) (last : Bool) (c : Client) (paid : Duration)
    (body : List ℕ)
    → Delivers o c.breaker r body
    → Delivered body (try_once o r attempt last c paid)
try_once-Delivered o r attempt last c paid body h =
    subst (Delivered body)
      (sym (
        try_once-Passes o r attempt last c paid h.passes
        ∙ ap (request o r attempt last _ paid) h.reply))
      (request-Delivered o r attempt last _ paid h.response body h.accepted)
