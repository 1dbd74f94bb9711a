-- ===== src/Riot/Client/Cases.antt =====
-- internal/riot/client.go: the ways in which one attempt of a call can end.
use league_of_legends.Prelude.{
  ℕ, ◌≤◌, ◌<◌, ◌≡◌, refl, Bool, true, false, ◌==◌, leb, ltb, length, List, Option, none, some, pos,
  negsuc, ◌+ℤ◌, ◌-ℤ◌, ◌≤ℤ◌, leb_ℤ, ltb_ℤ, Duration, arith, if_both, if_cases, option_both, both,
  map, ◌&&◌, if◌then◌else◌, String,
}
use league_of_legends.Riot.Breaker.{Allowed, returns, circuit_open, sleeping, allow, succeed}
use league_of_legends.Riot.Limiter.{observe}
use league_of_legends.Riot.Client.{
  ClientOptions, Client, Response, Reply, no_response, responds, Round, ClientError, rate_limited,
  ok, err, pending, Step, ended, again, Result, Call, transport, bad_status, slept,
}
use league_of_legends.Riot.Client.Perform.{
  try_once, after_breaker, send, limiter_wait, request, no_answer, answer, answer_429, pay_429,
  retry_later, read_body, backoff, jittered, rate_limited_wait, sleep_for, turn_of,
}

-- A response that a call returns: it has a status of 200 to 299, and its body is read whole and
-- within the limit.
pub record Accepted (o : ClientOptions) (response : Response) (body : List ℕ) : Type 0 where
  pub status_low : 200 ≤ response.status
  pub status_high : response.status < 300
  pub read : response.content ≡ some body
  pub fits : length body ≤ o.max_body_bytes
  pub closed : response.closes ≡ true

jittered_nonneg : (random : ℕ) (d : Duration) → pos 0 ≤ℤ jittered random d
jittered_nonneg random (pos d) = omega arith
jittered_nonneg random (negsuc d) = omega arith

backoff_nonneg : (o : ClientOptions) (random attempt : ℕ) → pos 0 ≤ℤ backoff o random attempt
unfolding backoff
backoff_nonneg o random attempt = jittered_nonneg random _

wait_nonneg :
    (after fallback : Duration)
    → pos 0 ≤ℤ fallback
    → pos 0 ≤ℤ (if leb_ℤ after (pos 0) then fallback else after)
wait_nonneg after fallback h = ground arith

read_body-some :
    (max : ℕ) (content : Option (List ℕ)) (body : List ℕ)
    → read_body max content ≡ some body
    → (content ≡ some body) × (length body ≤ max)
unfolding read_body
read_body-some max none body e = ground arith
read_body-some max (some bytes) body e = ground arith

-- What holds of every way in which an attempt can end holds of the attempt. `P` gets the response
-- where the call returns a body, and the wait where it pays for one.
module _ {ℓ} (o : ClientOptions) (r : Round) (attempt : ℕ) (last : Bool) (paid : Duration)
    (P : Step → Type ℓ)
    (fails : (c : Client) (did : Bool) (e : ClientError) → P (ended c did (err e)))
    (waits : (c : Client) → P (ended c false pending))
    (succeeds : (c : Client) (response : Response) (body : List ℕ)
      → r.reply ≡ responds response
      → Accepted o response body
      → P (ended (record c { breaker = succeed c.breaker }) true (ok body)))
    (goes_on : (c : Client) (e : ClientError) → P (again c paid e))
    (pays : (c : Client) (wait : Duration) (e : ClientError)
      → pos 0 ≤ℤ wait
      → wait ≤ℤ o.retry_wait_budget -ℤ paid
      → P (again c (paid +ℤ wait) e)) where
  retry_later-P : (c : Client) (e : ClientError) → P (retry_later o r attempt last c paid e)
  unfolding retry_later
  retry_later-P c e =
      if_both (λ (s : Step). P s) last (goes_on c e)
        (option_both (λ (s : Step). P s) (sleep_for r (backoff o r.random attempt)) (goes_on c e)
          (λ s. fails c true (slept s)))

  pay_429-P :
      (c : Client) (wait : Duration)
      → pos 0 ≤ℤ wait
      → wait ≤ℤ o.retry_wait_budget -ℤ paid
      → P (pay_429 r attempt last c paid wait)
  unfolding pay_429
  pay_429-P c wait l h =
      if_both (λ (s : Step). P s) last (goes_on c (rate_limited attempt wait false))
        (option_both (λ (s : Step). P s) (sleep_for r wait)
          (pays c wait (rate_limited attempt wait false) l h) (λ s. fails c true _))

  answer_429-P : (c : Client) (after : Duration) → P (answer_429 o r attempt last c paid after)
  unfolding answer_429 rate_limited_wait
  answer_429-P c after =
      let wait : Duration = if leb_ℤ after (pos 0) then backoff o r.random attempt else after in
      if_cases (λ (s : Step). P s) (ltb_ℤ (o.retry_wait_budget -ℤ paid) wait) (λ t. fails _ true _)
        (λ f.
          pay_429-P _ wait (wait_nonneg after _ (backoff_nonneg o r.random attempt))
            (ground (arith, f)))

  no_answer-P : (c : Client) → P (no_answer o r attempt last c paid)
  unfolding no_answer
  no_answer-P c =
      option_both (λ (s : Step). P s) r.cause (retry_later-P c transport) (λ e. fails c true _)

  answer-P :
      (c : Client) (response : Response) (body : List ℕ)
      → r.reply ≡ responds response
      → response.closes ≡ true
      → read_body o.max_body_bytes response.content ≡ some body
      → P (answer o r attempt last c paid response body)
  unfolding answer
  answer-P c response body e closed read =
      let s = response.status in
      if_cases (λ (s : Step). P s) (leb 200 s && ltb s 300)
        (λ t.
          let (content, fits) = read_body-some o.max_body_bytes response.content body read in
          let (low, high) = both {a = leb 200 s} {b = ltb s 300} t in
          succeeds c response body e (record {
            status_low = ground (arith, low);
            status_high = ground (arith, high);
            read = content;
            fits = fits;
            closed = closed;
          }))
        (λ f.
          if_both (λ (s : Step). P s) (s == 429) (answer_429-P c response.retry_after)
            (if_both (λ (s : Step). P s) (leb 500 s) (retry_later-P c (bad_status s))
              (fails _ true _)))

  request-P :
      (c : Client) (reply : Reply) → r.reply ≡ reply → P (request o r attempt last c paid reply)
  unfolding request
  request-P c no_response e = no_answer-P c
  request-P c (responds response) e = read_cases _ refl
    where
      c' : Client
      c' = record c { limiter = observe c.limiter response.headers r.now }

      read_cases :
          (content : Option (List ℕ))
          → read_body o.max_body_bytes response.content ≡ content
          → P (elim content [
            | none ↦ no_answer o r attempt last c' paid
            | some body ↦
                if response.closes
                then answer o r attempt last c' paid response body
                else no_answer o r attempt last c' paid
          ])
      read_cases none read = no_answer-P c'
      read_cases (some body) read =
          if_cases (λ (s : Step). P s) response.closes
            (λ closed. answer-P c' response body e closed read) (λ f. no_answer-P c')

  send-P : (c : Client) (key : Option String) → P (send o r attempt last c paid key)
  unfolding send
  send-P c none = fails c false _
  send-P c (some key) =
      option_both (λ (s : Step). P s) (limiter_wait c.limiter r).1 (request-P _ r.reply refl)
        (λ e. fails _ false _)

  after_breaker-P : (c : Client) (a : Allowed) → P (after_breaker o r attempt last c paid a)
  unfolding after_breaker
  after_breaker-P c sleeping = waits c
  after_breaker-P c circuit_open = fails c false _
  after_breaker-P c (returns (some e)) = fails c false _
  after_breaker-P c (returns none) = send-P c r.key

  pub try_once-P : (c : Client) → P (try_once o r attempt last c paid)
  unfolding try_once
  try_once-P c = after_breaker-P c (allow (map (turn_of c.breaker) r.pauses))

-- What holds of a step carries over to what is made of it.
pub step_both {ℓ κ} :
    (Q : Step → Type ℓ) (P : Call → Type κ) (s : Step) {f : Client → Bool → Result → Call}
    {g : Client → Duration → ClientError → Call}
    → Q s
    → ((c : Client) (did : Bool) (result : Result) → Q (ended c did result) → P (f c did result))
    → ((c : Client) (paid : Duration) (e : ClientError) → Q (again c paid e) → P (g c paid e))
    → P (elim s [ ended c did result ↦ f c did result | again c paid e ↦ g c paid e ])
step_both Q P (ended c did result) q p p' = p c did result q
step_both Q P (again c paid e) q p p' = p' c paid e q
