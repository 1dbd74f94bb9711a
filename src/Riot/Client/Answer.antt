-- ===== src/Riot/Client/Answer.antt =====
-- internal/riot/client.go: what a call that returns a body has been answered.
use league_of_legends.Prelude.{
  ℕ, zero, suc, ◌≤◌, ◌<◌, ◌+◌, ◌≡◌, refl, subst, Bool, true, false, List, pos, Duration, arith,
  zero_time, ◌==◌, if◌then◌else◌,
}
use league_of_legends.Riot.Breaker.{succeed}
use league_of_legends.Riot.Client.{
  ClientOptions, Client, Response, responds, Round, ClientError, Result, ok, err, pending, Step,
  ended, again, Call, no_attempt,
}
use league_of_legends.Riot.Client.Perform.{try_once, loop, perform}
use league_of_legends.Riot.Client.Cases.{Accepted, try_once-P, step_both}

-- What a round whose attempt returns `body` has seen.
abbrev pub Answered : ClientOptions → Round → List ℕ → Type 0
Answered o r body = (response : Response) × (r.reply ≡ responds response) × Accepted o response body

-- The breaker as `succeed` leaves it.
pub record IsReset (c : Client) : Type 0 where
  pub consecutive : c.breaker.consecutive ≡ 0
  pub open_until : c.breaker.open_until ≡ zero_time
  pub backoff : c.breaker.backoff ≡ pos 0

abbrev OkStep : ClientOptions → Round → Step → Type 0
OkStep o r (ended c did (ok body)) = (did ≡ true) × Answered o r body × IsReset c
OkStep o r (ended c did (err e)) = Unit
OkStep o r (ended c did pending) = Unit
OkStep o r (again c paid e) = Unit

try_once-OkStep :
    (o : ClientOptions) (r : Round) (attempt : ℕ) (last : Bool) (paid : Duration) (c : Client)
    → OkStep o r (try_once o r attempt last c paid)
unfolding succeed
try_once-OkStep o r attempt last paid c =
    try_once-P o r attempt last paid (OkStep o r) (λ c' did e. tt) (λ c'. tt)
      (λ c' response body e a.
        (refl, (response, e, a), record { consecutive = refl; open_until = refl; backoff = refl }))
      (λ c' e. tt) (λ c' wait e l h. tt) c

-- A call that returned a body in one of the attempts from `from` on, before `to`; it sent a request
-- in each of them.
abbrev OkResult : ClientOptions → (ℕ → Round) → ℕ → ℕ → ℕ → ℕ → Client → Result → Type 0
OkResult o rounds from to sent total c (ok body) =
    (n : ℕ) × (from ≤ n)
    × (n < to)
    × (total + from ≡ sent + suc n)
    × Answered o (rounds n) body
    × IsReset c
OkResult o rounds from to sent total c (err e) = Unit
OkResult o rounds from to sent total c pending = Unit

abbrev OkCall : ClientOptions → (ℕ → Round) → ℕ → ℕ → ℕ → Call → Type 0
OkCall o rounds from to sent call = OkResult o rounds from to sent call.sent call.client call.result

ended-OkResult :
    (o : ClientOptions) (rounds : ℕ → Round) (from left sent : ℕ) (c : Client) (did : Bool)
    (result : Result)
    → OkStep o (rounds from) (ended c did result)
    → OkResult o rounds from (from + suc left) sent (if did then suc sent else sent) c result
ended-OkResult o rounds from left sent c true (ok body) (d, a, b) =
    (from, omega arith, omega arith, omega arith, a, b)
ended-OkResult o rounds from left sent c false (ok body) (d, a, b) = ground arith
ended-OkResult o rounds from left sent c did (err e) h = tt
ended-OkResult o rounds from left sent c did pending h = tt

later-OkResult :
    (o : ClientOptions) (rounds : ℕ → Round) (from left sent total : ℕ) (c : Client)
    (result : Result)
    → OkResult o rounds (suc from) (suc from + left) (suc sent) total c result
    → OkResult o rounds from (from + suc left) sent total c result
later-OkResult o rounds from left sent total c (ok body) (n, low, high, count, a, b) =
    (n, omega (arith, low), omega (arith, high), omega (arith, count), a, b)
later-OkResult o rounds from left sent total c (err e) h = tt
later-OkResult o rounds from left sent total c pending h = tt

loop-OkCall :
    (o : ClientOptions) (rounds : ℕ → Round) (ctx_done : Bool) (left from : ℕ) (c : Client)
    (sent : ℕ) (paid : Duration) (e : ClientError)
    → OkCall o rounds from (from + left) sent (loop o rounds ctx_done left from c sent paid e)
unfolding loop
loop-OkCall o rounds ctx_done zero from c sent paid e = tt
loop-OkCall o rounds ctx_done (suc left) from c sent paid e =
    step_both (OkStep o (rounds from)) (OkCall o rounds from (from + suc left) sent)
      (try_once o (rounds from) from (left == 0) c paid)
      (try_once-OkStep o (rounds from) from (left == 0) paid c)
      (λ c' did result h. ended-OkResult o rounds from left sent c' did result h)
      (λ c' paid' e' h.
        later-OkResult o rounds from left sent _ _ _
          (loop-OkCall o rounds ctx_done left (suc from) c' (suc sent) paid' e'))

-- A call that returns a body has got it in one of its attempts, the last one it made, as the body of
-- a response with a status of 200 to 299, read whole and within the size limit; it has sent one
-- request in each attempt up to that one, and it leaves the breaker reset.
pub perform-ok :
    (o : ClientOptions) (rounds : ℕ → Round) (ctx_done : Bool) (c : Client) (body : List ℕ)
    → (perform o rounds ctx_done c).result ≡ ok body
    → (n : ℕ) × (1 ≤ n)
      × (n ≤ o.max_attempts)
      × ((perform o rounds ctx_done c).sent ≡ n)
      × Answered o (rounds n) body
      × IsReset (perform o rounds ctx_done c).client
unfolding perform
perform-ok o rounds ctx_done c body e =
    let call = perform o rounds ctx_done c in
    let (n, low, high, count, a, b) =
      subst (OkResult o rounds 1 (1 + o.max_attempts) 0 call.sent call.client) e
        (loop-OkCall o rounds ctx_done o.max_attempts 1 c 0 (pos 0) no_attempt) in
    (n, low, omega (arith, high), omega (arith, count), a, b)
