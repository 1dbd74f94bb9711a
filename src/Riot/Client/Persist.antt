-- ===== src/Riot/Client/Persist.antt =====
-- internal/riot/client.go: a call comes through failures that it may retry.
use league_of_legends.Prelude.{
  ℕ, zero, suc, ◌≤◌, ◌<◌, ◌+◌, ◌≡◌, sym, subst, Bool, ◌==◌, List, pos, Duration, arith,
}
use league_of_legends.Riot.Client.{ClientOptions, Client, Round, ClientError, ok, Call, no_attempt}
use league_of_legends.Riot.Client.Perform.{try_once, loop, perform}
use league_of_legends.Riot.Client.Cases.{step_both}
use league_of_legends.Riot.Client.Retry.{
  Retries, Delivers, Retried, Delivered, try_once-Retried, try_once-Delivered,
}

abbrev Comes : List ℕ → ℕ → Call → Type 0
Comes body sent call = (call.result ≡ ok body) × (call.sent ≡ sent)

loop-Comes :
    (o : ClientOptions) (rounds : ℕ → Round) (ctx_done : Bool) (failures left from : ℕ) (c : Client)
    (sent : ℕ) (paid : Duration) (e : ClientError) (body : List ℕ)
    → failures < left
    → ((n : ℕ) → from ≤ n → n < from + failures → Retries o c.breaker (rounds n))
    → Delivers o c.breaker (rounds (from + failures)) body
    → Comes body (sent + suc failures) (loop o rounds ctx_done left from c sent paid e)
unfolding loop
loop-Comes o rounds ctx_done failures zero from c sent paid e body h retries delivers = ground arith
loop-Comes o rounds ctx_done zero (suc left) from c sent paid e body h retries delivers =
    step_both (Delivered body) (Comes body (sent + 1))
      (try_once o (rounds from) from (left == 0) c paid)
      (try_once-Delivered o (rounds from) from (left == 0) c paid body
        (subst (λ n. Delivers o c.breaker (rounds n) body) (omega arith) delivers))
      (λ c' did result d. (d.1, rw d.0 (omega arith))) (λ c' paid' e' d. elim d [ ])
loop-Comes o rounds ctx_done (suc failures) (suc left) from c sent paid e body h retries delivers =
    step_both (Retried c.breaker) (Comes body (sent + suc (suc failures)))
      (try_once o (rounds from) from (left == 0) c paid)
      (try_once-Retried o (rounds from) from (left == 0) c paid
        (retries from (omega arith) (omega arith)))
      (λ c' did result d. elim d [ ])
      (λ c' paid' e' same.
        let (result, count) =
          loop-Comes o rounds ctx_done failures left (suc from) c' (suc sent) paid' e' body
            (omega (arith, h))
            (λ n low high.
              subst (λ b. Retries o b (rounds n)) (sym same)
                (retries n (omega (arith, low)) (omega (arith, high))))
            (subst (λ b. Delivers o b (rounds (suc from + failures)) body) (sym same)
              (subst (λ n. Delivers o c.breaker (rounds n) body) (omega arith) delivers)) in
        (result, omega (arith, count)))

-- A call whose first `failures` attempts fail in a way that may be retried (no response, one that
-- cannot be read, or a status of 500 or more), and whose next attempt is answered with a status of
-- 200 to 299, returns that body after one request each, if it has that many attempts, the breaker is
-- closed, the key and the limiter let each attempt through, and no context ends.
pub perform-persists :
    (o : ClientOptions) (rounds : ℕ → Round) (ctx_done : Bool) (c : Client) (failures : ℕ)
    (body : List ℕ)
    → failures < o.max_attempts
    → ((n : ℕ) → 1 ≤ n → n < 1 + failures → Retries o c.breaker (rounds n))
    → Delivers o c.breaker (rounds (1 + failures)) body
    → ((perform o rounds ctx_done c).result ≡ ok body)
      × ((perform o rounds ctx_done c).sent ≡ suc failures)
unfolding perform
perform-persists o rounds ctx_done c failures body h retries delivers =
    let (result, count) =
      loop-Comes o rounds ctx_done failures o.max_attempts 1 c 0 (pos 0) no_attempt body h retries
        delivers in
    (result, omega (arith, count))
