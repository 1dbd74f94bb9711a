-- ===== src/Riot/Breaker/Allow.antt =====
-- internal/riot/breaker.go: when `allow` lets a call through, refuses it, or makes it wait.
use league_of_legends.Prelude.{
  ◌+◌, ◌≤◌, ◌≡◌, ap, ◌∙◌, inl, inr, ◌⊎◌, dec_lt, pos_part, neg_part, ◌≢◌, List, [], ◌∷◌, none, some,
  All, arith, ◌+ℤ◌, ◌-ℤ◌, ◌≤ℤ◌, ◌<ℤ◌, +ℤ_parts, -ℤ_parts, Time,
}
use league_of_legends.Riot.Breaker.{
  Breaker, state, trip, next_backoff, record_failure, fail_auth, Turn, returns, circuit_open,
  allow_turn, allow,
}

-- The breaker is open at the instant of the turn.
abbrev pub IsOpen : Turn → Type 0
IsOpen t = t.now <ℤ t.breaker.open_until

-- While every turn finds the breaker open, no call is let through, whatever else happens.
pub allow_open : (ts : List Turn) → All IsOpen ts → allow ts ≢ returns none
unfolding allow allow_turn state
allow_open [] h e = cc
allow_open (t ∷ ts) h e = ground (arith, allow_open ts h.1, -ℤ_parts t.breaker.open_until t.now)

turn-stopped :
    (t : Turn)
    → IsOpen t
    → t.breaker.max_wait ≤ℤ t.breaker.backoff
    → allow_turn t ≡ some circuit_open
unfolding allow_turn state
turn-stopped t o s = ground (arith, -ℤ_parts t.breaker.open_until t.now)

turn-closed : (t : Turn) → t.breaker.open_until ≤ℤ t.now → allow_turn t ≡ some (returns t.ctx_err)
unfolding allow_turn state
turn-closed t c = ground arith

fail_auth_trips :
    (b : Breaker) (at : Time)
    → b.threshold ≤ b.consecutive + 1
    → let b' = (fail_auth b at).0 in
      (b'.open_until ≡ at +ℤ b.max_wait) × (b'.backoff ≡ b.max_wait) × (b'.max_wait ≡ b.max_wait)
unfolding fail_auth record_failure trip next_backoff
fail_auth_trips b at reached = ground arith

-- A refusal of the key at the threshold stops the breaker at once: until its longest wait is over, a
-- call is refused without sleeping, whatever the context and the later turns are.
pub allow-fail_auth :
    (b : Breaker) (at : Time) (t : Turn) (ts : List Turn)
    → b.threshold ≤ b.consecutive + 1
    → t.breaker ≡ (fail_auth b at).0
    → t.now <ℤ at +ℤ b.max_wait
    → allow (t ∷ ts) ≡ circuit_open
unfolding allow
allow-fail_auth b at t ts reached e before =
    let (opens, longest, same) = fail_auth_trips b at reached in
    let open_is : t.breaker.open_until ≡ at +ℤ b.max_wait =
      ap (λ (c : Breaker). c.open_until) e ∙ opens in
    let backoff_is : t.breaker.backoff ≡ b.max_wait = ap (λ (c : Breaker). c.backoff) e ∙ longest in
    let max_is : t.breaker.max_wait ≡ b.max_wait = ap (λ (c : Breaker). c.max_wait) e ∙ same in
    rw (turn-stopped t (ground arith) (ground arith), allow)

turn_paused :
    (t : Turn)
    → IsOpen t
    → t.sleep_err ≡ none
    → (allow_turn t ≡ some circuit_open)
      ⊎ ((state t.breaker t.now).0 ≡ t.breaker.open_until -ℤ t.now) × (allow_turn t ≡ none)
unfolding allow_turn state
turn_paused t o s = ground (arith, -ℤ_parts t.breaker.open_until t.now)

-- When nobody else touches the breaker and the clock's `Sleep` does not return early, `allow`
-- returns by its second turn: with the context's error or nil, or with a refusal if it was stopped.
pub allow_returns :
    (t u : Turn) (ts : List Turn)
    → u.breaker ≡ t.breaker
    → t.now +ℤ (state t.breaker t.now).0 ≤ℤ u.now
    → t.sleep_err ≡ none
    → (allow (t ∷ u ∷ ts) ≡ circuit_open)
      ⊎ (allow (t ∷ u ∷ ts) ≡ returns t.ctx_err)
      ⊎ (allow (t ∷ u ∷ ts) ≡ returns u.ctx_err)
unfolding allow
allow_returns t u ts same late slept =
    elim (dec_lt (pos_part t.now + neg_part t.breaker.open_until)
      (pos_part t.breaker.open_until + neg_part t.now)) [
        | no closed ↦ inr (inl (rw (turn-closed t (omega arith), allow)))
        | yes open' ↦ elim (turn_paused t open' slept) [
          | inl stopped ↦ inl (rw (stopped, allow))
          | inr (wait, paused) ↦
              let until : u.breaker.open_until ≡ t.breaker.open_until =
                ap (λ (b : Breaker). b.open_until) same in
              let over : u.breaker.open_until ≤ℤ u.now = ground (
                arith,
                +ℤ_parts t.now (state t.breaker t.now).0,
                -ℤ_parts t.breaker.open_until t.now,
              ) in
              inr (inr (rw (paused, allow) (rw (turn-closed u over, allow))))
        ]
      ]
