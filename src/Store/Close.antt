-- ===== src/Store/Close.antt =====
-- internal/store/queue.go and maintain.go: how a claim ends, and how rows come back.
use league_of_legends.Prelude.{
  ℕ, ◌-◌, Bool, true, false, ◌&&◌, List, Option, none, some, ltb, if◌then◌else◌, ℤ, ltb_ℤ, Time,
  String, take, keep, sort_by, length,
}
use league_of_legends.Store.Row.{
  pending, claimed, done, retry, dead, status_eq, Row, Queue, null_text, clamp_limit, update_where,
  id_in, owned,
}

-- The SET clauses.
unfoldable pub completed : Row → Row
completed r = record r { status = done; claimed_at = none; last_cause = none }

unfoldable pub retried : Time → Option String → Row → Row
retried not_before cause r = record r {
  status = retry;
  not_before = not_before;
  claimed_at = none;
  last_cause = cause;
}

unfoldable pub lettered : Time → Option String → Row → Row
lettered now cause r = record r { status = dead; claimed_at = some now; last_cause = cause }

-- GREATEST(attempts - 1, 0) is the subtraction on ℕ.
unfoldable pub released : Time → Option String → Row → Row
released not_before cause r = record r {
  status = retry;
  not_before = not_before;
  claimed_at = none;
  last_cause = cause;
  attempts = r.attempts - 1;
}

abbrev pub claim_timeout_cause : String
claim_timeout_cause = "claim expired: worker did not finish or report"

unfoldable pub reclaimed : Time → Row → Row
reclaimed now r = record r {
  status = retry;
  claimed_at = none;
  not_before = now;
  last_cause = some claim_timeout_cause;
}

abbrev pub replayed_dead_letter_cause : String
replayed_dead_letter_cause = "replayed from dead letter: the condition that retired it has cleared"

unfoldable pub replayed : Time → Row → Row
replayed now r = record r {
  status = pending;
  attempts = 0;
  claimed_at = none;
  not_before = now;
  last_cause = some replayed_dead_letter_cause;
}

-- `CompleteJob`.
unfoldable pub complete_job : ℕ → Queue → Queue
complete_job id q = record q { rows = update_where (owned id) completed q.rows }

-- `RetryJob`.
unfoldable pub retry_job : ℕ → Time → String → Queue → Queue
retry_job id not_before cause q = record q {
  rows = update_where (owned id) (retried not_before (null_text cause)) q.rows;
}

-- `DeadLetterJob`, at the store's clock.
unfoldable pub dead_letter_job : ℕ → Time → String → Queue → Queue
dead_letter_job id now cause q = record q {
  rows = update_where (owned id) (lettered now (null_text cause)) q.rows;
}

-- `ReleaseJob`.
unfoldable pub release_job : ℕ → Time → String → Queue → Queue
release_job id not_before cause q = record q {
  rows = update_where (owned id) (released not_before (null_text cause)) q.rows;
}

abbrev pub claimed_before : Time → Row → Bool
claimed_before older_than r = elim r.claimed_at [ none ↦ false | some t ↦ ltb_ℤ t older_than ]

abbrev pub stuck : Time → Row → Bool
stuck older_than r = status_eq r.status claimed && claimed_before older_than r

-- ORDER BY claimed_at: NULL comes last.
abbrev pub earlier : Option Time → Option Time → Bool
earlier (some a) (some b) = ltb_ℤ a b
earlier (some a) none = true
earlier none _ = false

-- The inner SELECT of `resetStuckClaimsSQL`.
unfoldable pub choose_stuck : Time → ℕ → List Row → List Row
choose_stuck older_than limit rows =
    take limit (sort_by (λ a b. earlier a.claimed_at b.claimed_at) (keep (stuck older_than) rows))

-- `ResetStuckClaims`, with the number of rows affected.
unfoldable pub reset_stuck_claims : Time → ℤ → Time → Queue → Queue × ℕ
reset_stuck_claims older_than limit now q =
    let chosen = choose_stuck older_than (clamp_limit limit) q.rows in
    (record q { rows = update_where (id_in chosen) (reclaimed now) q.rows }, length chosen)

abbrev pub letter_before : Row → Row → Bool
letter_before a b =
    if earlier a.claimed_at b.claimed_at
    then true
    else if earlier b.claimed_at a.claimed_at
    then false
    else ltb a.id b.id

abbrev pub is_dead : Row → Bool
is_dead r = status_eq r.status dead

-- The inner SELECT of `replayDeadLetteredSQL`.
unfoldable pub choose_dead : ℕ → List Row → List Row
choose_dead limit rows = take limit (sort_by letter_before (keep is_dead rows))

-- `ReplayDeadLettered`, with the number of rows affected.
unfoldable pub replay_dead_lettered : ℤ → Time → Queue → Queue × ℕ
replay_dead_lettered limit now q =
    let chosen = choose_dead (clamp_limit limit) q.rows in
    (record q { rows = update_where (id_in chosen) (replayed now) q.rows }, length chosen)
