-- ===== src/Store/Lifecycle.antt =====
-- internal/store/queue.go, maintain.go: the life of a row, and what holds of the whole table.
pub mod Update
pub mod Trace
pub mod Inserts
pub mod Statements
use league_of_legends.Prelude.{
  ℕ, zero, suc, ◌+◌, ◌≤◌, ◌<◌, ◌≡◌, ◌⊎◌, Bool, false, List, [], ◌∷◌, Option, none, some, All, Time,
  String, ◌≢◌,
}
use league_of_legends.Store.Row.{JobStatus, pending, claimed, done, retry, dead, Row, Queue}
use league_of_legends.Store.Enqueue.{conflicts, revive, revival_budget}
use league_of_legends.Store.Claim.{claim}
use league_of_legends.Store.Close.{completed, retried, lettered, released, reclaimed, replayed}

-- The ways in which one statement can change a row, with the status that each starts from.
pub data RowStep : Row → Row → Type 0 where
  same : {r : Row} → RowStep r r
  claims :
      {r : Row} (now : Time) → (r.status ≡ pending) ⊎ (r.status ≡ retry) → RowStep r (claim now r)
  completes : {r : Row} → r.status ≡ claimed → RowStep r (completed r)
  retries :
      {r : Row} (not_before : Time) (cause : Option String)
      → r.status ≡ claimed
      → RowStep r (retried not_before cause r)
  letters :
      {r : Row} (now : Time) (cause : Option String)
      → r.status ≡ claimed
      → RowStep r (lettered now cause r)
  releases :
      {r : Row} (not_before : Time) (cause : Option String)
      → r.status ≡ claimed
      → RowStep r (released not_before cause r)
  reclaims : {r : Row} (now : Time) → r.status ≡ claimed → RowStep r (reclaimed now r)
  replays : {r : Row} (now : Time) → r.status ≡ dead → RowStep r (replayed now r)
  revives :
      {r : Row} (new : Row)
      → new.status ≡ pending
      → r.status ≡ dead
      → r.revivals < revival_budget
      → RowStep r (revive new r)

-- Every row takes a step, and none is added or lost.
pub data Updates : List Row → List Row → Type 0 where
  nil : Updates [] []
  cons :
      {r r' : Row} {rs rs' : List Row} → RowStep r r' → Updates rs rs' → Updates (r ∷ rs) (r' ∷ rs')

-- Every row takes a step, and rows may be added at the end.
pub data Evolves : List Row → List Row → Type 0 where
  added : {rs : List Row} → Evolves [] rs
  next :
      {r r' : Row} {rs rs' : List Row} → RowStep r r' → Evolves rs rs' → Evolves (r ∷ rs) (r' ∷ rs')

-- What holds of a row between two statements.
pub record IsValid (r : Row) : Type 0 where
  pub claim_stamped : r.status ≡ claimed → r.claimed_at ≢ none
  pub letter_stamped : r.status ≡ dead → r.claimed_at ≢ none
  pub pending_unstamped : r.status ≡ pending → r.claimed_at ≡ none
  pub retry_unstamped : r.status ≡ retry → r.claimed_at ≡ none
  pub done_unstamped : r.status ≡ done → r.claimed_at ≡ none
  pub claim_counted : r.status ≡ claimed → 1 ≤ r.attempts
  pub revivals_capped : r.revivals ≤ revival_budget

-- The ids rise along the table from `lo`, and stay below `hi`.
abbrev pub InOrder : ℕ → List Row → ℕ → Type 0
InOrder lo [] hi = lo ≤ hi
InOrder lo (r ∷ rs) hi = (lo ≤ r.id) × InOrder (suc r.id) rs hi

-- No two rows ask for the same payload: UNIQUE (match_id, kind).
abbrev pub KeysDistinct : List Row → Type 0
KeysDistinct [] = Unit
KeysDistinct (r ∷ rs) = All (λ s. conflicts r s ≡ false) rs × KeysDistinct rs

pub record Inv (q : Queue) : Type 0 where
  pub ids : InOrder 0 q.rows q.next_id
  pub keys : KeysDistinct q.rows
  pub valid : All IsValid q.rows
