-- ===== src/Store/Claim.antt =====
-- internal/store/queue.go: `ClaimJobsOfKind`.
pub mod Order
pub mod Exclusive
use league_of_legends.Prelude.{
  ℕ, ◌+◌, ◌≡◌, Bool, true, false, not, ◌&&◌, ◌||◌, List, [], ◌∷◌, Option, none, some, ltb, leb,
  ◌==◌, if◌then◌else◌, ℤ, pos, ltb_ℤ, leb_ℤ, Time, zero_time, take, map, keep, sort_by,
}
use league_of_legends.Store.Row.{
  JobStatus, pending, claimed, retry, QueueKind, match, timeline, kind_eq, status_eq, QueueItem,
  Row, Queue, clamp_limit, update_where, id_in,
}

-- The WHERE clause of the inner SELECT. `locked` are the rows that other transactions hold, which
-- SKIP LOCKED passes over.
abbrev pub claimable : (ℕ → Bool) → QueueKind → Time → Row → Bool
claimable locked kind now r =
    kind_eq r.kind kind
    && (status_eq r.status pending || status_eq r.status retry)
    && leb_ℤ r.not_before now
    && not (locked r.id)

-- ORDER BY priority, not_before, id.
abbrev pub row_before : Row → Row → Bool
row_before a b =
    if ltb_ℤ a.priority b.priority
    then true
    else if ltb_ℤ b.priority a.priority
    then false
    else if ltb_ℤ a.not_before b.not_before
    then true
    else if ltb_ℤ b.not_before a.not_before
    then false
    else ltb a.id b.id

-- The inner SELECT.
unfoldable pub choose : (ℕ → Bool) → QueueKind → ℕ → Time → List Row → List Row
choose locked kind limit now rows =
    take limit (sort_by row_before (keep (claimable locked kind now) rows))

-- The SET clause.
unfoldable pub claim : Time → Row → Row
claim now r = record r { status = claimed; claimed_at = some now; attempts = r.attempts + 1 }

abbrev pub kind_text : QueueKind → Prim.Native.String.String
kind_text match = "match"
kind_text timeline = "timeline"

abbrev pub or_zero : Option Time → Time
or_zero none = zero_time
or_zero (some t) = t

-- One scanned row of the RETURNING clause.
unfoldable pub to_item : Row → QueueItem
to_item r = record {
  id = r.id;
  match_id = r.match_id;
  kind = kind_text r.kind;
  priority = r.priority;
  attempts = r.attempts;
  not_before = r.not_before;
  claimed_at = or_zero r.claimed_at;
  status = r.status;
}

-- RETURNING promises no order (here it is the table's), so the rows are sorted again.
unfoldable pub claim_jobs_of_kind :
    (ℕ → Bool) → QueueKind → ℤ → Time → Queue → Queue × List QueueItem
claim_jobs_of_kind locked kind limit now q =
    let chosen = choose locked kind (clamp_limit limit) now q.rows in
    let taken = keep (id_in chosen) q.rows in
    (
      record q { rows = update_where (id_in chosen) (claim now) q.rows },
      map to_item (sort_by row_before (map (claim now) taken)),
    )
