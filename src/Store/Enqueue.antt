-- ===== src/Store/Enqueue.antt =====
-- internal/store/queue.go: `EnqueueMatches` and `dedupeQueueItems`.
pub mod Dedupe
use league_of_legends.Prelude.{
  ℕ, zero, suc, ◌+◌, ◌-◌, ◌≡◌, Bool, true, false, List, [], ◌∷◌, ◌++◌, Option, none, some, ltb, leb,
  ◌==◌, if◌then◌else◌, ℤ, pos, ltb_ℤ, Time, is_zero, String, str_eq, length, take, drop, ◌&&◌,
}
use league_of_legends.Store.Row.{
  JobStatus, pending, dead, QueueKind, stored, kind_eq, status_eq, QueueItem, Row, Queue,
}

abbrev pub enqueue_batch : ℕ
enqueue_batch = 500

abbrev pub revival_budget : ℕ
revival_budget = 3

-- Two items ask for the same payload: their `key` in `dedupeQueueItems`.
unfoldable pub same_key : QueueItem → QueueItem → Bool
same_key i j = str_eq i.match_id j.match_id && kind_eq (stored i.kind) (stored j.kind)

-- One turn of the loop: a known key keeps the lower priority value, a new one goes to the end.
unfoldable pub absorb : QueueItem → List QueueItem → List QueueItem
absorb i [] = i ∷ []
absorb i (j ∷ js) =
    if same_key i j
    then (if ltb_ℤ i.priority j.priority then record j { priority = i.priority } else j) ∷ js
    else j ∷ absorb i js

unfoldable pub dedupe_from : List QueueItem → List QueueItem → List QueueItem
dedupe_from out [] = out
dedupe_from out (i ∷ is) = dedupe_from (if str_eq i.match_id "" then out else absorb i out) is

unfoldable pub dedupe_queue_items : List QueueItem → List QueueItem
dedupe_queue_items items = dedupe_from [] items

-- The values that the statement inserts for an item.
unfoldable pub excluded : Time → ℕ → QueueItem → Row
excluded now id i = record {
  id = id;
  match_id = i.match_id;
  kind = stored i.kind;
  priority = i.priority;
  attempts = i.attempts;
  not_before = if is_zero i.not_before then now else i.not_before;
  claimed_at = none;
  status = pending;
  last_cause = none;
  revivals = 0;
}

-- ON CONFLICT (match_id, kind).
abbrev pub conflicts : Row → Row → Bool
conflicts new r = str_eq r.match_id new.match_id && kind_eq r.kind new.kind

-- `reviveDeadRowWhere`.
abbrev pub revivable : Row → Bool
revivable r = status_eq r.status dead && ltb r.revivals revival_budget

-- `reviveDeadRowSet`.
unfoldable pub revive : Row → Row → Row
revive new r = record r {
  status = new.status;
  attempts = 0;
  revivals = r.revivals + 1;
  not_before = new.not_before;
  claimed_at = none;
  last_cause = none;
}

-- INSERT … ON CONFLICT DO UPDATE of one row, with the number of rows affected.
unfoldable pub upsert : Row → List Row → List Row × ℕ
upsert new [] = (new ∷ [], 1)
upsert new (r ∷ rs) =
    let (rest, n) = upsert new rs in
    if conflicts new r
    then (if revivable r then (revive new r ∷ rs, 1) else (r ∷ rs, 0))
    else (r ∷ rest, n)

-- One statement: the rows of a chunk in turn. A conflict uses a value of the identity column too.
unfoldable pub insert_chunk : Time → List QueueItem → Queue → Queue × ℕ
insert_chunk now [] q = (q, 0)
insert_chunk now (i ∷ is) q =
    let (rows, n) = upsert (excluded now q.next_id i) q.rows in
    let (q', m) = insert_chunk now is (record { rows = rows; next_id = q.next_id + 1 }) in
    (q', n + m)

-- The loop over the chunks: `batch` is what is left of it, `db n` whether the statement that is n-th
-- from the end of the fuel succeeds. The Boolean is whether an error was returned.
unfoldable pub insert_chunks : ℕ → (ℕ → Bool) → Time → List QueueItem → ℕ → Queue → Queue × ℕ × Bool
insert_chunks zero db now batch added q = (q, added, false)
insert_chunks (suc fuel) db now [] added q = (q, added, false)
insert_chunks (suc fuel) db now (i ∷ is) added q =
    let batch = i ∷ is in
    let (q', n) = insert_chunk now (take enqueue_batch batch) q in
    let rest = insert_chunks fuel db now (drop enqueue_batch batch) (added + n) q' in
    if db fuel then rest else (q, added, true)

-- `EnqueueMatches`: every chunk takes an item at least, so the number of items is fuel enough.
unfoldable pub enqueue_matches : (ℕ → Bool) → Time → List QueueItem → Queue → Queue × ℕ × Bool
enqueue_matches db now items q =
    let batch = dedupe_queue_items items in insert_chunks (length batch) db now batch 0 q
