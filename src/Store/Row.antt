-- ===== src/Store/Row.antt =====
-- The rows of `fetch_queue` (internal/contract/contract.go, sql/migrations) and what the queue's
-- statements share.
use league_of_legends.Prelude.{
  ℕ, Bool, true, false, List, [], ◌∷◌, Option, none, some, ltb, ◌==◌, if◌then◌else◌, ℤ, pos, negsuc,
  Time, String, str_eq, any,
}

pub data JobStatus : Type 0 where
  pending claimed done retry dead : JobStatus

pub data QueueKind : Type 0 where
  match timeline : QueueKind

-- `ParseQueueKind` and `Stored`: a kind is a string in Go, and anything but "timeline" is a match.
unfoldable pub parse_queue_kind : String → QueueKind
parse_queue_kind s = if str_eq s "timeline" then timeline else match

unfoldable pub stored : String → QueueKind
stored k = if str_eq k "timeline" then timeline else match

abbrev pub kind_eq : QueueKind → QueueKind → Bool
kind_eq match match = true
kind_eq timeline timeline = true
kind_eq _ _ = false

abbrev pub status_eq : JobStatus → JobStatus → Bool
status_eq pending pending = true
status_eq claimed claimed = true
status_eq done done = true
status_eq retry retry = true
status_eq dead dead = true
status_eq _ _ = false

-- `contract.QueueItem`. The zero time stands for an unset instant.
pub record QueueItem : Type 0 where
  pub id : ℕ
  pub match_id : String
  pub kind : String
  pub priority : ℤ
  pub attempts : ℕ
  pub not_before : Time
  pub claimed_at : Time
  pub status : JobStatus

-- A row of the table; `none` is NULL.
pub record Row : Type 0 where
  pub id : ℕ
  pub match_id : String
  pub kind : QueueKind
  pub priority : ℤ
  pub attempts : ℕ
  pub not_before : Time
  pub claimed_at : Option Time
  pub status : JobStatus
  pub last_cause : Option String
  pub revivals : ℕ

-- The table, and the next value of its identity column.
pub record Queue : Type 0 where
  pub rows : List Row
  pub next_id : ℕ

-- `nullText`.
abbrev pub null_text : String → Option String
null_text s = if str_eq s "" then none else some s

abbrev pub max_claim_limit : ℕ
max_claim_limit = 1000

-- `clampLimit`.
abbrev pub clamp_limit : ℤ → ℕ
clamp_limit (pos n) = if ltb max_claim_limit n then max_claim_limit else n
clamp_limit (negsuc n) = 0

-- UPDATE … SET f WHERE p.
unfoldable pub update_where : (Row → Bool) → (Row → Row) → List Row → List Row
update_where p f [] = []
update_where p f (r ∷ rs) = (if p r then f r else r) ∷ update_where p f rs

-- WHERE id IN (…).
unfoldable pub id_in : List Row → Row → Bool
id_in chosen r = any (λ c. c.id == r.id) chosen

-- WHERE id = n AND status = 'claimed'.
abbrev pub owned : ℕ → Row → Bool
owned n r = if r.id == n then status_eq r.status claimed else false
