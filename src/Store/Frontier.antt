-- ===== src/Store/Frontier.antt =====
-- internal/store/frontier.go: the players that the crawl walks. Each SQL statement is a function on the
-- rows of `crawl_frontier`, and takes the instant that it reads. The order of two texts is the
-- collation of the database, an argument.
mod Examples
pub mod Held
pub mod Rank
pub mod Spaced
use league_of_legends.Prelude.{
  ℕ, ◌+◌, Bool, true, false, not, ◌&&◌, ◌||◌, List, [], ◌∷◌, ◌++◌, Option, none, some, ltb, leb,
  if◌then◌else◌, ℤ, pos, ltb_ℤ, leb_ℤ, max_ℤ, min_ℤ, ◌-ℤ◌, Time, Duration, is_zero, zero_time, take,
  map, keep, sort_by, any, length, String, str_eq,
}
use league_of_legends.Store.Row.{clamp_limit, null_text}

-- `contract.FrontierEntry`. The zero time stands for an unset instant.
pub record FrontierEntry : Type 0 where
  pub puuid : String
  pub region : String
  pub seed_tier : String
  pub seed_division : String
  pub last_seen_at : Time
  pub last_fetched_at : Time
  pub consecutive_empty : ℕ
  pub priority : ℤ
  pub dead : Bool

-- A row of the table; `none` is NULL.
pub record Player : Type 0 where
  pub puuid : String
  pub region : String
  pub seed_tier : String
  pub seed_division : String
  pub last_seen_at : Option Time
  pub last_fetched_at : Option Time
  pub consecutive_empty : ℕ
  pub priority : ℤ
  pub dead : Bool
  pub dead_cause : Option String

abbrev pub Frontier : Type 0
Frontier = List Player

abbrev pub is_player : String → Player → Bool
is_player puuid r = str_eq r.puuid puuid

-- UPDATE … SET f WHERE p.
unfoldable pub update_players : (Player → Bool) → (Player → Player) → Frontier → Frontier
update_players p f [] = []
update_players p f (r ∷ rs) = (if p r then f r else r) ∷ update_players p f rs

-- `dedupeFrontier`: the first entry of a player is kept, one without a name is not. `seen` are the
-- players so far.
unfoldable pub dedupe_frontier : List String → List FrontierEntry → List FrontierEntry
dedupe_frontier seen [] = []
dedupe_frontier seen (e ∷ es) =
    let skipped = dedupe_frontier seen es in
    let kept = dedupe_frontier (e.puuid ∷ seen) es in
    if str_eq e.puuid "" || any (str_eq e.puuid) seen then skipped else e ∷ kept

-- GREATEST, which passes over NULL.
abbrev pub greatest : Option Time → Time → Time
greatest none t = t
greatest (some s) t = max_ℤ s t

abbrev pub seen_at : Time → FrontierEntry → Time
seen_at now e = if is_zero e.last_seen_at then now else e.last_seen_at

abbrev pub region_of : String → FrontierEntry → String
region_of region e = if str_eq e.region "" then region else e.region

-- The VALUES of one entry. `region` is the store's own.
unfoldable pub new_player : String → Time → FrontierEntry → Player
new_player region now e = record {
  puuid = e.puuid;
  region = region_of region e;
  seed_tier = e.seed_tier;
  seed_division = e.seed_division;
  last_seen_at = some (seen_at now e);
  last_fetched_at = none;
  consecutive_empty = 0;
  priority = e.priority;
  dead = false;
  dead_cause = none;
}

-- The ON CONFLICT clause.
unfoldable pub rediscover : String → Time → FrontierEntry → Player → Player
rediscover region now e r = record r {
  region = region_of region e;
  seed_tier = e.seed_tier;
  seed_division = e.seed_division;
  last_seen_at = some (greatest r.last_seen_at (seen_at now e));
  priority = min_ℤ r.priority e.priority;
}

-- One entry, and whether it was new.
unfoldable pub upsert_player : String → Time → FrontierEntry → Frontier → Frontier × Bool
upsert_player region now e rows =
    if any (is_player e.puuid) rows
    then (update_players (is_player e.puuid) (rediscover region now e) rows, false)
    else (rows ++ new_player region now e ∷ [], true)

unfoldable pub upsert_each : String → Time → List FrontierEntry → Frontier → Frontier × ℕ
upsert_each region now [] rows = (rows, 0)
upsert_each region now (e ∷ es) rows =
    let (rows', is_new) = upsert_player region now e rows in
    let (rows'', added) = upsert_each region now es rows' in
    (rows'', (if is_new then added + 1 else added))

-- `UpsertFrontier`, with the number of new players. (The batches of an INSERT make no difference once
-- no player is named twice.)
unfoldable pub upsert_frontier : String → Time → List FrontierEntry → Frontier → Frontier × ℕ
upsert_frontier region now entries rows = upsert_each region now (dedupe_frontier [] entries) rows

-- The WHERE clause of the claim. `locked` are the rows that other transactions hold.
abbrev pub is_due : Duration → Time → Option Time → Bool
is_due cooldown now none = true
is_due cooldown now (some t) = leb_ℤ t (now -ℤ cooldown)

unfoldable pub walkable : (String → Bool) → Duration → Time → Player → Bool
walkable locked cooldown now r =
    not r.dead && (is_due cooldown now r.last_fetched_at && not (locked r.puuid))

-- NULLS FIRST.
abbrev pub fetched_before : Option Time → Option Time → Bool
fetched_before none none = false
fetched_before none (some t) = true
fetched_before (some s) none = false
fetched_before (some s) (some t) = ltb_ℤ s t

-- ORDER BY priority, last_fetched_at, puuid.
abbrev pub player_before : (String → String → Bool) → Player → Player → Bool
player_before text_before a b =
    if ltb_ℤ a.priority b.priority
    then true
    else if ltb_ℤ b.priority a.priority
    then false
    else if fetched_before a.last_fetched_at b.last_fetched_at
    then true
    else if fetched_before b.last_fetched_at a.last_fetched_at
    then false
    else text_before a.puuid b.puuid

unfoldable pub pick :
    (String → String → Bool) → (String → Bool) → Duration → ℕ → Time → Frontier → Frontier
pick text_before locked cooldown limit now rows =
    take limit (sort_by (player_before text_before) (keep (walkable locked cooldown now) rows))

abbrev pub picked_player : Frontier → Player → Bool
picked_player picked r = any (λ p. str_eq p.puuid r.puuid) picked

-- The SET clause.
unfoldable pub mark_claimed : Time → Player → Player
mark_claimed now r = record r {
  last_fetched_at = some now;
  last_seen_at = some (elim r.last_seen_at [ none ↦ now | some t ↦ t ]);
}

abbrev pub or_zero_time : Option Time → Time
or_zero_time none = zero_time
or_zero_time (some t) = t

-- One scanned row: `LastFetchedAt` is not read into the entry.
unfoldable pub to_entry : Time → Player → FrontierEntry
to_entry now r = record {
  puuid = r.puuid;
  region = r.region;
  seed_tier = r.seed_tier;
  seed_division = r.seed_division;
  last_seen_at = or_zero_time (mark_claimed now r).last_seen_at;
  last_fetched_at = zero_time;
  consecutive_empty = r.consecutive_empty;
  priority = r.priority;
  dead = r.dead;
}

-- The order in which the rows are sorted again, where NULL is the zero time.
abbrev pub entry_before : (String → String → Bool) → Player → Player → Bool
entry_before text_before a b =
    if ltb_ℤ a.priority b.priority
    then true
    else if ltb_ℤ b.priority a.priority
    then false
    else if ltb_ℤ (or_zero_time a.last_fetched_at) (or_zero_time b.last_fetched_at)
    then true
    else if ltb_ℤ (or_zero_time b.last_fetched_at) (or_zero_time a.last_fetched_at)
    then false
    else text_before a.puuid b.puuid

-- `ClaimFrontier`.
unfoldable pub claim_frontier :
    (String → String → Bool)
    → (String → Bool)
    → Duration
    → ℤ
    → Time
    → Frontier
    → Frontier × List FrontierEntry
claim_frontier text_before locked cooldown limit now rows =
    let picked = pick text_before locked cooldown (clamp_limit limit) now rows in
    (
      update_players (picked_player picked) (mark_claimed now) rows,
      map (to_entry now) (sort_by (entry_before text_before) picked),
    )

-- `MarkFrontierFetched`.
unfoldable pub mark_fetched : Time → Bool → Player → Player
mark_fetched at empty r = record r {
  last_fetched_at = some at;
  last_seen_at = some at;
  consecutive_empty = if empty then r.consecutive_empty + 1 else 0;
}

unfoldable pub mark_frontier_fetched : String → Time → Bool → Frontier → Frontier
mark_frontier_fetched puuid at empty = update_players (is_player puuid) (mark_fetched at empty)

-- `MarkFrontierDead`.
unfoldable pub mark_dead : String → Player → Player
mark_dead cause r = record r { dead = true; dead_cause = null_text cause }

unfoldable pub mark_frontier_dead : String → String → Frontier → Frontier
mark_frontier_dead puuid cause = update_players (is_player puuid) (mark_dead cause)

abbrev pub is_before : Time → Option Time → Bool
is_before t none = false
is_before t (some s) = ltb_ℤ s t

abbrev pub coalesce : Option Time → Option Time → Option Time
coalesce none t = t
coalesce (some s) t = some s

-- The WHERE clause of the DELETE.
unfoldable pub prunable : Time → ℕ → Player → Bool
prunable before most_empty r =
    (r.dead && is_before before (coalesce r.last_fetched_at r.last_seen_at))
    || (leb most_empty r.consecutive_empty && is_before before r.last_seen_at)

-- `PruneFrontier`, with the number of rows that it drops.
unfoldable pub prune_frontier : Time → ℕ → Frontier → Frontier × ℕ
prune_frontier before most_empty rows = (
  keep (λ r. not (prunable before most_empty r)) rows,
  length (keep (prunable before most_empty) rows),
)

-- `FrontierSize` and `DeadFrontierSize`.
unfoldable pub frontier_size : Frontier → ℕ
frontier_size rows = length (keep (λ r. not r.dead) rows)

unfoldable pub dead_frontier_size : Frontier → ℕ
dead_frontier_size rows = length (keep (λ r. r.dead) rows)
