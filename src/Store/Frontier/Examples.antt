-- ===== src/Store/Frontier/Examples.antt =====
-- internal/store/frontier.go: a frontier of three players, and the theorems about it there.
use league_of_legends.Prelude.{
  ◌≡◌, ◌≢◌, refl, inl, Bool, false, List, [], ◌∷◌, Option, none, some, In, ℤ, pos, ◌-ℤ◌, ◌<ℤ◌, ◌+ℤ◌,
  Time, Duration, seconds, zero_time, keep, sort_by, insert_by, any, String, arith, length,
}
use league_of_legends.Store.Frontier.{
  FrontierEntry, Player, Frontier, update_players, dedupe_frontier, rediscover, upsert_player,
  upsert_each, upsert_frontier, walkable, pick, mark_claimed, to_entry, claim_frontier, mark_dead,
  mark_frontier_dead, prunable, prune_frontier, frontier_size, dead_frontier_size,
}
use league_of_legends.Store.Frontier.Spaced.{Run, start, upserts, claims_spaced, dead_final}

abbrev now : Time
now = seconds 10_000

abbrev discovered : String → FrontierEntry
discovered puuid = record {
  puuid = puuid;
  region = "";
  seed_tier = "GOLD";
  seed_division = "I";
  last_seen_at = zero_time;
  last_fetched_at = zero_time;
  consecutive_empty = 0;
  priority = pos 50;
  dead = false;
}

abbrev player : String → ℤ → Option Time → Player
player puuid priority last_fetched_at = record {
  puuid = puuid;
  region = "europe";
  seed_tier = "GOLD";
  seed_division = "I";
  last_seen_at = some (seconds 5_000);
  last_fetched_at = last_fetched_at;
  consecutive_empty = 0;
  priority = priority;
  dead = false;
  dead_cause = none;
}

-- The second has never been fetched, the third was fetched an instant ago.
abbrev rows : Frontier
rows =
    player "a" (pos 100) (some (seconds 1_000))
    ∷ player "b" (pos 100) none
    ∷ player "c" (pos 10) (some (seconds 9_999))
    ∷ []

-- Entries without a name and repeated ones are dropped; one player of two is new.
adds_one :
    (upsert_frontier "europe" now
      (discovered "a" ∷ discovered "" ∷ discovered "d" ∷ discovered "a" ∷ [])
      rows).1
    ≡ 1
unfolding upsert_frontier dedupe_frontier upsert_each upsert_player any update_players rediscover
adds_one = refl

abbrev anyone : String → Bool
anyone puuid = false

abbrev unordered : String → String → Bool
unordered a b = false

abbrev cooldown : Duration
cooldown = seconds 3_600

abbrev claimed : Frontier × List FrontierEntry
claimed = claim_frontier unordered anyone cooldown (pos 5) now rows

-- The player that was never fetched goes first; the one of an instant ago is not due.
claims_two : length claimed.1 ≡ 2
unfolding claim_frontier pick walkable keep sort_by insert_by to_entry ◌-ℤ◌ mark_claimed
claims_two = refl

abbrev first : FrontierEntry
first = to_entry now (player "b" (pos 100) none)

first-In : In first claimed.1
unfolding claim_frontier pick walkable keep sort_by insert_by to_entry ◌-ℤ◌ mark_claimed
first-In = inl refl

-- A minute later the third player is due, under a shorter list of rows.
abbrev later : Time
later = seconds 13_599

abbrev after : Frontier
after = (upsert_frontier "europe" (seconds 10_060) (discovered "b" ∷ []) claimed.0).0

after-Run : Run now claimed.0 after
after-Run = upserts "europe" (seconds 10_060) (discovered "b" ∷ []) start

abbrev third : FrontierEntry
third = to_entry later (player "c" (pos 10) (some (seconds 9_999)))

third-In : In third (claim_frontier unordered anyone cooldown (pos 5) later after).1
unfolding claim_frontier pick walkable keep sort_by insert_by to_entry ◌-ℤ◌ mark_claimed
    update_players upsert_frontier dedupe_frontier upsert_each upsert_player rediscover any
third-In = inl refl

soon : later <ℤ now +ℤ cooldown
unfolding ◌+ℤ◌
soon = omega arith

claims_spaced_example : first.puuid ≢ third.puuid
claims_spaced_example =
    claims_spaced unordered unordered anyone anyone cooldown (pos 5) (pos 5) now later rows after
      first third first-In after-Run third-In soon

abbrev retired : Frontier
retired = mark_frontier_dead "a" "404" rows

retired_rows : frontier_size retired ≡ 2 × dead_frontier_size retired ≡ 1
unfolding frontier_size dead_frontier_size mark_frontier_dead mark_dead update_players keep
retired_rows = (refl, refl)

-- What is dead is pruned once its last fetch is old enough.
prunes : (prune_frontier (seconds 2_000) 3 retired).1 ≡ 1
unfolding prune_frontier prunable mark_frontier_dead mark_dead update_players keep
prunes = refl

abbrev found_again : Frontier
found_again = (upsert_frontier "europe" now (discovered "a" ∷ []) retired).0

b_entry-In : In first (claim_frontier unordered anyone cooldown (pos 5) now found_again).1
unfolding claim_frontier pick walkable keep sort_by insert_by to_entry ◌-ℤ◌ mark_claimed
    update_players upsert_frontier dedupe_frontier upsert_each upsert_player rediscover any
    mark_frontier_dead mark_dead
b_entry-In = inl refl

dead_final_example : first.puuid ≢ "a"
dead_final_example =
    dead_final unordered anyone cooldown (pos 5) now now "404"
      (player "a" (pos 100) (some (seconds 1_000))) rows found_again first (inl refl)
      (upserts "europe" now (discovered "a" ∷ []) start) b_entry-In
