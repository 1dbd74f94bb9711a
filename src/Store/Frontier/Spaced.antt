-- ===== src/Store/Frontier/Spaced.antt =====
-- internal/store/frontier.go: whom a claim hands out, and whom no later claim does.
use league_of_legends.Prelude.{
  ◌≡◌, refl, sym, ap, ◌∙◌, ◌≢◌, Bool, true, false, List, Option, none, some, ℤ, ◌≤ℤ◌, ◌<ℤ◌, ◌+ℤ◌,
  +ℤ_parts, -ℤ_parts, Time, Duration, In, In-map, In-take, In-keep, In-sort_by, In-any, any,
  sort_by, String, str_eq, eq_iff, true_false, arith, Never,
}
use league_of_legends.Store.Row.{clamp_limit}
use league_of_legends.Store.Frontier.{
  FrontierEntry, Player, Frontier, is_player, rediscover, upsert_frontier, is_due, walkable,
  player_before, entry_before, pick, picked_player, mark_claimed, to_entry, claim_frontier,
  mark_fetched, mark_frontier_fetched, mark_dead, mark_frontier_dead,
}
use league_of_legends.Store.Frontier.Rank.{rerank, misranked, recompute_frontier_priority}
use league_of_legends.Store.Frontier.Held.{
  Held, Keeps, update_players-Held, update_players-gives, upsert_frontier-Held,
}

-- What the statements make of the table from `since` on, at any later instants, but for a prune.
pub data Run (since : Time) (first : Frontier) : Frontier → Type 0 where
  start : Run since first first
  upserts :
      {rows : Frontier} (region : String) (now : Time) (entries : List FrontierEntry)
      → Run since first rows
      → Run since first (upsert_frontier region now entries rows).0
  claims :
      {rows : Frontier} (text_before : String → String → Bool) (locked : String → Bool)
      (cooldown : Duration) (limit : ℤ) (now : Time)
      → since ≤ℤ now
      → Run since first rows
      → Run since first (claim_frontier text_before locked cooldown limit now rows).0
  fetches :
      {rows : Frontier} (puuid : String) (at : Time) (empty : Bool)
      → since ≤ℤ at
      → Run since first rows
      → Run since first (mark_frontier_fetched puuid at empty rows)
  retires :
      {rows : Frontier} (puuid cause : String)
      → Run since first rows
      → Run since first (mark_frontier_dead puuid cause rows)
  reranks :
      {rows : Frontier}
      → Run since first rows
      → Run since first (recompute_frontier_priority rows).0

-- A property of rows that the statements keep.
pub record IsStable (since : Time) (P : Player → Type 0) : Type 0 where
  pub rediscovered :
      (region : String) (now : Time) (e : FrontierEntry) (r : Player)
      → P r
      → P (rediscover region now e r)
  pub claimed : (now : Time) (r : Player) → since ≤ℤ now → P r → P (mark_claimed now r)
  pub fetched :
      (at : Time) (empty : Bool) (r : Player) → since ≤ℤ at → P r → P (mark_fetched at empty r)
  pub retired : (cause : String) (r : Player) → P r → P (mark_dead cause r)
  pub reranked : (r : Player) → P r → P (rerank r)

mark_claimed-Keeps : (now : Time) → Keeps (mark_claimed now)
unfolding mark_claimed
mark_claimed-Keeps now r = refl

mark_fetched-Keeps : (at : Time) (empty : Bool) → Keeps (mark_fetched at empty)
unfolding mark_fetched
mark_fetched-Keeps at empty r = refl

mark_dead-Keeps : (cause : String) → Keeps (mark_dead cause)
unfolding mark_dead
mark_dead-Keeps cause r = refl

rerank-Keeps : Keeps rerank
unfolding rerank
rerank-Keeps r = refl

Run-Held :
    {since : Time} {first rows : Frontier} (puuid : String) (P : Player → Type 0)
    → IsStable since P
    → Run since first rows
    → Held puuid P first
    → Held puuid P rows
unfolding claim_frontier mark_frontier_fetched mark_frontier_dead recompute_frontier_priority
Run-Held puuid P s start h = h
Run-Held puuid P s (upserts {rows} region now entries run) h =
    upsert_frontier-Held region now entries puuid P rows (λ e r. s.rediscovered region now e r)
      (Run-Held puuid P s run h)
Run-Held puuid P s (claims {rows} text_before locked cooldown limit now later run) h =
    update_players-Held _ (mark_claimed now) puuid P rows (mark_claimed-Keeps now)
      (λ r. s.claimed now r later) (Run-Held puuid P s run h)
Run-Held puuid P s (fetches {rows} player at empty later run) h =
    update_players-Held (is_player player) (mark_fetched at empty) puuid P rows
      (mark_fetched-Keeps at empty) (λ r. s.fetched at empty r later) (Run-Held puuid P s run h)
Run-Held puuid P s (retires {rows} player cause run) h =
    update_players-Held (is_player player) (mark_dead cause) puuid P rows (mark_dead-Keeps cause)
      (s.retired cause) (Run-Held puuid P s run h)
Run-Held puuid P s (reranks {rows} run) h =
    update_players-Held misranked rerank puuid P rows rerank-Keeps s.reranked
      (Run-Held puuid P s run h)

to_entry-puuid : (now : Time) (r : Player) → (to_entry now r).puuid ≡ r.puuid
unfolding to_entry
to_entry-puuid now r = refl

module _ (text_before : String → String → Bool) (locked : String → Bool) (cooldown : Duration)
    (limit : ℤ) (now : Time) (rows : Frontier) where
  abbrev picked : Frontier
  picked = pick text_before locked cooldown (clamp_limit limit) now rows

  -- A player that is handed out has a row that the claim may take.
  claimed_row :
      (x : FrontierEntry)
      → In x (claim_frontier text_before locked cooldown limit now rows).1
      → (r : Player) × In r picked
        × In r rows
        × (walkable locked cooldown now r ≡ true)
        × (x.puuid ≡ r.puuid)
  unfolding claim_frontier pick
  claimed_row x m =
      let (r, m', e) = In-map (to_entry now) x (sort_by (entry_before text_before) picked) m in
      let r_picked = In-sort_by (entry_before text_before) r picked m' in
      let (r_in, can) =
        In-keep (walkable locked cooldown now) r rows
          (In-sort_by (player_before text_before) r _ (In-take (clamp_limit limit) r _ r_picked)) in
      (r, r_picked, r_in, can, ap (λ (y : FrontierEntry). y.puuid) e ∙ to_entry-puuid now r)

-- The row was last fetched at `since` or later.
abbrev Since : Time → Option Time → Type 0
Since since none = Never
Since since (some t) = since ≤ℤ t

abbrev FetchedSince : Time → Player → Type 0
FetchedSince since r = Since since r.last_fetched_at

FetchedSince-IsStable : (since : Time) → IsStable since (FetchedSince since)
unfolding rediscover mark_claimed mark_fetched mark_dead rerank
FetchedSince-IsStable since = record {
  rediscovered = λ region now e r h. h;
  claimed = λ now r later h. later;
  fetched = λ at empty r later h. later;
  retired = λ cause r h. h;
  reranked = λ r h. h;
}

Dead-IsStable : (since : Time) → IsStable since (λ r. r.dead ≡ true)
unfolding rediscover mark_claimed mark_fetched mark_dead rerank
Dead-IsStable since = record {
  rediscovered = λ region now e r h. h;
  claimed = λ now r later h. h;
  fetched = λ at empty r later h. h;
  retired = λ cause r h. refl;
  reranked = λ r h. h;
}

name_there : (r : Player) (rows : Frontier) → In r rows → any (is_player r.puuid) rows ≡ true
name_there r rows m = In-any (is_player r.puuid) r rows m ((eq_iff r.puuid r.puuid).1 refl)

claim-FetchedSince :
    (text_before : String → String → Bool) (locked : String → Bool) (cooldown : Duration)
    (limit : ℤ) (now : Time) (rows : Frontier) (r : Player)
    → In r rows
    → In r (pick text_before locked cooldown (clamp_limit limit) now rows)
    → Held r.puuid (FetchedSince now) (claim_frontier text_before locked cooldown limit now rows).0
unfolding claim_frontier mark_claimed
claim-FetchedSince text_before locked cooldown limit now rows r m chosen =
    update_players-gives (mark_claimed now) r.puuid (FetchedSince now) rows
      (picked_player (pick text_before locked cooldown (clamp_limit limit) now rows))
      (mark_claimed-Keeps now)
      (λ s named.
        In-any (λ (p : Player). str_eq p.puuid s.puuid) r _ chosen
          ((eq_iff r.puuid s.puuid).1 (sym named)))
      (λ s. omega arith) (name_there r rows m)

due_since :
    (cooldown : Duration) (since now : Time) (last : Option Time)
    → is_due cooldown now last ≡ true
    → Since since last
    → now <ℤ since +ℤ cooldown
    → Never {0}
due_since cooldown since now none due s soon = s
due_since cooldown since now (some t) due s soon =
    ground (arith, due, s, soon, +ℤ_parts since cooldown, -ℤ_parts now cooldown)

walkable-due :
    (locked : String → Bool) (cooldown : Duration) (now : Time) (r : Player)
    → walkable locked cooldown now r ≡ true
    → (r.dead ≡ false) × (is_due cooldown now r.last_fetched_at ≡ true)
unfolding walkable
walkable-due locked cooldown now r h = ground (arith, h)

-- No player is walked twice within the cooldown: whom one claim hands out, no claim by any worker
-- hands out before the cooldown has passed, whatever players are discovered, fetched, claimed, ranked
-- or retired in between, if none is pruned.
pub claims_spaced :
    (text_before text_before' : String → String → Bool) (locked locked' : String → Bool)
    (cooldown : Duration) (limit limit' : ℤ) (now now' : Time) (rows rows' : Frontier)
    (x y : FrontierEntry)
    → In x (claim_frontier text_before locked cooldown limit now rows).1
    → Run now (claim_frontier text_before locked cooldown limit now rows).0 rows'
    → In y (claim_frontier text_before' locked' cooldown limit' now' rows').1
    → now' <ℤ now +ℤ cooldown
    → x.puuid ≢ y.puuid
claims_spaced text_before text_before' locked locked' cooldown limit limit' now now' rows rows' x y
      m run m' soon same =
    let (r, chosen, r_in, _, x_is) = claimed_row text_before locked cooldown limit now rows x m in
    let (s, _, s_in, can, y_is) =
      claimed_row text_before' locked' cooldown limit' now' rows' y m' in
    let held =
      Run-Held r.puuid (FetchedSince now) (FetchedSince-IsStable now) run
        (claim-FetchedSince text_before locked cooldown limit now rows r r_in chosen) in
    let never : Never {0} =
      due_since cooldown now now' s.last_fetched_at (walkable-due locked' cooldown now' s can).1
        (held.each s s_in (sym y_is ∙ sym same ∙ x_is)) soon in
    elim never [ ]

retired-Dead :
    (cause : String) (r : Player) (rows : Frontier)
    → In r rows
    → Held r.puuid (λ s. s.dead ≡ true) (mark_frontier_dead r.puuid cause rows)
unfolding mark_frontier_dead mark_dead
retired-Dead cause r rows m =
    update_players-gives (mark_dead cause) r.puuid (λ s. s.dead ≡ true) rows (is_player r.puuid)
      (mark_dead-Keeps cause) (λ s named. (eq_iff s.puuid r.puuid).1 named) (λ s. refl)
      (name_there r rows m)

-- A player that is declared dead is never walked again, however often it is discovered anew, if it is
-- not pruned: no later claim hands it out.
pub dead_final :
    (text_before : String → String → Bool) (locked : String → Bool) (cooldown : Duration)
    (limit : ℤ) (since now : Time) (cause : String) (r : Player) (rows rows' : Frontier)
    (y : FrontierEntry)
    → In r rows
    → Run since (mark_frontier_dead r.puuid cause rows) rows'
    → In y (claim_frontier text_before locked cooldown limit now rows').1
    → y.puuid ≢ r.puuid
dead_final text_before locked cooldown limit since now cause r rows rows' y m run m' same =
    let (s, _, s_in, can, y_is) = claimed_row text_before locked cooldown limit now rows' y m' in
    let held =
      Run-Held r.puuid (λ s. s.dead ≡ true) (Dead-IsStable since) run
        (retired-Dead cause r rows m) in
    true_false (held.each s s_in (sym y_is ∙ same)) (walkable-due locked cooldown now s can).0
