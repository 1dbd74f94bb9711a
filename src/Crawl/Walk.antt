-- ===== src/Crawl/Walk.antt =====
-- internal/crawl/worker.go: `Worker.walkFrontier` and `Worker.Step`, over the worker's world and the
-- frontier.
use league_of_legends.Prelude.{
  ℕ, ◌+◌, ◌==◌, Bool, true, false, not, List, [], ◌∷◌, map, if◌then◌else◌, ℤ, Time, Duration,
  zero_time, String,
}
use league_of_legends.Store.Row.{QueueKind, match, timeline, pending, QueueItem}
use league_of_legends.Store.Enqueue.{enqueue_matches}
use league_of_legends.Store.Claim.{claim_jobs_of_kind}
use league_of_legends.Store.Frontier.{
  FrontierEntry, Frontier, claim_frontier, mark_frontier_dead, mark_frontier_fetched,
}
use league_of_legends.Crawl.Failure.{FetchError, FailureClass, gone, classify, Policy}
use league_of_legends.Crawl.Worker.{World, JobEnv, DrainEnv, drain_queue}

pub record Site : Type 0 where
  pub world : World
  pub frontier : Frontier

-- What the walk of one player sees: whether the context is done before it, the ids that Riot answers
-- or its error, and which statements succeed.
pub data History : Type 0 where
  answers : List String → History
  fails : FetchError → History

pub record EntryEnv : Type 0 where
  pub stopped : Bool
  pub history : History
  pub dead_ok : Bool
  pub enqueue_ok : ℕ → Bool
  pub mark_ok : Bool
  pub now : Time

-- The row of one match of a player's history.
unfoldable pub to_job : ℤ → String → QueueItem
to_job priority id = record {
  id = 0;
  match_id = id;
  kind = "";
  priority = priority;
  attempts = 0;
  not_before = zero_time;
  claimed_at = zero_time;
  status = pending;
}

abbrev pub is_gone : FailureClass → Bool
is_gone gone = true
is_gone _ = false

-- Where the walk of one player leads: it counts, it does not, or the walk of all ends with an error.
pub data Walked : Type 0 where
  touched skipped broken : Walked

abbrev pub is_empty : List String → Bool
is_empty [] = true
is_empty (id ∷ ids) = false

-- What the statements of a walk leave, once the ids are there.
unfoldable pub record_history : EntryEnv → FrontierEntry → List String → Site → Site × Walked
record_history env e ids s =
    let (q, added, err) =
      enqueue_matches env.enqueue_ok env.now (map (to_job e.priority) ids) s.world.queue in
    let s' : Site = record s { world = record s.world { queue = q } } in
    if err
    then (s', broken)
    else if env.mark_ok
    then (
      record s' { frontier = mark_frontier_fetched e.puuid env.now (is_empty ids) s.frontier },
      touched,
    )
    else (s', broken)

-- The walk of one player.
unfoldable pub walk_entry : EntryEnv → FrontierEntry → Site → Site × Walked
walk_entry env e s = elim env.history [
  | answers ids ↦ record_history env e ids s
  | fails err ↦
      if is_gone (classify err)
      then (if env.dead_ok
          then (record s { frontier = mark_frontier_dead e.puuid err.cause s.frontier }, skipped)
          else (s, broken))
      else (s, broken)
]

-- The loop of `walkFrontier`: the players that counted, and whether an error is returned.
unfoldable pub walk_each : (FrontierEntry → EntryEnv) → List FrontierEntry → Site → Site × ℕ × Bool
walk_each env [] s = (s, 0, false)
walk_each env (e ∷ es) s =
    let (s', walked) = walk_entry (env e) e s in
    let (s'', count, err) = walk_each env es s' in
    if (env e).stopped then (s, 0, false) else elim walked [
      | touched ↦ (s'', count + 1, err)
      | skipped ↦ (s'', count, err)
      | broken ↦ (s', 0, true)
    ]

pub record WalkEnv : Type 0 where
  pub text_before : String → String → Bool
  pub locked : String → Bool
  pub cooldown : Duration
  pub limit : ℤ
  pub now : Time
  pub claim_ok : Bool
  pub entries : FrontierEntry → EntryEnv

-- `walkFrontier`.
unfoldable pub walk_frontier : WalkEnv → Site → Site × ℕ × Bool
walk_frontier env s =
    let (f, entries) =
      claim_frontier env.text_before env.locked env.cooldown env.limit env.now s.frontier in
    let walked = walk_each env.entries entries (record s { frontier = f }) in
    if env.claim_ok then walked else (s, 0, true)

-- Whether `drainQueue`, where it returns no error, has processed a row: one is claimed, and the first
-- of them was started.
abbrev pub starts : (QueueItem → JobEnv) → List QueueItem → Bool
starts env [] = false
starts env (item ∷ items) = not (env item).stopped

abbrev pub is_match : QueueKind → Bool
is_match match = true
is_match timeline = false

pub record StepEnv : Type 0 where
  pub drain : DrainEnv
  pub walk : WalkEnv

-- `Step`: whether it worked, and whether it returns an error.
unfoldable pub step : Policy → QueueKind → StepEnv → Site → Site × Bool × Bool
step o kind e s =
    let (w, err) = drain_queue o e.drain kind s.world in
    let (q, items) =
      claim_jobs_of_kind e.drain.locked kind e.drain.limit e.drain.now s.world.queue in
    let s' : Site = record s { world = w } in
    let (s'', count, walk_err) = walk_frontier e.walk s' in
    if err
    then (s', false, true)
    else if starts e.drain.jobs items
    then (s', true, false)
    else if is_match kind
    then (s'', not (count == 0), walk_err)
    else (s', false, false)
