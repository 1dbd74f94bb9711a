-- ===== src/Crawl/Worker.antt =====
-- internal/crawl/worker.go: `Worker.drainQueue` and what it calls, and timeline.go: the job of a
-- timeline. The state is the queue, the ids of the `matches` table and the archive writer.
pub mod Cases
pub mod Closing
pub mod Handlers
pub mod Retained
pub mod Durable
pub mod Done
use league_of_legends.Prelude.{
  ℕ, Bool, true, false, ◌&&◌, List, [], ◌∷◌, Option, none, some, if◌then◌else◌, ℤ, Time, String,
  str_eq, any,
}
use league_of_legends.Store.Row.{QueueKind, match, timeline, stored, QueueItem, Queue}
use league_of_legends.Store.Claim.{claim_jobs_of_kind}
use league_of_legends.Store.Close.{complete_job}
use league_of_legends.Raw.Writer.{Writer, WriteEnv, write_match, write_timeline, flush}
use league_of_legends.Crawl.Failure.{
  FetchError, Policy, HandlerEnv, call, release, retry_detached, requeue, requeue_after,
  retry_delay, dead_letter, handle_fetch_failure, handle_archive_failure,
}

pub record World : Type 0 where
  pub queue : Queue
  pub matches : List String
  pub writer : Writer

-- What `MatchProvenance` answers: the record of the summary, that there is none, or another error
-- with its short cause.
pub data Provenance : Type 0 where
  summary no_summary : Provenance
  unreadable : String → Provenance

-- What the job of one item sees. `stopped` is `ctx.Err() != nil` before the item is started, and
-- `knows` is whether the store can be asked for a match and answers without an error.
pub record JobEnv : Type 0 where
  pub stopped : Bool
  pub knows : Bool
  pub complete_ok : Bool
  pub provenance : Provenance
  pub fetch : Option FetchError
  pub write : WriteEnv
  pub upsert_ok : Bool
  pub handler : HandlerEnv

-- What a job returns: whether its row is ready to be completed, or an error.
pub data Outcome : Type 0 where
  held settled failed : Outcome

abbrev pub returned : World → Queue × Bool → World × Outcome
returned w (q, err) = (record w { queue = q }, if err then failed else settled)

-- `Store.MatchExists` and `Store.UpsertMatch`.
abbrev pub match_exists : String → List String → Bool
match_exists id matches = any (str_eq id) matches

abbrev pub upsert_match : String → List String → List String
upsert_match id matches = if match_exists id matches then matches else id ∷ matches

abbrev pub archive_cause : String
archive_cause = "archive"

-- `processJob` after the fetch: the archive is written before the database.
unfoldable pub retain_match : Policy → JobEnv → QueueItem → World → World × Outcome
retain_match o e item w =
    let (writer', written) = write_match e.write item.match_id w.writer in
    let w' = record w { writer = writer' } in
    if written
    then (if e.upsert_ok
        then (record w' { matches = upsert_match item.match_id w.matches }, held)
        else (w', failed))
    else returned w' (handle_archive_failure o e.handler item archive_cause w.queue)

-- `processJob` for a match.
unfoldable pub process_match : Policy → JobEnv → QueueItem → World → World × Outcome
process_match o e item w =
    if e.knows && match_exists item.match_id w.matches
    then returned w (call e.complete_ok (complete_job item.id w.queue) w.queue)
    else elim e.fetch [
      | some err ↦ returned w (handle_fetch_failure o e.handler item err w.queue)
      | none ↦ retain_match o e item w
    ]

unfoldable pub retain_timeline : Policy → JobEnv → QueueItem → World → World × Outcome
retain_timeline o e item w =
    let (writer', written) = write_timeline e.write item.match_id w.writer in
    let w' = record w { writer = writer' } in
    if written
    then (w', held)
    else returned w' (handle_archive_failure o e.handler item archive_cause w.queue)

-- `processTimelineJob`.
unfoldable pub process_timeline_job : Policy → JobEnv → QueueItem → World → World × Outcome
process_timeline_job o e item w = elim e.provenance [
  | no_summary ↦ returned w (dead_letter e.handler item "no-summary" w.queue)
  | unreadable cause ↦ returned w (
      if e.handler.stopped
      then retry_detached e.handler item cause w.queue
      else requeue_after e.handler item cause (retry_delay o e.handler.random item.attempts)
          w.queue)
  | summary ↦ elim e.fetch [
    | some err ↦ returned w (handle_fetch_failure o e.handler item err w.queue)
    | none ↦ retain_timeline o e item w
  ]
]

-- `processJob`. (`widen` only adds players to the frontier.)
unfoldable pub process_job : Policy → JobEnv → QueueItem → World → World × Outcome
process_job o e item w =
    if str_eq item.kind "timeline"
    then process_timeline_job o e item w
    else process_match o e item w

-- `releaseUnstarted`: an error of the store is logged only. Its context is detached from the stop.
unfoldable pub release_unstarted :
    Policy → (QueueItem → HandlerEnv) → List QueueItem → Queue → Queue
release_unstarted o env [] q = q
release_unstarted o env (item ∷ items) q =
    release_unstarted o env items (release o (record (env item) { stopped = false }) item "" q).0

-- The loop of `drainQueue`: the world, the rows that were retained, and whether a job returned an
-- error.
unfoldable pub process_batch :
    Policy → (QueueItem → JobEnv) → List QueueItem → World → World × List QueueItem × Bool
process_batch o env [] w = (w, [], false)
process_batch o env (item ∷ items) w =
    let (w', outcome) = process_job o (env item) item w in
    let (w'', retained, err) = process_batch o env items w' in
    if (env item).stopped
    then (
      record w { queue = release_unstarted o (λ i. (env i).handler) (item ∷ items) w.queue },
      [],
      false,
    )
    else elim outcome [
      | held ↦ (w'', item ∷ retained, err)
      | settled ↦ (w'', retained, err)
      | failed ↦ (w', [], true)
    ]

-- What the end of `drainQueue` sees: whether the context is done after the loop, whether the flush
-- finds its context done, which directories it can finalise, and whether each row can be completed.
pub record DrainEnv : Type 0 where
  pub locked : ℕ → Bool
  pub now : Time
  pub limit : ℤ
  pub claim_ok : Bool
  pub jobs : QueueItem → JobEnv
  pub stopped : Bool
  pub flush_done : Bool
  pub finalizes : String → Bool
  pub flush_cause : String
  pub complete_ok : QueueItem → Bool

-- The loop of `abandonRetained`: an error of the store is logged only. `cause` is the one that is
-- recorded, `archiveFlushCause` with the short cause.
unfoldable pub abandon_each :
    Policy → (QueueItem → HandlerEnv) → String → List QueueItem → Queue → Queue
abandon_each o env cause [] q = q
abandon_each o env cause (item ∷ items) q =
    abandon_each o env cause items (handle_archive_failure o (env item) item cause q).0

-- `abandonRetained`.
unfoldable pub abandon_retained : Policy → DrainEnv → List QueueItem → Queue → Queue
abandon_retained o e retained q =
    if e.stopped then q else abandon_each o (λ i. (e.jobs i).handler) e.flush_cause retained q

-- The closing loop of `drainQueue`, which stops at the first error.
unfoldable pub complete_each : (QueueItem → Bool) → List QueueItem → Queue → Queue × Bool
complete_each ok [] q = (q, false)
complete_each ok (item ∷ items) q =
    let rest = complete_each ok items (complete_job item.id q) in
    if ok item then rest else (q, true)

-- `drainQueue` from the flush on. The Boolean is whether an error is returned.
unfoldable pub settle_batch : Policy → DrainEnv → List QueueItem → World → World × Bool
settle_batch o e retained w =
    let (writer', flushed) = flush e.flush_done e.finalizes w.writer in
    let (q, err) = complete_each e.complete_ok retained w.queue in
    if flushed
    then (record w { writer = writer'; queue = q }, err)
    else (record w { writer = writer'; queue = abandon_retained o e retained w.queue }, true)

-- `drainQueue`.
unfoldable pub drain_queue : Policy → DrainEnv → QueueKind → World → World × Bool
drain_queue o e kind w =
    if e.claim_ok
    then (let (q, items) = claim_jobs_of_kind e.locked kind e.limit e.now w.queue in
        let (w', retained, err) = process_batch o e.jobs items (record w { queue = q }) in
        elim items [
          | [] ↦ (record w { queue = q }, false)
          | item ∷ rest ↦ if err then (w', true) else settle_batch o e retained w'
        ])
    else (w, true)
