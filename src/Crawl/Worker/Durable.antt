-- ===== src/Crawl/Worker/Durable.antt =====
-- internal/crawl/worker.go: the `matches` table never runs ahead of the archive over a batch that
-- returns no error.
use league_of_legends.Prelude.{
  ◌≡◌, sym, subst, ◌⊎◌, inl, inr, Bool, true, false, ◌&&◌, List, [], ◌∷◌, String, str_eq, In, arith,
  if_both, option_both, list_both, if_true_both,
}
use league_of_legends.Store.Row.{QueueKind, QueueItem}
use league_of_legends.Store.Claim.{claim_jobs_of_kind}
use league_of_legends.Raw.Writer.{write_match, write_timeline, flush}
use league_of_legends.Raw.Durable.{Stored, Published-Stored}
use league_of_legends.Raw.Safety.{
  MatchPublished, MatchStored, write_match-stored, write_match-keeps, write_timeline-matches,
  flush-published,
}
use league_of_legends.Crawl.Failure.{Policy}
use league_of_legends.Crawl.Worker.{
  World, JobEnv, Outcome, match_exists, upsert_match, retain_match, process_match, retain_timeline,
  process_timeline_job, process_job, process_batch, DrainEnv, settle_batch, drain_queue,
}
use league_of_legends.Crawl.Worker.Cases.{provenance_both, outcome_both, retain_ends}

-- Every match of the table is in the archive's open parts or published; every one is published.
abbrev pub Archived : World → Type 0
Archived w = (id : String) → In id w.matches → MatchStored id w.writer

abbrev pub Durable : World → Type 0
Durable w = (id : String) → In id w.matches → MatchPublished id w.writer

upsert_match-In :
    (id row : String) (ms : List String) → In id (upsert_match row ms) → (id ≡ row) ⊎ In id ms
upsert_match-In id row ms =
    if_both (λ l. In id l → (id ≡ row) ⊎ In id ms) (match_exists row ms) inr (λ m. m)

retain_match-Archived :
    (o : Policy) (e : JobEnv) (item : QueueItem) (w : World)
    → e.write.io.finalizes ≡ true
    → Archived w
    → Archived (retain_match o e item w).0
unfolding retain_match
retain_match-Archived o e item w f a =
    let written = write_match e.write item.match_id w.writer in
    let keeps : (id : String) → In id w.matches → MatchStored id written.0 =
      λ id m. write_match-keeps e.write item.match_id id w.writer f (a id m) in
    retain_ends (λ r. Archived r.0) written.1 e.upsert_ok _ _ _
      (λ h id m. elim (upsert_match-In id item.match_id w.matches m) [
        | inl i ↦
            subst (λ x. MatchStored x written.0) (sym i)
              (write_match-stored e.write item.match_id w.writer h)
        | inr k ↦ keeps id k
      ])
      keeps keeps

process_match-Archived :
    (o : Policy) (e : JobEnv) (item : QueueItem) (w : World)
    → e.write.io.finalizes ≡ true
    → Archived w
    → Archived (process_match o e item w).0
unfolding process_match
process_match-Archived o e item w f a =
    if_both (λ (r : World × Outcome). Archived r.0)
      (e.knows && match_exists item.match_id w.matches) a
      (option_both (λ (r : World × Outcome). Archived r.0) e.fetch
        (retain_match-Archived o e item w f a) (λ err. a))

retain_timeline-Archived :
    (o : Policy) (e : JobEnv) (item : QueueItem) (w : World)
    → Archived w
    → Archived (retain_timeline o e item w).0
unfolding retain_timeline
retain_timeline-Archived o e item w a =
    let keeps : (id : String)
        → In id w.matches
        → MatchStored id (write_timeline e.write item.match_id w.writer).0 =
      λ id m.
        subst (λ ps. Stored id ps) (sym (write_timeline-matches e.write item.match_id w.writer))
          (a id m) in
    if_both (λ (r : World × Outcome). Archived r.0)
      (write_timeline e.write item.match_id w.writer).1 keeps keeps

process_timeline_job-Archived :
    (o : Policy) (e : JobEnv) (item : QueueItem) (w : World)
    → Archived w
    → Archived (process_timeline_job o e item w).0
unfolding process_timeline_job
process_timeline_job-Archived o e item w a =
    provenance_both (λ (r : World × Outcome). Archived r.0) e.provenance
      (option_both (λ (r : World × Outcome). Archived r.0) e.fetch
        (retain_timeline-Archived o e item w a) (λ err. a))
      a (λ cause. a)

process_job-Archived :
    (o : Policy) (e : JobEnv) (item : QueueItem) (w : World)
    → e.write.io.finalizes ≡ true
    → Archived w
    → Archived (process_job o e item w).0
unfolding process_job
process_job-Archived o e item w f a =
    if_both (λ (r : World × Outcome). Archived r.0) (str_eq item.kind "timeline")
      (process_timeline_job-Archived o e item w a) (process_match-Archived o e item w f a)

pub process_batch-Archived :
    (o : Policy) (env : QueueItem → JobEnv) (items : List QueueItem) (w : World)
    → ((item : QueueItem) → (env item).write.io.finalizes ≡ true)
    → Archived w
    → Archived (process_batch o env items w).0
unfolding process_batch
process_batch-Archived o env [] w f a = a
process_batch-Archived o env (item ∷ items) w f a =
    let now = process_job-Archived o (env item) item w (f item) a in
    let later = process_batch-Archived o env items (process_job o (env item) item w).0 f now in
    if_both (λ (r : World × List QueueItem × Bool). Archived r.0) (env item).stopped a
      (outcome_both (λ (r : World × List QueueItem × Bool). Archived r.0)
        (process_job o (env item) item w).1 later later now)

-- A flush that returns no error publishes the whole table.
settle_batch-Durable :
    (o : Policy) (e : DrainEnv) (retained : List QueueItem) (w : World)
    → Archived w
    → (settle_batch o e retained w).1 ≡ false
    → Durable (settle_batch o e retained w).0
unfolding settle_batch
settle_batch-Durable o e retained w a =
    if_true_both (λ (r : World × Bool). r.1 ≡ false → Durable r.0)
      (flush e.flush_done e.finalizes w.writer).1
      (λ h _ id m. (flush-published e.flush_done e.finalizes w.writer h).0 id (a id m))
      (λ h. ground arith)

-- If every match of the table is published, and no part that fills up during the batch fails to be
-- finalised, then after a `drainQueue` that returns no error every match of the table is published
-- again, those of the batch included.
pub drain_queue-Durable :
    (o : Policy) (e : DrainEnv) (kind : QueueKind) (w : World)
    → ((item : QueueItem) → (e.jobs item).write.io.finalizes ≡ true)
    → Durable w
    → (drain_queue o e kind w).1 ≡ false
    → (id : String) → In id (drain_queue o e kind w).0.matches
    → MatchPublished id (drain_queue o e kind w).0.writer
unfolding drain_queue
drain_queue-Durable o e kind w f d =
    let (q, items) = claim_jobs_of_kind e.locked kind e.limit e.now w.queue in
    let w0 = record w { queue = q } in
    let batch = process_batch o e.jobs items w0 in
    let a =
      process_batch-Archived o e.jobs items w0 f
        (λ id m. Published-Stored id w.writer.match_parts (d id m)) in
    if_both (λ (r : World × Bool). r.1 ≡ false → Durable r.0) e.claim_ok
      (list_both (λ (r : World × Bool). r.1 ≡ false → Durable r.0) items (λ _. d)
        (λ _ _.
          if_both (λ (r : World × Bool). r.1 ≡ false → Durable r.0) batch.2 (λ h. ground arith)
            (settle_batch-Durable o e batch.1 batch.0 a)))
      (λ h. ground arith)
