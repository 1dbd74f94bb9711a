-- ===== src/Crawl/Worker/Retained.antt =====
-- internal/crawl/worker.go: the payload of a row that one job retains or closes.
use league_of_legends.Prelude.{
  ◌≡◌, refl, sym, subst, ◌⊎◌, inl, inr, Bool, true, false, ◌&&◌, List, String, str_eq, In, arith,
  if_both, option_both, if_true_both, any-In, eq_iff,
}
use league_of_legends.Store.Row.{QueueItem, Queue}
use league_of_legends.Store.Close.{complete_job}
use league_of_legends.Raw.Writer.{write_match, write_timeline}
use league_of_legends.Raw.Durable.{Stored}
use league_of_legends.Raw.Safety.{
  TimelineStored, write_timeline-stored, write_timeline-keeps, write_match-timelines,
}
use league_of_legends.Crawl.Failure.{Policy, call}
use league_of_legends.Crawl.Worker.{
  World, JobEnv, Outcome, held, returned, match_exists, upsert_match, retain_match, process_match,
  retain_timeline, process_timeline_job, process_job,
}
use league_of_legends.Crawl.Worker.Cases.{provenance_both, retain_ends}
use league_of_legends.Crawl.Worker.Closing.{Closes, Quiet, complete_job-Closes}
use league_of_legends.Crawl.Worker.Handlers.{
  dead_letter-Leaves, retry_detached-Leaves, requeue_after-Leaves, handle_fetch_failure-Leaves,
  handle_archive_failure-Leaves,
}

-- The match is in the table, or its timeline in the archive's open parts or published.
abbrev pub Safe : String → World → Type 0
Safe id w = In id w.matches ⊎ TimelineStored id w.writer

-- What one job does: it closes the row of its item at most, and only if the match was in the table;
-- what was safe stays safe, and a row that is held is safe.
pub record Job (item : QueueItem) (w : World) (r : World × Outcome) : Type 0 where
  pub closes : Closes (λ n. (item.id ≡ n) × In item.match_id w.matches) w.queue r.0.queue
  pub keeps : (id : String) → Safe id w → Safe id r.0
  pub holds : r.1 ≡ held → Safe item.match_id r.0

-- A handler's return.
returned-Job :
    (item : QueueItem) (w w' : World) (r : Queue × Bool)
    → ((id : String) → Safe id w → Safe id w')
    → Quiet w.queue r.0
    → Job item w (returned w' r)
returned-Job item w w' (q, true) k c = record {
  closes = λ n d. inl (c n d);
  keeps = k;
  holds = λ h. ground arith;
}
returned-Job item w w' (q, false) k c = record {
  closes = λ n d. inl (c n d);
  keeps = k;
  holds = λ h. ground arith;
}

upsert_match-keeps : (id row : String) (ms : List String) → In id ms → In id (upsert_match row ms)
upsert_match-keeps id row ms m = if_both (In id) (match_exists row ms) m (inr m)

match_exists-In : (id : String) (ms : List String) → match_exists id ms ≡ true → In id ms
match_exists-In id ms h =
    let (x, m, e) = any-In (str_eq id) ms h in subst (λ y. In y ms) (sym ((eq_iff id x).0 e)) m

upsert_match-row : (row : String) (ms : List String) → In row (upsert_match row ms)
upsert_match-row row ms =
    if_true_both (In row) (match_exists row ms) (match_exists-In row ms) (inl refl)

retain_match-Job :
    (o : Policy) (e : JobEnv) (item : QueueItem) (w : World) → Job item w (retain_match o e item w)
unfolding retain_match
retain_match-Job o e item w =
    let writer' = (write_match e.write item.match_id w.writer).0 in
    let timelines : (id : String) → TimelineStored id w.writer → TimelineStored id writer' = λ id m.
      subst (λ ps. Stored id ps) (sym (write_match-timelines e.write item.match_id w.writer)) m in
    retain_ends (Job item w) _ e.upsert_ok _ _ _
      (λ _. record {
        closes = λ n d. inl d;
        keeps = λ id s. elim s [
          | inl m ↦ inl (upsert_match-keeps id item.match_id w.matches m)
          | inr m ↦ inr (timelines id m)
        ];
        holds = λ _. inl (upsert_match-row item.match_id w.matches);
      })
      (record {
        closes = λ n d. inl d;
        keeps = λ id s. elim s [ inl m ↦ inl m | inr m ↦ inr (timelines id m) ];
        holds = λ h. ground arith;
      })
      (returned-Job item w (record w { writer = writer' }) _
        (λ id s. elim s [ inl m ↦ inl m | inr m ↦ inr (timelines id m) ])
        (handle_archive_failure-Leaves o e.handler item "archive" w.queue))

known-Job :
    (item : QueueItem) (w : World) (ok : Bool)
    → In item.match_id w.matches
    → Job item w (returned w (call ok (complete_job item.id w.queue) w.queue))
known-Job item w true m = record {
  closes =
      λ n d. elim (complete_job-Closes item.id w.queue n d) [ inl k ↦ inl k | inr i ↦ inr (i, m) ];
  keeps = λ id s. s;
  holds = λ h. ground arith;
}
known-Job item w false m = record {
  closes = λ n d. inl d;
  keeps = λ id s. s;
  holds = λ h. ground arith;
}

process_match-Job :
    (o : Policy) (e : JobEnv) (item : QueueItem) (w : World) → Job item w (process_match o e item w)
unfolding process_match
process_match-Job o e item w =
    if_true_both (Job item w) (e.knows && match_exists item.match_id w.matches)
      (λ h. known-Job item w e.complete_ok (match_exists-In item.match_id w.matches (ground arith)))
      (option_both (Job item w) e.fetch (retain_match-Job o e item w) (λ err.
        returned-Job item w w _ (λ id s. s)
          (handle_fetch_failure-Leaves o e.handler item err w.queue)))

retain_timeline-Job :
    (o : Policy) (e : JobEnv) (item : QueueItem) (w : World)
    → e.write.io.finalizes ≡ true
    → Job item w (retain_timeline o e item w)
unfolding retain_timeline
retain_timeline-Job o e item w f =
    let written = write_timeline e.write item.match_id w.writer in
    let keeps : (id : String) → Safe id w → Safe id (record w { writer = written.0 }) = λ id s.
      elim s [
        | inl m ↦ inl m
        | inr m ↦ inr (write_timeline-keeps e.write item.match_id id w.writer f m)
      ] in
    if_true_both (Job item w) written.1
      (λ h. record {
        closes = λ n d. inl d;
        keeps = keeps;
        holds = λ _. inr (write_timeline-stored e.write item.match_id w.writer h);
      })
      (returned-Job item w (record w { writer = written.0 }) _ keeps
        (handle_archive_failure-Leaves o e.handler item "archive" w.queue))

process_timeline_job-Job :
    (o : Policy) (e : JobEnv) (item : QueueItem) (w : World)
    → e.write.io.finalizes ≡ true
    → Job item w (process_timeline_job o e item w)
unfolding process_timeline_job
process_timeline_job-Job o e item w f =
    provenance_both (Job item w) e.provenance
      (option_both (Job item w) e.fetch (retain_timeline-Job o e item w f) (λ err.
        returned-Job item w w _ (λ id s. s)
          (handle_fetch_failure-Leaves o e.handler item err w.queue)))
      (returned-Job item w w _ (λ id s. s) (dead_letter-Leaves e.handler item "no-summary" w.queue))
      (λ cause.
        returned-Job item w w _ (λ id s. s)
          (if_both (λ (r : Queue × Bool). Quiet w.queue r.0) e.handler.stopped
            (retry_detached-Leaves e.handler item cause w.queue)
            (requeue_after-Leaves e.handler item cause _ w.queue)))

pub process_job-Job :
    (o : Policy) (e : JobEnv) (item : QueueItem) (w : World)
    → e.write.io.finalizes ≡ true
    → Job item w (process_job o e item w)
unfolding process_job
process_job-Job o e item w f =
    if_both (Job item w) (str_eq item.kind "timeline") (process_timeline_job-Job o e item w f)
      (process_match-Job o e item w)
