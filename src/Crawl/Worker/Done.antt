-- ===== src/Crawl/Worker/Done.antt =====
-- internal/crawl/worker.go: a batch closes no row ahead of the payload that it describes.
use league_of_legends.Prelude.{
  ℕ, ◌≡◌, refl, sym, subst, ◌⊎◌, inl, inr, Bool, true, false, List, [], ◌∷◌, In, ℤ, Time, arith,
  if_both, list_both, if_true_both, String,
}
use league_of_legends.Store.Row.{QueueKind, QueueItem, Queue}
use league_of_legends.Store.Claim.{claim, claim_jobs_of_kind}
use league_of_legends.Store.Close.{complete_job}
use league_of_legends.Raw.Writer.{flush}
use league_of_legends.Raw.Durable.{Published-Stored}
use league_of_legends.Raw.Safety.{MatchPublished, TimelinePublished, flush-published}
use league_of_legends.Crawl.Failure.{Policy}
use league_of_legends.Crawl.Worker.{
  World, JobEnv, Outcome, held, settled, failed, process_job, process_batch, DrainEnv,
  complete_each, settle_batch, drain_queue,
}
use league_of_legends.Crawl.Worker.Closing.{
  IsDone, Closes, Quiet, complete_job-Closes, update_where-Quiet,
}
use league_of_legends.Crawl.Worker.Handlers.{release_unstarted-Quiet}
use league_of_legends.Crawl.Worker.Retained.{Safe, Job, process_job-Job}
use league_of_legends.Crawl.Worker.Durable.{Archived, Durable, process_batch-Archived}

-- `n` is the row of one of the items, and its payload is safe.
abbrev pub SafeRow : List QueueItem → World → ℕ → Type 0
SafeRow items w n = (item : QueueItem) × In item items × (item.id ≡ n) × Safe item.match_id w

-- What the loop does: it closes rows whose payload is safe, what was safe stays safe, and the rows
-- that it retained are safe.
pub record Batch (items : List QueueItem) (w : World) (r : World × List QueueItem × Bool)
    : Type 0 where
  pub closes : Closes (SafeRow items r.0) w.queue r.0.queue
  pub keeps : (id : String) → Safe id w → Safe id r.0
  pub holds : (item : QueueItem) → In item r.1 → In item items × Safe item.match_id r.0

module _ (item : QueueItem) (items : List QueueItem) (w : World) (j : World × Outcome)
    (b : World × List QueueItem × Bool) where
  -- One job, and then the rest of the batch.
  both_close :
      Job item w j → Batch items j.0 b → Closes (SafeRow (item ∷ items) b.0) w.queue b.0.queue
  both_close job rest n d = elim (rest.closes n d) [
    | inr (i, m, e, s) ↦ inr (i, inr m, e, s)
    | inl now ↦ elim (job.closes n now) [
      | inl before ↦ inl before
      | inr (e, known) ↦
          inr (item, inl refl, e, rest.keeps item.match_id (job.keeps item.match_id (inl known)))
    ]
  ]

  settled_then : Job item w j → Batch items j.0 b → Batch (item ∷ items) w b
  settled_then job rest = record {
    closes = both_close job rest;
    keeps = λ id s. rest.keeps id (job.keeps id s);
    holds = λ i m. let (k, s) = rest.holds i m in (inr k, s);
  }

  held_then :
      Job item w j
      → Safe item.match_id j.0
      → Batch items j.0 b
      → Batch (item ∷ items) w (b.0, item ∷ b.1, b.2)
  held_then job safe rest = record {
    closes = both_close job rest;
    keeps = λ id s. rest.keeps id (job.keeps id s);
    holds = λ i m. elim m [
      | inl e ↦ (inl e, subst (λ x. Safe x.match_id b.0) (sym e) (rest.keeps item.match_id safe))
      | inr k ↦ let (k', s) = rest.holds i k in (inr k', s)
    ];
  }

  failed_then : Job item w j → Batch (item ∷ items) w (j.0, [], true)
  failed_then job = record {
    closes = λ n d. elim (job.closes n d) [
      | inl before ↦ inl before
      | inr (e, known) ↦ inr (item, inl refl, e, job.keeps item.match_id (inl known))
    ];
    keeps = job.keeps;
    holds = λ i m. elim m [ ];
  }

outcome_then :
    (item : QueueItem) (items : List QueueItem) (w w' : World) (o : Outcome)
    (b : World × List QueueItem × Bool)
    → Job item w (w', o)
    → Batch items w' b
    → Batch
        (item ∷ items)
        w
        (elim o [ held ↦ (b.0, item ∷ b.1, b.2) | settled ↦ b | failed ↦ (w', [], true) ])
outcome_then item items w w' held b job rest =
    held_then item items w (w', held) b job (job.holds refl) rest
outcome_then item items w w' settled b job rest = settled_then item items w (w', settled) b job rest
outcome_then item items w w' failed b job rest = failed_then item items w (w', failed) b job

process_batch-Batch :
    (o : Policy) (env : QueueItem → JobEnv) (items : List QueueItem) (w : World)
    → ((item : QueueItem) → (env item).write.io.finalizes ≡ true)
    → Batch items w (process_batch o env items w)
unfolding process_batch
process_batch-Batch o env [] w f = record {
  closes = λ n d. inl d;
  keeps = λ id s. s;
  holds = λ i m. elim m [ ];
}
process_batch-Batch o env (item ∷ items) w f =
    let j = process_job o (env item) item w in
    if_both (Batch (item ∷ items) w) (env item).stopped
      (record {
        closes = λ n d.
            inl (release_unstarted-Quiet o (λ i. (env i).handler) (item ∷ items) w.queue n d);
        keeps = λ id s. s;
        holds = λ i m. elim m [ ];
      })
      (outcome_then item items w j.0 j.1 (process_batch o env items j.0)
        (process_job-Job o (env item) item w (f item)) (process_batch-Batch o env items j.0 f))

complete_each-Closes :
    (ok : QueueItem → Bool) (items : List QueueItem) (q : Queue)
    → Closes
        (λ n. (item : QueueItem) × In item items × (item.id ≡ n))
        q
        (complete_each ok items q).0
unfolding complete_each
complete_each-Closes ok [] q = λ n d. inl d
complete_each-Closes ok (item ∷ items) q =
    if_both
      (λ (r : Queue × Bool). Closes (λ n. (i : QueueItem) × In i (item ∷ items) × (i.id ≡ n)) q r.0)
      (ok item)
      (λ n d. elim (complete_each-Closes ok items (complete_job item.id q) n d) [
        | inr (i, m, e) ↦ inr (i, inr m, e)
        | inl now ↦ elim (complete_job-Closes item.id q n now) [
          | inl before ↦ inl before
          | inr e ↦ inr (item, inl refl, e)
        ]
      ])
      (λ n d. inl d)

-- The row `n` was handed out, and its match or timeline is published.
abbrev pub PublishedRow : List QueueItem → World → ℕ → Type 0
PublishedRow items w n =
    (item : QueueItem) × In item items
    × (item.id ≡ n)
    × (MatchPublished item.match_id w.writer ⊎ TimelinePublished item.match_id w.writer)

claim-Quiet :
    (locked : ℕ → Bool) (kind : QueueKind) (limit : ℤ) (now : Time) (q : Queue)
    → Quiet q (claim_jobs_of_kind locked kind limit now q).0
unfolding claim_jobs_of_kind claim
claim-Quiet locked kind limit now q = update_where-Quiet _ _ q (λ r e. ground arith)

settle_batch-Closes :
    (o : Policy) (e : DrainEnv) (items retained : List QueueItem) (w0 w : World) (err : Bool)
    → Batch items w0 (w, retained, err)
    → Archived w
    → (settle_batch o e retained w).1 ≡ false
    → Closes
        (PublishedRow items (settle_batch o e retained w).0)
        w0.queue
        (settle_batch o e retained w).0.queue
unfolding settle_batch
settle_batch-Closes o e items retained w0 w err b a =
    if_true_both
      (λ (r : World × Bool). r.1 ≡ false → Closes (PublishedRow items r.0) w0.queue r.0.queue)
      (flush e.flush_done e.finalizes w.writer).1
      (λ flushed _ n d.
        let published : (id : String)
            → Safe id w
            → MatchPublished id (flush e.flush_done e.finalizes w.writer).0
              ⊎ TimelinePublished id (flush e.flush_done e.finalizes w.writer).0 =
          λ id s. elim s [
            | inl m ↦
                inl ((flush-published e.flush_done e.finalizes w.writer flushed).0 id (a id m))
            | inr m ↦ inr ((flush-published e.flush_done e.finalizes w.writer flushed).1 id m)
          ] in
        elim (complete_each-Closes e.complete_ok retained w.queue n d) [
          | inr (i, m, k) ↦ let (m', s) = b.holds i m in inr (i, m', k, published i.match_id s)
          | inl now ↦ elim (b.closes n now) [
            | inl before ↦ inl before
            | inr (i, m, k, s) ↦ inr (i, m, k, published i.match_id s)
          ]
        ])
      (λ h. ground arith)

-- If every match of the table is published, and no part that fills up during the batch fails to be
-- finalised, then a row that is done after a `drainQueue` that returns no error was done before, or
-- it is one that was handed out and its match or its timeline is published.
pub drain_queue-IsDone :
    (o : Policy) (e : DrainEnv) (kind : QueueKind) (w : World)
    → ((item : QueueItem) → (e.jobs item).write.io.finalizes ≡ true)
    → Durable w
    → (drain_queue o e kind w).1 ≡ false
    → (n : ℕ) → IsDone n (drain_queue o e kind w).0.queue
    → IsDone n w.queue
      ⊎ PublishedRow
          (claim_jobs_of_kind e.locked kind e.limit e.now w.queue).1
          (drain_queue o e kind w).0
          n
unfolding drain_queue
drain_queue-IsDone o e kind w f d =
    let (q, items) = claim_jobs_of_kind e.locked kind e.limit e.now w.queue in
    let w0 = record w { queue = q } in
    let batch = process_batch o e.jobs items w0 in
    let P : World × Bool → Type 0 =
      λ r. r.1 ≡ false → Closes (PublishedRow items r.0) w.queue r.0.queue in
    let quiet = claim-Quiet e.locked kind e.limit e.now w.queue in
    let a =
      process_batch-Archived o e.jobs items w0 f
        (λ id m. Published-Stored id w.writer.match_parts (d id m)) in
    if_both P e.claim_ok
      (list_both P items (λ _ n k. inl (quiet n k))
        (λ _ _.
          if_both P batch.2 (λ h. ground arith)
            (λ h n k.
              elim (settle_batch-Closes o e items batch.1 w0 batch.0 batch.2
                (process_batch-Batch o e.jobs items w0 f) a h n k) [
                  | inl before ↦ inl (quiet n before)
                  | inr published ↦ inr published
                ])))
      (λ h. ground arith)
