-- ===== src/Store/Lifecycle/Trace.antt =====
-- internal/store: what any sequence of the store's calls keeps of the fetch queue.
use league_of_legends.Prelude.{
  ℕ, zero, suc, ◌+◌, ◌≤◌, ◌≡◌, refl, inl, inr, Bool, List, [], ◌∷◌, In, All-In, Time, String, arith,
  ℤ, take, Bool-cases,
}
use league_of_legends.Store.Row.{done, QueueKind, QueueItem, Row, Queue}
use league_of_legends.Store.Enqueue.{
  revive, revival_budget, upsert, excluded, insert_chunk, insert_chunks, enqueue_matches,
}
use league_of_legends.Store.Claim.{claim, claim_jobs_of_kind}
use league_of_legends.Store.Close.{
  completed, retried, lettered, released, reclaimed, replayed, complete_job, retry_job,
  dead_letter_job, release_job, reset_stuck_claims, replay_dead_lettered,
}
use league_of_legends.Store.Lifecycle.{
  RowStep, same, claims, completes, retries, letters, releases, reclaims, replays, revives, Updates,
  nil, cons, Evolves, added, next, IsValid, Inv,
}
use league_of_legends.Store.Lifecycle.Update.{Updates-Inv}
use league_of_legends.Store.Lifecycle.Statements.{
  complete_job-Updates, retry_job-Updates, dead_letter_job-Updates, release_job-Updates,
  claim_jobs_of_kind-Updates, reset_stuck_claims-Updates, replay_dead_lettered-Updates,
}
use league_of_legends.Store.Lifecycle.Inserts.{excluded-IsNew, upsert-Evolves, enqueue_matches-Inv}

-- A call of the store, with what the database and the clock contribute.
pub data Call : Type 0 where
  enqueue : (ℕ → Bool) → Time → List QueueItem → Call
  claim_jobs : (ℕ → Bool) → QueueKind → ℤ → Time → Call
  complete : ℕ → Call
  retry_later release : ℕ → Time → String → Call
  dead_letter : ℕ → Time → String → Call
  reset_stuck : Time → ℤ → Time → Call
  replay_dead : ℤ → Time → Call

unfoldable pub step : Call → Queue → Queue
step (enqueue db now items) q = (enqueue_matches db now items q).0
step (claim_jobs locked kind limit now) q = (claim_jobs_of_kind locked kind limit now q).0
step (complete id) q = complete_job id q
step (retry_later id t c) q = retry_job id t c q
step (release id t c) q = release_job id t c q
step (dead_letter id t c) q = dead_letter_job id t c q
step (reset_stuck older_than limit now) q = (reset_stuck_claims older_than limit now q).0
step (replay_dead limit now) q = (replay_dead_lettered limit now q).0

unfoldable pub run : List Call → Queue → Queue
run [] q = q
run (c ∷ cs) q = run cs (step c q)

step-Inv : (c : Call) (q : Queue) → Inv q → Inv (step c q)
unfolding step complete_job retry_job release_job dead_letter_job claim_jobs_of_kind
    reset_stuck_claims replay_dead_lettered
step-Inv (enqueue db now items) q v = enqueue_matches-Inv db now items q v
step-Inv (claim_jobs locked kind limit now) q v =
    Updates-Inv q _ (claim_jobs_of_kind-Updates locked kind limit now q v) v
step-Inv (complete id) q v = Updates-Inv q _ (complete_job-Updates id q) v
step-Inv (retry_later id t c) q v = Updates-Inv q _ (retry_job-Updates id t c q) v
step-Inv (release id t c) q v = Updates-Inv q _ (release_job-Updates id t c q) v
step-Inv (dead_letter id t c) q v = Updates-Inv q _ (dead_letter_job-Updates id t c q) v
step-Inv (reset_stuck older_than limit now) q v =
    Updates-Inv q _ (reset_stuck_claims-Updates older_than limit now q v) v
step-Inv (replay_dead limit now) q v =
    Updates-Inv q _ (replay_dead_lettered-Updates limit now q v) v

-- Any calls keep the table sound: ids rise and are never reused, no two rows ask for the same
-- payload of the same match, a row is stamped exactly while it is claimed or dead, a claimed row has
-- been charged an attempt, and no row was revived more often than the budget allows.
pub run-Inv : (cs : List Call) (q : Queue) → Inv q → Inv (run cs q)
unfolding run
run-Inv [] q v = v
run-Inv (c ∷ cs) q v = run-Inv cs (step c q) (step-Inv c q v)

-- A property of rows that every step of the life cycle keeps.
abbrev pub IsKept : (Row → Type 0) → Type 0
IsKept P = (r r' : Row) → RowStep r r' → P r → P r'

module _ (P : Row → Type 0) (kept : IsKept P) where
  Updates-keep :
      {rs rs' : List Row} (r : Row) → Updates rs rs' → In r rs → P r → (r' : Row) × In r' rs' × P r'
  Updates-keep r nil m p = elim m [ ]
  Updates-keep r (cons {r' = s'} st u) (inl e) p = (s', inl refl, kept _ s' st (rw (← e) p))
  Updates-keep r (cons st u) (inr m) p = let (r', m', p') = Updates-keep r u m p in (r', inr m', p')

  Evolves-keep :
      {rs rs' : List Row} (r : Row) → Evolves rs rs' → In r rs → P r → (r' : Row) × In r' rs' × P r'
  Evolves-keep r added m p = elim m [ ]
  Evolves-keep r (next {r' = s'} st u) (inl e) p = (s', inl refl, kept _ s' st (rw (← e) p))
  Evolves-keep r (next st u) (inr m) p = let (r', m', p') = Evolves-keep r u m p in (r', inr m', p')

  insert_chunk_keeps :
      (now : Time) (is : List QueueItem) (q : Queue) (r : Row)
      → In r q.rows
      → P r
      → (r' : Row) × In r' (insert_chunk now is q).0.rows × P r'
  unfolding insert_chunk
  insert_chunk_keeps now [] q r m p = (r, m, p)
  insert_chunk_keeps now (i ∷ is) q r m p =
      let new = excluded now q.next_id i in
      let (r', m', p') =
        Evolves-keep r (upsert-Evolves new q.next_id (excluded-IsNew now q.next_id i) q.rows) m p in
      insert_chunk_keeps now is (record { rows = (upsert new q.rows).0; next_id = q.next_id + 1 })
        r' m' p'

  insert_chunks_keep :
      (fuel : ℕ) (db : ℕ → Bool) (now : Time) (batch : List QueueItem) (n : ℕ) (q : Queue) (r : Row)
      → In r q.rows
      → P r
      → (r' : Row) × In r' (insert_chunks fuel db now batch n q).0.rows × P r'
  unfolding insert_chunks
  insert_chunks_keep zero db now batch n q r m p = (r, m, p)
  insert_chunks_keep (suc fuel) db now [] n q r m p = (r, m, p)
  insert_chunks_keep (suc fuel) db now (i ∷ is) n q r m p = elim (Bool-cases (db fuel)) [
    | inl up ↦
        let (r', m', p') = insert_chunk_keeps now (take 500 (i ∷ is)) q r m p in
        rw up (insert_chunks_keep fuel db now _ _ _ r' m' p')
    | inr down ↦ rw down (r, m, p)
  ]

  step_keeps :
      (c : Call) (q : Queue)
      → Inv q
      → (r : Row) → In r q.rows
      → P r
      → (r' : Row) × In r' (step c q).rows × P r'
  unfolding step enqueue_matches
  step_keeps (enqueue db now items) q v r m p = insert_chunks_keep _ db now _ 0 q r m p
  step_keeps (claim_jobs locked kind limit now) q v r m p =
      Updates-keep r (claim_jobs_of_kind-Updates locked kind limit now q v) m p
  step_keeps (complete id) q v r m p = Updates-keep r (complete_job-Updates id q) m p
  step_keeps (retry_later id t c) q v r m p = Updates-keep r (retry_job-Updates id t c q) m p
  step_keeps (release id t c) q v r m p = Updates-keep r (release_job-Updates id t c q) m p
  step_keeps (dead_letter id t c) q v r m p = Updates-keep r (dead_letter_job-Updates id t c q) m p
  step_keeps (reset_stuck older_than limit now) q v r m p =
      Updates-keep r (reset_stuck_claims-Updates older_than limit now q v) m p
  step_keeps (replay_dead limit now) q v r m p =
      Updates-keep r (replay_dead_lettered-Updates limit now q v) m p

  pub run_keeps :
      (cs : List Call) (q : Queue)
      → Inv q
      → (r : Row) → In r q.rows
      → P r
      → (r' : Row) × In r' (run cs q).rows × P r'
  unfolding run
  run_keeps [] q v r m p = (r, m, p)
  run_keeps (c ∷ cs) q v r m p =
      let (r', m', p') = step_keeps c q v r m p in run_keeps cs (step c q) (step-Inv c q v) r' m' p'

-- A row that was finished for this payload: its id and its key.
abbrev pub Finished : Row → Row → Type 0
Finished r s = (s.status ≡ done) × (s.id ≡ r.id) × (s.match_id ≡ r.match_id) × (s.kind ≡ r.kind)

Finished-IsKept : (r : Row) → IsKept (Finished r)
unfolding claim completed retried lettered released reclaimed replayed revive
Finished-IsKept r a b same f = f
Finished-IsKept r a b (claims now h) f = ground arith
Finished-IsKept r a b (completes h) f = ground arith
Finished-IsKept r a b (retries t c h) f = ground arith
Finished-IsKept r a b (letters t c h) f = ground arith
Finished-IsKept r a b (releases t c h) f = ground arith
Finished-IsKept r a b (reclaims t h) f = ground arith
Finished-IsKept r a b (replays t h) f = ground arith
Finished-IsKept r a b (revives new p h l) f = ground arith

-- A finished job stays finished: whatever calls follow, its row is still there, with its id and key,
-- and is done.
pub done_final :
    (cs : List Call) (q : Queue) (r : Row)
    → Inv q
    → In r q.rows
    → r.status ≡ done
    → (r' : Row) × In r' (run cs q).rows × Finished r r'
done_final cs q r v m d =
    run_keeps (Finished r) (Finished-IsKept r) cs q v r m (d, refl, refl, refl)

-- The revivals of a row never fall, so the budget is spent for good.
abbrev pub RevivedAtLeast : Row → Row → Type 0
RevivedAtLeast r s = (r.revivals ≤ s.revivals) × (s.id ≡ r.id)

RevivedAtLeast-IsKept : (r : Row) → IsKept (RevivedAtLeast r)
unfolding claim completed retried lettered released reclaimed replayed revive
RevivedAtLeast-IsKept r a b same f = f
RevivedAtLeast-IsKept r a b (claims now h) f = f
RevivedAtLeast-IsKept r a b (completes h) f = f
RevivedAtLeast-IsKept r a b (retries t c h) f = f
RevivedAtLeast-IsKept r a b (letters t c h) f = f
RevivedAtLeast-IsKept r a b (releases t c h) f = f
RevivedAtLeast-IsKept r a b (reclaims t h) f = f
RevivedAtLeast-IsKept r a b (replays t h) f = f
RevivedAtLeast-IsKept r a b (revives new p h l) f = omega arith

-- However often a match is rediscovered, its row is revived at most as often as the budget allows,
-- and nothing gives the budget back.
pub revivals_bounded :
    (cs : List Call) (q : Queue) (r : Row)
    → Inv q
    → In r q.rows
    → (r' : Row) × In r' (run cs q).rows
      × (r'.id ≡ r.id)
      × (r.revivals ≤ r'.revivals)
      × (r'.revivals ≤ revival_budget)
revivals_bounded cs q r v m =
    let (r', m', (more, same_id)) =
      run_keeps (RevivedAtLeast r) (RevivedAtLeast-IsKept r) cs q v r m (omega arith, refl) in
    (
      r',
      m',
      same_id,
      more,
      (All-In IsValid r' (run cs q).rows (run-Inv cs q v).valid m').revivals_capped,
    )
