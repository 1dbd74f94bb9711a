-- ===== src/Store/Lifecycle/Statements.antt =====
-- Each statement of internal/store/queue.go and maintain.go that updates rows takes a step of the life
-- cycle at every row, and so keeps the invariant of the table.
use league_of_legends.Prelude.{
  ℕ, ◌≡◌, refl, ◌⊎◌, Bool, true, List, In, Time, String, arith, ℤ, In-take, In-keep, In-sort_by,
  keep, sort_by,
}
use league_of_legends.Store.Row.{
  JobStatus, pending, claimed, retry, dead, QueueKind, Row, Queue, owned, null_text, clamp_limit,
  status_eq,
}
use league_of_legends.Store.Claim.{claimable, choose, row_before, claim_jobs_of_kind}
use league_of_legends.Store.Close.{
  complete_job, retry_job, dead_letter_job, release_job, stuck, choose_stuck, reset_stuck_claims,
  is_dead, choose_dead, replay_dead_lettered, earlier, letter_before,
}
use league_of_legends.Store.Lifecycle.{
  claims, completes, retries, letters, releases, reclaims, replays, Updates, Inv,
}
use league_of_legends.Store.Lifecycle.Update.{update_where-Updates, id_in-In}

status-eq_claimed : (s : JobStatus) → status_eq s claimed ≡ true → s ≡ claimed
status-eq_claimed claimed h = refl
status-eq_claimed _ h = cc

owned-claimed : (n : ℕ) (r : Row) → owned n r ≡ true → r.status ≡ claimed
owned-claimed n r h = ground (arith, status-eq_claimed r.status)

pub complete_job-Updates : (n : ℕ) (q : Queue) → Updates q.rows (complete_job n q).rows
unfolding complete_job
complete_job-Updates n q =
    update_where-Updates _ _ q.rows (λ r m h. completes (owned-claimed n r h))

pub retry_job-Updates :
    (n : ℕ) (t : Time) (c : String) (q : Queue) → Updates q.rows (retry_job n t c q).rows
unfolding retry_job
retry_job-Updates n t c q =
    update_where-Updates _ _ q.rows (λ r m h. retries t (null_text c) (owned-claimed n r h))

pub dead_letter_job-Updates :
    (n : ℕ) (t : Time) (c : String) (q : Queue) → Updates q.rows (dead_letter_job n t c q).rows
unfolding dead_letter_job
dead_letter_job-Updates n t c q =
    update_where-Updates _ _ q.rows (λ r m h. letters t (null_text c) (owned-claimed n r h))

pub release_job-Updates :
    (n : ℕ) (t : Time) (c : String) (q : Queue) → Updates q.rows (release_job n t c q).rows
unfolding release_job
release_job-Updates n t c q =
    update_where-Updates _ _ q.rows (λ r m h. releases t (null_text c) (owned-claimed n r h))

pub choose-In :
    (locked : ℕ → Bool) (kind : QueueKind) (limit : ℕ) (now : Time) (rows : List Row) (r : Row)
    → In r (choose locked kind limit now rows)
    → In r rows × (claimable locked kind now r ≡ true)
unfolding choose
choose-In locked kind limit now rows r m = In-keep (claimable locked kind now) r rows (
    In-sort_by row_before r (keep (claimable locked kind now) rows)
      (In-take limit r (sort_by row_before (keep (claimable locked kind now) rows)) m))

pub claimable-status :
    (locked : ℕ → Bool) (kind : QueueKind) (now : Time) (r : Row)
    → claimable locked kind now r ≡ true
    → (r.status ≡ pending) ⊎ (r.status ≡ retry)
claimable-status locked kind now r h = ground arith

pub claim_jobs_of_kind-Updates :
    (locked : ℕ → Bool) (kind : QueueKind) (limit : ℤ) (now : Time) (q : Queue)
    → Inv q
    → Updates q.rows (claim_jobs_of_kind locked kind limit now q).0.rows
unfolding claim_jobs_of_kind
claim_jobs_of_kind-Updates locked kind limit now q v =
    let pick = choose-In locked kind (clamp_limit limit) now q.rows in
    update_where-Updates _ _ q.rows λ r m h. claims now (
      claimable-status locked kind now r
        (pick r (id_in-In 0 q.next_id q.rows _ r v.ids (λ c k. (pick c k).0) m h)).1)

module _ (older_than : Time) (limit : ℤ) (now : Time) (q : Queue) (v : Inv q) where
  pub reset_stuck_claims-Updates : Updates q.rows (reset_stuck_claims older_than limit now q).0.rows
  unfolding reset_stuck_claims choose_stuck
  reset_stuck_claims-Updates = update_where-Updates _ _ q.rows λ r m h. reclaims now (
      stuck-claimed r
        (pick r (
          id_in-In 0 q.next_id q.rows (choose_stuck older_than (clamp_limit limit) q.rows) r v.ids
            (λ c k. (pick c k).0) m h)).1)
    where
      pick :
          (r : Row)
          → In r (choose_stuck older_than (clamp_limit limit) q.rows)
          → In r q.rows × (stuck older_than r ≡ true)
      pick r m = In-keep (stuck older_than) r q.rows (
          In-sort_by (λ a b. earlier a.claimed_at b.claimed_at) r (keep (stuck older_than) q.rows)
            (In-take (clamp_limit limit) r _ m))

      stuck-claimed : (r : Row) → stuck older_than r ≡ true → r.status ≡ claimed
      stuck-claimed r h = ground (arith, status-eq_claimed r.status)

module _ (limit : ℤ) (now : Time) (q : Queue) (v : Inv q) where
  pub replay_dead_lettered-Updates : Updates q.rows (replay_dead_lettered limit now q).0.rows
  unfolding replay_dead_lettered choose_dead
  replay_dead_lettered-Updates = update_where-Updates _ _ q.rows λ r m h. replays now (
      dead-status r
        (pick r (
          id_in-In 0 q.next_id q.rows (choose_dead (clamp_limit limit) q.rows) r v.ids
            (λ c k. (pick c k).0) m h)).1)
    where
      pick :
          (r : Row)
          → In r (choose_dead (clamp_limit limit) q.rows)
          → In r q.rows × (is_dead r ≡ true)
      pick r m =
          In-keep is_dead r q.rows
            (In-sort_by letter_before r (keep is_dead q.rows) (In-take (clamp_limit limit) r _ m))

      dead-status : (r : Row) → is_dead r ≡ true → r.status ≡ dead
      dead-status r h = ground arith
