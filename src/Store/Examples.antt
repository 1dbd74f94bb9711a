-- ===== src/Store/Examples.antt =====
-- internal/store: a small fetch queue, and the theorems about the queue at it.
use league_of_legends.Prelude.{
  ℕ, ◌≤ℤ◌, false, ◌≤◌, ◌≡◌, refl, ◌≢◌, ◌⊎◌, inl, inr, Bool, true, false, [], ◌∷◌, none, some, In,
  pos, seconds, Time, arith, keep, sort_by, insert_by, any, map,
}
use league_of_legends.Store.Row.{
  pending, retry, claimed, done, dead, match, QueueItem, Row, Queue, stored, update_where, id_in,
}
use league_of_legends.Store.Enqueue.{
  same_key, absorb, dedupe_from, dedupe_queue_items, excluded, revive, upsert, insert_chunk,
  insert_chunks, enqueue_matches, revival_budget,
}
use league_of_legends.Store.Claim.{row_before, choose, claim, to_item, claim_jobs_of_kind}
use league_of_legends.Store.Claim.Exclusive.{claim_sound, Claims, claim_best, claims_disjoint}
use league_of_legends.Store.Lifecycle.{Inv}
use league_of_legends.Store.Lifecycle.Trace.{
  enqueue, claim_jobs, complete, replay_dead, run, run-Inv, done_final, Finished, revivals_bounded,
}
use league_of_legends.Store.Enqueue.Dedupe.{
  priority_of, lowest, priority_of-dedupe, NoRepeats, dedupe-NoRepeats,
}

abbrev now : Time
now = seconds 100

abbrev seed : QueueItem
seed = record {
  id = 0;
  match_id = "EUW1_7";
  kind = "";
  priority = pos 100;
  attempts = 0;
  not_before = pos 0;
  claimed_at = pos 0;
  status = pending;
}

abbrev again : QueueItem
again = record seed { priority = pos 50 }

abbrev its_timeline : QueueItem
its_timeline = record seed { kind = "timeline"; priority = pos 250 }

abbrev up : ℕ → Bool
up n = true

abbrev unlocked : ℕ → Bool
unlocked n = false

dedupes : dedupe_queue_items (seed ∷ its_timeline ∷ again ∷ []) ≡ again ∷ its_timeline ∷ []
unfolding dedupe_queue_items dedupe_from absorb same_key stored
dedupes = refl

abbrev finished_row : Row
finished_row = record {
  id = 3;
  match_id = "EUW1_1";
  kind = match;
  priority = pos 100;
  attempts = 1;
  not_before = pos 0;
  claimed_at = none;
  status = done;
  last_cause = none;
  revivals = 0;
}

abbrev dead_row : Row
dead_row = record finished_row {
  id = 4;
  match_id = "EUW1_7";
  status = dead;
  claimed_at = some now;
  revivals = 2;
}

abbrev ready_row : Row
ready_row = record finished_row { id = 8; match_id = "EUW1_9"; status = pending; attempts = 0 }

abbrev table : Queue
table = record { rows = finished_row ∷ dead_row ∷ ready_row ∷ []; next_id = 9 }

revives_dead_row :
    let (q, added, failed) = enqueue_matches up now (seed ∷ its_timeline ∷ []) table in
    (added ≡ 2)
    × (failed ≡ false)
    × (map (λ (r : Row). r.status) q.rows ≡ done ∷ pending ∷ pending ∷ pending ∷ [])
unfolding enqueue_matches dedupe_queue_items dedupe_from absorb same_key stored insert_chunks
    insert_chunk upsert excluded revive
revives_dead_row = (refl, refl, refl)

table-Inv : Inv table
table-Inv = ground arith

run-Inv_example : Inv (
    run
      (enqueue up now (seed ∷ []) ∷ claim_jobs unlocked match (pos 20) now ∷ complete 4 ∷ [])
      table)
run-Inv_example = run-Inv _ table table-Inv

done_final_example :
    (r : Row) × In r (run (replay_dead (pos 10) now ∷ []) table).rows × Finished finished_row r
done_final_example =
    done_final (replay_dead (pos 10) now ∷ []) table finished_row table-Inv (inl refl) refl

revivals_bounded_example :
    (r : Row) × In r (run (enqueue up now (seed ∷ []) ∷ []) table).rows
    × (r.id ≡ 4)
    × (2 ≤ r.revivals)
    × (r.revivals ≤ revival_budget)
revivals_bounded_example =
    revivals_bounded (enqueue up now (seed ∷ []) ∷ []) table dead_row table-Inv (inr (inl refl))

abbrev handed : QueueItem
handed = record {
  id = 8;
  match_id = "EUW1_9";
  kind = "match";
  priority = pos 100;
  attempts = 1;
  not_before = pos 0;
  claimed_at = now;
  status = claimed;
}

claims_ready_row : (claim_jobs_of_kind unlocked match (pos 20) now table).1 ≡ handed ∷ []
unfolding claim_jobs_of_kind choose keep sort_by insert_by any id_in claim to_item
claims_ready_row = refl

claims_handed : In handed (claim_jobs_of_kind unlocked match (pos 20) now table).1
claims_handed = rw claims_ready_row (inl refl)

claim_sound_example :
    (r : Row) × (s : Row) × In r table.rows
    × In s (claim_jobs_of_kind unlocked match (pos 20) now table).0.rows
    × ((r.kind ≡ match)
        × ((r.status ≡ pending) ⊎ (r.status ≡ retry))
        × (r.not_before ≤ℤ now)
        × (unlocked r.id ≡ false))
    × Claims now r s handed
claim_sound_example = claim_sound unlocked match (pos 20) now table table-Inv handed claims_handed

claim_best_example :
    In (to_item (claim now ready_row)) (claim_jobs_of_kind unlocked match (pos 20) now table).1
    ⊎ ((c : Row) × In c table.rows
        × (handed ≡ to_item (claim now c))
        × (row_before ready_row c ≡ false))
claim_best_example =
    claim_best unlocked match (pos 20) now table table-Inv handed ready_row claims_handed
      (inr (inr (inl refl))) refl

priority_of-dedupe_example :
    priority_of seed (dedupe_queue_items (seed ∷ its_timeline ∷ again ∷ []))
    ≡ lowest seed (seed ∷ its_timeline ∷ again ∷ [])
priority_of-dedupe_example = priority_of-dedupe seed (seed ∷ its_timeline ∷ again ∷ [])

dedupe-NoRepeats_example : NoRepeats (dedupe_queue_items (seed ∷ its_timeline ∷ again ∷ []))
dedupe-NoRepeats_example = dedupe-NoRepeats (seed ∷ its_timeline ∷ again ∷ [])

abbrev two_ready : Queue
two_ready = record {
  rows = ready_row ∷ record ready_row { id = 9; match_id = "EUW1_12" } ∷ [];
  next_id = 10;
}

abbrev handed_next : QueueItem
handed_next = record handed { id = 9; match_id = "EUW1_12" }

two_claims :
    let (q, items) = claim_jobs_of_kind unlocked match (pos 1) now two_ready in
    (items ≡ handed ∷ []) × ((claim_jobs_of_kind unlocked match (pos 1) now q).1 ≡ handed_next ∷ [])
unfolding claim_jobs_of_kind choose keep sort_by insert_by any id_in claim to_item update_where
two_claims = (refl, refl)

claims_disjoint_example : ◌≢◌ {A = ℕ} 8 9
claims_disjoint_example =
    claims_disjoint unlocked unlocked match match (pos 1) (pos 1) now now two_ready (ground arith)
      handed handed_next (rw two_claims.0 (inl refl)) (rw two_claims.1 (inl refl))
