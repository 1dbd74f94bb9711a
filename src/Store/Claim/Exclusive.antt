-- ===== src/Store/Claim/Exclusive.antt =====
-- internal/store/queue.go: a job is handed to one worker at a time, the most urgent jobs first.
use league_of_legends.Prelude.{
  ℕ, ◌≡◌, refl, sym, ap, ◌∙◌, ◌⊎◌, inl, inr, ◌≢◌, Bool, true, false, In, ℤ, Time, ◌==◌, ==_iff,
  In-any,
}
use league_of_legends.Store.Row.{
  claimed, match, timeline, QueueKind, QueueItem, Row, Queue, clamp_limit, id_in, pending, retry,
  kind_eq, status_eq,
}
use league_of_legends.Prelude.{some, ◌&&◌, not, ◌+◌, ◌||◌, ◌≤ℤ◌, leb_ℤ, both, subst, arith}
use league_of_legends.Store.Claim.{claimable, row_before, claim, to_item, claim_jobs_of_kind}
use league_of_legends.Store.Claim.Order.{chosen, choose-best, item-row, row-item, claimed_row}
use league_of_legends.Store.Lifecycle.{Inv}
use league_of_legends.Store.Lifecycle.Update.{Updates-Inv, InOrder-unique, id_in-In}
use league_of_legends.Store.Lifecycle.Statements.{
  choose-In, claimable-status, claim_jobs_of_kind-Updates,
}

module _ (locked : ℕ → Bool) (kind : QueueKind) (limit : ℤ) (now : Time) (q : Queue)
    (v : Inv q) where
  chosen-In :
      (r : Row)
      → In r q.rows
      → id_in (chosen locked kind limit now q) r ≡ true
      → In r (chosen locked kind limit now q)
  chosen-In r m h =
      id_in-In 0 q.next_id q.rows _ r v.ids
        (λ c k. (choose-In locked kind (clamp_limit limit) now q.rows c k).0) m h

  In-chosen :
      (r : Row)
      → In r (chosen locked kind limit now q)
      → id_in (chosen locked kind limit now q) r ≡ true
  unfolding id_in
  In-chosen r m = In-any (λ (c : Row). c.id == r.id) r _ m ((==_iff r.id r.id).1 refl)

  claim-Inv : Inv (claim_jobs_of_kind locked kind limit now q).0
  unfolding claim_jobs_of_kind
  claim-Inv = Updates-Inv q _ (claim_jobs_of_kind-Updates locked kind limit now q v) v

  -- The row that a job was handed out from.
  claimed_from :
      (x : QueueItem)
      → In x (claim_jobs_of_kind locked kind limit now q).1
      → (r : Row) × In r q.rows
        × (claimable locked kind now r ≡ true)
        × (x ≡ to_item (claim now r))
        × In (claim now r) (claim_jobs_of_kind locked kind limit now q).0.rows
  claimed_from x m =
      let (r, r_in, hit, x_is) = item-row locked kind limit now q x m in
      (
        r,
        r_in,
        (choose-In locked kind (clamp_limit limit) now q.rows r (chosen-In r r_in hit)).1,
        x_is,
        claimed_row locked kind limit now q r r_in hit,
      )

  -- The most urgent jobs go first: a claimable row that is not handed out comes before none that is, in
  -- the order of priority, due time and id.
  pub claim_best :
      (x : QueueItem) (r : Row)
      → In x (claim_jobs_of_kind locked kind limit now q).1
      → In r q.rows
      → claimable locked kind now r ≡ true
      → In (to_item (claim now r)) (claim_jobs_of_kind locked kind limit now q).1
        ⊎ ((c : Row) × In c q.rows × (x ≡ to_item (claim now c)) × (row_before r c ≡ false))
  claim_best x r m r_in can =
      let (c, c_in, hit, x_is) = item-row locked kind limit now q x m in
      elim (choose-best locked kind (clamp_limit limit) now q.rows c r (chosen-In c c_in hit) r_in
        can) [
          | inl also ↦ inl (row-item locked kind limit now q r r_in (In-chosen r also))
          | inr later ↦ inr (c, c_in, x_is, later)
        ]

to_item-id : (now : Time) (r : Row) → (to_item (claim now r)).id ≡ r.id
unfolding to_item claim
to_item-id now r = refl

claim-claimed : (now : Time) (r : Row) → (claim now r).status ≡ claimed
unfolding claim
claim-claimed now r = refl

kind_eq-true : (a b : QueueKind) → kind_eq a b ≡ true → a ≡ b
kind_eq-true match match h = refl
kind_eq-true timeline timeline h = refl
kind_eq-true match timeline h = ground (arith, h)
kind_eq-true timeline match h = ground (arith, h)

claim-id : (now : Time) (r : Row) → (claim now r).id ≡ r.id
unfolding claim
claim-id now r = refl

-- What a claim makes of a row.
abbrev pub Claims : Time → Row → Row → QueueItem → Type 0
Claims now r s x =
    (s.id ≡ r.id)
    × (s.kind ≡ r.kind)
    × (s.status ≡ claimed)
    × (s.claimed_at ≡ some now)
    × (s.attempts ≡ r.attempts + 1)
    × (x.id ≡ r.id)
    × (x.claimed_at ≡ now)
    × (x.attempts ≡ r.attempts + 1)

claim-Claims : (now : Time) (r : Row) → Claims now r (claim now r) (to_item (claim now r))
unfolding claim to_item
claim-Claims now r = (refl, refl, refl, refl, refl, refl, refl, refl)

claimable-fields :
    (locked : ℕ → Bool) (kind : QueueKind) (now : Time) (r : Row)
    → claimable locked kind now r ≡ true
    → (r.kind ≡ kind)
      × ((r.status ≡ pending) ⊎ (r.status ≡ retry))
      × (r.not_before ≤ℤ now)
      × (locked r.id ≡ false)
claimable-fields locked kind now r h =
    let waits = status_eq r.status pending || status_eq r.status retry in
    let (h1, free) =
      both {a = kind_eq r.kind kind && waits && leb_ℤ r.not_before now} {b = not (locked r.id)} h in
    let (h2, due) = both {a = kind_eq r.kind kind && waits} {b = leb_ℤ r.not_before now} h1 in
    let (kinds, statuses) = both {a = kind_eq r.kind kind} {b = waits} h2 in
    (
      kind_eq-true r.kind kind kinds,
      claimable-status locked kind now r h,
      ground (arith, due),
      ground (arith, free),
    )

-- Every job that is handed out was a row of the asked kind that waited for its first or another
-- attempt, was due, and was held by no other transaction. That row now reads claimed, at the instant
-- of the call, and was charged one attempt, whatever becomes of the fetch; and the job has its id, the
-- instant and the attempts.
pub claim_sound :
    (locked : ℕ → Bool) (kind : QueueKind) (limit : ℤ) (now : Time) (q : Queue) (v : Inv q)
    (x : QueueItem)
    → In x (claim_jobs_of_kind locked kind limit now q).1
    → (r : Row) × (s : Row) × In r q.rows
      × In s (claim_jobs_of_kind locked kind limit now q).0.rows
      × ((r.kind ≡ kind)
          × ((r.status ≡ pending) ⊎ (r.status ≡ retry))
          × (r.not_before ≤ℤ now)
          × (locked r.id ≡ false))
      × Claims now r s x
claim_sound locked kind limit now q v x m =
    let (r, r_in, can, x_is, held) = claimed_from locked kind limit now q v x m in
    (
      r,
      claim now r,
      r_in,
      held,
      claimable-fields locked kind now r can,
      subst (Claims now r (claim now r)) (sym x_is) (claim-Claims now r),
    )

-- A job is never in two hands: what one claim handed out, the next one, by any worker, of any kind,
-- at any instant and with any locks, does not hand out.
pub claims_disjoint :
    (locked locked' : ℕ → Bool) (kind kind' : QueueKind) (limit limit' : ℤ) (now now' : Time)
    (q : Queue)
    → Inv q
    → (x y : QueueItem) → In x (claim_jobs_of_kind locked kind limit now q).1
    → In y
        (claim_jobs_of_kind locked' kind' limit' now'
          (claim_jobs_of_kind locked kind limit now q).0).1
    → x.id ≢ y.id
claims_disjoint locked locked' kind kind' limit limit' now now' q v x y m m' same =
    let q' = (claim_jobs_of_kind locked kind limit now q).0 in
    let v' = claim-Inv locked kind limit now q v in
    let (r, r_in, _, x_is, held) = claimed_from locked kind limit now q v x m in
    let (s, s_in, can, y_is, _) = claimed_from locked' kind' limit' now' q' v' y m' in
    let ids : (claim now r).id ≡ s.id =
      claim-id now r
      ∙ sym (to_item-id now r)
      ∙ sym (ap (λ (i : QueueItem). i.id) x_is)
      ∙ same
      ∙ ap (λ (i : QueueItem). i.id) y_is
      ∙ to_item-id now' s in
    let one : claim now r ≡ s =
      InOrder-unique 0 q'.next_id q'.rows (claim now r) s v'.ids held s_in ids in
    let taken : s.status ≡ claimed = sym (ap (λ (t : Row). t.status) one) ∙ claim-claimed now r in
    elim (claimable-status locked' kind' now' s can) [ inl e ↦ cc | inr e ↦ cc ]
