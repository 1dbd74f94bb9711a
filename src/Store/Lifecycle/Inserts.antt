-- ===== src/Store/Lifecycle/Inserts.antt =====
-- `EnqueueMatches` (internal/store/queue.go) keeps the invariant of the table: it adds rows with new
-- ids and new keys at the end, and revives dead rows within their budget.
use native.Mathlib.Numerals.{add-one}
use league_of_legends.Prelude.{
  ℕ, zero, suc, ◌≡◌, refl, inl, inr, Bool, true, false, List, [], ◌∷◌, none, All, Bool-cases, Time,
  eq_iff, arith,
}
use league_of_legends.Store.Row.{pending, QueueItem, Row, Queue}
use league_of_legends.Store.Enqueue.{
  conflicts, revivable, revive, upsert, excluded, insert_chunk, insert_chunks, enqueue_matches,
}
use league_of_legends.Store.Lifecycle.{
  same, revives, Evolves, added, next, IsValid, InOrder, KeysDistinct, Inv,
}
use league_of_legends.Store.Lifecycle.Update.{RowStep-IsValid}

-- A row as it is inserted.
pub record IsNew (n : ℕ) (r : Row) : Type 0 where
  pub id_is : r.id ≡ n
  pub waiting : r.status ≡ pending
  pub unstamped : r.claimed_at ≡ none
  pub unrevived : r.revivals ≡ 0

pub excluded-IsNew : (now : Time) (n : ℕ) (i : QueueItem) → IsNew n (excluded now n i)
unfolding excluded
excluded-IsNew now n i = record { id_is = refl; waiting = refl; unstamped = refl; unrevived = refl }

IsNew-IsValid : (n : ℕ) (r : Row) → IsNew n r → IsValid r
IsNew-IsValid n r w = ground arith

-- The three ways in which an upsert meets the first row.
pub upsert_split {ℓ} :
    (P : List Row × ℕ → Type ℓ) (new r : Row) (rs : List Row)
    → (conflicts new r ≡ true → revivable r ≡ true → P (revive new r ∷ rs, 1))
    → (conflicts new r ≡ true → revivable r ≡ false → P (r ∷ rs, 0))
    → (conflicts new r ≡ false → P (r ∷ (upsert new rs).0, (upsert new rs).1))
    → P (upsert new (r ∷ rs))
unfolding upsert
upsert_split P new r rs again left miss = elim (Bool-cases (conflicts new r)) [
  | inl hit ↦ elim (Bool-cases (revivable r)) [
    | inl budget ↦ rw (hit, budget) (again hit budget)
    | inr spent ↦ rw (hit, spent) (left hit spent)
  ]
  | inr other ↦ rw other (miss other)
]

pub Evolves-refl : (rs : List Row) → Evolves rs rs
Evolves-refl [] = added
Evolves-refl (r ∷ rs) = next same (Evolves-refl rs)

conflicts-sym : (a b : Row) → conflicts a b ≡ false → conflicts b a ≡ false
conflicts-sym a b h = ground (arith, eq_iff b.match_id a.match_id, eq_iff a.match_id b.match_id)

InOrder-weaken : (lo hi : ℕ) (rs : List Row) → InOrder lo rs hi → InOrder lo rs (suc hi)
InOrder-weaken lo hi [] o = omega arith
InOrder-weaken lo hi (r ∷ rs) o = (o.0, InOrder-weaken (suc r.id) hi rs o.1)

module _ (new : Row) (n : ℕ) (w : IsNew n new) where
  pub upsert-Evolves : (rs : List Row) → Evolves rs (upsert new rs).0
  upsert-Evolves [] = added
  upsert-Evolves (r ∷ rs) =
      upsert_split (λ u. Evolves (r ∷ rs) u.0) new r rs
        (λ hit budget. next (revives new w.waiting (ground arith) (ground arith)) (Evolves-refl rs))
        (λ hit spent. Evolves-refl (r ∷ rs)) (λ other. next same (upsert-Evolves rs))

  upsert-InOrder : (lo : ℕ) (rs : List Row) → InOrder lo rs n → InOrder lo (upsert new rs).0 (suc n)
  unfolding upsert
  upsert-InOrder lo [] o = ground arith
  upsert-InOrder lo (r ∷ rs) o =
      upsert_split (λ u. InOrder lo u.0 (suc n)) new r rs
        (λ hit budget. unfold revive in (o.0, InOrder-weaken (suc r.id) n rs o.1))
        (λ hit spent. (o.0, InOrder-weaken (suc r.id) n rs o.1))
        (λ other. (o.0, upsert-InOrder (suc r.id) rs o.1))

  upsert-conflicts :
      (r : Row) (rs : List Row)
      → conflicts r new ≡ false
      → All (λ s. conflicts r s ≡ false) rs
      → All (λ s. conflicts r s ≡ false) (upsert new rs).0
  unfolding upsert
  upsert-conflicts r [] h a = (h, tt)
  upsert-conflicts r (s ∷ rs) h a =
      upsert_split (λ u. All (λ s. conflicts r s ≡ false) u.0) new s rs
        (λ hit budget. unfold revive in a) (λ hit spent. a)
        (λ other. (a.0, upsert-conflicts r rs h a.1))

  upsert-KeysDistinct : (rs : List Row) → KeysDistinct rs → KeysDistinct (upsert new rs).0
  unfolding upsert
  upsert-KeysDistinct [] d = (tt, tt)
  upsert-KeysDistinct (r ∷ rs) d =
      upsert_split (λ u. KeysDistinct u.0) new r rs (λ hit budget. unfold revive in d)
        (λ hit spent. d)
        (λ other.
          (upsert-conflicts r rs (conflicts-sym new r other) d.0, upsert-KeysDistinct rs d.1))

  upsert-IsValid : (rs : List Row) → All IsValid rs → All IsValid (upsert new rs).0
  unfolding upsert
  upsert-IsValid [] v = (IsNew-IsValid n new w, tt)
  upsert-IsValid (r ∷ rs) v =
      upsert_split (λ u. All IsValid u.0) new r rs
        (λ hit budget.
          (RowStep-IsValid (revives new w.waiting (ground arith) (ground arith)) v.0, v.1))
        (λ hit spent. v) (λ other. (v.0, upsert-IsValid rs v.1))

upsert-Inv :
    (now : Time) (i : QueueItem) (q : Queue)
    → Inv q
    → Inv (record { rows = (upsert (excluded now q.next_id i) q.rows).0; next_id = suc q.next_id })
upsert-Inv now i q v =
    let w = excluded-IsNew now q.next_id i in
    record {
      ids = upsert-InOrder _ q.next_id w 0 q.rows v.ids;
      keys = upsert-KeysDistinct _ q.next_id w q.rows v.keys;
      valid = upsert-IsValid _ q.next_id w q.rows v.valid;
    }

insert_chunk-Inv :
    (now : Time) (is : List QueueItem) (q : Queue) → Inv q → Inv (insert_chunk now is q).0
unfolding insert_chunk
insert_chunk-Inv now [] q v = v
insert_chunk-Inv now (i ∷ is) q v =
    insert_chunk-Inv now is _ (rw (add-one q.next_id) (upsert-Inv now i q v))

insert_chunks-Inv :
    (fuel : ℕ) (db : ℕ → Bool) (now : Time) (batch : List QueueItem) (n : ℕ) (q : Queue)
    → Inv q
    → Inv (insert_chunks fuel db now batch n q).0
unfolding insert_chunks
insert_chunks-Inv zero db now batch n q v = v
insert_chunks-Inv (suc fuel) db now [] n q v = v
insert_chunks-Inv (suc fuel) db now (i ∷ is) n q v = elim (Bool-cases (db fuel)) [
  | inl up ↦ rw up (insert_chunks-Inv fuel db now _ _ _ (insert_chunk-Inv now _ q v))
  | inr down ↦ rw down v
]

pub enqueue_matches-Inv :
    (db : ℕ → Bool) (now : Time) (items : List QueueItem) (q : Queue)
    → Inv q
    → Inv (enqueue_matches db now items q).0
unfolding enqueue_matches
enqueue_matches-Inv db now items q v = insert_chunks-Inv _ db now _ 0 q v
