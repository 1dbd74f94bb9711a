-- ===== src/Store/Claim/Order.antt =====
-- internal/store/queue.go: what `ClaimJobsOfKind` hands out, and in which order.
use league_of_legends.Prelude.{
  ℕ, ◌≡◌, refl, subst, ap, ◌⊎◌, inl, inr, Bool, true, false, List, [], ◌∷◌, map, In, Bool-cases,
  arith, ℤ, Time, keep, sort_by, In-map, map-In, In-keep, In-sort_by, keep-In, sort_by-In,
  take-first, sort_by-IsSorted, ◌<ℤ◌, ◌≤ℤ◌, ◌<◌, ◌≤◌, ◌∙◌, if◌then◌else◌,
}
use league_of_legends.Store.Row.{QueueKind, QueueItem, Row, Queue, clamp_limit, update_where, id_in}
use league_of_legends.Store.Claim.{
  claimable, row_before, choose, claim, to_item, claim_jobs_of_kind,
}

row_before-asym : (a b : Row) → row_before a b ≡ true → row_before b a ≡ false
row_before-asym a b h = ground arith

-- The order of the rows in terms of numbers.
abbrev Lt : Row → Row → Type 0
Lt a b =
    (a.priority <ℤ b.priority)
    ⊎ (b.priority ≤ℤ a.priority) × (a.priority ≤ℤ b.priority) × (a.not_before <ℤ b.not_before)
    ⊎ (b.priority ≤ℤ a.priority)
      × (a.priority ≤ℤ b.priority)
      × (b.not_before ≤ℤ a.not_before)
      × (a.not_before ≤ℤ b.not_before)
      × (a.id < b.id)

Lt_of_before : (a b : Row) → row_before a b ≡ true → Lt a b
Lt_of_before a b h = ground arith

abbrev Le : Row → Row → Type 0
Le a b =
    (a.priority <ℤ b.priority)
    ⊎ (b.priority ≤ℤ a.priority) × (a.priority ≤ℤ b.priority) × (a.not_before <ℤ b.not_before)
    ⊎ (b.priority ≤ℤ a.priority)
      × (a.priority ≤ℤ b.priority)
      × (b.not_before ≤ℤ a.not_before)
      × (a.not_before ≤ℤ b.not_before)
      × (a.id ≤ b.id)

Le_of_before : (a b : Row) → row_before b a ≡ false → Le a b
Le_of_before a b h = ground arith

Le-Lt_absurd : (a b c : Row) → Le a b → Le b c → Lt c a → ⊥
Le-Lt_absurd a b c h k l = omega arith

row_before-weak :
    (a b c : Row) → row_before b a ≡ false → row_before c b ≡ false → row_before c a ≡ false
row_before-weak a b c h k = elim (Bool-cases (row_before c a)) [
  | inl e ↦
      absurd (Le-Lt_absurd a b c (Le_of_before a b h) (Le_of_before b c k) (Lt_of_before c a e))
  | inr e ↦ e
]

-- Every row that the inner SELECT chose is a claimable row of the table.
module _ (locked : ℕ → Bool) (kind : QueueKind) (n : ℕ) (now : Time) (rows : List Row) where
  open_rows : List Row
  open_rows = keep (claimable locked kind now) rows

  -- A claimable row that was not chosen comes strictly before none that was.
  pub choose-best :
      (c r : Row)
      → In c (choose locked kind n now rows)
      → In r rows
      → claimable locked kind now r ≡ true
      → In r (choose locked kind n now rows) ⊎ (row_before r c ≡ false)
  unfolding choose open_rows
  choose-best c r chosen m can =
      take-first row_before n (sort_by row_before open_rows) c r
        (sort_by-IsSorted row_before row_before-asym row_before-weak open_rows) chosen
        (sort_by-In row_before r open_rows (keep-In (claimable locked kind now) r rows m can))

-- The rows of an updated table.
pub update_where-In :
    (p : Row → Bool) (f : Row → Row) (s : Row) (rs : List Row)
    → In s (update_where p f rs)
    → (r : Row) × In r rs × (s ≡ (if p r then f r else r))
unfolding update_where
update_where-In p f s [] m = elim m [ ]
update_where-In p f s (r ∷ rs) (inl e) = (r, inl refl, e)
update_where-In p f s (r ∷ rs) (inr m) =
    let (r', m', e) = update_where-In p f s rs m in (r', inr m', e)

pub In-update_where :
    (p : Row → Bool) (f : Row → Row) (r : Row) (rs : List Row)
    → In r rs
    → In (if p r then f r else r) (update_where p f rs)
unfolding update_where
In-update_where p f r [] m = elim m [ ]
In-update_where p f r (x ∷ rs) (inl e) = inl (ap (λ (y : Row). if p y then f y else y) e)
In-update_where p f r (x ∷ rs) (inr m) = inr (In-update_where p f r rs m)

-- What a claim returns: for each item a row of the table that was ready, and that now reads claimed.
module _ (locked : ℕ → Bool) (kind : QueueKind) (limit : ℤ) (now : Time) (q : Queue) where
  abbrev pub chosen : List Row
  chosen = choose locked kind (clamp_limit limit) now q.rows

  -- An item came from a chosen row of the table.
  pub item-row :
      (x : QueueItem)
      → In x (claim_jobs_of_kind locked kind limit now q).1
      → (r : Row) × In r q.rows × (id_in chosen r ≡ true) × (x ≡ to_item (claim now r))
  unfolding claim_jobs_of_kind
  item-row x m =
      let taken = keep (id_in chosen) q.rows in
      let (s, s_in, x_is) = In-map to_item x (sort_by row_before (map (claim now) taken)) m in
      let (r, r_in, s_is) =
        In-map (claim now) s taken (In-sort_by row_before s (map (claim now) taken) s_in) in
      let (r_row, r_chosen) = In-keep (id_in chosen) r q.rows r_in in
      (r, r_row, r_chosen, x_is ∙ ap to_item s_is)

  -- Every chosen row is returned.
  pub row-item :
      (r : Row)
      → In r q.rows
      → id_in chosen r ≡ true
      → In (to_item (claim now r)) (claim_jobs_of_kind locked kind limit now q).1
  unfolding claim_jobs_of_kind
  row-item r m c = map-In to_item (claim now r) _ (
      sort_by-In row_before (claim now r) _
        (map-In (claim now) r _ (keep-In (id_in chosen) r q.rows m c)))

  pub claimed_row :
      (r : Row)
      → In r q.rows
      → id_in chosen r ≡ true
      → In (claim now r) (claim_jobs_of_kind locked kind limit now q).0.rows
  unfolding claim_jobs_of_kind
  claimed_row r m c =
      subst
        (λ (b : Bool).
          In (if b then claim now r else r) (update_where (id_in chosen) (claim now) q.rows))
        c (In-update_where (id_in chosen) (claim now) r q.rows m)
