-- ===== src/Store/Lifecycle/Update.antt =====
-- Statements of the form UPDATE … WHERE keep the invariant of the table.
use league_of_legends.Prelude.{
  ℕ, suc, ◌≤◌, ◌<◌, ◌≡◌, refl, sym, subst, ◌∙◌, inl, inr, Bool, true, false, List, [], ◌∷◌, All, In,
  Bool-cases, arith, any-In, ◌==◌, ==_iff,
}
use league_of_legends.Store.Row.{Row, Queue, update_where, id_in}
use league_of_legends.Store.Enqueue.{conflicts, revive}
use league_of_legends.Store.Claim.{claim}
use league_of_legends.Store.Close.{completed, retried, lettered, released, reclaimed, replayed}
use league_of_legends.Store.Lifecycle.{
  RowStep, same, claims, completes, retries, letters, releases, reclaims, replays, revives, Updates,
  nil, cons, IsValid, InOrder, KeysDistinct, Inv,
}

-- A step changes neither the id nor the key of a row.
pub RowStep-key :
    {r r' : Row} → RowStep r r' → (r'.id ≡ r.id) × (r'.match_id ≡ r.match_id) × (r'.kind ≡ r.kind)
unfolding claim completed retried lettered released reclaimed replayed revive
RowStep-key same = (refl, refl, refl)
RowStep-key (claims now h) = (refl, refl, refl)
RowStep-key (completes h) = (refl, refl, refl)
RowStep-key (retries t c h) = (refl, refl, refl)
RowStep-key (letters t c h) = (refl, refl, refl)
RowStep-key (releases t c h) = (refl, refl, refl)
RowStep-key (reclaims t h) = (refl, refl, refl)
RowStep-key (replays t h) = (refl, refl, refl)
RowStep-key (revives new p h b) = (refl, refl, refl)

pub RowStep-IsValid : {r r' : Row} → RowStep r r' → IsValid r → IsValid r'
unfolding claim completed retried lettered released reclaimed replayed revive
RowStep-IsValid same v = v
RowStep-IsValid (claims now h) v = ground arith
RowStep-IsValid (completes h) v = ground arith
RowStep-IsValid (retries t c h) v = ground arith
RowStep-IsValid (letters t c h) v = ground arith
RowStep-IsValid (releases t c h) v = ground arith
RowStep-IsValid (reclaims t h) v = ground arith
RowStep-IsValid (replays t h) v = ground arith
RowStep-IsValid (revives new p h b) v = ground arith

Updates-InOrder :
    {rs rs' : List Row} (lo hi : ℕ) → Updates rs rs' → InOrder lo rs hi → InOrder lo rs' hi
Updates-InOrder lo hi nil o = o
Updates-InOrder lo hi (cons {r = r} {r' = r'} {rs' = rs'} st u) o =
    let e = (RowStep-key st).0 in (rw e o.0, rw e (Updates-InOrder (suc r.id) hi u o.1))

Updates-conflicts :
    {rs rs' : List Row} {r r' : Row}
    → RowStep r r'
    → Updates rs rs'
    → All (λ s. conflicts r s ≡ false) rs
    → All (λ s. conflicts r' s ≡ false) rs'
Updates-conflicts st nil a = tt
Updates-conflicts st (cons st' u) a =
    let (_, m, k) = RowStep-key st in
    let (_, m', k') = RowStep-key st' in (rw (m, k, m', k') a.0, Updates-conflicts st u a.1)

Updates-KeysDistinct : {rs rs' : List Row} → Updates rs rs' → KeysDistinct rs → KeysDistinct rs'
Updates-KeysDistinct nil d = tt
Updates-KeysDistinct (cons st u) d = (Updates-conflicts st u d.0, Updates-KeysDistinct u d.1)

Updates-IsValid : {rs rs' : List Row} → Updates rs rs' → All IsValid rs → All IsValid rs'
Updates-IsValid nil v = tt
Updates-IsValid (cons st u) v = (RowStep-IsValid st v.0, Updates-IsValid u v.1)

pub Updates-Inv :
    (q : Queue) (rows : List Row) → Updates q.rows rows → Inv q → Inv (record q { rows = rows })
Updates-Inv q rows u v = record {
  ids = Updates-InOrder 0 q.next_id u v.ids;
  keys = Updates-KeysDistinct u v.keys;
  valid = Updates-IsValid u v.valid;
}

-- An UPDATE takes a step at each row that it selects.
pub update_where-Updates :
    (p : Row → Bool) (f : Row → Row) (rs : List Row)
    → ((r : Row) → In r rs → p r ≡ true → RowStep r (f r))
    → Updates rs (update_where p f rs)
unfolding update_where
update_where-Updates p f [] h = nil
update_where-Updates p f (r ∷ rs) h = elim (Bool-cases (p r)) [
  | inl hit ↦ rw hit (cons (h r (inl refl) hit) (update_where-Updates p f rs (λ s m. h s (inr m))))
  | inr miss ↦ rw miss (cons same (update_where-Updates p f rs (λ s m. h s (inr m))))
]

pub InOrder-le : (lo hi : ℕ) (rs : List Row) → InOrder lo rs hi → lo ≤ hi
InOrder-le lo hi [] o = o
InOrder-le lo hi (r ∷ rs) o = omega (arith, InOrder-le (suc r.id) hi rs o.1)

pub InOrder-In :
    (lo hi : ℕ) (rs : List Row) (r : Row) → InOrder lo rs hi → In r rs → (lo ≤ r.id) × (r.id < hi)
InOrder-In lo hi [] r o m = elim m [ ]
InOrder-In lo hi (x ∷ rs) r o (inl e) = ground (arith, InOrder-le (suc x.id) hi rs o.1)
InOrder-In lo hi (x ∷ rs) r o (inr m) = omega (arith, InOrder-In (suc x.id) hi rs r o.1 m)

-- An id names one row.
pub InOrder-unique :
    (lo hi : ℕ) (rs : List Row) (a b : Row)
    → InOrder lo rs hi
    → In a rs
    → In b rs
    → a.id ≡ b.id
    → a ≡ b
InOrder-unique lo hi [] a b o m n e = elim m [ ]
InOrder-unique lo hi (x ∷ rs) a b o (inl p) (inl q) e = p ∙ sym q
InOrder-unique lo hi (x ∷ rs) a b o (inl p) (inr n) e =
    let later : suc x.id ≤ b.id = (InOrder-In (suc x.id) hi rs b o.1 n).0 in absurd (ground arith)
InOrder-unique lo hi (x ∷ rs) a b o (inr m) (inl q) e =
    let later : suc x.id ≤ a.id = (InOrder-In (suc x.id) hi rs a o.1 m).0 in absurd (ground arith)
InOrder-unique lo hi (x ∷ rs) a b o (inr m) (inr n) e =
    InOrder-unique (suc x.id) hi rs a b o.1 m n e

-- A row whose id is among the chosen is one of them, if those stand in the table.
pub id_in-In :
    (lo hi : ℕ) (rs chosen : List Row) (r : Row)
    → InOrder lo rs hi
    → ((c : Row) → In c chosen → In c rs)
    → In r rs
    → id_in chosen r ≡ true
    → In r chosen
unfolding id_in
id_in-In lo hi rs chosen r o within m e =
    let (c, c_in, same_id) = any-In (λ (c : Row). c.id == r.id) chosen e in
    subst (λ (x : Row). In x chosen)
      (InOrder-unique lo hi rs c r o (within c c_in) m ((==_iff c.id r.id).0 same_id)) c_in
