-- ===== src/Store/Touched.antt =====
-- internal/store: the rows that an UPDATE leaves and those that it writes.
use league_of_legends.Prelude.{
  ℕ, ◌≡◌, refl, ap, ◌∙◌, ◌⊎◌, inl, inr, Bool, true, List, [], ◌∷◌, if◌then◌else◌, In, arith,
  Bool-cases, ==_iff,
}
use league_of_legends.Store.Row.{Row, update_where, owned}

pub update_where-In :
    (p : Row → Bool) (f : Row → Row) (r' : Row) (rs : List Row)
    → In r' (update_where p f rs)
    → (r : Row) × In r rs × ((r' ≡ r) ⊎ (p r ≡ true) × (r' ≡ f r))
unfolding update_where
update_where-In p f r' [] m = elim m [ ]
update_where-In p f r' (r ∷ rs) (inr m) =
    let (s, k, h) = update_where-In p f r' rs m in (s, inr k, h)
update_where-In p f r' (r ∷ rs) (inl e) = elim (Bool-cases (p r)) [
  | inl t ↦ (r, inl refl, inr (t, e ∙ ap (λ b. if b then f r else r) t))
  | inr h ↦ (r, inl refl, inl (e ∙ ap (λ b. if b then f r else r) h))
]

-- A statement on a claim finds the claim by its id.
pub owned-id : (id : ℕ) (r : Row) → owned id r ≡ true → r.id ≡ id
owned-id id r h = ground (arith, ==_iff r.id id)
