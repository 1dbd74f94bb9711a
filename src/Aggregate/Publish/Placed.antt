-- ===== src/Aggregate/Publish/Placed.antt =====
-- internal/aggregate/publish.go: what the two loops have put in place.
use league_of_legends.Prelude.{
  ℕ, suc, ◌≡◌, refl, ap, ◌∙◌, sym, subst, Bool, true, false, ◌||◌, List, [], ◌∷◌, ◌++◌, Option,
  none, some, String, str_eq, eq_iff, any, if◌then◌else◌, if_cases, none_some, true_false, arith,
}
use league_of_legends.Aggregate.Publish.{
  Entry, Shelf, Disk, ArtifactIo, Tree, take_away, install, Progress, rolled_back, move_failed,
  placed, swap_all, set, make_parents,
}
use league_of_legends.Aggregate.Publish.Rename.{set_other}
use league_of_legends.Aggregate.Publish.Cases.{swap-P}

-- Whether a path is one of a list.
abbrev pub named : String → List String → Bool
named r rels = any (λ rel. str_eq rel r) rels

pub named-snoc :
    (r rel : String) (rels : List String)
    → named r (rels ++ rel ∷ []) ≡ (if named r rels then true else str_eq rel r)
unfolding any
named-snoc r rel [] = ground arith
named-snoc r rel (x ∷ rels) = ground (arith, named-snoc r rel rels)

snoc_append :
    (xs : List String) (x : String) (ys : List String) → (xs ++ x ∷ []) ++ ys ≡ xs ++ x ∷ ys
snoc_append [] x ys = refl
snoc_append (y ∷ xs) x ys = ap (λ zs. y ∷ zs) (snoc_append xs x ys)

append_nil : (xs : List String) → xs ++ [] ≡ xs
append_nil [] = refl
append_nil (x ∷ xs) = ap (λ zs. x ∷ zs) (append_nil xs)

-- The artifacts of `replaced` are in place, and nothing else has moved.
pub record InPlace (live staging : Tree) (replaced : List String) (d : Disk) : Type 0 where
  pub taken :
      (r : String)
      → named r replaced ≡ true
      → (e : Entry) × (staging r ≡ some e) × (d.shelf.live r ≡ some e) × (d.staging r ≡ none)
  pub other_live : (r : String) → named r replaced ≡ false → d.shelf.live r ≡ live r
  pub other_staging : (r : String) → named r replaced ≡ false → d.staging r ≡ staging r

set_at : (rel : String) (e : Option Entry) (t : Tree) → set rel e t rel ≡ e
set_at rel e t =
    if_cases (λ x. x ≡ e) (str_eq rel rel) (λ h. refl) (λ h. true_false ((eq_iff rel rel).1 refl) h)

named-first :
    (r rel : String) (rels : List String)
    → named r (rels ++ rel ∷ []) ≡ true
    → str_eq rel r ≡ false
    → named r rels ≡ true
named-first r rel rels h n = ground (arith, named-snoc r rel rels, h, n)

pub named-none :
    (r rel : String) (rels : List String)
    → named r (rels ++ rel ∷ []) ≡ false
    → (named r rels ≡ false) × (str_eq rel r ≡ false)
named-none r rel rels h = ground (arith, named-snoc r rel rels, h)

-- A staged artifact was not moved before, so what is staged there is what was staged at first.
first_staged :
    (live staging : Tree) (replaced : List String) (d : Disk) (rel : String) (new : Entry)
    → InPlace live staging replaced d
    → d.staging rel ≡ some new
    → staging rel ≡ some new
first_staged live staging replaced d rel new u h =
    if_cases (λ (b : Bool). staging rel ≡ some new) (named rel replaced) {x = true} {y = true}
      (λ t. let (e, s, l, gone) = u.taken rel t in none_some gone h)
      (λ f. sym (u.other_staging rel f) ∙ h)

pub install-InPlace :
    (live staging : Tree) (replaced : List String) (d d' : Disk) (rel : String) (new : Entry)
    → InPlace live staging replaced d
    → d'.staging ≡ d.staging
    → ((r : String) → str_eq rel r ≡ false → d'.shelf.live r ≡ d.shelf.live r)
    → d.staging rel ≡ some new
    → InPlace live staging (replaced ++ rel ∷ []) (install rel d')
unfolding install
install-InPlace live staging replaced d d' rel new u same others h =
    let staged : d'.staging rel ≡ some new = ap (λ t. t rel) same ∙ h in
    record {
      taken = λ r named'.
          if_cases
            (λ (b : Bool).
              (e : Entry) × (staging r ≡ some e)
              × (set rel (d'.staging rel) d'.shelf.live r ≡ some e)
              × (set rel none d'.staging r ≡ none))
            (str_eq rel r) {x = true} {y = true}
            (λ t.
              subst
                (λ r.
                  (e : Entry) × (staging r ≡ some e)
                  × (set rel (d'.staging rel) d'.shelf.live r ≡ some e)
                  × (set rel none d'.staging r ≡ none))
                ((eq_iff rel r).0 t)
                (
                  new,
                  first_staged live staging replaced d rel new u h,
                  set_at rel (d'.staging rel) d'.shelf.live ∙ staged,
                  set_at rel none d'.staging,
                ))
            (λ n.
              let (e, s, l, gone) = u.taken r (named-first r rel replaced named' n) in
              (
                e,
                s,
                set_other rel r (d'.staging rel) d'.shelf.live n ∙ others r n ∙ l,
                set_other rel r none d'.staging n ∙ ap (λ t. t r) same ∙ gone,
              ));
      other_live = λ r none'.
          let (absent, n) = named-none r rel replaced none' in
          set_other rel r (d'.staging rel) d'.shelf.live n ∙ others r n ∙ u.other_live r absent;
      other_staging = λ r none'.
          let (absent, n) = named-none r rel replaced none' in
          set_other rel r none d'.staging n ∙ ap (λ t. t r) same ∙ u.other_staging r absent;
    }

abbrev pub Placing : Tree → Tree → List String → Progress → Type 0
Placing live staging rels (rolled_back d) = Unit
Placing live staging rels (move_failed d) = Unit
Placing live staging rels (placed d replaced existing) =
    InPlace live staging replaced d × (replaced ≡ rels)

take_away-other :
    (slot : ℕ) (rel r : String) (s : Shelf)
    → str_eq rel r ≡ false
    → (take_away slot rel s).live r ≡ s.live r
unfolding take_away
take_away-other slot rel r s n = set_other rel r none s.live n

pub swap_all-Placing :
    (io : ℕ → ArtifactIo) (live staging : Tree) (dir : Bool) (slot : ℕ) (rels : List String)
    (d : Disk) (replaced : List String) (existing : Bool)
    → InPlace live staging replaced d
    → Placing live staging (replaced ++ rels) (swap_all io dir slot rels d replaced existing)
unfolding swap_all
swap_all-Placing io live staging dir slot [] d replaced existing u = (u, sym (append_nil replaced))
swap_all-Placing io live staging dir slot (rel ∷ rels) d replaced existing u =
    let d1 : Disk = make_parents (io slot) rel d in
    let next : Bool → Disk → Progress = λ displaced d'.
      swap_all io dir (suc slot) rels d' (replaced ++ rel ∷ []) (existing || displaced) in
    let rest : (displaced : Bool) (d' : Disk)
        → InPlace live staging (replaced ++ rel ∷ []) d'
        → Placing live staging (replaced ++ rel ∷ rels) (next displaced d') =
      λ displaced d' u'.
        subst (λ rs. Placing live staging rs (next displaced d')) (snoc_append replaced rel rels)
          (swap_all-Placing io live staging dir (suc slot) rels d' (replaced ++ rel ∷ [])
            (existing || displaced) u') in
    swap-P (Placing live staging (replaced ++ rel ∷ rels)) io dir slot rel d replaced next tt
      (λ d' s made. tt)
      (λ h new staged.
        rest false (install rel d1)
          (install-InPlace live staging replaced d d1 rel new u refl (λ r n. refl) staged))
      (λ e h new staged.
        let d' : Disk = record d1 { shelf = take_away slot rel d.shelf } in
        rest true (install rel d') (
          install-InPlace live staging replaced d d' rel new u refl
            (λ r n. take_away-other slot rel r d.shelf n) staged))
