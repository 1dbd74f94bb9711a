-- ===== src/Aggregate/Publish/Rename.antt =====
-- internal/aggregate/publish.go: what undoing a swap gives back.
use league_of_legends.Prelude.{
  ℕ, ◌≡◌, refl, ap, ◌∙◌, sym, Bool, true, false, ◌==◌, Option, none, some, String, str_eq, eq_iff,
  if◌then◌else◌, if_cases, if_both, Never, option_cases, none_some, true_false, arith,
}
use league_of_legends.Aggregate.Publish.{
  Entry, Shelf, ArtifactIo, Tree, set, set_slot, manifest_path, take_away, put_back, undo,
}

pub shelf_eq :
    (a b : Shelf) → ((r : String) → a.live r ≡ b.live r) → ((k : ℕ) → a.trash k ≡ b.trash k) → a ≡ b
shelf_eq a b p q = λ i. record { live = λ r. p r i; trash = λ k. q k i }

-- Both calls of `rollback` succeed.
pub record Undoes (io : ArtifactIo) : Type 0 where
  pub removes : io.remove_ok ≡ true
  pub puts_back : io.put_back_ok ≡ true

pub set_at : (rel : String) (e : Option Entry) (t : Tree) → set rel e t rel ≡ e
set_at rel e t =
    if_cases (λ x. x ≡ e) (str_eq rel rel) (λ h. refl) (λ h. true_false ((eq_iff rel rel).1 refl) h)

pub set_other :
    (rel r : String) (e : Option Entry) (t : Tree) → str_eq rel r ≡ false → set rel e t r ≡ t r
set_other rel r e t n = rw n refl

-- A tree that differs at one path, and is set there to what it was.
set_back :
    (rel r : String) (f : Option Entry) (t t' : Tree)
    → (str_eq rel r ≡ false → t' r ≡ t r)
    → f ≡ t rel
    → set rel f t' r ≡ t r
set_back rel r f t t' other h =
    if_cases (λ (x : Option Entry). x ≡ t r) (str_eq rel r)
      (λ same. h ∙ ap t ((eq_iff rel r).0 same)) (λ n. other n)

slot_at : (i : ℕ) (e : Option Entry) (t : ℕ → Option Entry) → set_slot i e t i ≡ e
slot_at i e t =
    if_cases (λ (x : Option Entry). x ≡ e) (i == i) (λ h. refl)
      (λ h. let n : Never {0} = ground (arith, h) in elim n [ ])

slot_back :
    (i k : ℕ) (e f : Option Entry) (t : ℕ → Option Entry)
    → f ≡ t i
    → set_slot i f (set_slot i e t) k ≡ t k
slot_back i k e f t h =
    if_cases (λ (x : Option Entry). x ≡ t k) (i == k) (λ same. h ∙ ap t (ground (arith, same)))
      (λ n.
        if_cases (λ (x : Option Entry). x ≡ t k) (i == k) (λ same. true_false same n) (λ n'. refl))

-- A path that is taken away, filled anew, and, where that succeeds, removed again.
abbrev removed : Bool → String → Option Entry → Tree → Tree
removed ok rel new live =
    if ok then set rel none (set rel new (set rel none live)) else set rel new (set rel none live)

removed-other :
    (ok : Bool) (rel r : String) (new : Option Entry) (live : Tree)
    → str_eq rel r ≡ false
    → removed ok rel new live r ≡ live r
removed-other ok rel r new live n =
    let once = set_other rel r none live n in
    let twice = set_other rel r new (set rel none live) n ∙ once in
    if_both (λ (x : Tree). x r ≡ live r) ok {x = set rel none (set rel new (set rel none live))}
      {y = set rel new (set rel none live)}
      (set_other rel r none (set rel new (set rel none live)) n ∙ twice) twice

-- A swap that displaced an artifact is undone.
pub undo-take_away :
    (io : ArtifactIo) (slot : ℕ) (rel : String) (s : Shelf) (new : Option Entry) (old : Entry)
    → Undoes io
    → str_eq rel manifest_path ≡ false
    → s.live rel ≡ some old
    → s.trash slot ≡ none
    → undo io slot rel (record {
      live = set rel new (take_away slot rel s).live;
      trash = (take_away slot rel s).trash;
    })
      ≡ s
unfolding undo take_away put_back
undo-take_away io slot rel s new old u path live slot_free =
    let P : Shelf → Type 0 = λ x. x ≡ s in
    let trash' = set_slot slot (s.live rel) s.trash in
    if_cases P (str_eq rel manifest_path) (λ t. true_false t path)
      (λ f.
        option_cases P (trash' slot) (λ n. none_some n (slot_at slot (s.live rel) s.trash ∙ live))
          (λ e h.
            if_cases P io.put_back_ok
              (λ t.
                shelf_eq _ s
                  (λ r.
                    set_back rel r (trash' slot) s.live (removed io.remove_ok rel new s.live)
                      (removed-other io.remove_ok rel r new s.live)
                      (slot_at slot (s.live rel) s.trash))
                  (λ k. slot_back slot k (s.live rel) none s.trash (sym slot_free)))
              (λ n. true_false u.puts_back n)))

-- A swap onto a path that held nothing is undone.
pub undo-fresh :
    (io : ArtifactIo) (slot : ℕ) (rel : String) (s : Shelf) (new : Option Entry)
    → Undoes io
    → str_eq rel manifest_path ≡ false
    → s.live rel ≡ none
    → s.trash slot ≡ none
    → undo io slot rel (record { live = set rel new s.live; trash = s.trash }) ≡ s
unfolding undo
undo-fresh io slot rel s new u path live slot_free =
    let P : Shelf → Type 0 = λ x. x ≡ s in
    if_cases P (str_eq rel manifest_path) (λ t. true_false t path)
      (λ f.
        option_cases P (s.trash slot)
          (λ n.
            shelf_eq _ s
              (λ r.
                if_cases (λ (x : Tree). x r ≡ s.live r) io.remove_ok
                  (λ t.
                    set_back rel r none s.live (set rel new s.live)
                      (λ other. set_other rel r new s.live other) (sym live))
                  (λ n. true_false u.removes n))
              (λ k. refl))
          (λ e h. none_some slot_free h))
