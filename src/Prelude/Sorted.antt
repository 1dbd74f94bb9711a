-- ===== src/Prelude/Sorted.antt =====
-- What sorting by a Boolean order gives, and what the first elements of a sorted list are.
use Prim.Native.Nat.{ℕ, zero, suc}
use mathlib.Core.Path.{◌≡◌, sym, subst}
use mathlib.Core.Logic.{◌⊎◌, inl, inr}
use mathlib.Core.Bool.{Bool, true, false}
use mathlib.Core.List.{List, [], ◌∷◌}
use league_of_legends.Prelude.Tests.{Bool-cases}
use league_of_legends.Prelude.Lists.{All, In, All-In, All-tabulate, take}
use league_of_legends.Prelude.Sort.{keep, insert_by, sort_by, any}

module _ {ℓ} {A : Type ℓ} where
  -- No element comes strictly before one that stands ahead of it.
  abbrev pub IsSorted : (A → A → Bool) → List A → Type ℓ
  IsSorted before [] = Unit
  IsSorted before (x ∷ xs) = All (λ y. before y x ≡ false) xs × IsSorted before xs

  pub keep-In : (p : A → Bool) (x : A) (xs : List A) → In x xs → p x ≡ true → In x (keep p xs)
  unfolding keep
  keep-In p x [] m px = m
  keep-In p x (y ∷ ys) (inl e) px = rw (subst (λ z. p z ≡ true) e px) (inl e)
  keep-In p x (y ∷ ys) (inr m) px = elim (Bool-cases (p y)) [
    | inl pass ↦ rw pass (inr (keep-In p x ys m px))
    | inr fails ↦ rw fails (keep-In p x ys m px)
  ]

  pub In-any : (p : A → Bool) (x : A) (xs : List A) → In x xs → p x ≡ true → any p xs ≡ true
  unfolding any
  In-any p x [] m px = elim m [ ]
  In-any p x (y ∷ ys) (inl e) px = rw (subst (λ z. p z ≡ true) e px)
  In-any p x (y ∷ ys) (inr m) px = elim (Bool-cases (p y)) [
    | inl pass ↦ rw pass
    | inr fails ↦ rw fails (In-any p x ys m px)
  ]

  module _ (before : A → A → Bool) where
    pub All-insert_by {κ} :
        (P : A → Type κ) (x : A) (xs : List A) → P x → All P xs → All P (insert_by before x xs)
    unfolding insert_by
    All-insert_by P x [] px a = (px, tt)
    All-insert_by P x (y ∷ ys) px a = elim (Bool-cases (before y x)) [
      | inl later ↦ rw later (a.0, All-insert_by P x ys px a.1)
      | inr here ↦ rw here (px, a)
    ]

    insert_by-In : (x z : A) (xs : List A) → (z ≡ x) ⊎ In z xs → In z (insert_by before x xs)
    unfolding insert_by
    insert_by-In x z [] m = m
    insert_by-In x z (y ∷ ys) m = elim (Bool-cases (before y x)) [
      | inl later ↦ rw later (past (insert_by-In x z ys) m)
      | inr here ↦ rw here m
    ]
      where
        past :
            ((z ≡ x) ⊎ In z ys → In z (insert_by before x ys))
            → (z ≡ x) ⊎ In z (y ∷ ys)
            → (z ≡ y) ⊎ In z (insert_by before x ys)
        past rec (inl e) = inr (rec (inl e))
        past rec (inr (inl e)) = inl e
        past rec (inr (inr m')) = inr (rec (inr m'))

    pub sort_by-In : (x : A) (xs : List A) → In x xs → In x (sort_by before xs)
    unfolding sort_by
    sort_by-In x [] m = m
    sort_by-In x (y ∷ ys) (inl e) = insert_by-In y x (sort_by before ys) (inl e)
    sort_by-In x (y ∷ ys) (inr m) = insert_by-In y x (sort_by before ys) (inr (sort_by-In x ys m))

    -- In a sorted list, what is not among the first n comes strictly before none of these.
    pub take-first :
        (n : ℕ) (xs : List A) (a b : A)
        → IsSorted before xs
        → In a (take n xs)
        → In b xs
        → In b (take n xs) ⊎ (before b a ≡ false)
    take-first zero [] a b s m k = elim k [ ]
    take-first zero (x ∷ xs) a b s m k = elim m [ ]
    take-first (suc n) [] a b s m k = elim k [ ]
    take-first (suc n) (x ∷ xs) a b s m (inl e) = inl (inl e)
    take-first (suc n) (x ∷ xs) a b s (inl e) (inr k) =
        inr (subst (λ z. before b z ≡ false) (sym e) (All-In (λ y. before y x ≡ false) b xs s.0 k))
    take-first (suc n) (x ∷ xs) a b s (inr m) (inr k) = elim (take-first n xs a b s.1 m k) [
      | inl first ↦ inl (inr first)
      | inr later ↦ inr later
    ]

    -- The order is strict, and what it leaves incomparable is transitive.
    module _ (asym : (x y : A) → before x y ≡ true → before y x ≡ false)
        (weak : (x y z : A) → before y x ≡ false → before z y ≡ false → before z x ≡ false) where
      insert_by-IsSorted :
          (x : A) (xs : List A) → IsSorted before xs → IsSorted before (insert_by before x xs)
      unfolding insert_by
      insert_by-IsSorted x [] s = (tt, tt)
      insert_by-IsSorted x (y ∷ ys) s = elim (Bool-cases (before y x)) [
        | inl later ↦ rw later (
          All-insert_by (λ z. before z y ≡ false) x ys (asym y x later) s.0,
          insert_by-IsSorted x ys s.1,
        )
        | inr here ↦ rw here (
          (
            here,
            All-tabulate (λ z. before z x ≡ false) ys
                (λ z m. weak x y z here (All-In (λ z. before z y ≡ false) z ys s.0 m)),
          ),
          s,
        )
      ]

      pub sort_by-IsSorted : (xs : List A) → IsSorted before (sort_by before xs)
      unfolding sort_by
      sort_by-IsSorted [] = tt
      sort_by-IsSorted (x ∷ xs) = insert_by-IsSorted x (sort_by before xs) (sort_by-IsSorted xs)
