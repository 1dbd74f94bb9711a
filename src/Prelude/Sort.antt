-- ===== src/Prelude/Sort.antt =====
-- Sorting by a Boolean order, filtering by a Boolean test.

use mathlib.Core.Path.{◌≡◌, refl, subst}
use mathlib.Core.Logic.{◌⊎◌, inl, inr}
use mathlib.Core.Bool.{Bool, true, false}
use mathlib.Core.List.{List, [], ◌∷◌}
use league_of_legends.Prelude.Tests.{Bool-cases, if◌then◌else◌}
use league_of_legends.Prelude.Lists.{In}

module _ {ℓ} {A : Type ℓ} where
  -- The elements that pass a test, in order.
  unfoldable pub keep : (A → Bool) → List A → List A
  keep p [] = []
  keep p (x ∷ xs) = if p x then x ∷ keep p xs else keep p xs

  -- `before x y`: x comes strictly before y.
  unfoldable pub insert_by : (A → A → Bool) → A → List A → List A
  insert_by before x [] = x ∷ []
  insert_by before x (y ∷ ys) = if before y x then y ∷ insert_by before x ys else x ∷ y ∷ ys

  -- A stable sort: elements that neither precede the other keep their order.
  unfoldable pub sort_by : (A → A → Bool) → List A → List A
  unfolding insert_by
  sort_by before [] = []
  sort_by before (x ∷ xs) = insert_by before x (sort_by before xs)

  unfoldable pub any : (A → Bool) → List A → Bool
  any p [] = false
  any p (x ∷ xs) = if p x then true else any p xs

  unfoldable pub find : (A → Bool) → List A → mathlib.Core.Option.Option A
  find p [] = mathlib.Core.Option.none
  find p (x ∷ xs) = if p x then mathlib.Core.Option.some x else find p xs

  pub In-keep : (p : A → Bool) (x : A) (xs : List A) → In x (keep p xs) → In x xs × (p x ≡ true)
  unfolding keep
  In-keep p x [] m = elim m [ ]
  In-keep p x (y ∷ ys) m = elim (Bool-cases (p y)) [
    | inl pass ↦
        kept pass (In-keep p x ys)
          (subst (λ b. In x (if b then y ∷ keep p ys else keep p ys)) pass m)
    | inr drop ↦
        let (m', px) =
          In-keep p x ys (subst (λ b. In x (if b then y ∷ keep p ys else keep p ys)) drop m) in
        (inr m', px)
  ]
    where
      kept :
          p y ≡ true
          → (In x (keep p ys) → In x ys × (p x ≡ true))
          → (x ≡ y) ⊎ In x (keep p ys)
          → In x (y ∷ ys) × (p x ≡ true)
      kept pass rec (inl e) = (inl e, rw e pass)
      kept pass rec (inr m') = (inr (rec m').0, (rec m').1)

  pub In-insert_by :
      (before : A → A → Bool) (y x : A) (xs : List A)
      → In x (insert_by before y xs)
      → (x ≡ y) ⊎ In x xs
  unfolding insert_by
  In-insert_by before y x [] m = m
  In-insert_by before y x (z ∷ zs) m = elim (Bool-cases (before z y)) [
    | inl later ↦
        past (In-insert_by before y x zs)
          (subst (λ b. In x (if b then z ∷ insert_by before y zs else y ∷ z ∷ zs)) later m)
    | inr here ↦ subst (λ b. In x (if b then z ∷ insert_by before y zs else y ∷ z ∷ zs)) here m
  ]
    where
      past :
          (In x (insert_by before y zs) → (x ≡ y) ⊎ In x zs)
          → (x ≡ z) ⊎ In x (insert_by before y zs)
          → (x ≡ y) ⊎ In x (z ∷ zs)
      past rec (inl e) = inr (inl e)
      past rec (inr m') = elim (rec m') [ inl e ↦ inl e | inr k ↦ inr (inr k) ]

  pub In-sort_by :
      (before : A → A → Bool) (x : A) (xs : List A) → In x (sort_by before xs) → In x xs
  unfolding sort_by
  In-sort_by before x [] m = m
  In-sort_by before x (y ∷ ys) m = elim (In-insert_by before y x (sort_by before ys) m) [
    | inl e ↦ inl e
    | inr m' ↦ inr (In-sort_by before x ys m')
  ]

  -- A test that holds of an element finds one that passes it.
  pub any-In : (p : A → Bool) (xs : List A) → any p xs ≡ true → (x : A) × In x xs × (p x ≡ true)
  unfolding any
  any-In p [] e = cc
  any-In p (y ∷ ys) e = elim (Bool-cases (p y)) [
    | inl pass ↦ (y, inl refl, pass)
    | inr fails ↦
        let (x, m, px) = any-In p ys (subst (λ b. (if b then true else any p ys) ≡ true) fails e) in
        (x, inr m, px)
  ]
