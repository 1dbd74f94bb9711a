-- ===== src/Aggregate/Cells/Sums.antt =====
-- Sums over a list, and what sorting keeps.
use league_of_legends.Prelude.{
  ℕ, ◌+◌, ◌≡◌, refl, ap, ◌∙◌, Bool, List, [], ◌∷◌, length, if_both, All, sort_by, insert_by,
  All-insert_by, arith,
}

abbrev pub sum_by {ℓ} : {A : Type ℓ} → (A → ℕ) → List A → ℕ
sum_by f [] = 0
sum_by f (x ∷ xs) = f x + sum_by f xs

sum_by-insert_by {ℓ} :
    {A : Type ℓ} (f : A → ℕ) (before : A → A → Bool) (x : A) (xs : List A)
    → sum_by f (insert_by before x xs) ≡ f x + sum_by f xs
unfolding insert_by
sum_by-insert_by f before x [] = refl
sum_by-insert_by f before x (y ∷ ys) =
    if_both (λ zs. sum_by f zs ≡ f x + (f y + sum_by f ys)) (before y x)
      (omega (arith, sum_by-insert_by f before x ys)) refl

-- Sorting keeps a sum.
pub sum_by-sort_by {ℓ} :
    {A : Type ℓ} (f : A → ℕ) (before : A → A → Bool) (xs : List A)
    → sum_by f (sort_by before xs) ≡ sum_by f xs
unfolding sort_by
sum_by-sort_by f before [] = refl
sum_by-sort_by f before (x ∷ xs) =
    sum_by-insert_by f before x (sort_by before xs) ∙ ap (λ n. f x + n) (sum_by-sort_by f before xs)

pub length-sum_by {ℓ} : {A : Type ℓ} (xs : List A) → length xs ≡ sum_by (λ x. 1) xs
length-sum_by [] = refl
length-sum_by (x ∷ xs) = omega (arith, length-sum_by xs)

pub All-sort_by {ℓ κ} :
    {A : Type ℓ} (P : A → Type κ) (before : A → A → Bool) (xs : List A)
    → All P xs
    → All P (sort_by before xs)
unfolding sort_by
All-sort_by P before [] h = tt
All-sort_by P before (x ∷ xs) h =
    All-insert_by before P x (sort_by before xs) h.0 (All-sort_by P before xs h.1)
