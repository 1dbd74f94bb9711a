-- ===== src/Prelude/Cases.antt =====
-- Predicates on a value that a test or a match chooses.
use league_of_legends.Prelude.Tests.{if◌then◌else◌}
use mathlib.Core.Option.{Option, none, some}
use native.Mathlib.Omega.{arith}
use mathlib.Core.Path.{◌≡◌, refl}
use league_of_legends.Prelude.Lists.{Never}
use mathlib.Core.Bool.{Bool, true, false, ◌&&◌}
use mathlib.Core.List.{List, [], ◌∷◌}

pub if_both {ℓ κ} :
    {A : Type ℓ} (P : A → Type κ) (c : Bool) {x y : A} → P x → P y → P (if c then x else y)
if_both P true p q = p
if_both P false p q = q

pub option_both {ℓ κ μ} :
    {A : Type ℓ} {B : Type κ} (P : B → Type μ) (o : Option A) {x : B} {f : A → B}
    → P x
    → ((a : A) → P (f a))
    → P (elim o [ none ↦ x | some a ↦ f a ])
option_both P none p q = p
option_both P (some a) p q = q a

pub both : {a b : Bool} → (a && b) ≡ true → (a ≡ true) × (b ≡ true)
both {a} {b} e = ground arith

pub list_both {ℓ κ μ} :
    {A : Type ℓ} {B : Type κ} (P : B → Type μ) (xs : List A) {x : B} {f : A → List A → B}
    → P x
    → ((a : A) (rest : List A) → P (f a rest))
    → P (elim xs [ [] ↦ x | a ∷ rest ↦ f a rest ])
list_both P [] p q = p
list_both P (a ∷ rest) p q = q a rest

pub if_true_both {ℓ μ} :
    {B : Type ℓ} (P : B → Type μ) (c : Bool) {x y : B}
    → (c ≡ true → P x)
    → P y
    → P (if c then x else y)
if_true_both P true p q = p refl
if_true_both P false p q = q

pub if_cases {ℓ μ} :
    {B : Type ℓ} (P : B → Type μ) (c : Bool) {x y : B}
    → (c ≡ true → P x)
    → (c ≡ false → P y)
    → P (if c then x else y)
if_cases P true p q = p refl
if_cases P false p q = q refl

pub option_cases {ℓ κ μ} :
    {A : Type ℓ} {B : Type κ} (P : B → Type μ) (o : Option A) {x : B} {f : A → B}
    → (o ≡ none → P x)
    → ((a : A) → o ≡ some a → P (f a))
    → P (elim o [ none ↦ x | some a ↦ f a ])
option_cases P none p q = p refl
option_cases P (some a) p q = q a refl

-- An option is not both, nor is a Boolean.
pub none_some {ℓ κ} : {A : Type ℓ} {B : Type κ} {o : Option A} {a : A} → o ≡ none → o ≡ some a → B
none_some e h = let n : Never {0} = ground (arith, e, h) in elim n [ ]

pub true_false {κ} : {B : Type κ} {c : Bool} → c ≡ true → c ≡ false → B
true_false e h = let n : Never {0} = ground (arith, e, h) in elim n [ ]
