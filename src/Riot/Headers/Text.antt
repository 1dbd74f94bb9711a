-- ===== src/Riot/Headers/Text.antt =====
-- internal/riot/headers.go: numbers and parts of a header that is printed, without spaces.
use league_of_legends.Prelude.{
  ℕ, zero, suc, ◌+◌, ◌/◌, ◌%◌, ◌^◌, ◌==◌, ◌≤◌, ◌<◌, ◌≡◌, refl, ap, ◌∙◌, sym, subst, false, ◌&&◌,
  List, [], ◌∷◌, ◌++◌, Option, some, All, if◌then◌else◌, if_cases, leb, pos, arith, Never,
}
use league_of_legends.Riot.Headers.{
  Bytes, is_space, trim_left, trim_right, trim, push, split, cut, scan, atoi_pos, atoi,
}

-- The decimal digits of a number, before `out`. Fuel `n` is enough for `n`.
unfoldable pub digits : ℕ → ℕ → Bytes → Bytes
digits zero n out = out
digits (suc fuel) n out =
    let rest = digits fuel (n / 10) ((48 + n % 10) ∷ out) in if n == 0 then out else rest

-- A number in decimal. (Zero has no digits here; no window has it.)
abbrev pub decimal : ℕ → Bytes
decimal n = digits n n []

abbrev pub IsDigit : ℕ → Type 0
IsDigit c = (48 ≤ c) × (c ≤ 57)

-- No space, and no comma.
abbrev pub IsPlain : ℕ → Type 0
IsPlain c = (48 ≤ c) × (c ≤ 58)

pub All-digits-IsDigit :
    (fuel n : ℕ) (out : Bytes) → All IsDigit out → All IsDigit (digits fuel n out)
unfolding digits
All-digits-IsDigit zero n out h = h
All-digits-IsDigit (suc fuel) n out h =
    if_cases (All IsDigit) (n == 0) (λ t. h)
      (λ f. All-digits-IsDigit fuel (n / 10) ((48 + n % 10) ∷ out) ((omega arith, omega arith), h))

scan_digit : (n : ℕ) (out : Bytes) → scan ((48 + n % 10) ∷ out) (n / 10) ≡ scan out n
unfolding scan
scan_digit n out =
    if_cases (λ (x : Option ℕ). x ≡ scan out n) (leb 48 (48 + n % 10) && leb (48 + n % 10) 57)
      (λ t. ap (scan out) (omega arith))
      (λ f. let never : Never {0} = ground (arith, f) in elim never [ ])

pub scan-digits : (fuel n : ℕ) (out : Bytes) → n ≤ fuel → scan (digits fuel n out) 0 ≡ scan out n
unfolding digits
scan-digits zero n out h = ap (scan out) (omega (arith, h))
scan-digits (suc fuel) n out h =
    if_cases (λ (s : Bytes). scan s 0 ≡ scan out n) (n == 0)
      (λ t. ap (scan out) (ground (arith, t)))
      (λ f. scan-digits fuel (n / 10) ((48 + n % 10) ∷ out) (omega (arith, h)) ∙ scan_digit n out)

digits_cons :
    (fuel n c : ℕ) (out : Bytes) → (d : ℕ) × (s : Bytes) × (digits fuel n (c ∷ out) ≡ d ∷ s)
unfolding digits
digits_cons zero n c out = (c, out, refl)
digits_cons (suc fuel) n c out =
    if_cases (λ (x : Bytes). (d : ℕ) × (s : Bytes) × (x ≡ d ∷ s)) (n == 0) (λ t. (c, out, refl))
      (λ f. digits_cons fuel (n / 10) (48 + n % 10) (c ∷ out))

pub decimal_cons : (n : ℕ) → 0 < n → (d : ℕ) × (s : Bytes) × (decimal n ≡ d ∷ s)
unfolding digits
decimal_cons zero h = ground (arith, h)
decimal_cons (suc n) h =
    if_cases (λ (x : Bytes). (d : ℕ) × (s : Bytes) × (x ≡ d ∷ s)) (suc n == 0)
      (λ t. let never : Never {0} = ground (arith, t) in elim never [ ])
      (λ f. digits_cons n (suc n / 10) (48 + suc n % 10) [])

atoi-digit :
    (c : ℕ) (s : Bytes) (n : ℕ)
    → IsDigit c
    → n < 2 ^ 63
    → scan (c ∷ s) 0 ≡ some n
    → atoi (c ∷ s) ≡ some (pos n)
unfolding atoi atoi_pos
atoi-digit c s n d h e = ground (arith, d, h, e)

scan_nil : (n : ℕ) → scan [] n ≡ some n
unfolding scan
scan_nil n = refl

-- A number from 1 on is read back from its decimal digits.
pub atoi-decimal : (n : ℕ) → 0 < n → n < 2 ^ 63 → atoi (decimal n) ≡ some (pos n)
atoi-decimal n l h =
    let (c, s, e) = decimal_cons n l in
    let ds : All IsDigit (c ∷ s) = subst (All IsDigit) e (All-digits-IsDigit n n [] tt) in
    let value : scan (c ∷ s) 0 ≡ some n =
      subst (λ x. scan x 0 ≡ some n) e (scan-digits n n [] (omega arith) ∙ scan_nil n) in
    subst (λ x. atoi x ≡ some (pos n)) (sym e) (atoi-digit c s n ds.0 h value)

abbrev pub IsSolid : ℕ → Type 0
IsSolid c = is_space c ≡ false

trim_right-IsSolid : (s : Bytes) → All IsSolid s → trim_right s ≡ s
unfolding trim_right
trim_right-IsSolid [] h = refl
trim_right-IsSolid (c ∷ []) h = ground (arith, h)
trim_right-IsSolid (c ∷ d ∷ s) h = rw (trim_right-IsSolid (d ∷ s) h.1) refl

-- Without a space, nothing is trimmed.
pub trim-IsSolid : (s : Bytes) → All IsSolid s → trim s ≡ s
unfolding trim_left
trim-IsSolid [] h = trim_right-IsSolid [] h
trim-IsSolid (c ∷ s) h = rw h.0 (trim_right-IsSolid (c ∷ s) h)

pub All-append {ℓ κ} :
    {A : Type ℓ} (P : A → Type κ) (xs ys : List A) → All P xs → All P ys → All P (xs ++ ys)
All-append P [] ys h k = k
All-append P (x ∷ xs) ys h k = (h.0, All-append P xs ys h.1 k)

pub All-weaken {ℓ κ μ} :
    {A : Type ℓ} (P : A → Type κ) (Q : A → Type μ) (xs : List A)
    → ((x : A) → P x → Q x)
    → All P xs
    → All Q xs
All-weaken P Q [] f h = tt
All-weaken P Q (x ∷ xs) f h = (f x h.0, All-weaken P Q xs f h.1)

pub cut-append : (a b : Bytes) → All IsDigit a → cut 58 (a ++ 58 ∷ b) ≡ some (a, b)
unfolding cut
cut-append [] b h = refl
cut-append (c ∷ a) b h =
    if_cases (λ (x : Option (Bytes × Bytes)). x ≡ some (c ∷ a, b)) (c == 58)
      (λ t. let never : Never {0} = ground (arith, t, h.0) in elim never [ ])
      (λ f. rw (cut-append a b h.1) refl)

split_solid : (c : ℕ) (s : Bytes) → IsPlain c → split 44 (c ∷ s) ≡ push c (split 44 s)
unfolding split
split_solid c s h =
    if_cases (λ (x : List Bytes). x ≡ push c (split 44 s)) (c == 44)
      (λ t. let never : Never {0} = ground (arith, t, h) in elim never [ ]) (λ f. refl)

pub split-last : (a : Bytes) → All IsPlain a → split 44 a ≡ a ∷ []
unfolding split
split-last [] h = refl
split-last (c ∷ a) h = split_solid c a h.0 ∙ ap (push c) (split-last a h.1)

pub split-append : (a b : Bytes) → All IsPlain a → split 44 (a ++ 44 ∷ b) ≡ a ∷ split 44 b
unfolding split
split-append [] b h = refl
split-append (c ∷ a) b h = split_solid c (a ++ 44 ∷ b) h.0 ∙ ap (push c) (split-append a b h.1)
