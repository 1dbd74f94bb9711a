-- ===== src/Raw/Directory/Fresh.antt =====
-- internal/raw/writer.go: the number of a part that is opened is free.
use league_of_legends.Prelude.{
  ℕ, zero, suc, ◌≤◌, ◌<◌, ◌≡◌, refl, ap, ◌∙◌, Bool, true, false, not, ◌==◌, ◌&&◌, List, [], ◌∷◌,
  ◌++◌, Option, some, leb, if◌then◌else◌, any, keep, if_both, arith,
}
use league_of_legends.Raw.Directory.{
  DirEntry, final, temporary, other, OpenIo, highest, stays, is_temporary, is_final, create,
}

module _ {ℓ} {A : Type ℓ} where
  append_nil : (xs : List A) → xs ++ [] ≡ xs
  append_nil [] = refl
  append_nil (x ∷ xs) = ap (λ zs. x ∷ zs) (append_nil xs)

  append_assoc : (xs ys zs : List A) → xs ++ (ys ++ zs) ≡ (xs ++ ys) ++ zs
  append_assoc [] ys zs = refl
  append_assoc (x ∷ xs) ys zs = ap (λ ws. x ∷ ws) (append_assoc xs ys zs)

  highest_up : (h : ℕ) (es : List (DirEntry A)) → h ≤ highest h es
  unfolding highest
  highest_up h [] = omega arith
  highest_up h (final n rows ∷ es) =
      let up = highest_up (if leb n h then h else n) es in ground (arith, up)
  highest_up h (temporary n at ∷ es) = highest_up h es
  highest_up h (other ∷ es) = highest_up h es

  -- No part is published under a number above the highest.
  pub highest-free :
      (h n : ℕ) (es : List (DirEntry A)) → highest h es < n → any (is_final n) es ≡ false
  unfolding highest any
  highest-free h n [] l = refl
  highest-free h n (final k rows ∷ es) l =
      let h' = if leb k h then h else k in
      let up = highest_up h' es in
      let rest = highest-free h' n es l in
      let below : k ≤ h' = ground arith in
      let differs : (k == n) ≡ false = ground (arith, below, up, l) in ground (arith, differs, rest)
  highest-free h n (temporary k at ∷ es) l = highest-free h n es l
  highest-free h n (other ∷ es) l = highest-free h n es l

  pub create-above :
      (io : OpenIo) (skips index : ℕ) (es : List (DirEntry A)) (n : ℕ)
      → create io skips index es ≡ some n
      → index ≤ n
  unfolding create
  create-above io zero index es n = λ e. ground (arith, e)
  create-above io (suc skips) index es n =
      let rest : create io skips (suc index) es ≡ some n → index ≤ n =
        λ e. let l = create-above io skips (suc index) es n e in omega (arith, l) in
      if_both (λ (x : Option ℕ). x ≡ some n → index ≤ n) (any (is_temporary index) es) rest
        (if_both (λ (x : Option ℕ). x ≡ some n → index ≤ n) (io.creates index)
          (λ e. ground (arith, e)) (λ e. ground (arith, e)))

  -- The rows of the published parts.
  abbrev pub rows_of : List (DirEntry A) → List A
  rows_of [] = []
  rows_of (final n rows ∷ es) = rows ++ rows_of es
  rows_of (temporary n at ∷ es) = rows_of es
  rows_of (other ∷ es) = rows_of es

  -- Every published part is kept, but for one of number `n`.
  abbrev pub KeepsFinals : ℕ → (DirEntry A → Bool) → Type ℓ
  KeepsFinals n p = (k : ℕ) (rows : List A) → (k == n) ≡ false → p (final k rows) ≡ true

  free-cons :
      (n : ℕ) (e : DirEntry A) (es : List (DirEntry A))
      → any (is_final n) (e ∷ es) ≡ false
      → (is_final n e ≡ false) × (any (is_final n) es ≡ false)
  unfolding any
  free-cons n e es h = ground (arith, h)

  pub keep-rows_of :
      (n : ℕ) (p : DirEntry A → Bool) (es : List (DirEntry A))
      → KeepsFinals n p
      → any (is_final n) es ≡ false
      → rows_of (keep p es) ≡ rows_of es
  unfolding keep
  keep-rows_of n p [] k h = refl
  keep-rows_of n p (final m rows ∷ es) k h =
      let (differs, rest) = free-cons n (final m rows) es h in
      rw (k m rows differs) (ap (λ xs. rows ++ xs) (keep-rows_of n p es k rest))
  keep-rows_of n p (temporary m at ∷ es) k h =
      let (_, rest) = free-cons n (temporary m at) es h in
      if_both (λ (xs : List (DirEntry A)). rows_of xs ≡ rows_of es) (p (temporary m at))
        (keep-rows_of n p es k rest) (keep-rows_of n p es k rest)
  keep-rows_of n p (other ∷ es) k h =
      let (_, rest) = free-cons n other es h in
      if_both (λ (xs : List (DirEntry A)). rows_of xs ≡ rows_of es) (p other)
        (keep-rows_of n p es k rest) (keep-rows_of n p es k rest)

  free-keep_cons :
      (n : ℕ) (e : DirEntry A) (es : List (DirEntry A))
      → is_final n e ≡ false
      → any (is_final n) es ≡ false
      → any (is_final n) (e ∷ es) ≡ false
  unfolding any
  free-keep_cons n e es a b = ground (arith, a, b)

  pub keep-free :
      (n : ℕ) (p : DirEntry A → Bool) (es : List (DirEntry A))
      → any (is_final n) es ≡ false
      → any (is_final n) (keep p es) ≡ false
  unfolding keep
  keep-free n p [] h = h
  keep-free n p (e ∷ es) h =
      let (other_number, rest) = free-cons n e es h in
      if_both (λ (xs : List (DirEntry A)). any (is_final n) xs ≡ false) (p e)
        (free-keep_cons n e (keep p es) other_number (keep-free n p es rest))
        (keep-free n p es rest)

  pub rows_of-snoc :
      (es : List (DirEntry A)) (n : ℕ) (rows : List A)
      → rows_of (es ++ final n rows ∷ []) ≡ rows_of es ++ rows
  rows_of-snoc [] n rows = append_nil rows
  rows_of-snoc (final k xs ∷ es) n rows =
      ap (λ ys. xs ++ ys) (rows_of-snoc es n rows) ∙ append_assoc xs (rows_of es) rows
  rows_of-snoc (temporary k at ∷ es) n rows = rows_of-snoc es n rows
  rows_of-snoc (other ∷ es) n rows = rows_of-snoc es n rows

  pub stays-KeepsFinals : (io : OpenIo) (n : ℕ) → KeepsFinals n (stays io)
  stays-KeepsFinals io n k rows h = refl

  pub temporary-KeepsFinals : (n : ℕ) → KeepsFinals n (λ e. not (is_temporary n e))
  temporary-KeepsFinals n k rows h = refl

  pub rename-KeepsFinals :
      (n : ℕ) → KeepsFinals n (λ e. not (is_temporary n e) && not (is_final n e))
  rename-KeepsFinals n k rows h = ground (arith, h)
