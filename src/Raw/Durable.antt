-- ===== src/Raw/Durable.antt =====
-- internal/raw/writer.go: which rows of the archive are on disk under their final name, and which
-- are still in an open part.
use league_of_legends.Prelude.{
  In-append_left, In-append_right, ℕ, ◌+◌, ◌≡◌, refl, ◌⊎◌, inl, inr, Bool, true, false, ◌&&◌, List,
  [], ◌∷◌, ◌++◌, Option, none, some, ltb, leb, if◌then◌else◌, String, str_eq, In, Never, Bool-cases,
  arith, if_both, both,
}
use league_of_legends.Raw.Part.{Part, PartIo, new_part, finalize, append_open, append}
use league_of_legends.Raw.Writer.{Parts, write_row, finalize_parts}

-- The rows of the open part.
abbrev pub buffered {ℓ} : {A : Type ℓ} → Option (List A) → List A
buffered none = []
buffered (some rows) = rows

-- A row of a part that is published, or still open.
abbrev pub Kept {ℓ} : {A : Type ℓ} → A → Part A → Type ℓ
Kept x p = In x p.published ⊎ In x (buffered p.open_rows)

-- The same in some directory.
abbrev pub Published : String → Parts → Type 0
Published id [] = Never
Published id ((d, p) ∷ ps) = In id p.published ⊎ Published id ps

abbrev pub Stored : String → Parts → Type 0
Stored id [] = Never
Stored id ((d, p) ∷ ps) = Kept id p ⊎ Stored id ps

module _ {ℓ} {A : Type ℓ} (x : A) where
  finalize-grows :
      (ok : Bool) (open_rows : Option (List A)) (n : ℕ) (xs : List A)
      → In x xs
      → In x (finalize ok (record { open_rows = open_rows; rows = n; published = xs })).0.published
  unfolding finalize
  finalize-grows ok none n xs m = m
  finalize-grows true (some b) n xs m = In-append_left x xs b m
  finalize-grows false (some b) n xs m = m

  finalize-all :
      (ok : Bool) (open_rows : Option (List A)) (n : ℕ) (xs : List A)
      → (finalize ok (record { open_rows = open_rows; rows = n; published = xs })).1 ≡ true
      → In x xs ⊎ In x (buffered open_rows)
      → In x (finalize ok (record { open_rows = open_rows; rows = n; published = xs })).0.published
  unfolding finalize
  finalize-all ok none n xs e (inl m) = m
  finalize-all ok none n xs e (inr m) = elim m [ ]
  finalize-all true (some b) n xs e (inl m) = In-append_left x xs b m
  finalize-all true (some b) n xs e (inr m) = In-append_right x xs b m
  finalize-all false (some b) n xs e m = ground arith

  -- The three ends of `append`, once a part is open.
  append_ends :
      (P : Part A → Type ℓ) (encodes full : Bool) (done : Part A × Bool) (p' p : Part A)
      → (done.1 ≡ true → P done.0)
      → P p'
      → (if encodes then (if full then done else (p', true)) else (p, false)).1 ≡ true
      → P (if encodes then (if full then done else (p', true)) else (p, false)).0
  append_ends P true true done p' p f m e = f e
  append_ends P true false done p' p f m e = m
  append_ends P false full done p' p f m e = ground arith

  append_open-row :
      (rpp : ℕ) (io : PartIo) (b : List A) (p : Part A)
      → (append_open rpp io x b p).1 ≡ true
      → Kept x (append_open rpp io x b p).0
  unfolding append_open
  append_open-row rpp io b p =
      let last = In-append_right x b (x ∷ []) (inl refl) in
      append_ends (Kept x) io.encodes (ltb 0 rpp && leb rpp (p.rows + 1)) _ _ _
        (λ e.
          inl
            (finalize-all io.finalizes (some (b ++ x ∷ [])) (p.rows + 1) p.published e (inr last)))
        (inr last)

  widen : (b : List A) (y : A) (xs : List A) → In x xs ⊎ In x b → In x xs ⊎ In x (b ++ y ∷ [])
  widen b y xs (inl k) = inl k
  widen b y xs (inr k) = inr (In-append_left x b (y ∷ []) k)

  append_open-Kept :
      (rpp : ℕ) (io : PartIo) (y : A) (b : List A) (p : Part A)
      → io.finalizes ≡ true
      → In x p.published ⊎ In x b
      → Kept x (append_open rpp io y b p).0
  unfolding append_open finalize
  append_open-Kept rpp io y b p e m =
      let m' = widen b y p.published m in
      let done = finalize-all true (some (b ++ y ∷ [])) (p.rows + 1) p.published refl m' in
      elim (Bool-cases io.encodes) [
        | inl t ↦ elim (Bool-cases (ltb 0 rpp && leb rpp (p.rows + 1))) [
          | inl full ↦ rw (t, full, e) (inl done)
          | inr room ↦ rw (t, room) m'
        ]
        | inr f ↦ rw f m
      ]

  append_open-grows :
      (rpp : ℕ) (io : PartIo) (y : A) (b : List A) (p : Part A)
      → In x p.published
      → In x (append_open rpp io y b p).0.published
  unfolding append_open
  append_open-grows rpp io y b p m = elim (Bool-cases io.encodes) [
    | inl t ↦ elim (Bool-cases (ltb 0 rpp && leb rpp (p.rows + 1))) [
      | inl full ↦
          rw (t, full) (finalize-grows io.finalizes (some (b ++ y ∷ [])) (p.rows + 1) p.published m)
      | inr room ↦ rw (t, room) m
    ]
    | inr f ↦ rw f m
  ]

  open_ends :
      (P : Part A → Type ℓ) (opens : Bool) (done : Part A × Bool) (p : Part A)
      → (done.1 ≡ true → P done.0)
      → (if opens then done else (p, false)).1 ≡ true
      → P (if opens then done else (p, false)).0
  open_ends P true done p f e = f e
  open_ends P false done p f e = ground arith

  -- A row that `append` took is in the open part or published.
  pub append-row :
      (rpp : ℕ) (io : PartIo) (o : Option (List A)) (n : ℕ) (xs : List A)
      → (append rpp io x (record { open_rows = o; rows = n; published = xs })).1 ≡ true
      → Kept x (append rpp io x (record { open_rows = o; rows = n; published = xs })).0
  unfolding append
  append-row rpp io none n xs e = open_ends (Kept x) io.opens _ _ (append_open-row rpp io [] _) e
  append-row rpp io (some b) n xs e = append_open-row rpp io b _ e

  -- `append` loses no row, unless a part that it fills cannot be finalised.
  pub append-Kept :
      (rpp : ℕ) (io : PartIo) (y : A) (o : Option (List A)) (n : ℕ) (xs : List A)
      → io.finalizes ≡ true
      → In x xs ⊎ In x (buffered o)
      → Kept x (append rpp io y (record { open_rows = o; rows = n; published = xs })).0
  unfolding append
  append-Kept rpp io y none n xs e m =
      if_both (λ (r : Part A × Bool). Kept x r.0) io.opens (append_open-Kept rpp io y [] _ e m) m
  append-Kept rpp io y (some b) n xs e m = append_open-Kept rpp io y b _ e m

  pub append-grows :
      (rpp : ℕ) (io : PartIo) (y : A) (o : Option (List A)) (n : ℕ) (xs : List A)
      → In x xs
      → In x (append rpp io y (record { open_rows = o; rows = n; published = xs })).0.published
  unfolding append
  append-grows rpp io y none n xs m =
      if_both (λ (r : Part A × Bool). In x r.0.published) io.opens
        (append_open-grows rpp io y [] _ m) m
  append-grows rpp io y (some b) n xs m = append_open-grows rpp io y b _ m

-- The same for the parts of all directories.
pub write_row-row :
    (rpp : ℕ) (io : PartIo) (dir row : String) (ps : Parts)
    → (write_row rpp io dir row ps).1 ≡ true
    → Stored row (write_row rpp io dir row ps).0
unfolding write_row new_part
write_row-row rpp io dir row [] e = inl (append-row row rpp io none 0 [] e)
write_row-row rpp io dir row ((d, p) ∷ ps) e =
    if_both (λ (r : Parts × Bool). r.1 ≡ true → Stored row r.0) (str_eq d dir)
      (λ e. inl (append-row row rpp io p.open_rows p.rows p.published e))
      (λ e. inr (write_row-row rpp io dir row ps e)) e

pub write_row-Stored :
    (rpp : ℕ) (io : PartIo) (dir row id : String) (ps : Parts)
    → io.finalizes ≡ true
    → Stored id ps
    → Stored id (write_row rpp io dir row ps).0
unfolding write_row
write_row-Stored rpp io dir row id [] e m = elim m [ ]
write_row-Stored rpp io dir row id ((d, p) ∷ ps) e (inl m) =
    if_both (λ (r : Parts × Bool). Stored id r.0) (str_eq d dir)
      (inl (append-Kept id rpp io row p.open_rows p.rows p.published e m)) (inl m)
write_row-Stored rpp io dir row id ((d, p) ∷ ps) e (inr m) =
    if_both (λ (r : Parts × Bool). Stored id r.0) (str_eq d dir) (inr m)
      (inr (write_row-Stored rpp io dir row id ps e m))

pub write_row-grows :
    (rpp : ℕ) (io : PartIo) (dir row id : String) (ps : Parts)
    → Published id ps
    → Published id (write_row rpp io dir row ps).0
unfolding write_row
write_row-grows rpp io dir row id [] m = elim m [ ]
write_row-grows rpp io dir row id ((d, p) ∷ ps) (inl m) =
    if_both (λ (r : Parts × Bool). Published id r.0) (str_eq d dir)
      (inl (append-grows id rpp io row p.open_rows p.rows p.published m)) (inl m)
write_row-grows rpp io dir row id ((d, p) ∷ ps) (inr m) =
    if_both (λ (r : Parts × Bool). Published id r.0) (str_eq d dir) (inr m)
      (inr (write_row-grows rpp io dir row id ps m))

pub finalize_parts-grows :
    (ok : String → Bool) (id : String) (ps : Parts)
    → Published id ps
    → Published id (finalize_parts ok ps).0
unfolding finalize_parts
finalize_parts-grows ok id [] m = m
finalize_parts-grows ok id ((d, p) ∷ ps) (inl m) =
    inl (finalize-grows id (ok d) p.open_rows p.rows p.published m)
finalize_parts-grows ok id ((d, p) ∷ ps) (inr m) = inr (finalize_parts-grows ok id ps m)

pub finalize_parts-Published :
    (ok : String → Bool) (id : String) (ps : Parts)
    → (finalize_parts ok ps).1 ≡ true
    → Stored id ps
    → Published id (finalize_parts ok ps).0
unfolding finalize_parts
finalize_parts-Published ok id [] e m = m
finalize_parts-Published ok id ((d, p) ∷ ps) e (inl m) =
    inl (finalize-all id (ok d) p.open_rows p.rows p.published (both e).0 m)
finalize_parts-Published ok id ((d, p) ∷ ps) e (inr m) =
    inr (finalize_parts-Published ok id ps (both e).1 m)

pub Published-Stored : (id : String) (ps : Parts) → Published id ps → Stored id ps
Published-Stored id [] m = m
Published-Stored id ((d, p) ∷ ps) (inl m) = inl (inl m)
Published-Stored id ((d, p) ∷ ps) (inr m) = inr (Published-Stored id ps m)
