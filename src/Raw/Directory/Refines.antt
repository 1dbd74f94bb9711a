-- ===== src/Raw/Directory/Refines.antt =====
-- internal/raw/writer.go: `partWriter` over a directory does what Raw.Part says of it.
use league_of_legends.Prelude.{
  ℕ, suc, ◌+◌, ◌≤◌, ◌≡◌, refl, ap, ◌∙◌, subst, Bool, true, false, not, ◌&&◌, List, [], ◌∷◌, ◌++◌,
  Option, none, some, ltb, leb, any, keep, if_both, option_cases, arith, Bool-cases, inl, inr,
}
use league_of_legends.Raw.Part.{Part, PartIo, finalize, append, append_open}
use league_of_legends.Raw.Directory.{
  DirEntry, temporary, PartDir, OpenIo, highest, stays, is_temporary, is_final, create, open_part,
  rename, finalize_part, append_held, append_opened, append_part, max_part_index_skips,
}
use league_of_legends.Raw.Directory.Fresh.{
  highest-free, create-above, rows_of, keep-rows_of, keep-free, rows_of-snoc, stays-KeepsFinals,
  temporary-KeepsFinals, rename-KeepsFinals,
}

-- The calls of a `partWriter`; a process that dies leaves its temporary part behind, and the next one
-- has none open.
pub data PartCall {ℓ} (A : Type ℓ) : Type ℓ where
  appends : ℕ → OpenIo → PartIo → A → PartCall A
  finalizes : Bool → PartCall A
  restarts : PartCall A

module _ {ℓ} {A : Type ℓ} where
  abbrev pub held_rows : Option (ℕ × List A) → Option (List A)
  held_rows none = none
  held_rows (some part) = some part.1

  -- The part that a directory stands for.
  abbrev pub part_of : PartDir A → Part A
  part_of d = record { open_rows = held_rows d.held; rows = d.rows; published = rows_of d.entries }

  abbrev pub result_of : PartDir A × Bool → Part A × Bool
  result_of r = (part_of r.0, r.1)

  -- The number of the open part is not that of a published one.
  abbrev pub IsFree : Option (ℕ × List A) → List (DirEntry A) → Type 0
  IsFree none es = Unit
  IsFree (some part) es = any (is_final part.0) es ≡ false

  abbrev pub IsFresh : PartDir A → Type 0
  IsFresh d = IsFree d.held d.entries

  abbrev pub step : PartCall A → PartDir A → PartDir A × Bool
  step (appends rows_per_part open_io io row) d = append_part rows_per_part open_io io row d
  step (finalizes succeeds) d = finalize_part succeeds d
  step restarts d = (record d { held = none; rows = 0 }, true)

  -- The same call of Raw.Part; a part can be created there if the directory creates one.
  abbrev pub part_step : PartCall A → PartDir A → Part A → Part A × Bool
  part_step (appends rows_per_part open_io io row) d p =
      append rows_per_part (record io { opens = (open_part open_io d).1 }) row p
  part_step (finalizes succeeds) d p = finalize succeeds p
  part_step restarts d p = (record p { open_rows = none; rows = 0 }, true)

  -- A call that refines what Raw.Part does, and leaves the open part's number free.
  abbrev Refines : Part A × Bool → PartDir A × Bool → Type ℓ
  Refines p r = (result_of r ≡ p) × IsFresh r.0

  abbrev part_with : Option (List A) → ℕ → Bool → List A → Part A × Bool
  part_with o n b xs = (record { open_rows = o; rows = n; published = xs }, b)

  finalize-Refines :
      (succeeds : Bool) (es : List (DirEntry A)) (held : Option (ℕ × List A)) (n : ℕ)
      → IsFree held es
      → Refines
          (finalize succeeds (part_of (record { entries = es; held = held; rows = n })))
          (finalize_part succeeds (record { entries = es; held = held; rows = n }))
  unfolding finalize finalize_part rename
  finalize-Refines succeeds es none n h = (refl, tt)
  finalize-Refines true es (some (k, b)) n h = (
    ap (part_with none 0 true) (
        rows_of-snoc (keep (λ e. not (is_temporary k e) && not (is_final k e)) es) k b
        ∙ ap (λ xs. xs ++ b) (keep-rows_of k _ es (rename-KeepsFinals k) h)),
    tt,
  )
  finalize-Refines false es (some (k, b)) n h =
      (ap (part_with none n false) (keep-rows_of k _ es (temporary-KeepsFinals k) h), tt)

  append_held-Refines :
      (rpp : ℕ) (io : PartIo) (row : A) (es : List (DirEntry A)) (k : ℕ) (b : List A) (n : ℕ)
      → any (is_final k) es ≡ false
      → Refines
          (append_open rpp io row b
            (part_of (record { entries = es; held = some (k, b); rows = n })))
          (append_held rpp io row k b (record { entries = es; held = some (k, b); rows = n }))
  unfolding append_open append_held
  append_held-Refines rpp io row es k b n h =
      let done = finalize-Refines io.finalizes es (some (k, b ++ row ∷ [])) (n + 1) h in
      elim (Bool-cases io.encodes) [
        | inl t ↦ elim (Bool-cases (ltb 0 rpp && leb rpp (n + 1))) [
          | inl full ↦ rw (t, full) done
          | inr room ↦ rw (t, room) (refl, h)
        ]
        | inr f ↦ rw f (refl, h)
      ]

  pub free_number :
      (io : OpenIo) (es : List (DirEntry A)) (n : ℕ)
      → suc (highest 0 es) ≤ n
      → any (is_final n) (keep (stays io) es) ≡ false
  free_number io es n l = keep-free n (stays io) es (highest-free 0 n es (omega (arith, l)))

  kept_rows : (io : OpenIo) (es : List (DirEntry A)) → rows_of (keep (stays io) es) ≡ rows_of es
  kept_rows io es =
      keep-rows_of (suc (highest 0 es)) (stays io) es (stays-KeepsFinals io (suc (highest 0 es)))
        (highest-free 0 (suc (highest 0 es)) es (omega arith))

  opened-Refines :
      (rpp : ℕ) (open_io : OpenIo) (io : PartIo) (row : A) (es : List (DirEntry A)) (n m : ℕ)
      → suc (highest 0 es) ≤ m
      → Refines
          (append rpp
            (record io { opens = true })
            row
            (record { open_rows = none; rows = n; published = rows_of es }))
          (append_held rpp io row m [] (record {
            entries = temporary m (some open_io.now) ∷ keep (stays open_io) es;
            held = some (m, []);
            rows = n;
          }))
  unfolding append append_open append_held any
  opened-Refines rpp open_io io row es n m l =
      let es' = keep (stays open_io) es in
      subst
        (λ xs.
          Refines
            (append rpp (record io { opens = true }) row
              (record { open_rows = none; rows = n; published = xs }))
            (append_held rpp io row m [] (record {
              entries = temporary m (some open_io.now) ∷ es';
              held = some (m, []);
              rows = n;
            })))
        (kept_rows open_io es)
        (append_held-Refines rpp io row (temporary m (some open_io.now) ∷ es') m [] n
          (free_number open_io es m l))

  append_part-Refines :
      (rpp : ℕ) (open_io : OpenIo) (io : PartIo) (row : A) (es : List (DirEntry A))
      (held : Option (ℕ × List A)) (n : ℕ)
      → IsFree held es
      → Refines
          (part_step
            (appends rpp open_io io row)
            (record { entries = es; held = held; rows = n })
            (part_of (record { entries = es; held = held; rows = n })))
          (append_part rpp open_io io row (record { entries = es; held = held; rows = n }))
  unfolding append append_open append_part append_opened append_held open_part
  append_part-Refines rpp open_io io row es (some (k, b)) n h =
      append_held-Refines rpp io row es k b n h
  append_part-Refines rpp open_io io row es none n h =
      let es' = keep (stays open_io) es in
      let p : Part A = record { open_rows = none; rows = n; published = rows_of es } in
      let P : PartDir A × Bool → Type ℓ =
        λ x. Refines (append rpp (record io { opens = x.1 }) row p) (append_opened rpp io row x) in
      if_both P open_io.lists
        (option_cases P (create open_io max_part_index_skips (suc (highest 0 es)) es')
          (λ e. (ap (part_with none n false) (kept_rows open_io es), tt))
          (λ m e.
            opened-Refines rpp open_io io row es n m
              (create-above open_io max_part_index_skips (suc (highest 0 es)) es' m e)))
        (refl, tt)

  -- If the number of the open part is not that of a published one, then each call of a `partWriter`
  -- over its directory changes the open rows, their count and the published rows as the same call of
  -- Raw.Part does, with the same outcome, and the number is free again afterwards. A part may be opened
  -- next to stale temporary parts and to parts of an earlier process.
  pub step-refines :
      (c : PartCall A) (d : PartDir A)
      → IsFresh d
      → (result_of (step c d) ≡ part_step c d (part_of d)) × IsFresh (step c d).0
  step-refines (appends rpp open_io io row) d h =
      append_part-Refines rpp open_io io row d.entries d.held d.rows h
  step-refines (finalizes succeeds) d h = finalize-Refines succeeds d.entries d.held d.rows h
  step-refines restarts d h = (refl, tt)
