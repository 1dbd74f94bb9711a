-- ===== src/Raw/Directory/Kept.antt =====
-- internal/raw/writer.go: a published part stays under its number.
use league_of_legends.Prelude.{
  ℕ, suc, ◌+◌, ◌≡◌, refl, Bool, true, false, ◌==◌, ◌&&◌, List, [], ◌∷◌, ◌++◌, inl, inr, Option,
  none, some, ltb, leb, any, keep, if_both, option_cases, ◌∙◌, arith, In, keep-In, In-append_left,
  ap,
}
use league_of_legends.Raw.Part.{PartIo}
use league_of_legends.Raw.Directory.{
  DirEntry, final, temporary, PartDir, OpenIo, highest, stays, is_final, create, open_part, rename,
  finalize_part, append_held, append_opened, append_part, max_part_index_skips,
}
use league_of_legends.Raw.Directory.Fresh.{
  KeepsFinals, create-above, temporary-KeepsFinals, rename-KeepsFinals,
}
use league_of_legends.Raw.Directory.Refines.{
  PartCall, appends, finalizes, restarts, step, IsFresh, IsFree, step-refines, free_number,
}

-- The calls, one after another.
pub run_calls {ℓ} : {A : Type ℓ} → List (PartCall A) → PartDir A → PartDir A
run_calls [] d = d
run_calls (c ∷ cs) d = run_calls cs (step c d).0

module _ {ℓ} {A : Type ℓ} (k : ℕ) (rows : List A) where
  -- The part of number `k` with its rows.
  abbrev Has : List (DirEntry A) → Type ℓ
  Has es = In (final k rows) es

  free-Has :
      (n : ℕ) (es : List (DirEntry A)) → any (is_final n) es ≡ false → Has es → (k == n) ≡ false
  unfolding any
  free-Has n [] h m = elim m [ ]
  free-Has n (e ∷ es) h (inl same) =
      let here : (is_final n e) ≡ false = ground (arith, h) in ap (is_final n) same ∙ here
  free-Has n (e ∷ es) h (inr m) =
      let rest : any (is_final n) es ≡ false = ground (arith, h) in free-Has n es rest m

  keep-Has :
      (n : ℕ) (p : DirEntry A → Bool) (es : List (DirEntry A))
      → KeepsFinals n p
      → any (is_final n) es ≡ false
      → Has es
      → Has (keep p es)
  keep-Has n p es f h m = keep-In p (final k rows) es m (f k rows (free-Has n es h m))

  finalize-Has :
      (succeeds : Bool) (es : List (DirEntry A)) (held : Option (ℕ × List A)) (n : ℕ)
      → IsFree held es
      → Has es
      → Has (finalize_part succeeds (record { entries = es; held = held; rows = n })).0.entries
  unfolding finalize_part rename
  finalize-Has succeeds es none n h m = m
  finalize-Has true es (some (j, b)) n h m =
      In-append_left (final k rows) _ (final j b ∷ []) (keep-Has j _ es (rename-KeepsFinals j) h m)
  finalize-Has false es (some (j, b)) n h m = keep-Has j _ es (temporary-KeepsFinals j) h m

  append_held-Has :
      (rpp : ℕ) (io : PartIo) (row : A) (es : List (DirEntry A)) (j : ℕ) (b : List A) (n : ℕ)
      → any (is_final j) es ≡ false
      → Has es
      → Has
          (append_held rpp io row j b
            (record { entries = es; held = some (j, b); rows = n })).0.entries
  unfolding append_held
  append_held-Has rpp io row es j b n h m =
      let P : PartDir A × Bool → Type ℓ = λ x. Has x.0.entries in
      if_both P io.encodes
        (if_both P (ltb 0 rpp && leb rpp (n + 1))
          (finalize-Has io.finalizes es (some (j, b ++ row ∷ [])) (n + 1) h m) m)
        m

  append_part-Has :
      (rpp : ℕ) (open_io : OpenIo) (io : PartIo) (row : A) (es : List (DirEntry A))
      (held : Option (ℕ × List A)) (n : ℕ)
      → IsFree held es
      → Has es
      → Has
          (append_part rpp open_io io row
            (record { entries = es; held = held; rows = n })).0.entries
  unfolding append_part append_opened open_part any
  append_part-Has rpp open_io io row es (some (j, b)) n h m =
      append_held-Has rpp io row es j b n h m
  append_part-Has rpp open_io io row es none n h m =
      let es' = keep (stays open_io) es in
      let P : PartDir A × Bool → Type ℓ = λ x. Has (append_opened rpp io row x).0.entries in
      let m' : Has es' = keep-In (stays open_io) (final k rows) es m refl in
      if_both P open_io.lists
        (option_cases P (create open_io max_part_index_skips (suc (highest 0 es)) es') (λ e. m')
          (λ j e.
            append_held-Has rpp io row (temporary j (some open_io.now) ∷ es') j [] n
              (free_number open_io es j
                (create-above open_io max_part_index_skips (suc (highest 0 es)) es' j e))
              (inr m')))
        m

  step-Has : (c : PartCall A) (d : PartDir A) → IsFresh d → Has d.entries → Has (step c d).0.entries
  step-Has (appends rpp open_io io row) d h m =
      append_part-Has rpp open_io io row d.entries d.held d.rows h m
  step-Has (finalizes succeeds) d h m = finalize-Has succeeds d.entries d.held d.rows h m
  step-Has restarts d h m = m

  -- Whatever calls of a `partWriter` follow, with restarts of the process in between, and whichever of
  -- them fail: a published part stays under its number with the rows it has, and none is renamed over
  -- it; if the number of the part that is open at first is not that of a published one.
  pub part_final :
      (cs : List (PartCall A)) (d : PartDir A)
      → IsFresh d
      → In (final k rows) d.entries
      → In (final k rows) (run_calls cs d).entries
  unfolding run_calls
  part_final [] d h m = m
  part_final (c ∷ cs) d h m = part_final cs (step c d).0 (step-refines c d h).1 (step-Has c d h m)
