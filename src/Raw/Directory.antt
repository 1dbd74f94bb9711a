-- ===== src/Raw/Directory.antt =====
-- internal/raw/writer.go: `partWriter` over the entries of its directory. Where Raw.Part counts the rows
-- of the parts that were renamed into place, here each part stands under its number, and a rename
-- onto a number that is taken would replace what is there.
pub mod Fresh
pub mod Refines
pub mod Kept
mod Examples
use league_of_legends.Prelude.{
  ℕ, zero, suc, ◌+◌, ◌==◌, Bool, true, false, not, ◌&&◌, ◌||◌, List, [], ◌∷◌, ◌++◌, Option, none,
  some, ltb, leb, if◌then◌else◌, ◌-ℤ◌, ltb_ℤ, Time, Duration, seconds, any, keep,
}
use league_of_legends.Raw.Part.{PartIo}

-- An entry of the directory: a published part under its number, a temporary one with its time of
-- modification, if that can be read, or another name.
pub data DirEntry {ℓ} (A : Type ℓ) : Type ℓ where
  final : ℕ → List A → DirEntry A
  temporary : ℕ → Option Time → DirEntry A
  other : DirEntry A

-- `held` is the temporary part that is open, with its rows.
pub record PartDir {ℓ} (A : Type ℓ) : Type ℓ where
  pub entries : List (DirEntry A)
  pub held : Option (ℕ × List A)
  pub rows : ℕ

-- What the file system does when a part is opened: whether the directory is made and listed, which
-- stale parts are removed, and at which numbers a part can be created.
pub record OpenIo : Type 0 where
  pub lists : Bool
  pub removes : ℕ → Bool
  pub creates : ℕ → Bool
  pub now : Time

abbrev pub part_tmp_stale_after : Duration
part_tmp_stale_after = seconds 3600

abbrev pub max_part_index_skips : ℕ
max_part_index_skips = 64

-- A temporary part that `scanPartDir` takes for abandoned.
abbrev pub is_stale : Time → Option Time → Bool
is_stale now none = false
is_stale now (some at) = ltb_ℤ at (now -ℤ part_tmp_stale_after)

module _ {ℓ} {A : Type ℓ} where
  -- The loop of `scanPartDir`, for the highest number.
  unfoldable pub highest : ℕ → List (DirEntry A) → ℕ
  highest h [] = h
  highest h (final n rows ∷ es) = highest (if leb n h then h else n) es
  highest h (temporary n at ∷ es) = highest h es
  highest h (other ∷ es) = highest h es

  -- `reap`.
  abbrev pub stays : OpenIo → DirEntry A → Bool
  stays io (final n rows) = true
  stays io (temporary n at) = not (is_stale io.now at && io.removes n)
  stays io other = true

  abbrev pub is_temporary : ℕ → DirEntry A → Bool
  is_temporary n (final k rows) = false
  is_temporary n (temporary k at) = k == n
  is_temporary n other = false

  abbrev pub is_final : ℕ → DirEntry A → Bool
  is_final n (final k rows) = k == n
  is_final n (temporary k at) = false
  is_final n other = false

  -- `create`, with the skips that are left.
  unfoldable pub create : OpenIo → ℕ → ℕ → List (DirEntry A) → Option ℕ
  create io zero index es = none
  create io (suc skips) index es =
      let rest = create io skips (suc index) es in
      if any (is_temporary index) es then rest else if io.creates index then some index else none

  -- `open`.
  unfoldable pub open_part : OpenIo → PartDir A → PartDir A × Bool
  open_part io d =
      let es = keep (stays io) d.entries in
      if io.lists
      then elim (create io max_part_index_skips (suc (highest 0 d.entries)) es) [
        | none ↦ (record d { entries = es }, false)
        | some n ↦
            (record d { entries = temporary n (some io.now) ∷ es; held = some (n, []) }, true)
      ]
      else (d, false)

  -- `os.Rename` of the temporary part `n` into place.
  unfoldable pub rename : ℕ → List A → List (DirEntry A) → List (DirEntry A)
  rename n rows es =
      keep (λ e. not (is_temporary n e) && not (is_final n e)) es ++ final n rows ∷ []

  -- `finalize`.
  unfoldable pub finalize_part : Bool → PartDir A → PartDir A × Bool
  finalize_part succeeds d = elim d.held [
    | none ↦ (d, true)
    | some (n, rows) ↦
        if succeeds
        then (record { entries = rename n rows d.entries; held = none; rows = 0 }, true)
        else (
          record d { entries = keep (λ e. not (is_temporary n e)) d.entries; held = none },
          false,
        )
  ]

  -- `append`, once a part is open.
  unfoldable pub append_held : ℕ → PartIo → A → ℕ → List A → PartDir A → PartDir A × Bool
  append_held rows_per_part io row n buffered d =
      let d' = record d { held = some (n, buffered ++ row ∷ []); rows = d.rows + 1 } in
      if io.encodes
      then (if ltb 0 rows_per_part && leb rows_per_part d'.rows
          then finalize_part io.finalizes d'
          else (d', true))
      else (d, false)

  -- `append`, after `open` where no part is.
  unfoldable pub append_opened : ℕ → PartIo → A → PartDir A × Bool → PartDir A × Bool
  append_opened rows_per_part io row (d, opened) = elim d.held [
    | none ↦ (d, false)
    | some (n, buffered) ↦
        if opened then append_held rows_per_part io row n buffered d else (d, false)
  ]

  -- `append`.
  unfoldable pub append_part : ℕ → OpenIo → PartIo → A → PartDir A → PartDir A × Bool
  append_part rows_per_part open_io io row d =
      append_opened rows_per_part io row
        (elim d.held [ none ↦ open_part open_io d | some part ↦ (d, true) ])
