-- ===== src/Raw/Part.antt =====
-- internal/raw/writer.go: `partWriter`, one open Parquet part. The rows of the part under its
-- temporary name are `open_rows`, the rows of the parts that were renamed into place `published`. The
-- numbers of the parts, and that none is renamed over another, are those of Raw.Directory.
use league_of_legends.Prelude.{
  ℕ, ◌+◌, Bool, true, false, ◌&&◌, List, [], ◌∷◌, ◌++◌, Option, none, some, ltb, leb, if◌then◌else◌,
}

pub record Part {ℓ} (A : Type ℓ) : Type ℓ where
  pub open_rows : Option (List A)
  pub rows : ℕ
  pub published : List A

-- What the file system and the encoder do with one call: whether a part can be created, a row
-- encoded, and a part closed, synced and renamed.
pub record PartIo : Type 0 where
  pub opens : Bool
  pub encodes : Bool
  pub finalizes : Bool

module _ {ℓ} {A : Type ℓ} where
  unfoldable pub new_part : Part A
  new_part = record { open_rows = none; rows = 0; published = [] }

  -- `finalize`; the Boolean is whether it returned no error. On a failure the temporary file is
  -- removed, and the count of rows is left as it was.
  unfoldable pub finalize : Bool → Part A → Part A × Bool
  finalize succeeds p = elim p.open_rows [
    | none ↦ (p, true)
    | some buffered ↦
        if succeeds
        then (record { open_rows = none; rows = 0; published = p.published ++ buffered }, true)
        else (record p { open_rows = none }, false)
  ]

  -- `append`, once a part is open.
  unfoldable pub append_open : ℕ → PartIo → A → List A → Part A → Part A × Bool
  append_open rows_per_part io row buffered p =
      let p' = record p { open_rows = some (buffered ++ row ∷ []); rows = p.rows + 1 } in
      if io.encodes
      then (if ltb 0 rows_per_part && leb rows_per_part p'.rows
          then finalize io.finalizes p'
          else (p', true))
      else (record p { open_rows = some buffered }, false)

  -- `append`.
  unfoldable pub append : ℕ → PartIo → A → Part A → Part A × Bool
  append rows_per_part io row p = elim p.open_rows [
    | none ↦ if io.opens then append_open rows_per_part io row [] p else (p, false)
    | some buffered ↦ append_open rows_per_part io row buffered p
  ]
