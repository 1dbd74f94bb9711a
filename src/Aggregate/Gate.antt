-- ===== src/Aggregate/Gate.antt =====
-- internal/aggregate/gate.go: the gates of a build. Counts are numbers, and an error is the list of the
-- sentinels that are joined in it. The floor on the share of published cells is an exact fraction; of
-- the rate of rejected rows, a float64, the configuration has whether it is positive, and the number of
-- rows that `math.Ceil` makes of its product with a count.
pub mod Closed
mod Examples
use league_of_legends.Prelude.{
  ℕ, ◌+◌, ◌-◌, ◌*◌, ◌/◌, Bool, true, false, not, List, [], ◌∷◌, ◌++◌, ltb, leb, ◌==◌, if◌then◌else◌,
  ℤ, pos, ◌-ℤ◌, ltb_ℤ, leb_ℤ, max_ℤ, ◌&&◌, ◌||◌,
}

pub data GateError : Type 0 where
  empty_window malformed_archive rejected_rows reconciliation : GateError
  no_published_cells suppression_majority : GateError

pub record Rate : Type 0 where
  pub num : ℕ
  pub den : ℕ

pub record GateConfig : Type 0 where
  pub min_confident_share : Rate
  pub reconcile_tolerance : ℤ
  pub max_rejected_rows : ℤ
  pub has_rejected_rate : Bool
  pub rejected_rate_of : ℕ → ℤ

pub record GateCounts : Type 0 where
  pub archive_rows : ℕ
  pub malformed_rows : ℕ
  pub matches_used : ℕ
  pub participant_rows : ℕ
  pub rejected_rows : ℕ
  pub cells_total : ℕ
  pub cells_published : ℕ
  pub sum_n : ℕ
  pub classified_rows : ℕ

-- `AllowedRejectedRows`.
unfoldable pub allowed_rejected_rows : GateConfig → ℕ → ℤ
allowed_rejected_rows cfg rows =
    let ceiling = cfg.rejected_rate_of rows in
    if rows == 0 || not cfg.has_rejected_rate
    then cfg.max_rejected_rows
    else if ltb_ℤ cfg.max_rejected_rows ceiling
    then ceiling
    else cfg.max_rejected_rows

-- An error, if a gate is shut.
abbrev pub shut : Bool → GateError → List GateError
shut b e = if b then e ∷ [] else []

-- `CheckArchive`.
unfoldable pub check_archive : GateCounts → List GateError
check_archive c =
    shut (c.archive_rows == 0) empty_window ++ shut (ltb 0 c.malformed_rows) malformed_archive

-- `CheckInput`.
unfoldable pub check_input : GateCounts → GateConfig → List GateError
check_input c cfg =
    check_archive c
    ++ shut (c.matches_used == 0 || c.classified_rows == 0) empty_window
    ++ shut (ltb_ℤ (allowed_rejected_rows cfg c.participant_rows) (pos c.rejected_rows))
        rejected_rows

-- `abs` of the difference of two counts.
abbrev pub distance : ℕ → ℕ → ℕ
distance a b = (a - b) + (b - a)

-- The share of published cells is below the floor.
abbrev pub too_few : GateCounts → Rate → Bool
too_few c floor = ltb (c.cells_published * floor.den) (floor.num * c.cells_total)

-- `CheckOutput`.
unfoldable pub check_output : GateCounts → GateConfig → List GateError
check_output c cfg =
    shut (ltb_ℤ cfg.reconcile_tolerance (pos (distance c.sum_n c.classified_rows))) reconciliation
    ++ (if ltb 0 c.cells_total && c.cells_published == 0
        then no_published_cells ∷ []
        else if ltb 0 c.cells_total
        then shut (too_few c cfg.min_confident_share) suppression_majority
        else [])

-- `Check`.
unfoldable pub check : GateCounts → GateConfig → List GateError
check c cfg = check_input c cfg ++ check_output c cfg
