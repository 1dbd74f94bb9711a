-- ===== src/Aggregate/Gate/Closed.antt =====
-- internal/aggregate/gate.go: the gates fail closed.

use league_of_legends.Prelude.{◌*◌, ◌≤◌, ◌≡◌, ◌⊎◌, Bool, true, false, [], pos, ◌≤ℤ◌, arith}
use league_of_legends.Aggregate.Gate.{
  GateError, GateConfig, GateCounts, shut, distance, rejected_rows,
}

-- What a window must be for its build to be published.
pub record IsSound (c : GateCounts) (cfg : GateConfig) : Type 0 where
  pub has_rows : 1 ≤ c.archive_rows
  pub readable : c.malformed_rows ≡ 0
  pub has_matches : 1 ≤ c.matches_used
  pub has_classified : 1 ≤ c.classified_rows
  pub few_rejected :
      (pos c.rejected_rows ≤ℤ cfg.max_rejected_rows)
      ⊎ (1 ≤ c.participant_rows)
        × (cfg.has_rejected_rate ≡ true)
        × (pos c.rejected_rows ≤ℤ cfg.rejected_rate_of c.participant_rows)
  pub reconciles : pos (distance c.sum_n c.classified_rows) ≤ℤ cfg.reconcile_tolerance
  pub confident :
      (c.cells_total ≡ 0)
      ⊎ (1 ≤ c.cells_published)
        × (cfg.min_confident_share.num * c.cells_total
            ≤ c.cells_published * cfg.min_confident_share.den)

sound-shut : (b : Bool) (e : GateError) → b ≡ false → shut b e ≡ []
sound-shut b e h = ground arith
