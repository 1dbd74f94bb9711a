-- ===== src/Aggregate/Gate/Examples.antt =====
-- internal/aggregate/gate.go: the gates at a small window.
use league_of_legends.Prelude.{◌≡◌, refl, [], ◌∷◌, pos, true, ◌+◌, ◌*◌, ◌/◌}
use league_of_legends.Aggregate.Gate.{
  GateConfig, GateCounts, allowed_rejected_rows, check_archive, check_input, check_output, check,
  no_published_cells, rejected_rows,
}

-- Half of the cells, and 8 of 10,000 rows, as the ceiling of an exact product.
abbrev config : GateConfig
config = record {
  min_confident_share = record { num = 1; den = 2 };
  reconcile_tolerance = pos 0;
  max_rejected_rows = pos 3;
  has_rejected_rate = true;
  rejected_rate_of = λ rows. pos ((8 * rows + 9_999) / 10_000);
}

abbrev counts : GateCounts
counts = record {
  archive_rows = 1000;
  malformed_rows = 0;
  matches_used = 900;
  participant_rows = 9000;
  rejected_rows = 8;
  cells_total = 40;
  cells_published = 20;
  sum_n = 8992;
  classified_rows = 8992;
}

passes : check counts config ≡ []
unfolding check check_input check_archive check_output allowed_rejected_rows
passes = refl

fails :
    check (record counts { rejected_rows = 9; cells_published = 0 }) config
    ≡ rejected_rows ∷ no_published_cells ∷ []
unfolding check check_input check_archive check_output allowed_rejected_rows
fails = refl
