-- ===== src/Aggregate/Cells/Examples.antt =====
-- internal/aggregate/cells.go: a window of four tallies, and the theorem about it.
use league_of_legends.Prelude.{
  List, map, ℕ, ◌≡◌, refl, [], ◌∷◌, ℤ, pos, ◌-ℤ◌, ◌*ℤ◌, any, sort_by, insert_by, String,
}
use league_of_legends.Aggregate.Cells.{
  CellCount, CellInput, Cell, CellOutput, top, mid, s_plus, c, d, done, role_from_riot_position,
  round4, meets, tier_for_rate, bans_of, tally, totals, to_cell, list_tally, list_cells, sort_cells,
  distinct, sorted_keys, compute_from, compute_cells,
}
use league_of_legends.Aggregate.Cells.Builds.{
  BuildCount, compute_builds, builds_of, to_build, compare_int_slices, MatchupCount,
  compute_matchup_cells, matchups_of, to_matchup,
}
use league_of_legends.Aggregate.Cells.Total.{IsReconciled, compute_cells-IsReconciled}

abbrev counted : ℤ → String → ℤ → ℤ → CellCount
counted champion_id role n wins = record {
  champion_id = champion_id;
  role = role;
  n = n;
  wins = wins;
}

abbrev input : CellInput
input = record {
  counts =
      counted (pos 103) "MIDDLE" (pos 200) (pos 90)
      ∷ counted (pos 86) "TOP" (pos 300) (pos 165)
      ∷ counted (pos 86) "MID" (pos 7) (pos 5)
      ∷ counted (pos 1) "MID" (pos 100) (pos 50)
      ∷ [];
  bans = record { champion_id = pos 86; bans = 75 } ∷ [];
  matches = pos 250;
  min_cell_n = pos 100;
}

abbrev no_width : ℕ → ℕ
no_width n = 0

abbrev cell : Cell
cell = record {
  champion_id = pos 86;
  role = top;
  n = 300;
  wins = 165;
  win_rate = 5500;
  pick_rate = 6000;
  ban_rate = 3000;
  tier = s_plus;
  half_width = 0;
}

abbrev output : CellOutput
output = record {
  cells =
      cell
      ∷ record {
        champion_id = pos 1;
        role = mid;
        n = 100;
        wins = 50;
        win_rate = 5000;
        pick_rate = 2000;
        ban_rate = 0;
        tier = c;
        half_width = 0;
      }
      ∷ record {
        champion_id = pos 103;
        role = mid;
        n = 200;
        wins = 90;
        win_rate = 4500;
        pick_rate = 4000;
        ban_rate = 0;
        tier = d;
        half_width = 0;
      }
      ∷ [];
  champions_ascending = pos 1 ∷ pos 86 ∷ pos 103 ∷ [];
  total = 4;
  suppressed = 1;
  sum_n = 607;
  sum_n_published = 600;
  wins = 310;
}

computes : compute_cells no_width input ≡ done output
unfolding compute_cells totals tally compute_from list_cells role_from_riot_position list_tally
    to_cell round4 bans_of tier_for_rate meets sort_cells sorted_keys distinct any sort_by insert_by
    ◌-ℤ◌ ◌*ℤ◌
computes = refl

compute_cells-IsReconciled_example : IsReconciled (pos 100) 4 output
compute_cells-IsReconciled_example = compute_cells-IsReconciled no_width input output computes

abbrev built : List ℤ → ℤ → ℕ → BuildCount
built key n wins = record { champion_id = pos 86; role = "TOP"; key = key; n = n; wins = wins }

-- The larger sample first, then the smaller key; an empty tally is dropped.
ranks_builds :
    map
      (λ b. b.key)
      (compute_builds "items" (pos 86) top (
        built (pos 3 ∷ pos 1 ∷ []) (pos 4) 2
        ∷ built (pos 2 ∷ []) (pos 9) 5
        ∷ built (pos 7 ∷ []) (pos 0) 0
        ∷ built (pos 3 ∷ []) (pos 4) 1
        ∷ []))
    ≡ (pos 2 ∷ []) ∷ (pos 3 ∷ []) ∷ (pos 3 ∷ pos 1 ∷ []) ∷ []
unfolding compute_builds builds_of to_build compare_int_slices role_from_riot_position sort_by
    insert_by
ranks_builds = refl

abbrev met : ℤ → ℤ → String → MatchupCount
met champion_id opponent_id role = record {
  role = role;
  champion_id = champion_id;
  opponent_id = opponent_id;
  n = pos 10;
  wins = 6;
}

ranks_matchups :
    map
      (λ m. m.opponent_id)
      (compute_matchup_cells no_width mid (
        met (pos 8) (pos 12) "MID"
        ∷ met (pos 8) (pos 9) "MIDDLE"
        ∷ met (pos 1) (pos 2) "TOP"
        ∷ met (pos 3) (pos 50) "MID"
        ∷ []))
    ≡ pos 50 ∷ pos 9 ∷ pos 12 ∷ []
unfolding compute_matchup_cells matchups_of to_matchup role_from_riot_position sort_by insert_by
ranks_matchups = refl
