-- ===== src/Aggregate/Cells/Builds.antt =====
-- internal/aggregate/cells.go: the matchups of a role, and the builds of a champion in a role. Go makes
-- a map with an entry for each key that occurs; here the entry is asked for by its key, and is empty
-- where Go has none. The label of a build, its key as a text, is left out.
use league_of_legends.Prelude.{
  ℕ, ◌==◌, Bool, false, ◌&&◌, List, [], ◌∷◌, Option, none, some, if◌then◌else◌, ℤ, pos, negsuc,
  ltb_ℤ, eq_ℤ, sort_by, take, String,
}
use league_of_legends.Aggregate.Cells.{Role, rank, role_from_riot_position, round4, nat_of}

pub record MatchupCount : Type 0 where
  pub role : String
  pub champion_id : ℤ
  pub opponent_id : ℤ
  pub n : ℤ
  pub wins : ℕ

pub record MatchupCell : Type 0 where
  pub champion_id : ℤ
  pub opponent_id : ℤ
  pub n : ℕ
  pub wins : ℕ
  pub win_rate : ℕ
  pub half_width : ℕ

abbrev pub is_role : Role → Option Role → Bool
is_role role none = false
is_role role (some r) = rank r == rank role

-- A tally of the role, with rows.
abbrev pub counts_for : Role → ℤ → String → Bool
counts_for role n position = ltb_ℤ (pos 0) n && is_role role (role_from_riot_position position)

unfoldable pub to_matchup : (ℕ → ℕ) → MatchupCount → MatchupCell
to_matchup half_width x = record {
  champion_id = x.champion_id;
  opponent_id = x.opponent_id;
  n = nat_of x.n;
  wins = x.wins;
  win_rate = round4 x.wins (nat_of x.n);
  half_width = half_width (nat_of x.n);
}

unfoldable pub matchups_of : (ℕ → ℕ) → Role → List MatchupCount → List MatchupCell
matchups_of half_width role [] = []
matchups_of half_width role (x ∷ xs) =
    let rest = matchups_of half_width role xs in
    if counts_for role x.n x.role then to_matchup half_width x ∷ rest else rest

abbrev pub matchup_before : MatchupCell → MatchupCell → Bool
matchup_before x y =
    if eq_ℤ x.champion_id y.champion_id
    then ltb_ℤ x.opponent_id y.opponent_id
    else ltb_ℤ x.champion_id y.champion_id

-- `computeMatchupCells`, at one role.
unfoldable pub compute_matchup_cells : (ℕ → ℕ) → Role → List MatchupCount → List MatchupCell
compute_matchup_cells half_width role counts =
    sort_by matchup_before (matchups_of half_width role counts)

pub record BuildCount : Type 0 where
  pub champion_id : ℤ
  pub role : String
  pub key : List ℤ
  pub n : ℤ
  pub wins : ℕ

pub record Build : Type 0 where
  pub kind : String
  pub key : List ℤ
  pub n : ℕ
  pub wins : ℕ
  pub win_rate : ℕ

abbrev pub max_builds_per_role : ℕ
max_builds_per_role = 10

-- `compareIntSlices`.
unfoldable pub compare_int_slices : List ℤ → List ℤ → ℤ
compare_int_slices [] [] = pos 0
compare_int_slices [] (y ∷ ys) = negsuc 0
compare_int_slices (x ∷ xs) [] = pos 1
compare_int_slices (x ∷ xs) (y ∷ ys) =
    let rest = compare_int_slices xs ys in
    if ltb_ℤ x y then negsuc 0 else if ltb_ℤ y x then pos 1 else rest

unfoldable pub to_build : String → BuildCount → Build
to_build kind x = record {
  kind = kind;
  key = x.key;
  n = nat_of x.n;
  wins = x.wins;
  win_rate = round4 x.wins (nat_of x.n);
}

unfoldable pub builds_of : String → ℤ → Role → List BuildCount → List Build
builds_of kind champion role [] = []
builds_of kind champion role (x ∷ xs) =
    let rest = builds_of kind champion role xs in
    if eq_ℤ x.champion_id champion && counts_for role x.n x.role
    then to_build kind x ∷ rest
    else rest

abbrev pub build_before : Build → Build → Bool
build_before x y =
    if x.n == y.n then ltb_ℤ (compare_int_slices x.key y.key) (pos 0) else ltb_ℤ (pos y.n) (pos x.n)

-- `computeBuilds`, at one champion and role.
unfoldable pub compute_builds : String → ℤ → Role → List BuildCount → List Build
compute_builds kind champion role counts =
    take max_builds_per_role (sort_by build_before (builds_of kind champion role counts))
