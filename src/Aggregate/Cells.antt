-- ===== src/Aggregate/Cells.antt =====
-- internal/aggregate/cells.go and tier.go: the tier list from the tallies of a window. A rate is an
-- exact fraction where Go has a float64; `round4` gives its ten-thousandths. The half width of a
-- cell's confidence interval, which needs a square root, is an argument.
mod Examples
pub mod Sums
pub mod Total
pub mod Builds
use league_of_legends.Prelude.{
  ℕ, zero, suc, ◌+◌, ◌-◌, ◌*◌, ◌/◌, ◌==◌, Bool, true, false, not, ◌&&◌, ◌||◌, List, [], ◌∷◌, Option,
  none, some, length, map, if◌then◌else◌, leb, ltb, ℤ, pos, negsuc, ◌+ℤ◌, ◌-ℤ◌, ◌*ℤ◌, ltb_ℤ, leb_ℤ,
  eq_ℤ, any, sort_by, String, str_eq,
}

pub data Role : Type 0 where
  top jungle mid bottom support : Role

-- `RoleFromRiotPosition`.
unfoldable pub role_from_riot_position : String → Option Role
role_from_riot_position p =
    if str_eq p "TOP"
    then some top
    else if str_eq p "JUNGLE"
    then some jungle
    else if str_eq p "MIDDLE" || str_eq p "MID"
    then some mid
    else if str_eq p "BOTTOM" || str_eq p "ADC"
    then some bottom
    else if str_eq p "UTILITY" || str_eq p "SUPPORT"
    then some support
    else none

-- A role's place in `Roles`.
abbrev pub rank : Role → ℕ
rank top = 0
rank jungle = 1
rank mid = 2
rank bottom = 3
rank support = 4

pub data Tier : Type 0 where
  s_plus s a b c d : Tier

-- A tally, with the counts that it is allowed to have. Go's are ints, and `ComputeCells` refuses a
-- negative one of either.
pub record CellCount : Type 0 where
  pub champion_id : ℤ
  pub role : String
  pub n : ℤ
  pub wins : ℤ

pub record BanCount : Type 0 where
  pub champion_id : ℤ
  pub bans : ℕ

pub record CellInput : Type 0 where
  pub counts : List CellCount
  pub bans : List BanCount
  pub matches : ℤ
  pub min_cell_n : ℤ

-- Rates are in ten-thousandths.
pub record Cell : Type 0 where
  pub champion_id : ℤ
  pub role : Role
  pub n : ℕ
  pub wins : ℕ
  pub win_rate : ℕ
  pub pick_rate : ℕ
  pub ban_rate : ℕ
  pub tier : Tier
  pub half_width : ℕ

-- The baseline is the fraction of `wins` out of `sum_n`.
pub record CellOutput : Type 0 where
  pub cells : List Cell
  pub champions_ascending : List ℤ
  pub total : ℕ
  pub suppressed : ℕ
  pub sum_n : ℕ
  pub sum_n_published : ℕ
  pub wins : ℕ

pub data CellError : Type 0 where
  bad_min_cell_n no_matches bad_n bad_wins no_rows unknown_role : CellError

pub data Computed {ℓ} (A : Type ℓ) : Type ℓ where
  done : A → Computed A
  refused : CellError → Computed A

-- `round4` of a fraction that is not negative: halves are rounded up. (Of nothing at all it is 0.)
unfoldable pub round4 : ℕ → ℕ → ℕ
round4 num den = if den == 0 then 0 else (2 * (num * 10_000) + den) / (2 * den)

-- Whether the rate of `wins` in `n` exceeds the rate of `all_wins` in `all_n` by at least a number of
-- tenths of a percentage point.
unfoldable pub meets : ℕ → ℕ → ℕ → ℕ → ℤ → Bool
meets all_wins all_n wins n tenths =
    leb_ℤ (tenths *ℤ pos (n * all_n)) (pos 1000 *ℤ (pos (wins * all_n) -ℤ pos (all_wins * n)))

-- `tierForRate` over `tierBands`.
unfoldable pub tier_for_rate : ℕ → ℕ → ℕ → ℕ → Tier
tier_for_rate all_wins all_n wins n =
    if meets all_wins all_n wins n (pos 20)
    then s_plus
    else if meets all_wins all_n wins n (pos 12)
    then s
    else if meets all_wins all_n wins n (pos 6)
    then a
    else if meets all_wins all_n wins n (negsuc 5)
    then b
    else if meets all_wins all_n wins n (negsuc 14)
    then c
    else d

-- The map of bans, at one champion.
unfoldable pub bans_of : ℤ → List BanCount → ℕ
bans_of champion [] = 0
bans_of champion (x ∷ xs) =
    let rest = bans_of champion xs in if eq_ℤ x.champion_id champion then x.bans + rest else rest

-- The counts of a tally that can form a cell.
unfoldable pub tally : ℤ → ℤ → Computed (ℕ × ℕ)
tally (negsuc n) wins = refused bad_n
tally (pos zero) wins = refused bad_n
tally (pos (suc n)) (negsuc wins) = refused bad_wins
tally (pos (suc n)) (pos wins) = if ltb (suc n) wins then refused bad_wins else done (suc n, wins)

-- The first loop: the wins and the rows of every tally.
unfoldable pub totals : List CellCount → Computed (ℕ × ℕ)
totals [] = done (0, 0)
totals (x ∷ xs) =
    let rest = totals xs in
    elim (tally x.n x.wins) [
      | refused e ↦ refused e
      | done (n, wins) ↦ elim rest [
        | refused e ↦ refused e
        | done (all_wins, all_n) ↦ done (wins + all_wins, n + all_n)
      ]
    ]

abbrev pub nat_of : ℤ → ℕ
nat_of (pos n) = n
nat_of (negsuc n) = 0

-- The cell of a tally that is published.
unfoldable pub to_cell : (ℕ → ℕ) → CellInput → ℕ → ℕ → CellCount → Role → Cell
to_cell half_width input all_wins all_n x role = record {
  champion_id = x.champion_id;
  role = role;
  n = nat_of x.n;
  wins = nat_of x.wins;
  win_rate = round4 (nat_of x.wins) (nat_of x.n);
  pick_rate = round4 (nat_of x.n) (2 * nat_of input.matches);
  ban_rate = round4 (bans_of x.champion_id input.bans) (nat_of input.matches);
  tier = tier_for_rate all_wins all_n (nat_of x.wins) (nat_of x.n);
  half_width = half_width (nat_of x.n);
}

-- What the second loop has made: the cells, the champions seen, the tallies suppressed, and the rows of
-- those published.
pub record Listed : Type 0 where
  pub cells : List Cell
  pub seen : List ℤ
  pub suppressed : ℕ
  pub published : ℕ

-- One turn of the second loop, before what the rest of it makes.
unfoldable pub list_tally : (ℕ → ℕ) → CellInput → ℕ → ℕ → CellCount → Role → Listed → Listed
list_tally half_width input all_wins all_n x role l =
    let seen' = x.champion_id ∷ l.seen in
    if ltb_ℤ x.n input.min_cell_n
    then record l { seen = seen'; suppressed = l.suppressed + 1 }
    else record l {
      cells = to_cell half_width input all_wins all_n x role ∷ l.cells;
      seen = seen';
      published = nat_of x.n + l.published;
    }

-- The second loop.
unfoldable pub list_cells : (ℕ → ℕ) → CellInput → ℕ → ℕ → List CellCount → Computed Listed
list_cells half_width input all_wins all_n [] =
    done (record { cells = []; seen = []; suppressed = 0; published = 0 })
list_cells half_width input all_wins all_n (x ∷ xs) =
    let rest = list_cells half_width input all_wins all_n xs in
    elim (role_from_riot_position x.role) [
      | none ↦ refused unknown_role
      | some role ↦ elim rest [
        | refused e ↦ refused e
        | done l ↦ done (list_tally half_width input all_wins all_n x role l)
      ]
    ]

-- The order of `sortCells`.
abbrev pub cell_before : Cell → Cell → Bool
cell_before x y =
    if rank x.role == rank y.role
    then (if x.win_rate == y.win_rate
        then ltb_ℤ x.champion_id y.champion_id
        else ltb y.win_rate x.win_rate)
    else ltb (rank x.role) (rank y.role)

unfoldable pub sort_cells : List Cell → List Cell
sort_cells cells = sort_by cell_before cells

-- `sortedKeys`, of a set that is a list with repeats.
unfoldable pub distinct : List ℤ → List ℤ
distinct [] = []
distinct (x ∷ xs) = let rest = distinct xs in if any (eq_ℤ x) xs then rest else x ∷ rest

unfoldable pub sorted_keys : List ℤ → List ℤ
sorted_keys keys = sort_by ltb_ℤ (distinct keys)

-- `ComputeCells`, after its first checks.
unfoldable pub compute_from : (ℕ → ℕ) → CellInput → ℕ → ℕ → Computed CellOutput
compute_from half_width input all_wins all_n =
    elim (list_cells half_width input all_wins all_n input.counts) [
      | refused e ↦ refused e
      | done l ↦ done (record {
        cells = sort_cells l.cells;
        champions_ascending = sorted_keys l.seen;
        total = length input.counts;
        suppressed = l.suppressed;
        sum_n = all_n;
        sum_n_published = l.published;
        wins = all_wins;
      })
    ]

-- `ComputeCells`.
unfoldable pub compute_cells : (ℕ → ℕ) → CellInput → Computed CellOutput
compute_cells half_width input =
    if ltb_ℤ input.min_cell_n (pos 1)
    then refused bad_min_cell_n
    else if leb_ℤ input.matches (pos 0)
    then refused no_matches
    else elim (totals input.counts) [
      | refused e ↦ refused e
      | done (all_wins, all_n) ↦
          if all_n == 0 then refused no_rows else compute_from half_width input all_wins all_n
    ]
