-- ===== src/Aggregate/Cells/Total.antt =====
-- internal/aggregate/cells.go: every tally is published or suppressed, and its rows are counted once.
use league_of_legends.Prelude.{
  ℕ, zero, suc, ◌+◌, ◌==◌, ◌≤◌, ◌≡◌, refl, ap, ◌∙◌, subst, List, [], ◌∷◌, Option, none, some,
  length, if◌then◌else◌, if_cases, if_both, ltb, ℤ, pos, negsuc, ◌≤ℤ◌, ltb_ℤ, leb_ℤ, All, sort_by,
  arith,
}
use league_of_legends.Aggregate.Cells.Sums.{sum_by, sum_by-sort_by, length-sum_by, All-sort_by}
use league_of_legends.Aggregate.Cells.{
  CellCount, CellInput, Cell, CellOutput, Role, Computed, done, refused, tally, totals, nat_of,
  to_cell, Listed, list_tally, list_cells, cell_before, sort_cells, compute_from, compute_cells,
  role_from_riot_position, unknown_role, no_rows, sorted_keys,
}

-- A published cell has its evidence: rows, at least as many as the least that is published, and no
-- more wins than rows.
pub record IsBacked (least : ℤ) (c : Cell) : Type 0 where
  pub n_pos : 1 ≤ c.n
  pub enough : least ≤ℤ pos c.n
  pub wins_fit : c.wins ≤ c.n

-- What the second loop has listed of `count` tallies of `all_n` rows and `all_wins` wins.
record Accounts (least : ℤ) (count all_wins all_n : ℕ) (l : Listed) : Type 0 where
  listed : length l.cells + l.suppressed ≡ count
  rows : sum_by (λ c. c.n) l.cells ≡ l.published
  within : l.published ≤ all_n
  wins_fit : all_wins ≤ all_n
  backed : All (IsBacked least) l.cells

abbrev Fits : ℤ → ℕ → Computed (ℕ × ℕ) → Computed Listed → Type 0
Fits least count (refused e) r = Unit
Fits least count (done (all_wins, all_n)) (refused e) = Unit
Fits least count (done (all_wins, all_n)) (done l) = Accounts least count all_wins all_n l

abbrev TallyOf : ℤ → ℤ → Computed (ℕ × ℕ) → Type 0
TallyOf n wins (refused e) = Unit
TallyOf n wins (done (m, won)) = (n ≡ pos m) × (wins ≡ pos won) × (1 ≤ m) × (won ≤ m)

tally-TallyOf : (n wins : ℤ) → TallyOf n wins (tally n wins)
unfolding tally
tally-TallyOf (negsuc n) wins = tt
tally-TallyOf (pos zero) wins = tt
tally-TallyOf (pos (suc n)) (negsuc wins) = tt
tally-TallyOf (pos (suc n)) (pos wins) =
    if_cases (TallyOf (pos (suc n)) (pos wins)) (ltb (suc n) wins) (λ t. tt)
      (λ f. (refl, refl, omega arith, ground (arith, f)))

module _ (half_width : ℕ → ℕ) (input : CellInput) (base_wins base_n : ℕ) where
  list_tally-Accounts :
      (x : CellCount) (role : Role) (n wins count all_wins all_n : ℕ) (l : Listed)
      → x.n ≡ pos n
      → x.wins ≡ pos wins
      → 1 ≤ n
      → wins ≤ n
      → Accounts input.min_cell_n count all_wins all_n l
      → Accounts input.min_cell_n
          (suc count)
          (wins + all_wins)
          (n + all_n)
          (list_tally half_width input base_wins base_n x role l)
  unfolding list_tally to_cell
  list_tally-Accounts x role n wins count all_wins all_n l is_n is_wins some_rows fit h =
      let rows : nat_of x.n ≡ n = ap nat_of is_n in
      let won : nat_of x.wins ≡ wins = ap nat_of is_wins in
      if_cases (Accounts input.min_cell_n (suc count) (wins + all_wins) (n + all_n))
        (ltb_ℤ x.n input.min_cell_n)
        (λ t. record {
          listed = omega (arith, h.listed);
          rows = h.rows;
          within = omega (arith, h.within);
          wins_fit = omega (arith, h.wins_fit, fit);
          backed = h.backed;
        })
        (λ f. record {
          listed = omega (arith, h.listed);
          rows = ap (λ m. nat_of x.n + m) h.rows;
          within = omega (arith, h.within, rows);
          wins_fit = omega (arith, h.wins_fit, fit);
          backed = (
            record {
              n_pos = omega (arith, rows, some_rows);
              enough = ground (arith, f, is_n, rows);
              wins_fit = omega (arith, rows, won, fit);
            },
            h.backed,
          );
        })

  cons-Fits :
      (x : CellCount) (count : ℕ) (t rest : Computed (ℕ × ℕ)) (role : Option Role)
      (r : Computed Listed)
      → TallyOf x.n x.wins t
      → Fits input.min_cell_n count rest r
      → Fits input.min_cell_n
          (suc count)
          (elim t [
            | refused e ↦ refused e
            | done (n, wins) ↦ elim rest [
              | refused e ↦ refused e
              | done (all_wins, all_n) ↦ done (wins + all_wins, n + all_n)
            ]
          ])
          (elim role [
            | none ↦ refused unknown_role
            | some role ↦ elim r [
              | refused e ↦ refused e
              | done l ↦ done (list_tally half_width input base_wins base_n x role l)
            ]
          ])
  cons-Fits x count (refused e) rest role r h k = tt
  cons-Fits x count (done (n, wins)) (refused e) role r h k = tt
  cons-Fits x count (done (n, wins)) (done (all_wins, all_n)) none r h k = tt
  cons-Fits x count (done (n, wins)) (done (all_wins, all_n)) (some role) (refused e) h k = tt
  cons-Fits x count (done (n, wins)) (done (all_wins, all_n)) (some role) (done l)
        (is_n, is_wins, some_rows, fit) k =
      list_tally-Accounts x role n wins count all_wins all_n l is_n is_wins some_rows fit k

  list_cells-Fits :
      (xs : List CellCount)
      → Fits input.min_cell_n
          (length xs)
          (totals xs)
          (list_cells half_width input base_wins base_n xs)
  unfolding totals list_cells
  list_cells-Fits [] = record {
    listed = refl;
    rows = refl;
    within = omega arith;
    wins_fit = omega arith;
    backed = tt;
  }
  list_cells-Fits (x ∷ xs) =
      cons-Fits x (length xs) (tally x.n x.wins) (totals xs) (role_from_riot_position x.role)
        (list_cells half_width input base_wins base_n xs) (tally-TallyOf x.n x.wins)
        (list_cells-Fits xs)

-- What `ComputeCells` returns about `count` tallies.
pub record IsReconciled (least : ℤ) (count : ℕ) (out : CellOutput) : Type 0 where
  pub total : out.total ≡ count
  pub all_listed : length out.cells + out.suppressed ≡ out.total
  pub rows : sum_by (λ c. c.n) out.cells ≡ out.sum_n_published
  pub within : out.sum_n_published ≤ out.sum_n
  pub some_rows : 1 ≤ out.sum_n
  pub wins_fit : out.wins ≤ out.sum_n
  pub backed : All (IsBacked least) out.cells

abbrev Reconciles : ℤ → ℕ → Computed CellOutput → Type 0
Reconciles least count (refused e) = Unit
Reconciles least count (done out) = IsReconciled least count out

sorted-IsReconciled :
    (half_width : ℕ → ℕ) (input : CellInput) (all_wins all_n : ℕ) (l : Computed Listed)
    → 1 ≤ all_n
    → Fits input.min_cell_n (length input.counts) (done (all_wins, all_n)) l
    → Reconciles input.min_cell_n (length input.counts) (elim l [
      | refused e ↦ refused e
      | done l ↦ done (record {
        cells = sort_cells l.cells;
        champions_ascending = sorted_keys l.seen;
        total = length input.counts;
        suppressed = l.suppressed;
        sum_n = all_n;
        sum_n_published = l.published;
        wins = all_wins;
      })
    ])
unfolding sort_cells
sorted-IsReconciled half_width input all_wins all_n (refused e) some_n h = tt
sorted-IsReconciled half_width input all_wins all_n (done l) some_n h = record {
  total = refl;
  all_listed = omega (
    arith,
    h.listed,
    length-sum_by (sort_by cell_before l.cells),
    sum_by-sort_by (λ c. 1) cell_before l.cells,
    length-sum_by l.cells,
  );
  rows = sum_by-sort_by (λ c. c.n) cell_before l.cells ∙ h.rows;
  within = h.within;
  some_rows = some_n;
  wins_fit = h.wins_fit;
  backed = All-sort_by (IsBacked input.min_cell_n) cell_before l.cells h.backed;
}

computed-Reconciles :
    (half_width : ℕ → ℕ) (input : CellInput) (t : Computed (ℕ × ℕ))
    → ((all_wins all_n : ℕ)
        → t ≡ done (all_wins, all_n)
        → Fits input.min_cell_n
            (length input.counts)
            (done (all_wins, all_n))
            (list_cells half_width input all_wins all_n input.counts))
    → Reconciles input.min_cell_n (length input.counts) (elim t [
      | refused e ↦ refused e
      | done (all_wins, all_n) ↦
          if all_n == 0 then refused no_rows else compute_from half_width input all_wins all_n
    ])
unfolding compute_from
computed-Reconciles half_width input (refused e) h = tt
computed-Reconciles half_width input (done (all_wins, all_n)) h =
    if_cases (Reconciles input.min_cell_n (length input.counts)) (all_n == 0) (λ t. tt)
      (λ f.
        sorted-IsReconciled half_width input all_wins all_n
          (list_cells half_width input all_wins all_n input.counts) (ground (arith, f))
          (h all_wins all_n refl))

compute_cells-Reconciles :
    (half_width : ℕ → ℕ) (input : CellInput)
    → Reconciles input.min_cell_n (length input.counts) (compute_cells half_width input)
unfolding compute_cells
compute_cells-Reconciles half_width input =
    if_both (Reconciles input.min_cell_n (length input.counts)) (ltb_ℤ input.min_cell_n (pos 1)) tt
      (if_both (Reconciles input.min_cell_n (length input.counts)) (leb_ℤ input.matches (pos 0)) tt
        (computed-Reconciles half_width input (totals input.counts) (λ all_wins all_n e.
          subst
            (λ t.
              Fits input.min_cell_n (length input.counts) t
                (list_cells half_width input all_wins all_n input.counts))
            e (list_cells-Fits half_width input all_wins all_n input.counts))))

-- A tier list that `ComputeCells` returns accounts for every tally: each is published as a cell or
-- counted as suppressed, the rows of the cells add up to the published sum, which is at most the
-- positive sum of all rows, and no cell has fewer rows than the least that is published, or more wins
-- than rows.
pub compute_cells-IsReconciled :
    (half_width : ℕ → ℕ) (input : CellInput) (out : CellOutput)
    → compute_cells half_width input ≡ done out
    → IsReconciled input.min_cell_n (length input.counts) out
compute_cells-IsReconciled half_width input out e =
    subst (Reconciles input.min_cell_n (length input.counts)) e
      (compute_cells-Reconciles half_width input)
