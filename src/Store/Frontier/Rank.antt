-- ===== src/Store/Frontier/Rank.antt =====
-- internal/store/maintain.go: the frontier is ranked anew.
use league_of_legends.Prelude.{ℕ, ◌+◌, ◌*◌, Bool, not, ◌&&◌, ℤ, pos, eq_ℤ, min_ℤ, keep, length}
use league_of_legends.Store.Frontier.{Player, Frontier, update_players}

-- The priority of a player whose history was empty so many times in a row.
abbrev pub priority_for : ℕ → ℤ
priority_for consecutive_empty = min_ℤ (pos 300) (pos (50 + 25 * consecutive_empty))

unfoldable pub rerank : Player → Player
rerank r = record r { priority = priority_for r.consecutive_empty }

-- The WHERE clause of `RecomputeFrontierPriority`.
unfoldable pub misranked : Player → Bool
misranked r = not r.dead && not (eq_ℤ r.priority (priority_for r.consecutive_empty))

-- `RecomputeFrontierPriority`, with the number of rows that it changes.
unfoldable pub recompute_frontier_priority : Frontier → Frontier × ℕ
recompute_frontier_priority rows =
    (update_players misranked rerank rows, length (keep misranked rows))
