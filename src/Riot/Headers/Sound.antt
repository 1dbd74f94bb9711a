-- ===== src/Riot/Headers/Sound.antt =====
-- internal/riot/headers.go: what is read from a header is a window that a limiter can keep.
use league_of_legends.Prelude.{
  ℕ, ◌*◌, ◌≤◌, ◌<◌, ◌≡◌, ◌||◌, List, [], ◌∷◌, Option, none, some, All, if_cases, option_both,
  list_both, ℤ, pos, negsuc, leb_ℤ, ltb_ℤ, ◌≤ℤ◌, ◌<ℤ◌, ◌*ℤ◌, Duration, seconds, int64, arith,
}
use league_of_legends.Riot.Limiter.{Window}
use league_of_legends.Riot.Headers.{
  Bytes, atoi, trim, header_period, period_of, window_of, read_window, cut, collect, split,
  parse_windows,
}

-- A positive period of at most a day.
abbrev pub IsPeriod : Duration → Type 0
IsPeriod d = (pos 0 <ℤ d) × (d ≤ℤ seconds 86_400)

abbrev PeriodOption : Option Duration → Type 0
PeriodOption none = Unit
PeriodOption (some d) = IsPeriod d

pub period_seconds :
    (n : ℕ) → 0 < n → n ≤ 86_400 → int64 (pos n *ℤ pos 1_000_000_000) ≡ pos (n * 1_000_000_000)
unfolding int64 ◌*ℤ◌
period_seconds n l h = ground arith

header_period-IsPeriod : (n : ℤ) → PeriodOption (header_period n)
unfolding header_period
header_period-IsPeriod (negsuc n) =
    if_cases PeriodOption (leb_ℤ (negsuc n) (pos 0) || ltb_ℤ (pos 86_400) (negsuc n)) (λ t. tt)
      (λ f. ground (arith, f))
header_period-IsPeriod (pos n) =
    if_cases PeriodOption (leb_ℤ (pos n) (pos 0) || ltb_ℤ (pos 86_400) (pos n)) (λ t. tt)
      (λ f. ground (arith, period_seconds n))

-- A window with a positive limit and such a period.
pub record IsSound (w : Window) : Type 0 where
  pub limit_pos : pos 0 <ℤ w.limit
  pub period : IsPeriod w.period

abbrev WindowOption : Option Window → Type 0
WindowOption none = Unit
WindowOption (some w) = IsSound w

window_of-IsSound :
    (limit : Option ℤ) (period : Option Duration)
    → PeriodOption period
    → WindowOption (window_of limit period)
unfolding window_of
window_of-IsSound none period h = tt
window_of-IsSound (some limit) none h = tt
window_of-IsSound (some limit) (some period) h =
    if_cases WindowOption (leb_ℤ limit (pos 0)) (λ t. tt)
      (λ f. record { limit_pos = ground (arith, f); period = h })

period_of-IsPeriod : (s : Bytes) → PeriodOption (period_of s)
unfolding period_of
period_of-IsPeriod s = option_both PeriodOption (atoi (trim s)) tt (λ n. header_period-IsPeriod n)

read_window-IsSound : (pair : Option (Bytes × Bytes)) → WindowOption (read_window pair)
unfolding read_window
read_window-IsSound none = tt
read_window-IsSound (some (limit, period)) =
    window_of-IsSound (atoi (trim limit)) (period_of period) (period_of-IsPeriod period)

add_window :
    (o : Option Window) (ws : List Window)
    → WindowOption o
    → All IsSound ws
    → All IsSound (elim o [ none ↦ ws | some w ↦ w ∷ ws ])
add_window none ws h hs = hs
add_window (some w) ws h hs = (h, hs)

collect-IsSound : (parts : List Bytes) → All IsSound (collect parts)
unfolding collect
collect-IsSound [] = tt
collect-IsSound (part ∷ parts) =
    add_window (read_window (cut 58 (trim part))) (collect parts)
      (read_window-IsSound (cut 58 (trim part))) (collect-IsSound parts)

-- Whatever a header holds, every window that is read from it has a positive limit and a positive
-- period of at most a day, so that no product of seconds wraps around.
pub parse_windows-All-IsSound : (header : Bytes) → All IsSound (parse_windows header)
unfolding parse_windows
parse_windows-All-IsSound header =
    list_both (All IsSound) (trim header) tt (λ c s. collect-IsSound (split 44 header))
