-- ===== src/Riot/Headers/Examples.antt =====
-- internal/riot/headers.go: headers as Riot sends them, and the theorems about them there.
use league_of_legends.Prelude.{
  ◌≡◌, refl, List, [], ◌∷◌, none, some, All, pos, seconds, int64, ◌*ℤ◌, ◌-ℤ◌, arith,
}
use league_of_legends.Riot.Headers.{
  Bytes, trim_left, trim_right, split, cut, scan, atoi, atoi_pos, atoi_neg, header_period,
  period_of, window_of, read_window, collect, parse_windows, count_of, read_count, collect_counts,
  parse_counts, until, parse_retry_after,
}
use league_of_legends.Riot.Headers.RoundTrip.{
  Advertised, IsRegular, print_windows, parse_windows-print,
}

-- `20:1,100:120`.
abbrev development : Bytes
development = 50 ∷ 48 ∷ 58 ∷ 49 ∷ 44 ∷ 49 ∷ 48 ∷ 48 ∷ 58 ∷ 49 ∷ 50 ∷ 48 ∷ []

reads_development :
    parse_windows development
    ≡ record { limit = pos 20; period = seconds 1 }
      ∷ record { limit = pos 100; period = seconds 120 }
      ∷ []
unfolding parse_windows trim_left trim_right split collect read_window cut period_of window_of atoi
    atoi_pos scan header_period int64 ◌*ℤ◌
reads_development = refl

-- ` 5 : 10 ,-3:10,7:86401,x`: one pair can be used.
abbrev odd : Bytes
odd =
    32 ∷ 53 ∷ 32 ∷ 58 ∷ 32 ∷ 49 ∷ 48 ∷ 32 ∷ 44 ∷ 45 ∷ 51 ∷ 58 ∷ 49 ∷ 48 ∷ 44 ∷ 55 ∷ 58 ∷ 56 ∷ 54
    ∷ 52 ∷ 48 ∷ 49 ∷ 44 ∷ 120 ∷ []

reads_odd : parse_windows odd ≡ record { limit = pos 5; period = seconds 10 } ∷ []
unfolding parse_windows trim_left trim_right split collect read_window cut period_of window_of atoi
    atoi_pos atoi_neg scan header_period int64 ◌*ℤ◌
reads_odd = refl

-- `0:1,3:1`: the later count of a period is the one that is found.
counts :
    parse_counts (48 ∷ 58 ∷ 49 ∷ 44 ∷ 51 ∷ 58 ∷ 49 ∷ [])
    ≡ (seconds 1, pos 3) ∷ (seconds 1, pos 0) ∷ []
unfolding parse_counts trim_left trim_right split collect_counts read_count cut period_of count_of
    atoi atoi_pos scan header_period int64 ◌*ℤ◌
counts = refl

-- `15` waits for fifteen seconds; a date that is read waits until then.
waits_seconds : parse_retry_after (λ s. none) (49 ∷ 53 ∷ []) (seconds 9) ≡ seconds 15
unfolding parse_retry_after trim_left trim_right atoi atoi_pos scan header_period int64 ◌*ℤ◌
waits_seconds = refl

waits_until : parse_retry_after (λ s. some (seconds 20)) (87 ∷ 101 ∷ []) (seconds 9) ≡ seconds 11
unfolding parse_retry_after trim_left trim_right atoi atoi_pos scan until ◌-ℤ◌
waits_until = refl

abbrev advertised : List Advertised
advertised =
    record { limit = 20; period = 1 }
    ∷ record { limit = 100; period = 120 }
    ∷ record { limit = 180_000; period = 600 }
    ∷ []

regular : All IsRegular advertised
regular = (
  record {
    limit_pos = omega arith;
    limit_fits = omega arith;
    period_pos = omega arith;
    period_day = omega arith;
  },
  (
    record {
      limit_pos = omega arith;
      limit_fits = omega arith;
      period_pos = omega arith;
      period_day = omega arith;
    },
    (
      record {
        limit_pos = omega arith;
        limit_fits = omega arith;
        period_pos = omega arith;
        period_day = omega arith;
      },
      tt,
    ),
  ),
)

parse_windows-print_example :
    parse_windows (print_windows advertised)
    ≡ record { limit = pos 20; period = seconds 1 }
      ∷ record { limit = pos 100; period = seconds 120 }
      ∷ record { limit = pos 180_000; period = seconds 600 }
      ∷ []
parse_windows-print_example = parse_windows-print advertised regular
