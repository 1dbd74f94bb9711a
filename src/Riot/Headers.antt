-- ===== src/Riot/Headers.antt =====
-- internal/riot/headers.go: the headers that carry rate limits, as lists of bytes. A header that is not
-- there is empty. `ParseTime` of net/http is an argument.
mod Examples
pub mod Sound
pub mod Text
pub mod RoundTrip
use league_of_legends.Prelude.{
  ℕ, zero, suc, ◌+◌, ◌-◌, ◌*◌, ◌^◌, ◌==◌, Bool, true, false, ◌&&◌, ◌||◌, List, [], ◌∷◌, Option,
  none, some, if◌then◌else◌, leb, ltb, ℤ, pos, negsuc, ◌-ℤ◌, ◌*ℤ◌, ltb_ℤ, leb_ℤ, Time, Duration,
  seconds, int64,
}
use league_of_legends.Riot.Limiter.{Window, Counts, RateLimitHeaders}

abbrev pub Bytes : Type 0
Bytes = List ℕ

-- `unicode.IsSpace` of an ASCII byte.
abbrev pub is_space : ℕ → Bool
is_space c = (leb 9 c && leb c 13) || c == 32

unfoldable pub trim_left : Bytes → Bytes
trim_left [] = []
trim_left (c ∷ s) = if is_space c then trim_left s else c ∷ s

unfoldable pub trim_right : Bytes → Bytes
trim_right [] = []
trim_right (c ∷ s) = elim (trim_right s) [
  | [] ↦ (if is_space c then [] else c ∷ [])
  | d ∷ t ↦ c ∷ d ∷ t
]

-- `strings.TrimSpace`.
abbrev pub trim : Bytes → Bytes
trim s = trim_right (trim_left s)

-- `strings.Split`, at one byte.
abbrev pub push : ℕ → List Bytes → List Bytes
push c [] = (c ∷ []) ∷ []
push c (part ∷ parts) = (c ∷ part) ∷ parts

unfoldable pub split : ℕ → Bytes → List Bytes
split sep [] = [] ∷ []
split sep (c ∷ s) = if c == sep then [] ∷ split sep s else push c (split sep s)

-- `strings.Cut`, at one byte.
unfoldable pub cut : ℕ → Bytes → Option (Bytes × Bytes)
cut sep [] = none
cut sep (c ∷ s) =
    if c == sep
    then some ([], s)
    else elim (cut sep s) [ none ↦ none | some (a, b) ↦ some (c ∷ a, b) ]

-- The digits of `strconv.Atoi`.
unfoldable pub scan : Bytes → ℕ → Option ℕ
scan [] n = some n
scan (c ∷ s) n = if leb 48 c && leb c 57 then scan s (n * 10 + (c - 48)) else none

abbrev pub magnitude : Bytes → Option ℕ
magnitude [] = none
magnitude (c ∷ s) = scan (c ∷ s) 0

unfoldable pub atoi_pos : Bytes → Option ℤ
atoi_pos s = elim (magnitude s) [
  | none ↦ none
  | some n ↦ if ltb n (2 ^ 63) then some (pos n) else none
]

unfoldable pub atoi_neg : Bytes → Option ℤ
atoi_neg s = elim (magnitude s) [
  | none ↦ none
  | some zero ↦ some (pos 0)
  | some (suc n) ↦ if ltb n (2 ^ 63) then some (negsuc n) else none
]

-- `strconv.Atoi`: `none` is an error.
unfoldable pub atoi : Bytes → Option ℤ
atoi [] = none
atoi (c ∷ s) = if c == 45 then atoi_neg s else if c == 43 then atoi_pos s else atoi_pos (c ∷ s)

abbrev pub max_window_seconds : ℕ
max_window_seconds = 86_400

-- `headerPeriod`.
unfoldable pub header_period : ℤ → Option Duration
header_period n =
    if leb_ℤ n (pos 0) || ltb_ℤ (pos max_window_seconds) n
    then none
    else some (int64 (n *ℤ pos 1_000_000_000))

-- The second number of a pair.
unfoldable pub period_of : Bytes → Option Duration
period_of s = elim (atoi (trim s)) [ none ↦ none | some n ↦ header_period n ]

-- A window of a limit that is positive.
unfoldable pub window_of : Option ℤ → Option Duration → Option Window
window_of none period = none
window_of (some limit) none = none
window_of (some limit) (some period) =
    if leb_ℤ limit (pos 0) then none else some (record { limit = limit; period = period })

-- One pair of `ParseWindows`, once it is cut.
unfoldable pub read_window : Option (Bytes × Bytes) → Option Window
read_window none = none
read_window (some (limit, period)) = window_of (atoi (trim limit)) (period_of period)

unfoldable pub collect : List Bytes → List Window
collect [] = []
collect (part ∷ parts) = elim (read_window (cut 58 (trim part))) [
  | none ↦ collect parts
  | some w ↦ w ∷ collect parts
]

-- `ParseWindows`.
unfoldable pub parse_windows : Bytes → List Window
parse_windows header = elim (trim header) [ [] ↦ [] | c ∷ s ↦ collect (split 44 header) ]

-- A count that is not negative.
unfoldable pub count_of : Option ℤ → Option Duration → Option (Duration × ℤ)
count_of none period = none
count_of (some count) none = none
count_of (some count) (some period) = if ltb_ℤ count (pos 0) then none else some (period, count)

unfoldable pub read_count : Option (Bytes × Bytes) → Option (Duration × ℤ)
read_count none = none
read_count (some (count, period)) = count_of (atoi (trim count)) (period_of period)

-- The map of `parseCounts`: a later pair of a period stands before an earlier one.
unfoldable pub collect_counts : List Bytes → Counts → Counts
collect_counts [] counts = counts
collect_counts (part ∷ parts) counts =
    collect_counts parts
      (elim (read_count (cut 58 (trim part))) [ none ↦ counts | some c ↦ c ∷ counts ])

-- `parseCounts`.
unfoldable pub parse_counts : Bytes → Counts
parse_counts header = elim (trim header) [ [] ↦ [] | c ∷ s ↦ collect_counts (split 44 header) [] ]

abbrev pub has_any : List Window → Bool
has_any [] = false
has_any (w ∷ ws) = true

-- `readRateLimitHeaders`.
unfoldable pub read_rate_limit_headers : Bytes → Bytes → Bytes → Bytes → RateLimitHeaders
read_rate_limit_headers app app_count method method_count = record {
  has_application = has_any (parse_windows app);
  has_method = has_any (parse_windows method);
  app_limit = parse_windows app;
  app_count = parse_counts app_count;
  method_limit = parse_windows method;
  method_count = parse_counts method_count;
}

-- The HTTP date of `ParseRetryAfter`.
unfoldable pub until : Option Time → Time → Duration
until none now = pos 0
until (some at) now = if ltb_ℤ (pos 0) (at -ℤ now) then at -ℤ now else pos 0

-- `ParseRetryAfter`. `parse_time` is `http.ParseTime`.
unfoldable pub parse_retry_after : (Bytes → Option Time) → Bytes → Time → Duration
parse_retry_after parse_time header now = elim (trim header) [
  | [] ↦ pos 0
  | c ∷ s ↦ elim (atoi (c ∷ s)) [
    | some n ↦ elim (header_period n) [ none ↦ pos 0 | some d ↦ d ]
    | none ↦ until (parse_time (c ∷ s)) now
  ]
]

-- `DevelopmentKeyWindows`.
abbrev pub development_key_windows : List Window
development_key_windows =
    record { limit = pos 20; period = seconds 1 }
    ∷ record { limit = pos 100; period = seconds 120 }
    ∷ []
