-- ===== src/Riot/Limiter.antt =====
-- internal/riot/limiter.go: the token buckets. `tokens` is a float64 in Go; here it is exact and
-- scaled by the bucket's period in nanoseconds: `credit` is `tokens * period`.
mod Examples
pub mod Ceiling
pub mod Pace
pub mod Reserve
use league_of_legends.Prelude.{
  ℕ, ◌+◌, ◌-◌, ◌*◌, ◌/◌, Bool, true, false, ◌&&◌, ◌||◌, not, List, [], ◌∷◌, ◌++◌, Option, none,
  some, if◌then◌else◌, ℤ, pos, negsuc, ◌+ℤ◌, ◌-ℤ◌, ◌*ℤ◌, ltb_ℤ, leb_ℤ, min_ℤ, max_ℤ, Time, Duration,
  seconds, zero_time, map, any, eq_ℤ,
}

-- `Window`: so many calls in each period.
pub record Window : Type 0 where
  pub limit : ℤ
  pub period : Duration

-- `bucket`. Only a window with a positive limit and period gets one.
pub record Bucket : Type 0 where
  pub limit : ℕ
  pub period : ℕ
  pub credit : ℤ
  pub last_set : Time

abbrev pub full : Bucket → ℕ
full b = b.limit * b.period

abbrev pub to_nat : ℤ → ℕ
to_nat (pos n) = n
to_nat (negsuc n) = 0

unfoldable pub new_bucket : Window → Time → Bucket
new_bucket w now = record {
  limit = to_nat w.limit;
  period = to_nat w.period;
  credit = pos (to_nat w.limit * to_nat w.period);
  last_set = now;
}

-- A window that every loop passes over.
abbrev pub is_void : Window → Bool
is_void w = leb_ℤ w.limit (pos 0) || leb_ℤ w.period (pos 0)

unfoldable pub new_buckets : List Window → Time → List Bucket
new_buckets [] now = []
new_buckets (w ∷ ws) now =
    if is_void w then new_buckets ws now else new_bucket w now ∷ new_buckets ws now

unfoldable pub refill : Time → Bucket → Bucket
refill at b =
    let elapsed = at -ℤ b.last_set in
    if leb_ℤ elapsed (pos 0) then b else record b {
      last_set = at;
      credit = min_ℤ (pos (full b)) (b.credit +ℤ elapsed *ℤ pos b.limit);
    }

-- `math.Ceil` of a quotient of a positive number.
abbrev pub ceil_div : ℤ → ℕ → ℕ
ceil_div (pos n) d = (n + (d - 1)) / d
ceil_div (negsuc n) d = 0

unfoldable pub wait_for : Bucket → Duration
wait_for b =
    if leb_ℤ (pos b.period) b.credit
    then pos 0
    else pos (ceil_div (pos b.period -ℤ b.credit) b.limit)

pub record Limiter : Type 0 where
  pub ceiling : List Window
  pub max_retry_after : Duration
  pub app : List Bucket
  pub method : List Bucket
  pub blocked_until : Time
  pub advertised : Bool

abbrev pub max_wait : Duration
max_wait = seconds 1800

abbrev pub default_max_retry_after : Duration
default_max_retry_after = seconds 300

abbrev pub or_windows : List Window → List Window → List Window
or_windows [] fallback = fallback
or_windows (w ∷ ws) fallback = w ∷ ws

-- `NewLimiter`. `development` are the windows of a development key.
unfoldable pub new_limiter : List Window → List Window → List Window → Duration → Time → Limiter
new_limiter development ceiling bootstrap max_retry_after now =
    let ceiling' = or_windows ceiling development in
    record {
      ceiling = ceiling';
      max_retry_after =
          if leb_ℤ max_retry_after (pos 0) then default_max_retry_after else max_retry_after;
      app = new_buckets (or_windows bootstrap ceiling') now;
      method = [];
      blocked_until = zero_time;
      advertised = false;
    }

-- `Blocked`.
unfoldable pub blocked : Limiter → Time → Duration
blocked l now = if ltb_ℤ now l.blocked_until then l.blocked_until -ℤ now else pos 0

-- The first loop of `reserve`.
unfoldable pub longest_wait : Duration → List Bucket → Duration
longest_wait wait [] = wait
longest_wait wait (b ∷ bs) = longest_wait (if ltb_ℤ wait (wait_for b) then wait_for b else wait) bs

-- The second loop of `reserve`, at one bucket.
unfoldable pub debit : Time → Bucket → Bucket
debit at b =
    let b' = refill at b in
    record b' { credit = max_ℤ (b'.credit -ℤ pos b'.period) (pos 0 -ℤ pos (full b')) }

-- How long `reserve` says to wait, once the buckets are refilled.
unfoldable pub wait_of : Limiter → Time → Duration
wait_of l now =
    let wait = longest_wait (blocked l now) (l.app ++ l.method) in
    if ltb_ℤ max_wait wait then max_wait else wait

-- `reserve`.
unfoldable pub reserve : Limiter → Time → Limiter × Duration
reserve l now =
    let l' = record l { app = map (refill now) l.app; method = map (refill now) l.method } in
    let wait = wait_of l' now in
    (
      record l' {
        app = map (debit (now +ℤ wait)) l'.app;
        method = map (debit (now +ℤ wait)) l'.method;
      },
      wait,
    )

-- `clampTo`: the limit that a ceiling window of the same period leaves.
unfoldable pub clamp_to : Window → List Window → ℤ
clamp_to w [] = w.limit
clamp_to w (c ∷ cs) =
    if eq_ℤ c.period w.period && ltb_ℤ c.limit w.limit then c.limit else clamp_to w cs

-- `resize`: the bucket of the window's period keeps its tokens, up to the new limit.
unfoldable pub resize : List Bucket → Window → Time → Bucket
resize [] w now = new_bucket w now
resize (b ∷ bs) w now =
    let b' = refill now b in
    let limit' = to_nat w.limit in
    if eq_ℤ (pos b.period) w.period
    then record b' { limit = limit'; credit = min_ℤ b'.credit (pos (limit' * b'.period)) }
    else resize bs w now

-- The used calls that a header counts, by period.
abbrev pub Counts : Type 0
Counts = List (Duration × ℤ)

unfoldable pub used_in : Counts → Duration → Option ℤ
used_in [] period = none
used_in ((p, used) ∷ cs) period = if eq_ℤ p period then some used else used_in cs period

-- The tokens that the header's count leaves.
unfoldable pub charge : Option ℤ → Window → Bucket → Bucket
charge none w b = b
charge (some used) w b =
    let observed = max_ℤ ((w.limit -ℤ used) *ℤ pos b.period) (pos 0 -ℤ pos (full b)) in
    record b { credit = min_ℤ b.credit observed }

-- `add` of `resolve` over a list of windows; `added` are the periods that have a bucket.
unfoldable pub add_windows :
    List Bucket → Counts → Time → List Window → List Duration → List Bucket × List Duration
add_windows current counts now [] added = ([], added)
add_windows current counts now (w ∷ ws) added =
    let skipped = add_windows current counts now ws added in
    let (bs, added') = add_windows current counts now ws (w.period ∷ added) in
    if is_void w || any (eq_ℤ w.period) added
    then skipped
    else (charge (used_in counts w.period) w (resize current w now) ∷ bs, added')

abbrev pub clamped : List Window → Window → Window
clamped ceiling w = record w { limit = clamp_to w ceiling }

-- `resolve`: what is advertised, clamped, and then every ceiling window that is left.
unfoldable pub resolve : List Window → List Bucket → List Window → Counts → Time → List Bucket
resolve ceiling current advertised counts now =
    let (bs, added) = add_windows current counts now (map (clamped ceiling) advertised) [] in
    bs ++ (add_windows current counts now ceiling added).0

-- `rateLimitHeaders`.
pub record RateLimitHeaders : Type 0 where
  pub has_application : Bool
  pub has_method : Bool
  pub app_limit : List Window
  pub app_count : Counts
  pub method_limit : List Window
  pub method_count : Counts

-- `Observe`.
unfoldable pub observe : Limiter → RateLimitHeaders → Time → Limiter
observe l h now = record l {
  app = if h.has_application then resolve l.ceiling l.app h.app_limit h.app_count now else l.app;
  method =
      if h.has_method
      then resolve l.ceiling l.method h.method_limit h.method_count now
      else l.method;
  advertised = if h.has_application || h.has_method then true else l.advertised;
}

-- `Penalize`.
unfoldable pub penalize : Limiter → Duration → Time → Limiter
penalize l d now =
    let d' = if ltb_ℤ l.max_retry_after d then l.max_retry_after else d in
    if leb_ℤ d (pos 0)
    then l
    else if ltb_ℤ l.blocked_until (now +ℤ d')
    then record l { blocked_until = now +ℤ d' }
    else l
