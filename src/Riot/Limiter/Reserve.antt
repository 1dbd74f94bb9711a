-- ===== src/Riot/Limiter/Reserve.antt =====
-- internal/riot/limiter.go: `reserve` over all the buckets.
use league_of_legends.Prelude.{
  ◌≡◌, true, List, [], ◌∷◌, ◌++◌, if◌then◌else◌, ℤ, pos, ◌+ℤ◌, ◌≤ℤ◌, ◌<ℤ◌, ltb_ℤ, leb_ℤ, min_ℤ,
  Time, Duration, max_ℤ, if_both, if_cases, map, arith, int_laws,
}
use league_of_legends.Riot.Limiter.{
  Bucket, Limiter, refill, wait_for, longest_wait, wait_of, blocked, reserve, penalize, max_wait,
}

-- The longest wait is at least the one it starts from.
longest_wait-start : (w : Duration) (bs : List Bucket) → w ≤ℤ longest_wait w bs
unfolding longest_wait
longest_wait-start w [] = omega arith
longest_wait-start w (b ∷ bs) =
    let next = if ltb_ℤ w (wait_for b) then wait_for b else w in
    let up : w ≤ℤ next = ground arith in omega (arith, up, longest_wait-start next bs)

blocked-nonneg : (l : Limiter) (now : Time) → pos 0 ≤ℤ blocked l now
unfolding blocked
blocked-nonneg l now =
    if_cases (λ (x : Duration). pos 0 ≤ℤ x) (ltb_ℤ now l.blocked_until)
      (λ e. let lt : now <ℤ l.blocked_until = ground arith in omega (int_laws, lt))
      (λ _. omega arith)

capped :
    (low w m : ℤ)
    → pos 0 ≤ℤ low
    → pos 0 ≤ℤ m
    → low ≤ℤ w
    → (pos 0 ≤ℤ (if ltb_ℤ m w then m else w))
      × ((if ltb_ℤ m w then m else w) ≤ℤ m)
      × (min_ℤ low m ≤ℤ (if ltb_ℤ m w then m else w))
capped low w m a b c = ground arith

wait_of-bounds :
    (l : Limiter) (now : Time)
    → (pos 0 ≤ℤ wait_of l now)
      × (wait_of l now ≤ℤ max_wait)
      × (min_ℤ (blocked l now) max_wait ≤ℤ wait_of l now)
unfolding wait_of
wait_of-bounds l now =
    capped (blocked l now) (longest_wait (blocked l now) (l.app ++ l.method)) max_wait
      (blocked-nonneg l now) (omega arith) (longest_wait-start (blocked l now) (l.app ++ l.method))

-- The limiter at which `reserve` asks how long to wait.
abbrev refilled : Limiter → Time → Limiter
refilled l now = record l { app = map (refill now) l.app; method = map (refill now) l.method }

-- `reserve` never waits longer than 30 minutes, and, up to those, never less than the suspension
-- that is in force.
pub reserve-wait :
    (l : Limiter) (now : Time)
    → (pos 0 ≤ℤ (reserve l now).1)
      × ((reserve l now).1 ≤ℤ max_wait)
      × (min_ℤ (blocked l now) max_wait ≤ℤ (reserve l now).1)
unfolding reserve blocked
reserve-wait l now = wait_of-bounds (refilled l now) now

max_ℤ-fst : (a b : ℤ) → a ≤ℤ max_ℤ a b
max_ℤ-fst a b = ground arith

max_ℤ-snd : (a b c : ℤ) → c ≤ℤ b → c ≤ℤ max_ℤ a b
max_ℤ-snd a b c h = ground arith

below_le : (a b : ℤ) → ltb_ℤ a b ≡ true → a ≤ℤ b
below_le a b h = ground arith

cut_le : (d m : ℤ) → (if ltb_ℤ m d then m else d) ≤ℤ m
cut_le d m = ground arith

-- `Penalize` suspends for no longer than the longest Retry-After, and never shortens a suspension.
pub penalize-bounds :
    (l : Limiter) (d : Duration) (now : Time)
    → (l.blocked_until ≤ℤ (penalize l d now).blocked_until)
      × ((penalize l d now).blocked_until ≤ℤ max_ℤ l.blocked_until (now +ℤ l.max_retry_after))
unfolding penalize
penalize-bounds l d now =
    let P : Limiter → Type 0 = λ x.
      (l.blocked_until ≤ℤ x.blocked_until)
      × (x.blocked_until ≤ℤ max_ℤ l.blocked_until (now +ℤ l.max_retry_after)) in
    let d' = if ltb_ℤ l.max_retry_after d then l.max_retry_after else d in
    let stays : P l = (omega arith, max_ℤ-fst l.blocked_until (now +ℤ l.max_retry_after)) in
    if_both P (leb_ℤ d (pos 0)) stays (
      if_cases P (ltb_ℤ l.blocked_until (now +ℤ d'))
        (λ later. (
          below_le l.blocked_until (now +ℤ d') later,
          max_ℤ-snd l.blocked_until (now +ℤ l.max_retry_after) (now +ℤ d')
              (omega (int_laws, cut_le d l.max_retry_after)),
        ))
        (λ _. stays))
