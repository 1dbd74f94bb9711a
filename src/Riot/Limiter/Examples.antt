-- ===== src/Riot/Limiter/Examples.antt =====
-- internal/riot/limiter.go: the limiter of one call each second, and the theorems about it there.
use league_of_legends.Prelude.{
  ◌≤◌, ◌≡◌, refl, sym, ap, ◌∙◌, inl, inr, true, false, [], ◌∷◌, pos, ◌+ℤ◌, ◌-ℤ◌, ◌*ℤ◌, ◌≤ℤ◌, min_ℤ,
  max_ℤ, Time, Duration, In, seconds, zero_time, arith,
}
use league_of_legends.Riot.Limiter.{
  Window, Bucket, Limiter, RateLimitHeaders, to_nat, new_bucket, new_buckets, new_limiter, refill,
  wait_for, longest_wait, debit, wait_of, blocked, reserve, observe, penalize, max_wait,
}
use league_of_legends.Riot.Limiter.Pace.{IsFair}
use league_of_legends.Riot.Limiter.Ceiling.{Agree, observe-ceiling}
use league_of_legends.Riot.Limiter.Reserve.{reserve-wait, penalize-bounds}

abbrev each_second : Window
each_second = record { limit = pos 1; period = seconds 1 }

abbrev start : Time
start = seconds 1000

abbrev bucket : Bucket
bucket = record { limit = 1; period = 1_000_000_000; credit = pos 1_000_000_000; last_set = start }

abbrev limiter : Limiter
limiter = record {
  ceiling = each_second ∷ [];
  max_retry_after = seconds 300;
  app = bucket ∷ [];
  method = [];
  blocked_until = zero_time;
  advertised = false;
}

made : new_limiter [] (each_second ∷ []) [] (pos 0) start ≡ limiter
unfolding new_limiter new_buckets new_bucket
made = refl

-- Three calls at one instant: the second and the third are told to wait the same second.
abbrev calls : Duration × Duration × Duration
calls =
    let (l, first) = reserve limiter start in
    let (l', second) = reserve l start in
    let (l'', third) = reserve l' start in (first, second, third)

shares_a_token : calls ≡ (pos 0, seconds 1, seconds 1)
unfolding reserve wait_of longest_wait wait_for blocked refill debit ◌+ℤ◌ ◌-ℤ◌ ◌*ℤ◌
shares_a_token = refl

bucket-IsFair : IsFair bucket
bucket-IsFair = record {
  limit_pos = omega arith;
  period_pos = omega arith;
  at_most_full = omega arith;
}

reserve-wait_example :
    (pos 0 ≤ℤ (reserve limiter start).1)
    × ((reserve limiter start).1 ≤ℤ max_wait)
    × (min_ℤ (blocked limiter start) max_wait ≤ℤ (reserve limiter start).1)
reserve-wait_example = reserve-wait limiter start

penalize-bounds_example :
    (limiter.blocked_until ≤ℤ (penalize limiter (seconds 600) start).blocked_until)
    × ((penalize limiter (seconds 600) start).blocked_until
        ≤ℤ max_ℤ limiter.blocked_until (start +ℤ limiter.max_retry_after))
penalize-bounds_example = penalize-bounds limiter (seconds 600) start

-- Ten calls each second are advertised, and a window that the ceiling does not have.
abbrev headers : RateLimitHeaders
headers = record {
  has_application = true;
  has_method = false;
  app_limit =
      record { limit = pos 10; period = seconds 1 }
      ∷ record { limit = pos 500; period = seconds 600 }
      ∷ [];
  app_count = (seconds 1, pos 1) ∷ [];
  method_limit = [];
  method_count = [];
}

limiter-Agree : Agree limiter.ceiling
limiter-Agree w c (inl e) (inl f) p = ap (λ x. x.limit) e ∙ sym (ap (λ x. x.limit) f)
limiter-Agree w c (inl e) (inr f) p = elim f [ ]
limiter-Agree w c (inr e) f p = elim e [ ]

observe-ceiling_example :
    (b : Bucket) × In b (observe limiter headers start).app
    × (b.period ≡ to_nat each_second.period)
    × (b.limit ≤ to_nat each_second.limit)
observe-ceiling_example =
    observe-ceiling limiter headers start each_second limiter-Agree refl (inl refl) refl
