-- ===== src/Riot/Limiter/Pace.antt =====
-- internal/riot/limiter.go: what `reserve` hands out has been paid for.
use native.Mathlib.Nat.{mod-lt, div-add-mod', mul-le-mul_right}
use league_of_legends.Prelude.{
  ℕ, zero, suc, ◌+◌, ◌-◌, ◌*◌, ◌/◌, ◌≤◌, ◌≡◌, refl, sym, ap, ◌∙◌, subst, true, false, ℤ, pos,
  negsuc, ◌+ℤ◌, ◌-ℤ◌, ◌*ℤ◌, ◌≤ℤ◌, ltb_ℤ, leb_ℤ, min_ℤ, max_ℤ, Time, Duration, if_both, if_cases,
  Never, arith, int_laws,
}
use league_of_legends.Riot.Limiter.{Bucket, full, refill, ceil_div, wait_for, debit}

ceil_div-covers : (n d : ℕ) → 1 ≤ d → n ≤ (n + (d - 1)) / d * d
ceil_div-covers n d h = omega (arith, div-add-mod' (n + (d - 1)) d, mod-lt (n + (d - 1)) h)

-- A bucket that can pay for a call.
pub record IsFair (b : Bucket) : Type 0 where
  pub limit_pos : 1 ≤ b.limit
  pub period_pos : 1 ≤ b.period
  pub at_most_full : b.credit ≤ℤ pos (full b)

pos-mul : (a b : ℕ) → pos a *ℤ pos b ≡ pos (a * b)
unfolding ◌*ℤ◌
pos-mul a b = ground arith

positive : (t : ℕ) → 1 ≤ t → leb_ℤ (pos t) (pos 0) ≡ true → Never {0}
positive t h e = ground arith

not_zero : leb_ℤ (pos 0) (pos 0) ≡ false → Never {0}
not_zero e = ground arith

-- The tokens grow at the limit's pace, up to the limit.
refill-credit :
    (b : Bucket) (t : ℕ)
    → 1 ≤ t
    → (refill (b.last_set +ℤ pos t) b).credit ≡ min_ℤ (pos (full b)) (b.credit +ℤ pos (t * b.limit))
unfolding refill
refill-credit b t h =
    let e : (b.last_set +ℤ pos t) -ℤ b.last_set ≡ pos t = omega int_laws in
    if_cases (λ (x : Bucket). x.credit ≡ min_ℤ (pos (full b)) (b.credit +ℤ pos (t * b.limit)))
      (leb_ℤ ((b.last_set +ℤ pos t) -ℤ b.last_set) (pos 0))
      (λ never. elim (positive t h (subst (λ x. leb_ℤ x (pos 0) ≡ true) e never)) [ ])
      (λ _.
        ap (λ x. min_ℤ (pos (full b)) (b.credit +ℤ x))
          (ap (λ x. x *ℤ pos b.limit) e ∙ pos-mul t b.limit))

ceil_div-le : (x : ℤ) (limit t : ℕ) → 1 ≤ limit → ceil_div x limit ≤ t → x ≤ℤ pos (t * limit)
ceil_div-le (pos n) limit t l h = omega (arith, ceil_div-covers n limit l, mul-le-mul_right limit h)
ceil_div-le (negsuc n) limit t l h = omega arith

-- A wait of at least `waitFor` brings a token.
token_there :
    (limit period t : ℕ) (credit : ℤ)
    → 1 ≤ limit
    → ceil_div (pos period -ℤ credit) limit ≤ t
    → pos period ≤ℤ credit +ℤ pos (t * limit)
token_there limit period t credit l h =
    omega (int_laws, ceil_div-le (pos period -ℤ credit) limit t l h)

-- After the wait there is a token, counted up to the limit.
wait_for-enough :
    (b : Bucket) (t : ℕ)
    → IsFair b
    → wait_for b ≤ℤ pos t
    → pos b.period ≤ℤ b.credit +ℤ pos (t * b.limit)
unfolding wait_for
wait_for-enough b t f =
    if_cases (λ (x : Duration). x ≤ℤ pos t → pos b.period ≤ℤ b.credit +ℤ pos (t * b.limit))
      (leb_ℤ (pos b.period) b.credit)
      (λ has _. let le : pos b.period ≤ℤ b.credit = ground arith in omega (int_laws, le))
      (λ _ h. token_there b.limit b.period t b.credit f.limit_pos (omega (arith, h)))

refill-same : (b : Bucket) → refill (b.last_set +ℤ pos 0) b ≡ b
unfolding refill
refill-same b =
    let e : (b.last_set +ℤ pos 0) -ℤ b.last_set ≡ pos 0 = omega int_laws in
    if_cases (λ (x : Bucket). x ≡ b) (leb_ℤ ((b.last_set +ℤ pos 0) -ℤ b.last_set) (pos 0))
      (λ _. refl) (λ never. elim (not_zero (subst (λ x. leb_ℤ x (pos 0) ≡ false) e never)) [ ])

min_ℤ-le : (a b c : ℤ) → c ≤ℤ a → c ≤ℤ b → c ≤ℤ min_ℤ a b
min_ℤ-le a b c ca cb = if_both (λ (x : ℤ). c ≤ℤ x) (ltb_ℤ b a) cb ca

refill-enough :
    (b : Bucket) (t : ℕ)
    → IsFair b
    → wait_for b ≤ℤ pos t
    → pos b.period ≤ℤ (refill (b.last_set +ℤ pos t) b).credit
refill-enough b zero f h =
    subst (λ (x : Bucket). pos b.period ≤ℤ x.credit) (sym (refill-same b))
      (omega (int_laws, wait_for-enough b 0 f h))
refill-enough b (suc t) f h =
    subst (λ (x : ℤ). pos b.period ≤ℤ x) (sym (refill-credit b (suc t) (omega arith)))
      (min_ℤ-le (pos (full b)) _ (pos b.period)
        (omega (arith, mul-le-mul_right b.period f.limit_pos)) (wait_for-enough b (suc t) f h))

refill-period : (at : Time) (b : Bucket) → (refill at b).period ≡ b.period
unfolding refill
refill-period at b = if_both (λ (x : Bucket). x.period ≡ b.period) _ refl refl

max_ℤ-left : (a b c : ℤ) → c ≤ℤ a → c ≤ℤ max_ℤ a b
max_ℤ-left a b c h = ground arith

-- If a bucket was last refilled when the call is made, and the call waits as long as the bucket
-- asks, the debit leaves it without debt.
pub debit-paid :
    (b : Bucket) (t : ℕ)
    → IsFair b
    → wait_for b ≤ℤ pos t
    → pos 0 ≤ℤ (debit (b.last_set +ℤ pos t) b).credit
unfolding debit
debit-paid b t f h =
    let b' = refill (b.last_set +ℤ pos t) b in
    max_ℤ-left (b'.credit -ℤ pos b'.period) (pos 0 -ℤ pos (full b')) (pos 0)
      (omega (int_laws, refill-enough b t f h, refill-period (b.last_set +ℤ pos t) b))
