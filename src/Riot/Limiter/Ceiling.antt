-- ===== src/Riot/Limiter/Ceiling.antt =====
-- internal/riot/limiter.go: `Observe` never loosens the ceiling.
use league_of_legends.Prelude.{
  ◌≤◌, ◌≡◌, refl, sym, ap, ◌∙◌, subst, ◌⊎◌, inl, inr, Bool, true, false, ◌&&◌, ◌||◌, List, [], ◌∷◌,
  Option, none, some, if◌then◌else◌, ℤ, pos, ◌≤ℤ◌, ltb_ℤ, eq_ℤ, eq_ℤ_iff, Time, Duration, In,
  In-map, if_both, if_cases, any, map, arith, In-append_left, In-append_right, Bool-cases, Never,
}
use league_of_legends.Riot.Limiter.{
  Window, Bucket, Limiter, RateLimitHeaders, Counts, to_nat, is_void, new_bucket, refill, resize,
  charge, used_in, clamp_to, clamped, add_windows, resolve, observe,
}

-- A bucket with the period and the limit of a window.
abbrev pub Fits : Window → Bucket → Type 0
Fits w b = (b.limit ≡ to_nat w.limit) × (b.period ≡ to_nat w.period)

refill-period : (at : Time) (b : Bucket) → (refill at b).period ≡ b.period
unfolding refill
refill-period at b = if_both (λ (x : Bucket). x.period ≡ b.period) _ refl refl

resize-Fits : (bs : List Bucket) (w : Window) (now : Time) → Fits w (resize bs w now)
unfolding resize new_bucket
resize-Fits [] w now = (refl, refl)
resize-Fits (b ∷ bs) w now =
    if_cases (Fits w) (eq_ℤ (pos b.period) w.period)
      (λ e. (refl, refill-period now b ∙ ap to_nat ((eq_ℤ_iff (pos b.period) w.period).0 e)))
      (λ _. resize-Fits bs w now)

charge-Fits : (used : Option ℤ) (w : Window) (b : Bucket) → Fits w b → Fits w (charge used w b)
unfolding charge
charge-Fits none w b f = f
charge-Fits (some u) w b f = f

-- Some window of the period `p` has a bucket.
abbrev pub Fitted : Duration → List Window → List Bucket → Type 0
Fitted p ws bs = (w : Window) × In w ws × (w.period ≡ p) × (b : Bucket) × In b bs × Fits w b

Fitted-cons :
    (p : Duration) (w : Window) (ws : List Window) (bs : List Bucket) (b : Bucket)
    → Fitted p ws bs
    → Fitted p (w ∷ ws) (b ∷ bs)
Fitted-cons p w ws bs b (v, m, e, c, k, f) = (v, inr m, e, c, inr k, f)

or_right : {a b : Bool} → a ≡ false → (a || b) ≡ true → b ≡ true
or_right {a} {b} e h = ground arith

clamped_low : (a b : ℤ) (p : Bool) → (p && ltb_ℤ a b) ≡ true → a ≤ℤ b
clamped_low a b p h = ground arith

same_period : (a b : ℤ) (p : Bool) → (eq_ℤ a b && p) ≡ true → a ≡ b
same_period a b p h = ground arith

-- A period that was added before, or that a window of the list brought, has a bucket.
module _ (current : List Bucket) (counts : Counts) (now : Time) where
  new-Fits : (w : Window) → Fits w (charge (used_in counts w.period) w (resize current w now))
  new-Fits w = charge-Fits (used_in counts w.period) w _ (resize-Fits current w now)

  add_windows-added :
      (p : Duration) (ws : List Window) (added : List Duration)
      → any (eq_ℤ p) (add_windows current counts now ws added).1 ≡ true
      → (any (eq_ℤ p) added ≡ true) ⊎ Fitted p ws (add_windows current counts now ws added).0
  unfolding add_windows any
  add_windows-added p [] added = λ h. inl h
  add_windows-added p (w ∷ ws) added =
      if_cases
        (λ (r : List Bucket × List Duration).
          any (eq_ℤ p) r.1 ≡ true → (any (eq_ℤ p) added ≡ true) ⊎ Fitted p (w ∷ ws) r.0)
        (is_void w || any (eq_ℤ w.period) added)
        (λ _ h. elim (add_windows-added p ws added h) [
          | inl k ↦ inl k
          | inr (v, m, e, b, k, f) ↦ inr (v, inr m, e, b, k, f)
        ])
        (λ _ h. elim (add_windows-added p ws (w.period ∷ added) h) [
          | inl k ↦ elim (Bool-cases (eq_ℤ p w.period)) [
            | inl e ↦ inr (w, inl refl, sym ((eq_ℤ_iff p w.period).0 e), _, inl refl, new-Fits w)
            | inr f ↦ inl (subst (λ b. (if b then true else any (eq_ℤ p) added) ≡ true) f k)
          ]
          | inr r ↦ inr (Fitted-cons p w ws _ _ r)
        ])

  -- A window of the list that is not void has a bucket, unless its period was added before.
  add_windows-covers :
      (c : Window) (ws : List Window) (added : List Duration)
      → is_void c ≡ false
      → In c ws
      → (any (eq_ℤ c.period) added ≡ true)
        ⊎ Fitted c.period ws (add_windows current counts now ws added).0
  unfolding add_windows any
  add_windows-covers c [] added v m = elim m [ ]
  add_windows-covers c (w ∷ ws) added v m =
      if_cases
        (λ (r : List Bucket × List Duration).
          (any (eq_ℤ c.period) added ≡ true) ⊎ Fitted c.period (w ∷ ws) r.0)
        (is_void w || any (eq_ℤ w.period) added)
        (λ skip. elim m [
          | inl e ↦ inl (
              subst (λ x. any (eq_ℤ x.period) added ≡ true) (sym e)
                (or_right (subst (λ x. is_void x ≡ false) e v) skip))
          | inr k ↦ elim (add_windows-covers c ws added v k) [
            | inl h ↦ inl h
            | inr (u, n, e, b, k, f) ↦ inr (u, inr n, e, b, k, f)
          ]
        ])
        (λ _. elim m [
          | inl e ↦ inr (w, inl refl, ap (λ x. x.period) (sym e), _, inl refl, new-Fits w)
          | inr k ↦ elim (add_windows-covers c ws (w.period ∷ added) v k) [
            | inl h ↦ elim (Bool-cases (eq_ℤ c.period w.period)) [
              | inl e ↦
                  inr (w, inl refl, sym ((eq_ℤ_iff c.period w.period).0 e), _, inl refl, new-Fits w)
              | inr f ↦
                  inl (subst (λ b. (if b then true else any (eq_ℤ c.period) added) ≡ true) f h)
            ]
            | inr r ↦ inr (Fitted-cons c.period w ws _ _ r)
          ]
        ])

clamp_to-le : (w : Window) (cs : List Window) → clamp_to w cs ≤ℤ w.limit
unfolding clamp_to
clamp_to-le w [] = omega arith
clamp_to-le w (c ∷ cs) =
    if_cases (λ x. x ≤ℤ w.limit) (eq_ℤ c.period w.period && ltb_ℤ c.limit w.limit)
      (λ h. clamped_low c.limit w.limit (eq_ℤ c.period w.period) h) (λ _. clamp_to-le w cs)

-- Windows of one period agree on the limit.
abbrev pub Agree : List Window → Type 0
Agree ws = (w c : Window) → In w ws → In c ws → w.period ≡ c.period → w.limit ≡ c.limit

below : (a b x : ℤ) (p : Bool) → p ≡ true → (p && ltb_ℤ b a) ≡ false → x ≤ℤ a → x ≤ℤ b
below a b x p e h l = ground arith

not_above :
    (w c d : Window) (ds : List Window)
    → c ≡ d
    → w.period ≡ c.period
    → (eq_ℤ d.period w.period && ltb_ℤ d.limit w.limit) ≡ false
    → clamp_to w ds ≤ℤ c.limit
not_above w c d ds i e h =
    let low = clamp_to-le w ds in
    let same = (eq_ℤ_iff d.period w.period).1 (sym (e ∙ ap (λ x. x.period) i)) in
    subst (λ x. clamp_to w ds ≤ℤ x) (sym (ap (λ x. x.limit) i))
      (below w.limit d.limit _ _ same h low)

clamp_to-ceiling :
    (w c : Window) (cs : List Window)
    → ((d : Window) → In d cs → d.period ≡ c.period → d.limit ≡ c.limit)
    → In c cs
    → w.period ≡ c.period
    → clamp_to w cs ≤ℤ c.limit
unfolding clamp_to
clamp_to-ceiling w c [] a m e = elim m [ ]
clamp_to-ceiling w c (d ∷ ds) a m e =
    if_cases (λ x. x ≤ℤ c.limit) (eq_ℤ d.period w.period && ltb_ℤ d.limit w.limit)
      (λ h.
        subst (λ x. x ≤ℤ c.limit) (sym (a d (inl refl) (same_period d.period w.period _ h ∙ e)))
          (omega arith))
      (λ h. elim m [
        | inl i ↦ not_above w c d ds i e h
        | inr k ↦ clamp_to-ceiling w c ds (λ x n. a x (inr n)) k e
      ])

any_nil : (p : Duration) → any (eq_ℤ p) [] ≡ true → Never {0}
unfolding any
any_nil p h = ground arith

to_nat-le : (a b : ℤ) → a ≤ℤ b → to_nat a ≤ to_nat b
to_nat-le a b h = ground arith

-- If windows of one period agree on the limit in the ceiling, then after a response with limits for
-- the application every ceiling window with a positive limit and period has a bucket of its period
-- with at most its limit.
pub observe-ceiling :
    (l : Limiter) (h : RateLimitHeaders) (now : Time) (c : Window)
    → Agree l.ceiling
    → h.has_application ≡ true
    → In c l.ceiling
    → is_void c ≡ false
    → (b : Bucket) × In b (observe l h now).app
      × (b.period ≡ to_nat c.period)
      × (b.limit ≤ to_nat c.limit)
unfolding observe resolve
observe-ceiling l h now c agree has m v =
    let first = add_windows l.app h.app_count now (map (clamped l.ceiling) h.app_limit) [] in
    let rest = add_windows l.app h.app_count now l.ceiling first.1 in
    rw has (elim (add_windows-covers l.app h.app_count now c l.ceiling first.1 v m) [
      | inr (w, n, e, b, k, f) ↦ (
        b,
        In-append_right b first.0 rest.0 k,
        f.1 ∙ ap to_nat e,
        subst (λ x. x ≤ to_nat c.limit) (sym (f.0 ∙ ap to_nat (agree w c n m e))) (omega arith),
      )
      | inl before ↦ elim (add_windows-added l.app h.app_count now c.period _ [] before) [
        | inl none_added ↦ elim (any_nil c.period none_added) [ ]
        | inr (w, n, e, b, k, f) ↦
            let (w0, n0, i) = In-map (clamped l.ceiling) w h.app_limit n in
            (
              b,
              In-append_left b first.0 rest.0 k,
              f.1 ∙ ap to_nat e,
              subst (λ x. x ≤ to_nat c.limit) (sym (f.0 ∙ ap (λ x. to_nat x.limit) i))
                  (to_nat-le (clamp_to w0 l.ceiling) c.limit (
                    clamp_to-ceiling w0 c l.ceiling (λ d q r. agree d c q m r) m
                      (ap (λ x. x.period) (sym i) ∙ e))),
            )
      ]
    ])
