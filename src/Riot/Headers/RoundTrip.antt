-- ===== src/Riot/Headers/RoundTrip.antt =====
-- internal/riot/headers.go: the windows that are printed in a header are read back from it.
use league_of_legends.Prelude.{
  ℕ, ◌^◌, ◌≤◌, ◌<◌, ◌≡◌, refl, ap, ◌∙◌, ◌||◌, List, [], ◌∷◌, ◌++◌, Option, none, some, All, map,
  if_cases, ℤ, pos, leb_ℤ, ltb_ℤ, Duration, seconds, arith, Never,
}
use league_of_legends.Riot.Limiter.{Window}
use league_of_legends.Riot.Headers.{
  Bytes, trim_left, trim_right, trim, split, cut, atoi, header_period, period_of, window_of,
  read_window, collect, parse_windows,
}
use league_of_legends.Riot.Headers.Sound.{period_seconds}
use league_of_legends.Riot.Headers.Text.{
  decimal, IsDigit, IsPlain, IsSolid, All-digits-IsDigit, decimal_cons, atoi-decimal, trim-IsSolid,
  All-append, All-weaken, cut-append, split-last, split-append,
}

-- A window as it is advertised: a limit, and a period in seconds.
pub record Advertised : Type 0 where
  pub limit : ℕ
  pub period : ℕ

-- A limit that an int holds, and a period of at most a day, both positive.
pub record IsRegular (a : Advertised) : Type 0 where
  pub limit_pos : 0 < a.limit
  pub limit_fits : a.limit < 2 ^ 63
  pub period_pos : 0 < a.period
  pub period_day : a.period ≤ 86_400

abbrev pub window : Advertised → Window
window a = record { limit = pos a.limit; period = seconds a.period }

-- `limit:seconds`.
abbrev pub print : Advertised → Bytes
print a = decimal a.limit ++ 58 ∷ decimal a.period

-- The pairs, with a comma between them.
abbrev pub print_windows : List Advertised → Bytes
print_windows [] = []
print_windows (a ∷ []) = print a
print_windows (a ∷ b ∷ rest) = print a ++ 44 ∷ print_windows (b ∷ rest)

decimal-All-IsDigit : (n : ℕ) → All IsDigit (decimal n)
decimal-All-IsDigit n = All-digits-IsDigit n n [] tt

digit-IsPlain : (c : ℕ) → IsDigit c → IsPlain c
digit-IsPlain c h = omega (arith, h)

plain-IsSolid : (c : ℕ) → IsPlain c → IsSolid c
plain-IsSolid c h = ground (arith, h)

print-IsPlain : (a : Advertised) → All IsPlain (print a)
print-IsPlain a =
    All-append IsPlain (decimal a.limit) (58 ∷ decimal a.period)
      (All-weaken IsDigit IsPlain (decimal a.limit) digit-IsPlain (decimal-All-IsDigit a.limit))
      (
        (omega arith, omega arith),
        All-weaken IsDigit IsPlain (decimal a.period) digit-IsPlain (decimal-All-IsDigit a.period),
      )

print-IsSolid : (a : Advertised) → All IsSolid (print a)
print-IsSolid a = All-weaken IsPlain IsSolid (print a) plain-IsSolid (print-IsPlain a)

print_windows-IsSolid : (ads : List Advertised) → All IsSolid (print_windows ads)
print_windows-IsSolid [] = tt
print_windows-IsSolid (a ∷ []) = print-IsSolid a
print_windows-IsSolid (a ∷ b ∷ rest) =
    All-append IsSolid (print a) (44 ∷ print_windows (b ∷ rest)) (print-IsSolid a)
      (refl, print_windows-IsSolid (b ∷ rest))

trim-decimal : (n : ℕ) → trim (decimal n) ≡ decimal n
trim-decimal n = trim-IsSolid (decimal n) (
    All-weaken IsDigit IsSolid (decimal n) (λ c h. plain-IsSolid c (digit-IsPlain c h))
      (decimal-All-IsDigit n))

header_period-day : (n : ℕ) → 0 < n → n ≤ 86_400 → header_period (pos n) ≡ some (seconds n)
unfolding header_period
header_period-day n l h =
    if_cases (λ (x : Option Duration). x ≡ some (seconds n))
      (leb_ℤ (pos n) (pos 0) || ltb_ℤ (pos 86_400) (pos n))
      (λ t. let never : Never {0} = ground (arith, t, l, h) in elim never [ ])
      (λ f. ap some (period_seconds n l h))

period_of-decimal : (n : ℕ) → 0 < n → n ≤ 86_400 → period_of (decimal n) ≡ some (seconds n)
unfolding period_of
period_of-decimal n l h =
    ap (λ (x : Option ℤ). elim x [ none ↦ none | some m ↦ header_period m ])
      (ap atoi (trim-decimal n) ∙ atoi-decimal n l (omega (arith, h)))
    ∙ header_period-day n l h

window_of-regular :
    (a : Advertised)
    → 0 < a.limit
    → window_of (some (pos a.limit)) (some (seconds a.period)) ≡ some (window a)
unfolding window_of
window_of-regular a h =
    if_cases (λ (x : Option Window). x ≡ some (window a)) (leb_ℤ (pos a.limit) (pos 0))
      (λ t. let never : Never {0} = ground (arith, t, h) in elim never [ ]) (λ f. refl)

read_window-print :
    (a : Advertised) → IsRegular a → read_window (cut 58 (trim (print a))) ≡ some (window a)
unfolding read_window
read_window-print a h =
    ap (λ s. read_window (cut 58 s)) (trim-IsSolid (print a) (print-IsSolid a))
    ∙ ap read_window (cut-append (decimal a.limit) (decimal a.period) (decimal-All-IsDigit a.limit))
    ∙ ap (λ x. window_of x (period_of (decimal a.period)))
        (ap atoi (trim-decimal a.limit) ∙ atoi-decimal a.limit h.limit_pos h.limit_fits)
    ∙ ap (window_of (some (pos a.limit))) (period_of-decimal a.period h.period_pos h.period_day)
    ∙ window_of-regular a h.limit_pos

collect-print :
    (a : Advertised) (parts : List Bytes)
    → IsRegular a
    → collect (print a ∷ parts) ≡ window a ∷ collect parts
unfolding collect
collect-print a parts h =
    ap (λ (x : Option Window). elim x [ none ↦ collect parts | some w ↦ w ∷ collect parts ])
      (read_window-print a h)

collect_nil : collect [] ≡ []
unfolding collect
collect_nil = refl

collect-split :
    (a : Advertised) (rest : List Advertised)
    → All IsRegular (a ∷ rest)
    → collect (split 44 (print_windows (a ∷ rest))) ≡ map window (a ∷ rest)
collect-split a [] h =
    ap collect (split-last (print a) (print-IsPlain a))
    ∙ collect-print a [] h.0
    ∙ ap (λ ws. window a ∷ ws) collect_nil
collect-split a (b ∷ rest) h =
    ap collect (split-append (print a) (print_windows (b ∷ rest)) (print-IsPlain a))
    ∙ collect-print a (split 44 (print_windows (b ∷ rest))) h.0
    ∙ ap (λ ws. window a ∷ ws) (collect-split b rest h.1)

print_cons :
    (a : Advertised) (rest : List Advertised)
    → 0 < a.limit
    → (c : ℕ) × (s : Bytes) × (print_windows (a ∷ rest) ≡ c ∷ s)
print_cons a [] h =
    let (c, s, e) = decimal_cons a.limit h in
    (c, s ++ 58 ∷ decimal a.period, ap (λ x. x ++ 58 ∷ decimal a.period) e)
print_cons a (b ∷ rest) h =
    let (c, s, e) = decimal_cons a.limit h in
    let tail = 44 ∷ print_windows (b ∷ rest) in
    (c, (s ++ 58 ∷ decimal a.period) ++ tail, ap (λ x. (x ++ 58 ∷ decimal a.period) ++ tail) e)

parse_solid :
    (header : Bytes) (c : ℕ) (s : Bytes)
    → trim header ≡ c ∷ s
    → parse_windows header ≡ collect (split 44 header)
unfolding parse_windows
parse_solid header c s e =
    ap (λ (x : Bytes). elim x [ [] ↦ [] | d ∷ t ↦ collect (split 44 header) ]) e

parse_nil : parse_windows [] ≡ []
unfolding parse_windows trim_right trim_left
parse_nil = refl

-- Windows with a positive limit that an int holds and a positive period of at most a day, printed as
-- `limit:seconds` pairs with commas between them, are read back just as they are, in their order.
pub parse_windows-print :
    (ads : List Advertised) → All IsRegular ads → parse_windows (print_windows ads) ≡ map window ads
parse_windows-print [] h = parse_nil
parse_windows-print (a ∷ rest) h =
    let (c, s, e) = print_cons a rest h.0.limit_pos in
    parse_solid (print_windows (a ∷ rest)) c s
      (trim-IsSolid (print_windows (a ∷ rest)) (print_windows-IsSolid (a ∷ rest)) ∙ e)
    ∙ collect-split a rest h
