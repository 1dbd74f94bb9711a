-- ===== src/Store/Frontier/Held.antt =====
-- internal/store/frontier.go: what stays true of a player under the statements of the table, but for a
-- prune.
use league_of_legends.Prelude.{
  ◌≡◌, refl, sym, ap, ◌∙◌, subst, ◌⊎◌, inl, inr, Bool, true, List, [], ◌∷◌, ◌++◌, if◌then◌else◌,
  Time, In, any, String, str_eq, if_cases, if_both, true_false, arith,
}
use league_of_legends.Store.Frontier.{
  FrontierEntry, Player, Frontier, is_player, update_players, dedupe_frontier, new_player,
  rediscover, upsert_player, upsert_each, upsert_frontier,
}

-- A row of the player is there, and every row of the player has `P`.
pub record Held (puuid : String) (P : Player → Type 0) (rows : Frontier) : Type 0 where
  pub there : any (is_player puuid) rows ≡ true
  pub each : (r : Player) → In r rows → r.puuid ≡ puuid → P r

-- Updates keep the player's name.
abbrev pub Keeps : (Player → Player) → Type 0
Keeps f = (r : Player) → (f r).puuid ≡ r.puuid

In-update_players :
    (p : Player → Bool) (f : Player → Player) (x : Player) (rows : Frontier)
    → In x (update_players p f rows)
    → (r : Player) × In r rows × (x ≡ (if p r then f r else r))
unfolding update_players
In-update_players p f x [] m = elim m [ ]
In-update_players p f x (r ∷ rs) (inl e) = (r, inl refl, e)
In-update_players p f x (r ∷ rs) (inr m) =
    let (r', m', e) = In-update_players p f x rs m in (r', inr m', e)

update_players-there :
    (p : Player → Bool) (f : Player → Player) (puuid : String) (rows : Frontier)
    → Keeps f
    → any (is_player puuid) (update_players p f rows) ≡ any (is_player puuid) rows
unfolding update_players any
update_players-there p f puuid [] k = refl
update_players-there p f puuid (r ∷ rs) k =
    if_both
      (λ (x : Player).
        (if str_eq x.puuid puuid then true else any (is_player puuid) (update_players p f rs))
        ≡ (if str_eq r.puuid puuid then true else any (is_player puuid) rs))
      (p r) (rw (k r, update_players-there p f puuid rs k) refl)
      (rw (update_players-there p f puuid rs k) refl)

-- An update that keeps `P` keeps it held.
pub update_players-Held :
    (p : Player → Bool) (f : Player → Player) (puuid : String) (P : Player → Type 0)
    (rows : Frontier)
    → Keeps f
    → ((r : Player) → P r → P (f r))
    → Held puuid P rows
    → Held puuid P (update_players p f rows)
update_players-Held p f puuid P rows k stable h = record {
  there = update_players-there p f puuid rows k ∙ h.there;
  each = λ x m e.
      let (r, m', x_is) = In-update_players p f x rows m in
      subst P (sym x_is) (
        if_cases (λ (y : Player). y.puuid ≡ puuid → P y) (p r)
          (λ t named. stable r (h.each r m' (sym (k r) ∙ named))) (λ n named. h.each r m' named)
          (sym (ap (λ (y : Player). y.puuid) x_is) ∙ e));
}

-- An update of the player's own rows that gives `P` makes it held.
pub update_players-gives :
    (f : Player → Player) (puuid : String) (P : Player → Type 0) (rows : Frontier)
    (p : Player → Bool)
    → Keeps f
    → ((r : Player) → r.puuid ≡ puuid → p r ≡ true)
    → ((r : Player) → P (f r))
    → any (is_player puuid) rows ≡ true
    → Held puuid P (update_players p f rows)
update_players-gives f puuid P rows p k all gives there = record {
  there = update_players-there p f puuid rows k ∙ there;
  each = λ x m e.
      let (r, m', x_is) = In-update_players p f x rows m in
      subst P (sym x_is) (
        if_cases (λ (y : Player). y.puuid ≡ puuid → P y) (p r) (λ t named. gives r)
          (λ n named. true_false (all r named) n) (sym (ap (λ (y : Player). y.puuid) x_is) ∙ e));
}

In-snoc {ℓ} : {A : Type ℓ} (x y : A) (xs : List A) → In x (xs ++ y ∷ []) → (x ≡ y) ⊎ In x xs
In-snoc x y [] (inl e) = inl e
In-snoc x y [] (inr m) = elim m [ ]
In-snoc x y (z ∷ xs) (inl e) = inr (inl e)
In-snoc x y (z ∷ xs) (inr m) = elim (In-snoc x y xs m) [ inl e ↦ inl e | inr k ↦ inr (inr k) ]

any-snoc :
    (p : Player → Bool) (rows : Frontier) (r : Player)
    → any p rows ≡ true
    → any p (rows ++ r ∷ []) ≡ true
unfolding any
any-snoc p [] r h = ground (arith, h)
any-snoc p (x ∷ rows) r h = ground (arith, h, any-snoc p rows r)

new_player-puuid :
    (region : String) (now : Time) (e : FrontierEntry) → (new_player region now e).puuid ≡ e.puuid
unfolding new_player
new_player-puuid region now e = refl

rediscover-Keeps :
    (region : String) (now : Time) (e : FrontierEntry) → Keeps (rediscover region now e)
unfolding rediscover
rediscover-Keeps region now e r = refl

upsert_player-Held :
    (region : String) (now : Time) (e : FrontierEntry) (puuid : String) (P : Player → Type 0)
    (rows : Frontier)
    → ((r : Player) → P r → P (rediscover region now e r))
    → Held puuid P rows
    → Held puuid P (upsert_player region now e rows).0
unfolding upsert_player
upsert_player-Held region now e puuid P rows stable h =
    if_cases (λ (x : Frontier × Bool). Held puuid P x.0) (any (is_player e.puuid) rows)
      (λ t.
        update_players-Held (is_player e.puuid) (rediscover region now e) puuid P rows
          (rediscover-Keeps region now e) stable h)
      (λ absent. record {
        there = any-snoc (is_player puuid) rows (new_player region now e) h.there;
        each = λ x m named. elim (In-snoc x (new_player region now e) rows m) [
          | inl is ↦
              true_false
                (subst (λ name. any (is_player name) rows ≡ true)
                  (sym named ∙ ap (λ (y : Player). y.puuid) is ∙ new_player-puuid region now e)
                  h.there)
                absent
          | inr old ↦ h.each x old named
        ];
      })

upsert_each-Held :
    (region : String) (now : Time) (es : List FrontierEntry) (puuid : String) (P : Player → Type 0)
    (rows : Frontier)
    → ((e : FrontierEntry) (r : Player) → P r → P (rediscover region now e r))
    → Held puuid P rows
    → Held puuid P (upsert_each region now es rows).0
unfolding upsert_each
upsert_each-Held region now [] puuid P rows stable h = h
upsert_each-Held region now (e ∷ es) puuid P rows stable h =
    upsert_each-Held region now es puuid P (upsert_player region now e rows).0 stable
      (upsert_player-Held region now e puuid P rows (stable e) h)

pub upsert_frontier-Held :
    (region : String) (now : Time) (es : List FrontierEntry) (puuid : String) (P : Player → Type 0)
    (rows : Frontier)
    → ((e : FrontierEntry) (r : Player) → P r → P (rediscover region now e r))
    → Held puuid P rows
    → Held puuid P (upsert_frontier region now es rows).0
unfolding upsert_frontier
upsert_frontier-Held region now es puuid P rows stable h =
    upsert_each-Held region now (dedupe_frontier [] es) puuid P rows stable h
