-- ===== src/Aggregate/Publish/Cases.antt =====
-- internal/aggregate/publish.go: the ways in which a round of the two loops can go.
use league_of_legends.Prelude.{
  ℕ, ◌≡◌, refl, ◌∙◌, Bool, true, false, ◌&&◌, List, Option, none, some, String, str_eq,
  if◌then◌else◌, if_both, option_cases,
}
use league_of_legends.Aggregate.Publish.{
  Entry, Disk, ArtifactIo, take_away, install, rolled, is_staged, Displaced, failed, nothing, moved,
  displace, Progress, rolled_back, move_failed, can_move, move_in, swap,
}
use league_of_legends.Aggregate.Publish.{put_back, restore, make_parents}
use league_of_legends.Aggregate.Publish.Rename.{set_other}

displace-P {ℓ} :
    (P : Displaced → Type ℓ) (dir : Bool) (io : ArtifactIo) (live : Option Entry)
    → P failed
    → (live ≡ none → P nothing)
    → ((e : Entry) → live ≡ some e → P moved)
    → P (displace dir io live)
unfolding displace
displace-P P dir io live f n m =
    if_both P io.stat_ok
      (option_cases P live n (λ e h.
        if_both P (is_staged dir (some e)) (if_both P (io.clear_ok && io.displace_ok) (m e h) f) f))
      f

-- The live trees of two disks differ at `rel` only.
abbrev pub DiffersAt : String → Disk → Disk → Type 0
DiffersAt rel d d' = (r : String) → str_eq rel r ≡ false → d'.shelf.live r ≡ d.shelf.live r

pub take_away-DiffersAt :
    (slot : ℕ) (rel : String) (d : Disk)
    → DiffersAt rel d (record d { shelf = take_away slot rel d.shelf })
unfolding take_away
take_away-DiffersAt slot rel d r n = set_other rel r none d.shelf.live n

restore-DiffersAt :
    (io : ArtifactIo) (slot : ℕ) (rel : String) (displaced : Bool) (d d' : Disk)
    → DiffersAt rel d d'
    → DiffersAt rel d (restore io slot rel displaced d')
unfolding restore put_back
restore-DiffersAt io slot rel displaced d d' h r n =
    if_both (λ (x : Disk). x.shelf.live r ≡ d.shelf.live r) (displaced && io.restore_ok)
      (set_other rel r (d'.shelf.trash slot) d'.shelf.live n ∙ h r n) (h r n)

restore-made :
    (io : ArtifactIo) (slot : ℕ) (rel : String) (displaced : Bool) (d : Disk)
    → (restore io slot rel displaced d).made ≡ d.made
unfolding restore
restore-made io slot rel displaced d =
    if_both (λ (x : Disk). x.made ≡ d.made) (displaced && io.restore_ok) refl refl

move_in-P {ℓ} :
    (P : Progress → Type ℓ) (io : ArtifactIo) (slot : ℕ) (rel : String) (displaced : Bool)
    (d d' : Disk) (next : Disk → Progress)
    → DiffersAt rel d d'
    → d'.made ≡ d.made
    → ((x : Disk) → DiffersAt rel d x → x.made ≡ d.made → P (move_failed x))
    → ((new : Entry) → d'.staging rel ≡ some new → P (next (install rel d')))
    → P (move_in io slot rel displaced d' next)
unfolding move_in can_move
move_in-P P io slot rel displaced d d' next s same f n =
    let left =
      f (restore io slot rel displaced d') (restore-DiffersAt io slot rel displaced d d' s)
        (restore-made io slot rel displaced d' ∙ same) in
    option_cases
      (λ (c : Bool).
        P (if c then next (install rel d') else move_failed (restore io slot rel displaced d')))
      (d'.staging rel) (λ e. left) (λ e h. if_both P io.move_ok (n e h) left)

-- The ways in which a round of the loops can go.
pub swap-P {ℓ} :
    (P : Progress → Type ℓ) (io : ℕ → ArtifactIo) (dir : Bool) (slot : ℕ) (rel : String) (d : Disk)
    (replaced : List String) (next : Bool → Disk → Progress)
    → P (rolled_back (rolled io replaced (make_parents (io slot) rel d)))
    → ((d' : Disk)
        → DiffersAt rel d d'
        → d'.made ≡ (make_parents (io slot) rel d).made
        → P (move_failed d'))
    → (d.shelf.live rel ≡ none
        → (new : Entry) → d.staging rel ≡ some new
        → P (next false (install rel (make_parents (io slot) rel d))))
    → ((e : Entry)
        → d.shelf.live rel ≡ some e
        → (new : Entry) → d.staging rel ≡ some new
        → P (
            next true (
              install rel
                (record (make_parents (io slot) rel d) { shelf = take_away slot rel d.shelf }))))
    → P (swap io dir slot rel d replaced next)
unfolding swap
swap-P P io dir slot rel d replaced next back left fresh taken =
    let d1 = make_parents (io slot) rel d in
    if_both P (io slot).parent_ok
      (displace-P
        (λ (x : Displaced). P (elim x [
          | failed ↦ rolled_back (rolled io replaced d1)
          | nothing ↦ move_in (io slot) slot rel false d1 (next false)
          | moved ↦
              move_in (io slot) slot rel true (record d1 { shelf = take_away slot rel d1.shelf })
                (next true)
        ]))
        dir (io slot) (d1.shelf.live rel) back
        (λ h.
          move_in-P P (io slot) slot rel false d1 d1 (next false) (λ r n. refl) refl left (fresh h))
        (λ e h.
          move_in-P P (io slot) slot rel true d1 (record d1 { shelf = take_away slot rel d1.shelf })
            (next true) (take_away-DiffersAt slot rel d1) refl left (taken e h)))
      back
