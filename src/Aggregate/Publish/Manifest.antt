-- ===== src/Aggregate/Publish/Manifest.antt =====
-- internal/aggregate/publish.go: a path outside of the build, such as the manifest's, after an error.
use league_of_legends.Prelude.{
  ℕ, suc, ◌≡◌, refl, ◌∙◌, Bool, true, false, ◌==◌, ◌&&◌, ◌||◌, not, List, [], ◌∷◌, ◌++◌, length,
  none, String, str_eq, any, if◌then◌else◌, if_both, option_cases, arith,
}
use league_of_legends.Aggregate.Publish.{
  Shelf, Disk, ArtifactIo, PublishIo, Tree, take_away, install, is_staged, Progress, rolled_back,
  move_failed, placed, swap_all, set, Verdict, published, refused, unwound, abandoned,
  swap_manifest, then_files, no_trash, publish, all_staged,
}
use league_of_legends.Aggregate.Publish.Rename.{set_other}
use league_of_legends.Aggregate.Publish.Cases.{swap-P}
use league_of_legends.Aggregate.Publish.{put_back, undo, roll_back, manifest_path, make_parents}
use league_of_legends.Aggregate.Publish.Placed.{named, named-snoc}
use league_of_legends.Aggregate.Publish.Cases.{take_away-DiffersAt}
use league_of_legends.Prelude.{◌⊎◌, subst}
use league_of_legends.Aggregate.Publish.{stands}
use league_of_legends.Aggregate.Publish.Made.{Reads, publish-Reads, beneath}

-- The path is as in `live`, unless the build is published.
abbrev Same : String → Tree → Shelf → Type 0
Same r live s = s.live r ≡ live r

undo-Same :
    (io : ArtifactIo) (slot : ℕ) (rel r : String) (live : Tree) (s : Shelf)
    → str_eq rel r ≡ false
    → Same r live s
    → Same r live (undo io slot rel s)
unfolding undo put_back
undo-Same io slot rel r live s n h =
    let removed : Shelf = record s {
      live = if io.remove_ok then set rel none s.live else s.live;
    } in
    let gone : Same r live removed =
      if_both (λ (t : Tree). t r ≡ live r) io.remove_ok (set_other rel r none s.live n ∙ h) h in
    if_both (Same r live) (str_eq rel manifest_path) h (
      option_cases (Same r live) (s.trash slot) (λ e. gone)
        (λ e x.
          if_both (Same r live) io.put_back_ok
            (set_other rel r (s.trash slot) removed.live n ∙ gone) gone))

named-cons :
    (r rel : String) (rels : List String)
    → named r (rel ∷ rels) ≡ false
    → (str_eq rel r ≡ false) × (named r rels ≡ false)
unfolding any
named-cons r rel rels h = ground (arith, h)

roll_back-Same :
    (io : ℕ → ArtifactIo) (slot : ℕ) (rels : List String) (r : String) (live : Tree) (s : Shelf)
    → named r rels ≡ false
    → Same r live s
    → Same r live (roll_back io slot rels s)
unfolding roll_back
roll_back-Same io slot [] r live s n h = h
roll_back-Same io slot (rel ∷ rels) r live s n h =
    let (other, others) = named-cons r rel rels n in
    undo-Same (io slot) slot rel r live (roll_back io (suc slot) rels s) other
      (roll_back-Same io (suc slot) rels r live s others h)

abbrev Apart : String → Tree → Progress → Type 0
Apart r live (rolled_back d) = Same r live d.shelf
Apart r live (move_failed d) = Same r live d.shelf
Apart r live (placed d replaced existing) = (named r replaced ≡ false) × Same r live d.shelf

install-other :
    (rel r : String) (d : Disk)
    → str_eq rel r ≡ false
    → (install rel d).shelf.live r ≡ d.shelf.live r
unfolding install
install-other rel r d n = set_other rel r (d.staging rel) d.shelf.live n

named-later :
    (r rel : String) (rels : List String)
    → named r rels ≡ false
    → str_eq rel r ≡ false
    → named r (rels ++ rel ∷ []) ≡ false
named-later r rel rels h n = ground (arith, named-snoc r rel rels, h, n)

swap_all-Apart :
    (io : ℕ → ArtifactIo) (r : String) (live : Tree) (dir : Bool) (slot : ℕ) (rels : List String)
    (d : Disk) (replaced : List String) (existing : Bool)
    → named r rels ≡ false
    → Apart r live (placed d replaced existing)
    → Apart r live (swap_all io dir slot rels d replaced existing)
unfolding swap_all
swap_all-Apart io r live dir slot [] d replaced existing n h = h
swap_all-Apart io r live dir slot (rel ∷ rels) d replaced existing n (absent, h) =
    let d1 : Disk = make_parents (io slot) rel d in
    let (other, others) = named-cons r rel rels n in
    let next : Bool → Disk → Progress = λ displaced d'.
      swap_all io dir (suc slot) rels d' (replaced ++ rel ∷ []) (existing || displaced) in
    let rest : (displaced : Bool) (d' : Disk)
        → Same r live d'.shelf
        → Apart r live (next displaced d') =
      λ displaced d' h'.
        swap_all-Apart io r live dir (suc slot) rels d' (replaced ++ rel ∷ [])
          (existing || displaced) others (named-later r rel replaced absent other, h') in
    swap-P (Apart r live) io dir slot rel d replaced next
      (roll_back-Same io 0 replaced r live d.shelf absent h) (λ d' s made. s r other ∙ h)
      (λ e new staged. rest false (install rel d1) (install-other rel r d1 other ∙ h))
      (λ e x new staged.
        let d' : Disk = record d1 { shelf = take_away slot rel d.shelf } in
        rest true (install rel d')
          (install-other rel r d' other ∙ take_away-DiffersAt slot rel d r other ∙ h))

then_files-Apart :
    (io : PublishIo) (r : String) (live : Tree) (slot : ℕ) (files : List String) (p : Progress)
    → named r files ≡ false
    → Apart r live p
    → Apart r live (then_files io slot files p)
unfolding then_files
then_files-Apart io r live slot files (rolled_back d) n h = h
then_files-Apart io r live slot files (move_failed d) n h = h
then_files-Apart io r live slot files (placed d replaced existing) n h =
    swap_all-Apart io.artifact r live false slot files d replaced existing n h

abbrev Spared : String → Tree → Disk × Verdict → Type 0
Spared r live (d, published replaced existing) = Unit
Spared r live (d, refused) = Same r live d.shelf
Spared r live (d, unwound) = Same r live d.shelf
Spared r live (d, abandoned) = Same r live d.shelf

swap_manifest-Spared :
    (io : PublishIo) (r : String) (live : Tree) (manifest : String) (p : Progress)
    → Apart r live p
    → Spared r live (swap_manifest io manifest p)
unfolding swap_manifest
swap_manifest-Spared io r live manifest (rolled_back d) h = h
swap_manifest-Spared io r live manifest (move_failed d) h = h
swap_manifest-Spared io r live manifest (placed d replaced existing) (absent, h) =
    let back = roll_back-Same io.artifact 0 replaced r live d.shelf absent h in
    option_cases (Spared r live) (d.staging manifest) (λ n. back)
      (λ e s. if_both (Spared r live) io.manifest_ok tt back)

Spared-clear :
    (r : String) (live : Tree) (d : Disk) (v : Verdict)
    → Spared r live (d, v)
    → Spared r live (record d { shelf = record d.shelf { trash = no_trash } }, v)
Spared-clear r live d (published replaced existing) h = tt
Spared-clear r live d refused h = h
Spared-clear r live d unwound h = h
Spared-clear r live d abandoned h = h

publish-Spared :
    (io : PublishIo) (dirs files : List String) (manifest : String) (live staging : Tree)
    (r : String)
    → named r dirs ≡ false
    → named r files ≡ false
    → Spared r live (publish io dirs files manifest live staging)
unfolding publish any
publish-Spared io dirs files manifest live staging r no_dir no_file =
    let start : Disk = record {
      shelf = record { live = live; trash = no_trash };
      staging = staging;
      made = λ r. false;
    } in
    let p = then_files io (length dirs) files (swap_all io.artifact true 0 dirs start [] false) in
    if_both (Spared r live)
      (not (length dirs == 0)
        && (all_staged true dirs staging
            && (is_staged false (staging manifest)
                && (all_staged false files staging && io.roots_ok))))
      (Spared-clear r live (swap_manifest io manifest p).0 (swap_manifest io manifest p).1 (
        swap_manifest-Spared io r live manifest p (
          then_files-Apart io r live (length dirs) files _ no_file
            (swap_all-Apart io.artifact r live true 0 dirs start [] false no_dir (refl, refl)))))
      refl

Spared-live :
    (r : String) (live : Tree) (d : Disk) (v : Verdict)
    → (v ≡ refused) ⊎ ((v ≡ unwound) ⊎ (v ≡ abandoned))
    → Spared r live (d, v)
    → d.shelf.live r ≡ live r
Spared-live r live d (published replaced existing) e h = ground (arith, e)
Spared-live r live d refused e h = h
Spared-live r live d unwound e h = h
Spared-live r live d abandoned e h = h

-- Whatever fails in a `Publish`, and whether or not the rollback succeeds: on an error, a path that is
-- none of its directories and files, nor beneath one, reads what it held before; only, a directory
-- above one of them, which was not there, may have been made. So the live manifest never advertises
-- a build that failed.
pub publish-spares :
    (io : PublishIo) (dirs files : List String) (manifest : String) (live staging : Tree)
    (r : String)
    → named r dirs ≡ false
    → named r files ≡ false
    → beneath r (dirs ++ files) ≡ false
    → ((publish io dirs files manifest live staging).1 ≡ refused)
      ⊎ (((publish io dirs files manifest live staging).1 ≡ unwound)
          ⊎ ((publish io dirs files manifest live staging).1 ≡ abandoned))
    → Reads (dirs ++ files) r (live r) (stands (publish io dirs files manifest live staging).0 r)
publish-spares io dirs files manifest live staging r no_dir no_file _ e =
    let d = (publish io dirs files manifest live staging).0 in
    subst (λ v. Reads (dirs ++ files) r v (stands d r))
      (Spared-live r live d (publish io dirs files manifest live staging).1 e
        (publish-Spared io dirs files manifest live staging r no_dir no_file))
      (publish-Reads io dirs files manifest live staging r)
