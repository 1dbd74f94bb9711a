-- ===== src/Aggregate/Publish/Success.antt =====
-- internal/aggregate/publish.go: a build that is published is in place whole.
use league_of_legends.Prelude.{
  ℕ, ◌≡◌, refl, ap, ◌∙◌, sym, subst, Bool, true, false, ◌==◌, ◌&&◌, not, List, [], ◌∷◌, ◌++◌,
  length, Option, String, any, if◌then◌else◌, if_cases, if_both, Never, option_cases, arith,
}
use league_of_legends.Aggregate.Publish.{
  Entry, Disk, PublishIo, Tree, is_staged, Progress, rolled_back, move_failed, placed, swap_all,
  Verdict, published, refused, unwound, abandoned, swap_manifest, then_files, no_trash, publish,
  all_staged,
}
use league_of_legends.Aggregate.Publish.{stands}
use league_of_legends.Aggregate.Publish.Made.{Reads, publish-Reads, beneath}
use league_of_legends.Aggregate.Publish.Placed.{
  named, InPlace, install-InPlace, Placing, swap_all-Placing,
}

then_files-Placing :
    (io : PublishIo) (live staging : Tree) (slot : ℕ) (dirs files : List String) (p : Progress)
    → Placing live staging dirs p
    → Placing live staging (dirs ++ files) (then_files io slot files p)
unfolding then_files
then_files-Placing io live staging slot dirs files (rolled_back d) h = tt
then_files-Placing io live staging slot dirs files (move_failed d) h = tt
then_files-Placing io live staging slot dirs files (placed d replaced existing) (u, e) =
    subst
      (λ rs.
        Placing live staging (rs ++ files)
          (swap_all io.artifact false slot files d replaced existing))
      e (swap_all-Placing io.artifact live staging false slot files d replaced existing u)

-- A published build has its artifacts, and then its manifest, in place.
abbrev Complete : Tree → Tree → List String → Disk × Verdict → Type 0
Complete live staging rels (d, published replaced existing) =
    InPlace live staging replaced d × (replaced ≡ rels)
Complete live staging rels (d, refused) = Unit
Complete live staging rels (d, unwound) = Unit
Complete live staging rels (d, abandoned) = Unit

swap_manifest-Complete :
    (io : PublishIo) (live staging : Tree) (rels : List String) (manifest : String) (p : Progress)
    → Placing live staging rels p
    → Complete live staging (rels ++ manifest ∷ []) (swap_manifest io manifest p)
unfolding swap_manifest
swap_manifest-Complete io live staging rels manifest (rolled_back d) h = tt
swap_manifest-Complete io live staging rels manifest (move_failed d) h = tt
swap_manifest-Complete io live staging rels manifest (placed d replaced existing) (u, e) =
    option_cases (Complete live staging (rels ++ manifest ∷ [])) (d.staging manifest) (λ n. tt)
      (λ new staged.
        if_both (Complete live staging (rels ++ manifest ∷ [])) io.manifest_ok
          (
            install-InPlace live staging replaced d d manifest new u refl (λ r n. refl) staged,
            ap (λ rs. rs ++ manifest ∷ []) e,
          )
          tt)

Complete-clear :
    (live staging : Tree) (rels : List String) (d : Disk) (v : Verdict)
    → Complete live staging rels (d, v)
    → Complete live staging rels (record d { shelf = record d.shelf { trash = no_trash } }, v)
Complete-clear live staging rels d (published replaced existing) (u, e) =
    (record { taken = u.taken; other_live = u.other_live; other_staging = u.other_staging }, e)
Complete-clear live staging rels d refused h = tt
Complete-clear live staging rels d unwound h = tt
Complete-clear live staging rels d abandoned h = tt

publish-Complete :
    (io : PublishIo) (dirs files : List String) (manifest : String) (live staging : Tree)
    → Complete live staging
        ((dirs ++ files) ++ manifest ∷ [])
        (publish io dirs files manifest live staging)
unfolding publish any
publish-Complete io dirs files manifest live staging =
    let start : Disk = record {
      shelf = record { live = live; trash = no_trash };
      staging = staging;
      made = λ r. false;
    } in
    let p = then_files io (length dirs) files (swap_all io.artifact true 0 dirs start [] false) in
    let rels = (dirs ++ files) ++ manifest ∷ [] in
    let fresh : InPlace live staging [] start = record {
      taken = λ r h. let n : Never {0} = ground (arith, h) in elim n [ ];
      other_live = λ r h. refl;
      other_staging = λ r h. refl;
    } in
    if_both (Complete live staging rels)
      (not (length dirs == 0)
        && (all_staged true dirs staging
            && (is_staged false (staging manifest)
                && (all_staged false files staging && io.roots_ok))))
      (Complete-clear live staging rels (swap_manifest io manifest p).0
        (swap_manifest io manifest p).1
        (swap_manifest-Complete io live staging (dirs ++ files) manifest p (
          then_files-Placing io live staging (length dirs) dirs files _
            (swap_all-Placing io.artifact live staging true 0 dirs start [] false fresh))))
      tt

InPlace-live :
    (live staging : Tree) (replaced : List String) (d : Disk) (r : String)
    → InPlace live staging replaced d
    → d.shelf.live r ≡ (if named r replaced then staging r else live r)
InPlace-live live staging replaced d r u =
    if_cases (λ (x : Option Entry). d.shelf.live r ≡ x) (named r replaced)
      (λ t. let (e, s, l, gone) = u.taken r t in l ∙ sym s) (λ f. u.other_live r f)

-- A `Publish` that succeeds reports every directory, then every file, then the manifest; each path that
-- it reports reads what was staged there, and any other that is not beneath one of those reads what it
-- held before; only, a directory above an artifact of the build, which was not there, may have been
-- made.
pub publish-in_place :
    (io : PublishIo) (dirs files : List String) (manifest : String) (live staging : Tree)
    (replaced : List String) (existing : Bool) (r : String)
    → beneath r replaced ≡ false
    → (publish io dirs files manifest live staging).1 ≡ published replaced existing
    → (replaced ≡ (dirs ++ files) ++ manifest ∷ [])
      × Reads
          (dirs ++ files)
          r
          (if named r replaced then staging r else live r)
          (stands (publish io dirs files manifest live staging).0 r)
publish-in_place io dirs files manifest live staging replaced existing r _ e =
    let d = (publish io dirs files manifest live staging).0 in
    let (u, same) =
      subst (λ v. Complete live staging ((dirs ++ files) ++ manifest ∷ []) (d, v)) e
        (publish-Complete io dirs files manifest live staging) in
    (
      same,
      subst (λ v. Reads (dirs ++ files) r v (stands d r)) (InPlace-live live staging replaced d r u)
          (publish-Reads io dirs files manifest live staging r),
    )
