-- ===== src/Aggregate/Publish/Rollback.antt =====
-- internal/aggregate/publish.go: an error that is rolled back leaves the live tree as it was.
use league_of_legends.Prelude.{
  ℕ, suc, ◌+◌, ◌≤◌, ◌≡◌, refl, ap, ◌∙◌, subst, Bool, true, false, ◌==◌, ◌&&◌, ◌||◌, not, List, [],
  ◌∷◌, ◌++◌, length, All, Option, none, String, str_eq, if_cases, if_both, Never, option_both,
  arith, ◌⊎◌,
}
use league_of_legends.Aggregate.Publish.{
  Entry, Shelf, Disk, ArtifactIo, PublishIo, Tree, manifest_path, take_away, install, undo,
  roll_back, is_staged, Progress, rolled_back, move_failed, placed, swap_all, Verdict, published,
  refused, unwound, abandoned, swap_manifest, then_files, no_trash, publish, all_staged,
  make_parents,
}
use league_of_legends.Aggregate.Publish.Rename.{Undoes, undo-take_away, undo-fresh}
use league_of_legends.Aggregate.Publish.Cases.{swap-P}
use league_of_legends.Aggregate.Publish.{stands}
use league_of_legends.Aggregate.Publish.Made.{Reads, publish-Reads}

roll_back-snoc :
    (io : ℕ → ArtifactIo) (slot : ℕ) (rels : List String) (rel : String) (s : Shelf)
    → roll_back io slot (rels ++ rel ∷ []) s
      ≡ roll_back io slot rels (undo (io (slot + length rels)) (slot + length rels) rel s)
unfolding roll_back
roll_back-snoc io slot [] rel s = ap (λ k. undo (io k) k rel s) (omega arith)
roll_back-snoc io slot (x ∷ rels) rel s = ap (undo (io slot) slot x) (
    roll_back-snoc io (suc slot) rels rel s
    ∙ ap (λ k. roll_back io (suc slot) rels (undo (io k) k rel s)) (omega arith))

-- What is in place so far rolls back to `before`, and the slots from `slot` on are free.
pub record Undoable (io : ℕ → ArtifactIo) (before : Shelf) (slot : ℕ) (replaced : List String)
    (d : Disk) : Type 0 where
  pub back : roll_back io 0 replaced d.shelf ≡ before
  pub free : (k : ℕ) → slot ≤ k → d.shelf.trash k ≡ none
  pub count : length replaced ≡ slot

abbrev Kept : (ℕ → ArtifactIo) → Shelf → ℕ → Progress → Type 0
Kept io before slot (rolled_back d) = d.shelf ≡ before
Kept io before slot (move_failed d) = Unit
Kept io before slot (placed d replaced existing) = Undoable io before slot replaced d

-- No path is the manifest's own.
abbrev pub NoManifest : List String → Type 0
NoManifest rels = All (λ rel. str_eq rel manifest_path ≡ false) rels

length-snoc : (rels : List String) (rel : String) → length (rels ++ rel ∷ []) ≡ suc (length rels)
length-snoc [] rel = omega arith
length-snoc (x ∷ rels) rel = omega (arith, length-snoc rels rel)

after-Undoable :
    (io : ℕ → ArtifactIo) (before : Shelf) (slot : ℕ) (replaced : List String) (rel : String)
    (d d' : Disk)
    → Undoable io before slot replaced d
    → undo (io slot) slot rel d'.shelf ≡ d.shelf
    → ((k : ℕ) → suc slot ≤ k → d'.shelf.trash k ≡ none)
    → Undoable io before (suc slot) (replaced ++ rel ∷ []) d'
after-Undoable io before slot replaced rel d d' u undone free = record {
  back =
      roll_back-snoc io 0 replaced rel d'.shelf
      ∙ ap (λ k. roll_back io 0 replaced (undo (io k) k rel d'.shelf)) (omega (arith, u.count))
      ∙ ap (roll_back io 0 replaced) undone
      ∙ u.back;
  free = free;
  count = omega (arith, length-snoc replaced rel, u.count);
}

taken_free :
    (slot k : ℕ) (rel : String) (s : Shelf)
    → suc slot ≤ k
    → ((k : ℕ) → slot ≤ k → s.trash k ≡ none)
    → (take_away slot rel s).trash k ≡ none
unfolding take_away
taken_free slot k rel s h free =
    if_cases (λ (x : Option Entry). x ≡ none) (slot == k)
      (λ same. let n : Never {0} = ground (arith, same, h) in elim n [ ])
      (λ other. free k (omega (arith, h)))

swap_all-Kept :
    (io : ℕ → ArtifactIo) (before : Shelf) (dir : Bool) (slot : ℕ) (rels : List String) (d : Disk)
    (replaced : List String) (existing : Bool)
    → ((k : ℕ) → Undoes (io k))
    → NoManifest rels
    → Undoable io before slot replaced d
    → Kept io before (slot + length rels) (swap_all io dir slot rels d replaced existing)
unfolding swap_all install
swap_all-Kept io before dir slot [] d replaced existing undoes paths u =
    subst (λ k. Undoable io before k replaced d) (omega arith) u
swap_all-Kept io before dir slot (rel ∷ rels) d replaced existing undoes paths u =
    let d1 : Disk = make_parents (io slot) rel d in
    let rest : (displaced : Bool) (d' : Disk)
        → Undoable io before (suc slot) (replaced ++ rel ∷ []) d'
        → Kept io before (slot + suc (length rels))
            (swap_all io dir (suc slot) rels d' (replaced ++ rel ∷ []) (existing || displaced)) =
      λ displaced d' u'.
        subst
          (λ k.
            Kept io before k
              (swap_all io dir (suc slot) rels d' (replaced ++ rel ∷ []) (existing || displaced)))
          (omega arith)
          (swap_all-Kept io before dir (suc slot) rels d' (replaced ++ rel ∷ [])
            (existing || displaced) undoes paths.1 u') in
    swap-P (Kept io before (slot + suc (length rels))) io dir slot rel d replaced
      (λ displaced d'.
        swap_all io dir (suc slot) rels d' (replaced ++ rel ∷ []) (existing || displaced))
      u.back (λ d' s made. tt)
      (λ h new staged. rest false (install rel d1) (
        after-Undoable io before slot replaced rel d (install rel d1) u
          (undo-fresh (io slot) slot rel d.shelf (d.staging rel) (undoes slot) paths.0 h
            (u.free slot (omega arith)))
          (λ k l. u.free k (omega (arith, l)))))
      (λ e h new staged.
        let d' : Disk = record d1 { shelf = take_away slot rel d.shelf } in
        rest true (install rel d') (
          after-Undoable io before slot replaced rel d (install rel d') u
            (undo-take_away (io slot) slot rel d.shelf (d.staging rel) e (undoes slot) paths.0 h
              (u.free slot (omega arith)))
            (λ k l. taken_free slot k rel d.shelf l u.free)))

then_files-Kept :
    (io : PublishIo) (before : Shelf) (slot : ℕ) (files : List String) (p : Progress)
    → ((k : ℕ) → Undoes (io.artifact k))
    → NoManifest files
    → Kept io.artifact before slot p
    → Kept io.artifact before (slot + length files) (then_files io slot files p)
unfolding then_files
then_files-Kept io before slot files (rolled_back d) undoes paths k = k
then_files-Kept io before slot files (move_failed d) undoes paths k = k
then_files-Kept io before slot files (placed d replaced existing) undoes paths k =
    swap_all-Kept io.artifact before false slot files d replaced existing undoes paths k

-- A verdict that promises the old tree comes with it.
abbrev Holds : Shelf → Disk × Verdict → Type 0
Holds before (d, published replaced existing) = Unit
Holds before (d, refused) = d.shelf.live ≡ before.live
Holds before (d, unwound) = d.shelf.live ≡ before.live
Holds before (d, abandoned) = Unit

swap_manifest-Holds :
    (io : PublishIo) (before : Shelf) (slot : ℕ) (manifest : String) (p : Progress)
    → Kept io.artifact before slot p
    → Holds before (swap_manifest io manifest p)
unfolding swap_manifest
swap_manifest-Holds io before slot manifest (rolled_back d) k = ap (λ s. s.live) k
swap_manifest-Holds io before slot manifest (move_failed d) k = tt
swap_manifest-Holds io before slot manifest (placed d replaced existing) u =
    option_both (Holds before) (d.staging manifest) (ap (λ s. s.live) u.back)
      (λ e. if_both (Holds before) io.manifest_ok tt (ap (λ s. s.live) u.back))

Holds-clear :
    (before : Shelf) (d : Disk) (v : Verdict)
    → Holds before (d, v)
    → Holds before (record d { shelf = record d.shelf { trash = no_trash } }, v)
Holds-clear before d (published replaced existing) h = tt
Holds-clear before d refused h = h
Holds-clear before d unwound h = h
Holds-clear before d abandoned h = h

publish-Holds :
    (io : PublishIo) (dirs files : List String) (manifest : String) (live staging : Tree)
    → ((k : ℕ) → Undoes (io.artifact k))
    → NoManifest dirs
    → NoManifest files
    → Holds (record { live = live; trash = no_trash }) (publish io dirs files manifest live staging)
unfolding publish roll_back
publish-Holds io dirs files manifest live staging undoes no_dirs no_files =
    let before : Shelf = record { live = live; trash = no_trash } in
    let start : Disk = record { shelf = before; staging = staging; made = λ r. false } in
    let p = then_files io (length dirs) files (swap_all io.artifact true 0 dirs start [] false) in
    let fresh : Undoable io.artifact before 0 [] start = record {
      back = refl;
      free = λ k h. refl;
      count = refl;
    } in
    let first : Kept io.artifact before (length dirs)
        (swap_all io.artifact true 0 dirs start [] false) =
      subst (λ k. Kept io.artifact before k (swap_all io.artifact true 0 dirs start [] false))
        (omega arith)
        (swap_all-Kept io.artifact before true 0 dirs start [] false undoes no_dirs fresh) in
    if_both (Holds before)
      (not (length dirs == 0)
        && (all_staged true dirs staging
            && (is_staged false (staging manifest)
                && (all_staged false files staging && io.roots_ok))))
      (Holds-clear before (swap_manifest io manifest p).0 (swap_manifest io manifest p).1 (
        swap_manifest-Holds io before (length dirs + length files) manifest p
          (then_files-Kept io before (length dirs) files _ undoes no_files first)))
      refl

Holds-live :
    (before : Shelf) (d : Disk) (v : Verdict)
    → (v ≡ refused) ⊎ (v ≡ unwound)
    → Holds before (d, v)
    → d.shelf.live ≡ before.live
Holds-live before d (published replaced existing) e h = ground (arith, e)
Holds-live before d refused e h = h
Holds-live before d unwound e h = h
Holds-live before d abandoned e h = ground (arith, e)

-- If the two calls of `rollback` succeed and no artifact stands at the manifest's path, then after a
-- `Publish` that refuses, or fails anywhere but at a rename into place, every path of the live tree
-- reads what it held before; only, a directory above an artifact of the build, which was not there,
-- may have been made.
pub publish-unchanged :
    (io : PublishIo) (dirs files : List String) (manifest : String) (live staging : Tree)
    (r : String)
    → ((k : ℕ) → Undoes (io.artifact k))
    → NoManifest dirs
    → NoManifest files
    → ((publish io dirs files manifest live staging).1 ≡ refused)
      ⊎ ((publish io dirs files manifest live staging).1 ≡ unwound)
    → Reads (dirs ++ files) r (live r) (stands (publish io dirs files manifest live staging).0 r)
publish-unchanged io dirs files manifest live staging r undoes no_dirs no_files e =
    let d = (publish io dirs files manifest live staging).0 in
    let same : d.shelf.live ≡ live =
      Holds-live (record { live = live; trash = no_trash }) d
        (publish io dirs files manifest live staging).1 e
        (publish-Holds io dirs files manifest live staging undoes no_dirs no_files) in
    subst (λ (t : Tree). Reads (dirs ++ files) r (t r) (stands d r)) same
      (publish-Reads io dirs files manifest live staging r)
