-- ===== src/Aggregate/Publish/Made.antt =====
-- internal/aggregate/publish.go: the directories that `os.MkdirAll` leaves in the live tree.
use league_of_legends.Prelude.{
  ℕ, suc, ◌≡◌, refl, ap, ◌∙◌, ◌⊎◌, inl, inr, Bool, true, false, ◌==◌, ◌&&◌, ◌||◌, not, List, [],
  ◌∷◌, ◌++◌, length, Option, none, some, String, any, if◌then◌else◌, if_cases, if_both, option_both,
  arith,
}
use league_of_legends.Aggregate.Publish.{
  Entry, bare, Disk, ArtifactIo, PublishIo, Tree, stands, is_parent, make_parents, take_away,
  install, is_staged, Progress, rolled_back, move_failed, placed, swap_all, Verdict, swap_manifest,
  then_files, no_trash, publish, all_staged,
}
use league_of_legends.Aggregate.Publish.Cases.{swap-P}

-- A path is above one of a list, or beneath one.
abbrev pub above : String → List String → Bool
above r rels = any (λ rel. is_parent r rel) rels

abbrev pub beneath : String → List String → Bool
beneath r rels = any (λ rel. is_parent rel r) rels

above-cons :
    (r rel : String) (rels : List String)
    → above r (rel ∷ rels) ≡ false
    → (is_parent r rel ≡ false) × (above r rels ≡ false)
unfolding any
above-cons r rel rels h = ground (arith, h)

above-append :
    (r : String) (xs ys : List String)
    → above r (xs ++ ys) ≡ false
    → (above r xs ≡ false) × (above r ys ≡ false)
unfolding any
above-append r [] ys h = (refl, h)
above-append r (x ∷ xs) ys h =
    let (other, others) = above-cons r x (xs ++ ys) h in
    let (left, right) = above-append r xs ys others in (ground (arith, other, left), right)

-- `os.MkdirAll` has not made the directory `r`.
abbrev NotMade : String → Progress → Type 0
NotMade r (rolled_back d) = d.made r ≡ false
NotMade r (move_failed d) = d.made r ≡ false
NotMade r (placed d replaced existing) = d.made r ≡ false

make_parents-NotMade :
    (io : ArtifactIo) (rel r : String) (d : Disk)
    → is_parent r rel ≡ false
    → d.made r ≡ false
    → (make_parents io rel d).made r ≡ false
make_parents-NotMade io rel r d n h = ground (arith, n, h)

install-made : (rel : String) (d : Disk) → (install rel d).made ≡ d.made
unfolding install
install-made rel d = refl

swap_all-NotMade :
    (io : ℕ → ArtifactIo) (r : String) (dir : Bool) (slot : ℕ) (rels : List String) (d : Disk)
    (replaced : List String) (existing : Bool)
    → above r rels ≡ false
    → d.made r ≡ false
    → NotMade r (swap_all io dir slot rels d replaced existing)
unfolding swap_all
swap_all-NotMade io r dir slot [] d replaced existing n h = h
swap_all-NotMade io r dir slot (rel ∷ rels) d replaced existing n h =
    let (other, others) = above-cons r rel rels n in
    let d1 : Disk = make_parents (io slot) rel d in
    let h1 : d1.made r ≡ false = make_parents-NotMade (io slot) rel r d other h in
    let next : Bool → Disk → Progress = λ displaced d'.
      swap_all io dir (suc slot) rels d' (replaced ++ rel ∷ []) (existing || displaced) in
    let rest : (displaced : Bool) (d' : Disk) → d'.made r ≡ false → NotMade r (next displaced d') =
      λ displaced d' h'.
        swap_all-NotMade io r dir (suc slot) rels d' (replaced ++ rel ∷ []) (existing || displaced)
          others h' in
    swap-P (NotMade r) io dir slot rel d replaced next h1
      (λ d' s same. ap (λ made. made r) same ∙ h1)
      (λ e new staged. rest false (install rel d1) (ap (λ made. made r) (install-made rel d1) ∙ h1))
      (λ e x new staged.
        let d' : Disk = record d1 { shelf = take_away slot rel d.shelf } in
        rest true (install rel d') (ap (λ made. made r) (install-made rel d') ∙ h1))

then_files-NotMade :
    (io : PublishIo) (r : String) (slot : ℕ) (files : List String) (p : Progress)
    → above r files ≡ false
    → NotMade r p
    → NotMade r (then_files io slot files p)
unfolding then_files
then_files-NotMade io r slot files (rolled_back d) n h = h
then_files-NotMade io r slot files (move_failed d) n h = h
then_files-NotMade io r slot files (placed d replaced existing) n h =
    swap_all-NotMade io.artifact r false slot files d replaced existing n h

swap_manifest-NotMade :
    (io : PublishIo) (r manifest : String) (p : Progress)
    → NotMade r p
    → (swap_manifest io manifest p).0.made r ≡ false
unfolding swap_manifest
swap_manifest-NotMade io r manifest (rolled_back d) h = h
swap_manifest-NotMade io r manifest (move_failed d) h = h
swap_manifest-NotMade io r manifest (placed d replaced existing) h =
    let P : Disk × Verdict → Type 0 = λ x. x.0.made r ≡ false in
    option_both P (d.staging manifest) h
      (λ e. if_both P io.manifest_ok (ap (λ made. made r) (install-made manifest d) ∙ h) h)

-- A directory that is above no artifact of the build is not made.
publish-NotMade :
    (io : PublishIo) (dirs files : List String) (manifest : String) (live staging : Tree)
    (r : String)
    → above r (dirs ++ files) ≡ false
    → (publish io dirs files manifest live staging).0.made r ≡ false
unfolding publish
publish-NotMade io dirs files manifest live staging r n =
    let (no_dir, no_file) = above-append r dirs files n in
    let start : Disk = record {
      shelf = record { live = live; trash = no_trash };
      staging = staging;
      made = λ r. false;
    } in
    if_both (λ (x : Disk × Verdict). x.0.made r ≡ false)
      (not (length dirs == 0)
        && (all_staged true dirs staging
            && (is_staged false (staging manifest)
                && (all_staged false files staging && io.roots_ok))))
      (swap_manifest-NotMade io r manifest _ (
        then_files-NotMade io r (length dirs) files _ no_file
          (swap_all-NotMade io.artifact r true 0 dirs start [] false no_dir refl)))
      refl

-- A path reads `v`, but for a directory, made above an artifact of the build, where `v` is nothing.
abbrev pub Reads : List String → String → Option Entry → Option Entry → Type 0
Reads rels r v x = (x ≡ v) ⊎ (v ≡ none) × (x ≡ some bare) × (above r rels ≡ true)

entry-Reads :
    (rels : List String) (r : String) (made : Bool) (v : Option Entry)
    → (above r rels ≡ false → made ≡ false)
    → Reads rels r v (elim v [ none ↦ if made then some bare else none | some e ↦ some e ])
entry-Reads rels r made none h =
    if_cases (λ (x : Option Entry). Reads rels r none x) made
      (λ t. inr (refl, refl, ground (arith, h, t))) (λ f. inl refl)
entry-Reads rels r made (some e) h = inl refl

stands-Reads :
    (rels : List String) (r : String) (d : Disk)
    → (above r rels ≡ false → d.made r ≡ false)
    → Reads rels r (d.shelf.live r) (stands d r)
stands-Reads rels r d h = entry-Reads rels r (d.made r) (d.shelf.live r) h

-- What stands in the live tree after a `Publish` is what its artifacts are, and the directories above
-- them.
pub publish-Reads :
    (io : PublishIo) (dirs files : List String) (manifest : String) (live staging : Tree)
    (r : String)
    → Reads
        (dirs ++ files)
        r
        ((publish io dirs files manifest live staging).0.shelf.live r)
        (stands (publish io dirs files manifest live staging).0 r)
publish-Reads io dirs files manifest live staging r =
    stands-Reads (dirs ++ files) r (publish io dirs files manifest live staging).0
      (publish-NotMade io dirs files manifest live staging r)
