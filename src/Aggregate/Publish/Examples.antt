-- ===== src/Aggregate/Publish/Examples.antt =====
-- internal/aggregate/publish.go: builds of two partitions, and the theorems about `Publish` there.
use league_of_legends.Prelude.{
  ℕ, ◌≡◌, refl, ◌==◌, not, inr, true, false, List, [], ◌∷◌, ◌++◌, none, some, String, str_eq, any,
  if◌then◌else◌,
}
use league_of_legends.Aggregate.Publish.{
  bare, stands, directory, file, Tree, ArtifactIo, PublishIo, published, unwound, abandoned,
  publish, all_staged, swap_all, swap, move_in, can_move, displace, install, take_away, put_back,
  restore, roll_back, undo, swap_manifest, then_files, manifest_path,
}
use league_of_legends.Aggregate.Publish.Rename.{Undoes}
use league_of_legends.Aggregate.Publish.Placed.{named}
use league_of_legends.Aggregate.Publish.Made.{Reads, beneath}
use league_of_legends.Aggregate.Publish.Success.{publish-in_place}
use league_of_legends.Aggregate.Publish.Rollback.{publish-unchanged}
use league_of_legends.Aggregate.Publish.Manifest.{publish-spares}

abbrev dirs : List String
dirs = "v1/p/16.18/EUW" ∷ "v1/p/16.18/KR" ∷ []

abbrev files : List String
files = "v1/README.md" ∷ []

-- One partition, the document and the manifest are live already.
abbrev live : Tree
live r =
    if str_eq r "v1/p/16.18/EUW"
    then some (directory 1)
    else if str_eq r "v1/README.md"
    then some (file 2)
    else if str_eq r manifest_path
    then some (file 3)
    else none

abbrev staging : Tree
staging r =
    if str_eq r "v1/p/16.18/EUW"
    then some (directory 11)
    else if str_eq r "v1/p/16.18/KR"
    then some (directory 12)
    else if str_eq r "v1/README.md"
    then some (file 13)
    else if str_eq r manifest_path
    then some (file 14)
    else none

abbrev fine : ArtifactIo
fine = record {
  parent_ok = true;
  partial = λ r. false;
  stat_ok = true;
  clear_ok = true;
  displace_ok = true;
  move_ok = true;
  restore_ok = true;
  remove_ok = true;
  put_back_ok = true;
}

abbrev all_fine : PublishIo
all_fine = record { roots_ok = true; manifest_ok = true; artifact = λ slot. fine }

publishes :
    (publish all_fine dirs files manifest_path live staging).1
    ≡ published ((dirs ++ files) ++ manifest_path ∷ []) true
unfolding publish all_staged swap_all swap move_in can_move displace install take_away swap_manifest
    then_files
publishes = refl

nothing_above : beneath "v1/p/16.18/KR" ((dirs ++ files) ++ manifest_path ∷ []) ≡ false
unfolding any
nothing_above = refl

publish-in_place_example :
    ((dirs ++ files) ++ manifest_path ∷ [] ≡ (dirs ++ files) ++ manifest_path ∷ [])
    × Reads
        (dirs ++ files)
        "v1/p/16.18/KR"
        (if named "v1/p/16.18/KR" ((dirs ++ files) ++ manifest_path ∷ [])
          then staging "v1/p/16.18/KR"
          else live "v1/p/16.18/KR")
        (stands (publish all_fine dirs files manifest_path live staging).0 "v1/p/16.18/KR")
publish-in_place_example =
    publish-in_place all_fine dirs files manifest_path live staging
      ((dirs ++ files) ++ manifest_path ∷ []) true "v1/p/16.18/KR" nothing_above publishes

-- The second partition's parent cannot be made, after the first is in place.
abbrev no_parent : PublishIo
no_parent = record {
  roots_ok = true;
  manifest_ok = true;
  artifact = λ slot. record fine { parent_ok = not (slot == 1) };
}

unwinds : (publish no_parent dirs files manifest_path live staging).1 ≡ unwound
unfolding publish all_staged swap_all swap move_in can_move displace install take_away put_back
    roll_back undo swap_manifest then_files
unwinds = refl

undoes : (slot : ℕ) → Undoes (no_parent.artifact slot)
undoes slot = record { removes = refl; puts_back = refl }

-- The parent of the first partition was not there, and stays.
leaves_parent :
    stands (publish no_parent dirs files manifest_path live staging).0 "v1/p/16.18" ≡ some bare
unfolding publish all_staged swap_all swap move_in can_move displace install take_away put_back
    roll_back undo swap_manifest then_files
leaves_parent = refl

publish-unchanged_example :
    Reads
      (dirs ++ files)
      "v1/p/16.18/EUW"
      (live "v1/p/16.18/EUW")
      (stands (publish no_parent dirs files manifest_path live staging).0 "v1/p/16.18/EUW")
publish-unchanged_example =
    publish-unchanged no_parent dirs files manifest_path live staging "v1/p/16.18/EUW" undoes
      (refl, (refl, tt)) (refl, tt) (inr unwinds)

-- The second partition cannot be moved into place.
abbrev no_move : PublishIo
no_move = record {
  roots_ok = true;
  manifest_ok = true;
  artifact = λ slot. record fine { move_ok = not (slot == 1) };
}

abandons : (publish no_move dirs files manifest_path live staging).1 ≡ abandoned
unfolding publish all_staged swap_all swap move_in can_move displace install take_away put_back
    restore roll_back undo swap_manifest then_files
abandons = refl

-- The first partition is the new one, though the `Publish` failed.
leaves_first :
    (publish no_move dirs files manifest_path live staging).0.shelf.live "v1/p/16.18/EUW"
    ≡ some (directory 11)
unfolding publish all_staged swap_all swap move_in can_move displace install take_away put_back
    restore roll_back undo swap_manifest then_files
leaves_first = refl

not_a_dir : named manifest_path dirs ≡ false
unfolding any
not_a_dir = refl

not_a_file : named manifest_path files ≡ false
unfolding any
not_a_file = refl

not_beneath : beneath manifest_path (dirs ++ files) ≡ false
unfolding any
not_beneath = refl

publish-spares_example :
    Reads
      (dirs ++ files)
      manifest_path
      (live manifest_path)
      (stands (publish no_move dirs files manifest_path live staging).0 manifest_path)
publish-spares_example =
    publish-spares no_move dirs files manifest_path live staging manifest_path not_a_dir not_a_file
      not_beneath (inr (inr abandons))
