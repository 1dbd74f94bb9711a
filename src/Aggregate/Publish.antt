-- ===== src/Aggregate/Publish.antt =====
-- internal/aggregate/publish.go: how a staged build replaces the live tree. An artifact is a directory
-- or a file under its path from the root, with all that lies beneath it as one value; a path beneath
-- an artifact is none of the tree's, and the paths of one build lie outside each other. Whether each
-- call of the file system succeeds is an input, and one that fails changes nothing, but for
-- `os.MkdirAll`, which may have made some of the directories. What it makes in the live tree stays.
mod Examples
pub mod Rename
pub mod Cases
pub mod Placed
pub mod Success
pub mod Rollback
pub mod Manifest
pub mod Made
use text.Mathlib.Text.{starts_with}
use Prim.Native.String.{◌++◌ as join}
use league_of_legends.Prelude.{
  ℕ, zero, suc, ◌==◌, Bool, true, false, ◌&&◌, ◌||◌, not, List, [], ◌∷◌, ◌++◌, Option, none, some,
  length, if◌then◌else◌, String, str_eq,
}

-- `bare` is a directory that only `os.MkdirAll` has made.
pub data Entry : Type 0 where
  bare : Entry
  directory : ℕ → Entry
  file : ℕ → Entry

abbrev pub is_directory : Entry → Bool
is_directory bare = true
is_directory (directory content) = true
is_directory (file content) = false

abbrev pub Tree : Type 0
Tree = String → Option Entry

-- The live tree, and the slots `old-i` of the trash.
pub record Shelf : Type 0 where
  pub live : Tree
  pub trash : ℕ → Option Entry

-- `made` are the directories that `os.MkdirAll` made, or found, above artifacts in the live tree.
pub record Disk : Type 0 where
  pub shelf : Shelf
  pub staging : Tree
  pub made : String → Bool

-- What stands at a path of the live tree.
abbrev pub stands : Disk → String → Option Entry
stands d r = elim (d.shelf.live r) [ none ↦ if d.made r then some bare else none | some e ↦ some e ]

-- A path is above another.
abbrev pub is_parent : String → String → Bool
is_parent r rel = starts_with rel (join r "/")

-- What succeeds at one artifact: making its parent, `os.Stat` and the two calls of `displace`, the
-- move into place and its undoing, and the two calls of `rollback`. `partial` are the directories
-- that are made above it where that fails.
pub record ArtifactIo : Type 0 where
  pub parent_ok : Bool
  pub partial : String → Bool
  pub stat_ok : Bool
  pub clear_ok : Bool
  pub displace_ok : Bool
  pub move_ok : Bool
  pub restore_ok : Bool
  pub remove_ok : Bool
  pub put_back_ok : Bool

pub record PublishIo : Type 0 where
  pub roots_ok : Bool
  pub manifest_ok : Bool
  pub artifact : ℕ → ArtifactIo

-- `aggmodel.ManifestPath`.
abbrev pub manifest_path : String
manifest_path = "v1/manifest.json"

abbrev pub set : String → Option Entry → Tree → Tree
set rel e t r = if str_eq rel r then e else t r

abbrev pub set_slot : ℕ → Option Entry → (ℕ → Option Entry) → ℕ → Option Entry
set_slot i e trash k = if i == k then e else trash k

-- Whether a staged path holds a directory, or a file.
abbrev pub is_staged : Bool → Option Entry → Bool
is_staged dir none = false
is_staged dir (some e) = if dir then is_directory e else not (is_directory e)

unfoldable pub all_staged : Bool → List String → Tree → Bool
all_staged dir [] staging = true
all_staged dir (rel ∷ rels) staging = is_staged dir (staging rel) && all_staged dir rels staging

-- What `displace` finds: an error, nothing, or an artifact that it has moved to the trash.
pub data Displaced : Type 0 where
  failed nothing moved : Displaced

-- `displace` and `displaceFile`, which differ in what they expect.
unfoldable pub displace : Bool → ArtifactIo → Option Entry → Displaced
displace dir io live =
    if io.stat_ok
    then elim live [
      | none ↦ nothing
      | some e ↦
          if is_staged dir (some e)
          then if io.clear_ok && io.displace_ok then moved else failed
          else failed
    ]
    else failed

-- The second rename of `displace`.
unfoldable pub take_away : ℕ → String → Shelf → Shelf
take_away slot rel s = record {
  live = set rel none s.live;
  trash = set_slot slot (s.live rel) s.trash;
}

-- An artifact that is restored from its slot.
unfoldable pub put_back : ℕ → String → Shelf → Shelf
put_back slot rel s = record {
  live = set rel (s.trash slot) s.live;
  trash = set_slot slot none s.trash;
}

-- A staged artifact that is renamed into place.
unfoldable pub install : String → Disk → Disk
install rel d = record {
  shelf = record d.shelf { live = set rel (d.staging rel) d.shelf.live };
  staging = set rel none d.staging;
  made = d.made;
}

-- How far the loops got: an error that is rolled back, an error of a rename into place, which is
-- not, or the artifacts that are in place with whether one displaced another.
pub data Progress : Type 0 where
  rolled_back : Disk → Progress
  move_failed : Disk → Progress
  placed : Disk → List String → Bool → Progress

-- `rollback` at one artifact.
unfoldable pub undo : ArtifactIo → ℕ → String → Shelf → Shelf
undo io slot rel s =
    let removed : Shelf = record s {
      live = if io.remove_ok then set rel none s.live else s.live;
    } in
    if str_eq rel manifest_path then s else elim (s.trash slot) [
      | none ↦ removed
      | some e ↦ if io.put_back_ok then put_back slot rel removed else removed
    ]

-- `rollback`, newest first.
unfoldable pub roll_back : (ℕ → ArtifactIo) → ℕ → List String → Shelf → Shelf
roll_back io slot [] s = s
roll_back io slot (rel ∷ rels) s = undo (io slot) slot rel (roll_back io (suc slot) rels s)

abbrev pub rolled : (ℕ → ArtifactIo) → List String → Disk → Disk
rolled io replaced d = record d { shelf = roll_back io 0 replaced d.shelf }

-- The rename into place, of an artifact that is staged, onto a path that holds nothing.
unfoldable pub can_move : ArtifactIo → String → Disk → Bool
can_move io rel d = elim (d.staging rel) [ none ↦ false | some e ↦ io.move_ok ]

-- A rename into place that failed: the artifact's own predecessor goes back.
unfoldable pub restore : ArtifactIo → ℕ → String → Bool → Disk → Disk
restore io slot rel displaced d =
    if displaced && io.restore_ok then record d { shelf = put_back slot rel d.shelf } else d

-- One round of either loop, from the rename into place on; `next` is the rest of the loop.
unfoldable pub move_in : ArtifactIo → ℕ → String → Bool → Disk → (Disk → Progress) → Progress
move_in io slot rel displaced d next =
    if can_move io rel d
    then next (install rel d)
    else move_failed (restore io slot rel displaced d)

-- `os.MkdirAll` of an artifact's parent.
abbrev pub make_parents : ArtifactIo → String → Disk → Disk
make_parents io rel d = record d {
  made = λ r. d.made r || is_parent r rel && (io.parent_ok || io.partial r);
}

-- One round of either loop.
unfoldable pub swap :
    (ℕ → ArtifactIo) → Bool → ℕ → String → Disk → List String → (Bool → Disk → Progress) → Progress
swap io dir slot rel before replaced next =
    let d = make_parents (io slot) rel before in
    if (io slot).parent_ok
    then elim (displace dir (io slot) (d.shelf.live rel)) [
      | failed ↦ rolled_back (rolled io replaced d)
      | nothing ↦ move_in (io slot) slot rel false d (next false)
      | moved ↦
          move_in (io slot) slot rel true (record d { shelf = take_away slot rel d.shelf })
            (next true)
    ]
    else rolled_back (rolled io replaced d)

-- The loop over the directories, and the one over the files.
unfoldable pub swap_all :
    (ℕ → ArtifactIo) → Bool → ℕ → List String → Disk → List String → Bool → Progress
swap_all io dir slot [] d replaced existing = placed d replaced existing
swap_all io dir slot (rel ∷ rels) d replaced existing =
    swap io dir slot rel d replaced (λ displaced d'.
      swap_all io dir (suc slot) rels d' (replaced ++ rel ∷ []) (existing || displaced))

-- What `Publish` returns: whether it failed, and whether an error left swaps in place.
pub data Verdict : Type 0 where
  published : List String → Bool → Verdict
  refused unwound abandoned : Verdict

-- The last step: the manifest is renamed into place.
unfoldable pub swap_manifest : PublishIo → String → Progress → Disk × Verdict
swap_manifest io manifest (rolled_back d) = (d, unwound)
swap_manifest io manifest (move_failed d) = (d, abandoned)
swap_manifest io manifest (placed d replaced existing) = elim (d.staging manifest) [
  | none ↦ (rolled io.artifact replaced d, unwound)
  | some e ↦
      if io.manifest_ok
      then (install manifest d, published (replaced ++ manifest ∷ []) existing)
      else (rolled io.artifact replaced d, unwound)
]

-- The second loop, whose slots follow those of the directories.
unfoldable pub then_files : PublishIo → ℕ → List String → Progress → Progress
then_files io slot files (rolled_back d) = rolled_back d
then_files io slot files (move_failed d) = move_failed d
then_files io slot files (placed d replaced existing) =
    swap_all io.artifact false slot files d replaced existing

abbrev pub no_trash : ℕ → Option Entry
no_trash slot = none

-- `Publish`. The trash is removed on every path out.
unfoldable pub publish :
    PublishIo → List String → List String → String → Tree → Tree → Disk × Verdict
publish io dirs files manifest live staging =
    let before : Disk = record {
      shelf = record { live = live; trash = no_trash };
      staging = staging;
      made = λ r. false;
    } in
    let (d, verdict) =
      swap_manifest io manifest
        (then_files io (length dirs) files (swap_all io.artifact true 0 dirs before [] false)) in
    if not (length dirs == 0)
      && (all_staged true dirs staging
          && (is_staged false (staging manifest)
              && (all_staged false files staging && io.roots_ok)))
    then (record d { shelf = record d.shelf { trash = no_trash } }, verdict)
    else (before, refused)
