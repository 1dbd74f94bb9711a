-- ===== src/Raw/Directory/Examples.antt =====
-- internal/raw/writer.go: a directory with a part and an abandoned one, and the theorems about it.
use league_of_legends.Prelude.{
  ◌≡◌, refl, true, false, [], ◌∷◌, none, some, inl, In, seconds, ◌-ℤ◌, any, keep, String,
}
use league_of_legends.Raw.Part.{PartIo}
use league_of_legends.Raw.Directory.{
  final, temporary, other, PartDir, OpenIo, highest, create, open_part, rename, finalize_part,
  append_held, append_opened, append_part,
}
use league_of_legends.Raw.Directory.Refines.{
  PartCall, appends, finalizes, restarts, step, result_of, part_step, part_of, IsFresh,
  step-refines,
}
use league_of_legends.Raw.Directory.Kept.{run_calls, part_final}

-- Part 3 is published, an earlier process left 4 a minute ago, and 1 hours ago.
abbrev directory : PartDir String
directory = record {
  entries =
      final 3 ("EUW1_1" ∷ "EUW1_2" ∷ [])
      ∷ temporary 4 (some (seconds 99_940))
      ∷ temporary 1 (some (seconds 10_000))
      ∷ other
      ∷ [];
  held = none;
  rows = 0;
}

abbrev opens : OpenIo
opens = record { lists = true; removes = λ n. true; creates = λ n. true; now = seconds 100_000 }

abbrev works : PartIo
works = record { opens = true; encodes = true; finalizes = true }

-- The next part is 5, and 1 is removed.
opens_next : (open_part opens directory).0 ≡ record {
  entries =
      temporary 5 (some (seconds 100_000))
      ∷ final 3 ("EUW1_1" ∷ "EUW1_2" ∷ [])
      ∷ temporary 4 (some (seconds 99_940))
      ∷ other
      ∷ [];
  held = some (5, []);
  rows = 0;
}
unfolding open_part create highest keep any ◌-ℤ◌
opens_next = refl

abbrev append_one : PartCall String
append_one = appends 1 opens works "EUW1_3"

publishes_next :
    (step append_one directory).0.entries
    ≡ final 3 ("EUW1_1" ∷ "EUW1_2" ∷ [])
      ∷ temporary 4 (some (seconds 99_940))
      ∷ other
      ∷ final 5 ("EUW1_3" ∷ [])
      ∷ []
unfolding append_part append_opened append_held finalize_part rename open_part create highest keep
    any ◌-ℤ◌
publishes_next = refl

step-refines_example :
    (result_of (step append_one directory) ≡ part_step append_one directory (part_of directory))
    × IsFresh (step append_one directory).0
step-refines_example = step-refines append_one directory tt

part_final_example :
    In
      (final 3 ("EUW1_1" ∷ "EUW1_2" ∷ []))
      (run_calls (append_one ∷ restarts ∷ append_one ∷ finalizes false ∷ []) directory).entries
part_final_example =
    part_final 3 ("EUW1_1" ∷ "EUW1_2" ∷ [])
      (append_one ∷ restarts ∷ append_one ∷ finalizes false ∷ []) directory tt (inl refl)
