-- ===== src/Raw/Examples.antt =====
-- internal/raw/writer.go: the theorems about the writer at one with two rows in a part.
use league_of_legends.Prelude.{◌≡◌, refl, inl, Bool, true, false, [], ◌∷◌, some, none, String}
use league_of_legends.Raw.Part.{PartIo, new_part, append, append_open, finalize}
use league_of_legends.Raw.Writer.{
  Writer, WriteEnv, write_row, write_match, write_timeline, finalize_parts, finalize_all, flush,
}
use league_of_legends.Raw.Safety.{MatchPublished, TimelinePublished}
use league_of_legends.Raw.Lasting.{
  none_yet, match_call, flush_call, write_match-flush, write_timeline-flush,
}

abbrev good_io : PartIo
good_io = record { opens = true; encodes = true; finalizes = true }

abbrev good_env : WriteEnv
good_env = record { ctx_done = false; has_fetch_time = true; io = good_io; dir = "2026-01-01" }

abbrev writer : Writer
writer = record {
  rows_per_part = 3;
  closed = false;
  match_parts =
      (
        "2026-01-01",
        record { open_rows = some ("EUW1_2" ∷ []); rows = 1; published = "EUW1_1" ∷ [] },
      )
      ∷ [];
  timeline_parts = [];
  league_parts = [];
  static_parts = [];
  account_parts = [];
}

abbrev works : String → Bool
works dir = true

-- A part that fills up is finalised by the append, and the next row opens another.
rotates :
    (write_row 2 good_io "2026-01-01" "EUW1_3" writer.match_parts).0
    ≡ (
      "2026-01-01",
      record { open_rows = none; rows = 0; published = "EUW1_1" ∷ "EUW1_2" ∷ "EUW1_3" ∷ [] },
    )
      ∷ []
unfolding write_row append append_open finalize
rotates = refl

abbrev broken_env : WriteEnv
broken_env = record good_env { io = record good_io { encodes = false } }

-- Another match is written in between, and one fails.
write_match-flush_example :
    MatchPublished "EUW1_3"
      (flush false works
        (write_match broken_env "EUW1_5"
          (write_match good_env "EUW1_4" (write_match good_env "EUW1_3" writer).0).0).0).0
unfolding flush finalize_all finalize_parts finalize write_match write_row append append_open
    new_part
write_match-flush_example =
    write_match-flush good_env "EUW1_3" writer
      (match_call broken_env "EUW1_5" (match_call good_env "EUW1_4" none_yet)) false works refl
      (refl, (refl, tt)) refl

-- A flush in between whose context is done.
write_timeline-flush_example :
    TimelinePublished "EUW1_3"
      (flush false works (flush true works (write_timeline good_env "EUW1_3" writer).0).0).0
unfolding flush finalize_all finalize_parts finalize write_timeline write_row append append_open
    new_part
write_timeline-flush_example =
    write_timeline-flush good_env "EUW1_3" writer (flush_call true works none_yet) false works refl
      (inl refl, tt) refl
