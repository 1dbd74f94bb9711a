-- ===== src/Raw/Writer.antt =====
-- internal/raw/writer.go: `Writer`, the open parts of each partition directory. A row of the archive
-- is named by the id that it is stored under.
use league_of_legends.Prelude.{
  ℕ, Bool, true, false, ◌&&◌, List, [], ◌∷◌, if◌then◌else◌, String, str_eq,
}
use league_of_legends.Raw.Part.{Part, PartIo, new_part, finalize, append}

-- A map from partition directories to parts.
abbrev pub Parts : Type 0
Parts = List (String × Part String)

pub record Writer : Type 0 where
  pub rows_per_part : ℕ
  pub closed : Bool
  pub match_parts : Parts
  pub timeline_parts : Parts
  pub league_parts : Parts
  pub static_parts : Parts
  pub account_parts : Parts

-- Append to the part of a directory, which is made if it is not there.
unfoldable pub write_row : ℕ → PartIo → String → String → Parts → Parts × Bool
write_row rpp io dir row [] = let (p, ok) = append rpp io row new_part in ((dir, p) ∷ [], ok)
write_row rpp io dir row ((d, p) ∷ ps) =
    let (p', ok) = append rpp io row p in
    let (ps', ok') = write_row rpp io dir row ps in
    if str_eq d dir then ((d, p') ∷ ps, ok) else ((d, p) ∷ ps', ok')

-- What the writes see: the context, whether the fetch time is set, the file
-- system, and the partition directory of the fetch date.
pub record WriteEnv : Type 0 where
  pub ctx_done : Bool
  pub has_fetch_time : Bool
  pub io : PartIo
  pub dir : String

unfoldable pub write_match : WriteEnv → String → Writer → Writer × Bool
write_match e row w =
    let (ps, ok) = write_row w.rows_per_part e.io e.dir row w.match_parts in
    if e.ctx_done
    then (w, false)
    else if e.has_fetch_time
    then (if w.closed then (w, false) else (record w { match_parts = ps }, ok))
    else (w, false)

unfoldable pub write_timeline : WriteEnv → String → Writer → Writer × Bool
write_timeline e row w =
    let (ps, ok) = write_row w.rows_per_part e.io e.dir row w.timeline_parts in
    if e.ctx_done
    then (w, false)
    else if e.has_fetch_time
    then (if w.closed then (w, false) else (record w { timeline_parts = ps }, ok))
    else (w, false)

-- What `WriteLeagueEntries` sees besides: whether the page can be encoded.
unfoldable pub write_league : WriteEnv → Bool → String → Writer → Writer × Bool
write_league e encodes row w =
    let (ps, ok) = write_row w.rows_per_part e.io e.dir row w.league_parts in
    if e.ctx_done
    then (w, false)
    else if e.has_fetch_time
    then (if encodes
        then (if w.closed then (w, false) else (record w { league_parts = ps }, ok))
        else (w, false))
    else (w, false)

unfoldable pub write_static : WriteEnv → String → String → Writer → Writer × Bool
write_static e kind row w =
    let (ps, ok) = write_row w.rows_per_part e.io e.dir row w.static_parts in
    if e.ctx_done
    then (w, false)
    else if str_eq kind ""
    then (w, false)
    else if e.has_fetch_time
    then (if w.closed then (w, false) else (record w { static_parts = ps }, ok))
    else (w, false)

unfoldable pub write_account : WriteEnv → String → Writer → Writer × Bool
write_account e row w =
    let (ps, ok) = write_row w.rows_per_part e.io e.dir row w.account_parts in
    if e.ctx_done
    then (w, false)
    else if e.has_fetch_time
    then (if w.closed then (w, false) else (record w { account_parts = ps }, ok))
    else (w, false)

-- One loop of `finalizeAll`: every part is finalised, whatever the others did.
unfoldable pub finalize_parts : (String → Bool) → Parts → Parts × Bool
finalize_parts succeeds [] = ([], true)
finalize_parts succeeds ((d, p) ∷ ps) =
    let (p', ok) = finalize (succeeds d) p in
    let (ps', ok') = finalize_parts succeeds ps in ((d, p') ∷ ps', ok && ok')

unfoldable pub finalize_all : (String → Bool) → Writer → Writer × Bool
finalize_all succeeds w =
    let (m, m_ok) = finalize_parts succeeds w.match_parts in
    let (t, t_ok) = finalize_parts succeeds w.timeline_parts in
    let (l, l_ok) = finalize_parts succeeds w.league_parts in
    let (s, s_ok) = finalize_parts succeeds w.static_parts in
    let (a, a_ok) = finalize_parts succeeds w.account_parts in
    (
      record w {
        match_parts = m;
        timeline_parts = t;
        league_parts = l;
        static_parts = s;
        account_parts = a;
      },
      m_ok && t_ok && l_ok && s_ok && a_ok,
    )

-- `Flush` and `Close`.
unfoldable pub flush : Bool → (String → Bool) → Writer → Writer × Bool
flush ctx_done succeeds w = if ctx_done then (w, false) else finalize_all succeeds w

unfoldable pub close : (String → Bool) → Writer → Writer × Bool
close succeeds w = finalize_all succeeds (record w { closed = true })
