-- ===== src/Raw/Safety.antt =====
-- internal/raw/writer.go: what the archive holds after calls of the writer.
use league_of_legends.Prelude.{
  ◌≡◌, refl, Bool, true, false, if◌then◌else◌, String, arith, str_eq, if_both, both,
}
use league_of_legends.Raw.Writer.{
  Writer, WriteEnv, write_match, write_timeline, write_league, write_static, write_account,
  finalize_all, flush,
}
use league_of_legends.Raw.Durable.{
  Published, Stored, write_row-row, write_row-Stored, write_row-grows, finalize_parts-grows,
  finalize_parts-Published,
}

-- The match and the timeline `id`, on disk under their final name or in an open part.
abbrev pub MatchPublished : String → Writer → Type 0
MatchPublished id w = Published id w.match_parts

abbrev pub MatchStored : String → Writer → Type 0
MatchStored id w = Stored id w.match_parts

abbrev pub TimelinePublished : String → Writer → Type 0
TimelinePublished id w = Published id w.timeline_parts

abbrev pub TimelineStored : String → Writer → Type 0
TimelineStored id w = Stored id w.timeline_parts

pub finalize_all-published :
    (ok : String → Bool) (w : Writer)
    → (finalize_all ok w).1 ≡ true
    → ((id : String) → MatchStored id w → MatchPublished id (finalize_all ok w).0)
      × ((id : String) → TimelineStored id w → TimelinePublished id (finalize_all ok w).0)
unfolding finalize_all
finalize_all-published ok w e =
    let (m, t) = both (both (both (both e).0).0).0 in
    (
      λ id. finalize_parts-Published ok id w.match_parts m,
      λ id. finalize_parts-Published ok id w.timeline_parts t,
    )

-- A flush that returns no error has published every match and every timeline that was in an open
-- part or published before.
pub flush-published :
    (ctx_done : Bool) (ok : String → Bool) (w : Writer)
    → (flush ctx_done ok w).1 ≡ true
    → ((id : String) → MatchStored id w → MatchPublished id (flush ctx_done ok w).0)
      × ((id : String) → TimelineStored id w → TimelinePublished id (flush ctx_done ok w).0)
unfolding flush
flush-published true ok w e = ground arith
flush-published false ok w e = finalize_all-published ok w e

-- `WriteMatch` and `WriteTimeline` write only when the context lives, the fetch time is set, and the
-- writer is open; otherwise the writer is left as it is.
refusals :
    (P : Writer × Bool → Type 0) (e : WriteEnv) (w : Writer) (written : Writer × Bool)
    → P (w, false)
    → P written
    → P (
        if e.ctx_done
        then (w, false)
        else if e.has_fetch_time
        then (if w.closed then (w, false) else written)
        else (w, false))
refusals P e w written p q =
    if_both P e.ctx_done p (if_both P e.has_fetch_time (if_both P w.closed p q) p)

-- A match that `WriteMatch` returned no error for is in an open part or published.
pub write_match-stored :
    (e : WriteEnv) (row : String) (w : Writer)
    → (write_match e row w).1 ≡ true
    → MatchStored row (write_match e row w).0
unfolding write_match
write_match-stored e row w =
    refusals (λ r. r.1 ≡ true → MatchStored row r.0) e w _ (λ h. ground arith)
      (write_row-row w.rows_per_part e.io e.dir row w.match_parts)

pub write_timeline-stored :
    (e : WriteEnv) (row : String) (w : Writer)
    → (write_timeline e row w).1 ≡ true
    → TimelineStored row (write_timeline e row w).0
unfolding write_timeline
write_timeline-stored e row w =
    refusals (λ r. r.1 ≡ true → TimelineStored row r.0) e w _ (λ h. ground arith)
      (write_row-row w.rows_per_part e.io e.dir row w.timeline_parts)

-- If no part fails to be finalised, a write of a match keeps every match that was stored.
pub write_match-keeps :
    (e : WriteEnv) (row id : String) (w : Writer)
    → e.io.finalizes ≡ true
    → MatchStored id w
    → MatchStored id (write_match e row w).0
unfolding write_match
write_match-keeps e row id w f m =
    refusals (λ r. MatchStored id r.0) e w _ m
      (write_row-Stored w.rows_per_part e.io e.dir row id w.match_parts f m)

-- A write of a timeline leaves the matches alone.
pub write_timeline-matches :
    (e : WriteEnv) (row : String) (w : Writer)
    → (write_timeline e row w).0.match_parts ≡ w.match_parts
unfolding write_timeline
write_timeline-matches e row w = refusals (λ r. r.0.match_parts ≡ w.match_parts) e w _ refl refl

-- The same for timelines.
pub write_timeline-keeps :
    (e : WriteEnv) (row id : String) (w : Writer)
    → e.io.finalizes ≡ true
    → TimelineStored id w
    → TimelineStored id (write_timeline e row w).0
unfolding write_timeline
write_timeline-keeps e row id w f m =
    refusals (λ r. TimelineStored id r.0) e w _ m
      (write_row-Stored w.rows_per_part e.io e.dir row id w.timeline_parts f m)

pub write_match-timelines :
    (e : WriteEnv) (row : String) (w : Writer)
    → (write_match e row w).0.timeline_parts ≡ w.timeline_parts
unfolding write_match
write_match-timelines e row w =
    refusals (λ r. r.0.timeline_parts ≡ w.timeline_parts) e w _ refl refl

-- One call takes no match and no timeline out of the published parts.
write_match-grows :
    (e : WriteEnv) (row id : String) (w : Writer)
    → MatchPublished id w
    → MatchPublished id (write_match e row w).0
unfolding write_match
write_match-grows e row id w m =
    refusals (λ r. MatchPublished id r.0) e w _ m
      (write_row-grows w.rows_per_part e.io e.dir row id w.match_parts m)

finalize_all-grows :
    (ok : String → Bool) (id : String) (w : Writer)
    → MatchPublished id w
    → MatchPublished id (finalize_all ok w).0
unfolding finalize_all
finalize_all-grows ok id w m = finalize_parts-grows ok id w.match_parts m

pub flush-grows :
    (ctx_done : Bool) (ok : String → Bool) (id : String) (w : Writer)
    → MatchPublished id w
    → MatchPublished id (flush ctx_done ok w).0
unfolding flush
flush-grows true ok id w m = m
flush-grows false ok id w m = finalize_all-grows ok id w m

-- The other writes leave the matches alone.
pub other_writes-matches :
    (e : WriteEnv) (encodes : Bool) (kind row : String) (w : Writer)
    → ((write_league e encodes row w).0.match_parts ≡ w.match_parts)
      × ((write_static e kind row w).0.match_parts ≡ w.match_parts)
      × ((write_account e row w).0.match_parts ≡ w.match_parts)
unfolding write_league write_static write_account
other_writes-matches e encodes kind row w =
    let P : Writer × Bool → Type 0 = λ r. r.0.match_parts ≡ w.match_parts in
    (
      if_both P e.ctx_done refl
          (if_both P e.has_fetch_time (if_both P encodes (if_both P w.closed refl refl) refl) refl),
      if_both P e.ctx_done refl (
          if_both P (str_eq kind "") refl
            (if_both P e.has_fetch_time (if_both P w.closed refl refl) refl)),
      refusals P e w _ refl refl,
    )

pub other_writes-timelines :
    (e : WriteEnv) (encodes : Bool) (kind row : String) (w : Writer)
    → ((write_league e encodes row w).0.timeline_parts ≡ w.timeline_parts)
      × ((write_static e kind row w).0.timeline_parts ≡ w.timeline_parts)
      × ((write_account e row w).0.timeline_parts ≡ w.timeline_parts)
unfolding write_league write_static write_account
other_writes-timelines e encodes kind row w =
    let P : Writer × Bool → Type 0 = λ r. r.0.timeline_parts ≡ w.timeline_parts in
    (
      if_both P e.ctx_done refl
          (if_both P e.has_fetch_time (if_both P encodes (if_both P w.closed refl refl) refl) refl),
      if_both P e.ctx_done refl (
          if_both P (str_eq kind "") refl
            (if_both P e.has_fetch_time (if_both P w.closed refl refl) refl)),
      refusals P e w _ refl refl,
    )
