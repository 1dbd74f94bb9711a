-- ===== src/Raw/Lasting.antt =====
-- internal/raw/writer.go: a payload that was written, through the calls that follow, to a flush.
use league_of_legends.Prelude.{◌≡◌, ◌⊎◌, inl, inr, sym, subst, Bool, true, false, String, arith}
use league_of_legends.Raw.Writer.{
  Writer, WriteEnv, write_match, write_timeline, write_league, write_static, write_account, flush,
  close,
}
use league_of_legends.Raw.Durable.{Stored, Published-Stored}
use league_of_legends.Raw.Safety.{
  MatchPublished, MatchStored, TimelinePublished, TimelineStored, finalize_all-published,
  flush-published, write_match-stored, write_match-keeps, write_match-timelines,
  write_timeline-stored, write_timeline-keeps, write_timeline-matches, other_writes-matches,
  other_writes-timelines,
}

-- The calls of the writer, in any order.
pub data Calls (w : Writer) : Writer → Type 0 where
  none_yet : Calls w w
  match_call :
      {w' : Writer} (e : WriteEnv) (row : String) → Calls w w' → Calls w (write_match e row w').0
  timeline_call :
      {w' : Writer} (e : WriteEnv) (row : String) → Calls w w' → Calls w (write_timeline e row w').0
  league_call :
      {w' : Writer} (e : WriteEnv) (encodes : Bool) (row : String)
      → Calls w w'
      → Calls w (write_league e encodes row w').0
  static_call :
      {w' : Writer} (e : WriteEnv) (kind row : String)
      → Calls w w'
      → Calls w (write_static e kind row w').0
  account_call :
      {w' : Writer} (e : WriteEnv) (row : String) → Calls w w' → Calls w (write_account e row w').0
  flush_call :
      {w' : Writer} (ctx_done : Bool) (ok : String → Bool)
      → Calls w w'
      → Calls w (flush ctx_done ok w').0
  close_call : {w' : Writer} (ok : String → Bool) → Calls w w' → Calls w (close ok w').0

-- No part fails to be finalised in the calls: a part that a write fills is, and a flush returns no
-- error unless its context was done.
abbrev pub Finalizes : {w w' : Writer} → Calls w w' → Type 0
Finalizes none_yet = Unit
Finalizes (match_call e row c) = (e.io.finalizes ≡ true) × Finalizes c
Finalizes (timeline_call e row c) = (e.io.finalizes ≡ true) × Finalizes c
Finalizes (league_call e encodes row c) = Finalizes c
Finalizes (static_call e kind row c) = Finalizes c
Finalizes (account_call e row c) = Finalizes c
Finalizes (flush_call {w' = w'} ctx_done ok c) =
    ((ctx_done ≡ true) ⊎ ((flush ctx_done ok w').1 ≡ true)) × Finalizes c
Finalizes (close_call {w' = w'} ok c) = ((close ok w').1 ≡ true) × Finalizes c

flush-stored :
    (ctx_done : Bool) (ok : String → Bool) (w : Writer)
    → (ctx_done ≡ true) ⊎ ((flush ctx_done ok w).1 ≡ true)
    → ((id : String) → MatchStored id w → MatchStored id (flush ctx_done ok w).0)
      × ((id : String) → TimelineStored id w → TimelineStored id (flush ctx_done ok w).0)
unfolding flush
flush-stored true ok w e = (λ id m. m, λ id m. m)
flush-stored false ok w (inl e) = ground arith
flush-stored false ok w (inr e) =
    let (m, t) = flush-published false ok w e in
    (λ id s. Published-Stored id _ (m id s), λ id s. Published-Stored id _ (t id s))

close-stored :
    (ok : String → Bool) (w : Writer)
    → (close ok w).1 ≡ true
    → ((id : String) → MatchStored id w → MatchStored id (close ok w).0)
      × ((id : String) → TimelineStored id w → TimelineStored id (close ok w).0)
unfolding close
close-stored ok w e =
    let (m, t) = finalize_all-published ok (record w { closed = true }) e in
    (λ id s. Published-Stored id _ (m id s), λ id s. Published-Stored id _ (t id s))

match_lasts :
    {w w' : Writer} (id : String) (c : Calls w w')
    → Finalizes c
    → MatchStored id w
    → MatchStored id w'
match_lasts id none_yet f m = m
match_lasts id (match_call {w' = w'} e row c) (f, fs) m =
    write_match-keeps e row id w' f (match_lasts id c fs m)
match_lasts id (timeline_call {w' = w'} e row c) (f, fs) m =
    subst (λ ps. Stored id ps) (sym (write_timeline-matches e row w')) (match_lasts id c fs m)
match_lasts id (league_call {w' = w'} e encodes row c) fs m =
    subst (λ ps. Stored id ps) (sym (other_writes-matches e encodes "" row w').0)
      (match_lasts id c fs m)
match_lasts id (static_call {w' = w'} e kind row c) fs m =
    subst (λ ps. Stored id ps) (sym (other_writes-matches e true kind row w').1)
      (match_lasts id c fs m)
match_lasts id (account_call {w' = w'} e row c) fs m =
    subst (λ ps. Stored id ps) (sym (other_writes-matches e true "" row w').2)
      (match_lasts id c fs m)
match_lasts id (flush_call {w' = w'} d ok c) (f, fs) m =
    (flush-stored d ok w' f).0 id (match_lasts id c fs m)
match_lasts id (close_call {w' = w'} ok c) (f, fs) m =
    (close-stored ok w' f).0 id (match_lasts id c fs m)

timeline_lasts :
    {w w' : Writer} (id : String) (c : Calls w w')
    → Finalizes c
    → TimelineStored id w
    → TimelineStored id w'
timeline_lasts id none_yet f m = m
timeline_lasts id (timeline_call {w' = w'} e row c) (f, fs) m =
    write_timeline-keeps e row id w' f (timeline_lasts id c fs m)
timeline_lasts id (match_call {w' = w'} e row c) (f, fs) m =
    subst (λ ps. Stored id ps) (sym (write_match-timelines e row w')) (timeline_lasts id c fs m)
timeline_lasts id (league_call {w' = w'} e encodes row c) fs m =
    subst (λ ps. Stored id ps) (sym (other_writes-timelines e encodes "" row w').0)
      (timeline_lasts id c fs m)
timeline_lasts id (static_call {w' = w'} e kind row c) fs m =
    subst (λ ps. Stored id ps) (sym (other_writes-timelines e true kind row w').1)
      (timeline_lasts id c fs m)
timeline_lasts id (account_call {w' = w'} e row c) fs m =
    subst (λ ps. Stored id ps) (sym (other_writes-timelines e true "" row w').2)
      (timeline_lasts id c fs m)
timeline_lasts id (flush_call {w' = w'} d ok c) (f, fs) m =
    (flush-stored d ok w' f).1 id (timeline_lasts id c fs m)
timeline_lasts id (close_call {w' = w'} ok c) (f, fs) m =
    (close-stored ok w' f).1 id (timeline_lasts id c fs m)

-- A match that `WriteMatch` returned no error for is published by any later flush that returns no
-- error, whatever calls of the writer come in between and whichever of them fail, as long as none
-- fails to finalise a part.
pub write_match-flush :
    (e : WriteEnv) (row : String) (w : Writer) {w' : Writer} (c : Calls (write_match e row w).0 w')
    (ctx_done : Bool) (ok : String → Bool)
    → (write_match e row w).1 ≡ true
    → Finalizes c
    → (flush ctx_done ok w').1 ≡ true
    → MatchPublished row (flush ctx_done ok w').0
write_match-flush e row w {w'} c ctx_done ok h fs f =
    (flush-published ctx_done ok w' f).0 row (match_lasts row c fs (write_match-stored e row w h))

-- A timeline that `WriteTimeline` returned no error for is published by any later flush that returns
-- no error, whatever calls of the writer come in between and whichever of them fail, as long as none
-- fails to finalise a part.
pub write_timeline-flush :
    (e : WriteEnv) (row : String) (w : Writer) {w' : Writer}
    (c : Calls (write_timeline e row w).0 w') (ctx_done : Bool) (ok : String → Bool)
    → (write_timeline e row w).1 ≡ true
    → Finalizes c
    → (flush ctx_done ok w').1 ≡ true
    → TimelinePublished row (flush ctx_done ok w').0
write_timeline-flush e row w {w'} c ctx_done ok h fs f =
    (flush-published ctx_done ok w' f).1 row
      (timeline_lasts row c fs (write_timeline-stored e row w h))
