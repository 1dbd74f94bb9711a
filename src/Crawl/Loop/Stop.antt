-- ===== src/Crawl/Loop/Stop.antt =====
-- internal/crawl/worker.go: how a run ends.
use league_of_legends.Prelude.{
  ◌≡◌, refl, subst, Bool, true, false, List, [], ◌∷◌, Option, none, some, All, if_both, if_cases,
  option_both, Never, String, arith, ◌⊎◌, inl, inr, In, Duration, true_false,
}
use league_of_legends.Raw.Part.{Part, finalize}
use league_of_legends.Raw.Writer.{Parts, Writer, finalize_parts, finalize_all, flush}
use league_of_legends.Crawl.Walk.{Site, step}
use league_of_legends.Crawl.Loop.{
  LoopOptions, LoopRound, RunEnd, stopped_clean, flush_failed, expired, Running, shutdown, pause,
  Turned, goes_on, ends, stop, sleep_then, after_step, turn, run_loop, RecoverEnv, run, key_expired,
}

-- No part holds rows that are not in the archive under their final name.
abbrev pub IsShut : Parts → Type 0
IsShut ps = All (λ p. p.1.open_rows ≡ none) ps

pub record IsFlushed (w : Writer) : Type 0 where
  pub matches : IsShut w.match_parts
  pub timelines : IsShut w.timeline_parts
  pub leagues : IsShut w.league_parts
  pub statics : IsShut w.static_parts
  pub accounts : IsShut w.account_parts

finalize-shut : (ok : Bool) (p : Part String) → (finalize ok p).0.open_rows ≡ none
unfolding finalize
finalize-shut ok p = ground arith

finalize_parts-IsShut : (ok : String → Bool) (ps : Parts) → IsShut (finalize_parts ok ps).0
unfolding finalize_parts
finalize_parts-IsShut ok [] = tt
finalize_parts-IsShut ok ((d, p) ∷ ps) = (finalize-shut (ok d) p, finalize_parts-IsShut ok ps)

-- A flush that returns no error leaves nothing in an open part.
flush-IsFlushed :
    (done : Bool) (ok : String → Bool) (w : Writer)
    → (flush done ok w).1 ≡ true
    → IsFlushed (flush done ok w).0
unfolding flush finalize_all
flush-IsFlushed true ok w h = ground (arith, h)
flush-IsFlushed false ok w h = record {
  matches = finalize_parts-IsShut ok w.match_parts;
  timelines = finalize_parts-IsShut ok w.timeline_parts;
  leagues = finalize_parts-IsShut ok w.league_parts;
  statics = finalize_parts-IsShut ok w.static_parts;
  accounts = finalize_parts-IsShut ok w.account_parts;
}

-- An end of the run whose flush succeeded leaves the writer flushed.
abbrev pub Ended : Running → RunEnd → Type 0
Ended w stopped_clean = IsFlushed w.site.world.writer
Ended w flush_failed = Unit
Ended w (expired true) = IsFlushed w.site.world.writer
Ended w (expired false) = Unit

abbrev EndedTurn : Turned → Type 0
EndedTurn (goes_on w) = Unit
EndedTurn (ends w e) = Ended w e

shutdown-IsFlushed :
    (r : LoopRound) (w : Running)
    → (shutdown r w).1 ≡ true
    → IsFlushed (shutdown r w).0.site.world.writer
unfolding shutdown
shutdown-IsFlushed r w h = flush-IsFlushed r.flush_done r.finalizes w.site.world.writer h

stop-Ended : (r : LoopRound) (w : Running) → EndedTurn (stop r w)
stop-Ended r w =
    if_cases (λ (e : RunEnd). Ended (shutdown r w).0 e) (shutdown r w).1
      (λ t. shutdown-IsFlushed r w t) (λ f. tt)

sleep_then-Ended : (r : LoopRound) (d : Duration) (w : Running) → EndedTurn (sleep_then r d w)
unfolding sleep_then
sleep_then-Ended r d w = if_both EndedTurn r.sleeps tt (stop-Ended r _)

after_step-Ended :
    (o : LoopOptions) (r : LoopRound) (w : Running) (s : Site) (worked err : Bool)
    → EndedTurn (after_step o r w (s, worked, err))
unfolding after_step
after_step-Ended o r w s worked err =
    if_both EndedTurn err
      (if_both EndedTurn r.stopped_after (stop-Ended r _) (sleep_then-Ended r _ _))
      (if_both EndedTurn worked tt (sleep_then-Ended r _ _))

turn-Ended : (o : LoopOptions) (r : LoopRound) (w : Running) → EndedTurn (turn o r w)
unfolding turn
turn-Ended o r w = if_both EndedTurn r.stopped (stop-Ended r w) (
    if_both EndedTurn (key_expired o.key_expiry r.now)
      (expired-Ended (shutdown r w).1 (shutdown-IsFlushed r w))
      (if_both EndedTurn r.has_key
        (option_both EndedTurn (pause r)
          (after_step-Ended o r w (step o.policy o.kind r.step_env w.site).0
            (step o.policy o.kind r.step_env w.site).1 (step o.policy o.kind r.step_env w.site).2)
          (λ d. sleep_then-Ended r d w))
        (sleep_then-Ended r o.poll_interval w)))
  where
    expired-Ended :
        (ok : Bool)
        → (ok ≡ true → IsFlushed (shutdown r w).0.site.world.writer)
        → Ended (shutdown r w).0 (expired ok)
    expired-Ended true h = h refl
    expired-Ended false h = tt

-- A round that has to end the run: the context is done, or the declared deadline of the key is past.
abbrev pub IsLast : LoopOptions → LoopRound → Type 0
IsLast o r = (r.stopped ≡ true) ⊎ (key_expired o.key_expiry r.now ≡ true)

abbrev EndsTurn : Turned → Type 0
EndsTurn (goes_on w) = Never
EndsTurn (ends w e) = Unit

turn-EndsTurn : (o : LoopOptions) (r : LoopRound) (w : Running) → IsLast o r → EndsTurn (turn o r w)
unfolding turn
turn-EndsTurn o r w h =
    if_cases EndsTurn r.stopped (λ t. tt)
      (λ goes.
        if_cases EndsTurn (key_expired o.key_expiry r.now) (λ t. tt)
          (λ valid. elim h [ inl t ↦ true_false t goes | inr t ↦ true_false t valid ]))

-- What a run has come to: an end, as it should be.
abbrev Finished : Running × Option RunEnd → Type 0
Finished (w, none) = Never
Finished (w, some e) = Ended w e

turned_both :
    (P : Running × Option RunEnd → Type 0) (x : Turned) {f : Running → Running × Option RunEnd}
    → EndedTurn x
    → ((w : Running) → x ≡ goes_on w → P (f w))
    → ((w : Running) (e : RunEnd) → Ended w e → P (w, some e))
    → P (elim x [ goes_on w ↦ f w | ends w e ↦ (w, some e) ])
turned_both P (goes_on w) h p q = p w refl
turned_both P (ends w e) h p q = q w e h

run_loop-Finished :
    (o : LoopOptions) (rounds : List LoopRound) (w : Running) (r : LoopRound)
    → In r rounds
    → IsLast o r
    → Finished (run_loop o rounds w)
unfolding run_loop
run_loop-Finished o [] w r m h = elim m [ ]
run_loop-Finished o (x ∷ rounds) w r (inl e) h =
    turned_both Finished (turn o x w) (turn-Ended o x w)
      (λ w' on.
        let never : Never {0} = subst EndsTurn on (turn-EndsTurn o x w (subst (IsLast o) e h)) in
        elim never [ ])
      (λ w' end done. done)
run_loop-Finished o (x ∷ rounds) w r (inr m) h =
    turned_both Finished (turn o x w) (turn-Ended o x w)
      (λ w' on. run_loop-Finished o rounds w' r m h) (λ w' end done. done)

Finished-end :
    (x : Running × Option RunEnd) → Finished x → (e : RunEnd) × (x.1 ≡ some e) × Ended x.0 e
Finished-end (w, none) h = elim h [ ]
Finished-end (w, some e) h = (e, refl, h)

-- Whatever its rounds see, a run that comes to a round in which its context is done, or the declared
-- deadline of the key is past, has come to an end; and if the end reports no error of the archive, the
-- writer has been flushed: no part is left open with rows in it.
pub run-ends :
    (o : LoopOptions) (e : RecoverEnv) (rounds : List LoopRound) (s : Site) (r : LoopRound)
    → In r rounds
    → IsLast o r
    → (end : RunEnd) × ((run o e rounds s).1 ≡ some end) × Ended (run o e rounds s).0 end
unfolding run
run-ends o e rounds s r m h = Finished-end (run o e rounds s) (run_loop-Finished o rounds _ r m h)
