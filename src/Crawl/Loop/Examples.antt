-- ===== src/Crawl/Loop/Examples.antt =====
-- internal/crawl/worker.go: runs of the worker, and the theorem about their ends.
use league_of_legends.Prelude.{
  ℕ, ◌≡◌, refl, inl, inr, true, false, List, [], ◌∷◌, none, some, pos, ◌-ℤ◌, ◌+ℤ◌, seconds, keep,
  sort_by,
}
use league_of_legends.Store.Row.{match, update_where}
use league_of_legends.Store.Claim.{choose, claim_jobs_of_kind}
use league_of_legends.Store.Close.{reset_stuck_claims, choose_stuck}
use league_of_legends.Store.Frontier.{pick, update_players, claim_frontier}
use league_of_legends.Raw.Part.{finalize}
use league_of_legends.Raw.Writer.{finalize_parts, finalize_all, flush}
use league_of_legends.Crawl.Worker.{drain_queue, process_batch}
use league_of_legends.Crawl.Walk.{Site, answers, EntryEnv, StepEnv, walk_each, walk_frontier, step}
use league_of_legends.Crawl.Loop.{
  LoopOptions, LoopRound, RunEnd, expired, shutdown, key_expired, pause, sleep_then, after_step,
  turn, run_loop, RecoverEnv, recover_claims, run, idle_wait,
}
use league_of_legends.Crawl.Loop.Stop.{Ended, run-ends}
use league_of_legends.Crawl.Examples.{job_env}

abbrev options : LoopOptions
options = record {
  policy = record { max_attempts = 3; retry_base = seconds 2; retry_max = seconds 60 };
  kind = match;
  poll_interval = seconds 10;
  claim_grace = seconds 900;
  key_expiry = seconds 5_000;
}

abbrev recovery : RecoverEnv
recovery = record {
  stopped = false;
  can_reset = true;
  reset_ok = true;
  now = seconds 1_000;
  store_now = seconds 1_000;
}

-- A part with one row in it is open.
abbrev site : Site
site = record {
  world = record {
    queue = record { rows = []; next_id = 1 };
    matches = [];
    writer = record {
      rows_per_part = 5000;
      closed = false;
      match_parts =
          ("2026-01-01", record { open_rows = some ("EUW1_1" ∷ []); rows = 1; published = [] })
          ∷ [];
      timeline_parts = [];
      league_parts = [];
      static_parts = [];
      account_parts = [];
    };
  };
  frontier = [];
}

abbrev entry_env : EntryEnv
entry_env = record {
  stopped = false;
  history = answers [];
  dead_ok = true;
  enqueue_ok = λ n. true;
  mark_ok = true;
  now = seconds 1_000;
}

abbrev step_env : StepEnv
step_env = record {
  drain = record {
    locked = λ id. false;
    now = seconds 1_000;
    limit = pos 20;
    claim_ok = true;
    jobs = λ item. job_env;
    stopped = false;
    flush_done = false;
    finalizes = λ dir. true;
    flush_cause = "";
    complete_ok = λ item. true;
  };
  walk = record {
    text_before = λ a b. false;
    locked = λ puuid. false;
    cooldown = seconds 3_600;
    limit = pos 10;
    now = seconds 1_000;
    claim_ok = true;
    entries = λ e. entry_env;
  };
}

abbrev round_at : ℕ → LoopRound
round_at now = record {
  stopped = false;
  stopped_after = false;
  now = seconds now;
  has_key = true;
  blocked = none;
  sleeps = true;
  random = 5;
  step_env = step_env;
  flush_done = false;
  finalizes = λ dir. true;
}

-- A round with nothing to do, a pause of the pacer that is cut to a minute, and the deadline.
abbrev rounds : List LoopRound
rounds =
    round_at 1_000
    ∷ record (round_at 1_100) { blocked = some (seconds 300, true) }
    ∷ round_at 5_000
    ∷ []

expires : (run options recovery rounds site).1 ≡ some (expired true)
unfolding run recover_claims reset_stuck_claims choose_stuck keep sort_by update_where run_loop turn
    key_expired pause after_step step drain_queue claim_jobs_of_kind choose process_batch
    walk_frontier claim_frontier pick update_players walk_each sleep_then idle_wait shutdown flush
    finalize_all finalize_parts finalize ◌-ℤ◌ ◌+ℤ◌
expires = refl

past_deadline : key_expired options.key_expiry (seconds 5_000) ≡ true
unfolding key_expired
past_deadline = refl

run-ends_example :
    (end : RunEnd) × ((run options recovery rounds site).1 ≡ some end)
    × Ended (run options recovery rounds site).0 end
run-ends_example =
    run-ends options recovery rounds site (round_at 5_000) (inr (inr (inl refl)))
      (inr past_deadline)
