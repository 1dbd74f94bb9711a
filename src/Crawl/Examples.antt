-- ===== src/Crawl/Examples.antt =====
-- internal/crawl: the theorems about the worker at a queue of one match.
use league_of_legends.Prelude.{
  ℕ, ◌≡◌, ◌*◌, ◌^◌, ◌/◌, ◌≤◌, refl, pred, min, ◌⊎◌, inl, inr, true, false, [], ◌∷◌, none, some, pos,
  ◌+ℤ◌, ◌≤ℤ◌, min_ℤ, Duration, In, Time, seconds, int64, ◌*ℤ◌, keep, sort_by, insert_by, any, arith,
}
use league_of_legends.Store.Row.{
  pending, claimed, match, QueueItem, Row, Queue, update_where, id_in,
}
use league_of_legends.Store.Claim.{choose, claim, to_item, claim_jobs_of_kind}
use league_of_legends.Store.Close.{
  completed, complete_job, lettered, dead_letter_job, retried, retry_job,
}
use league_of_legends.Raw.Part.{new_part, append, append_open, finalize}
use league_of_legends.Raw.Writer.{write_row, write_match, finalize_parts, finalize_all, flush}
use league_of_legends.Raw.Safety.{MatchPublished}
use league_of_legends.Crawl.Failure.{
  FetchError, Policy, HandlerEnv, classify, classify_status, handle_fetch_failure, handle_class,
  dead_letter, failure_backoff, retry_delay, grow, handle_archive_failure, requeue, requeue_after,
  key_refused,
}
use league_of_legends.Crawl.Failure.Burial.{IsDead, IsHopeless, handle_fetch_failure-IsDead}
use league_of_legends.Crawl.Failure.Refund.{Waits, handle_fetch_failure-refunds}
use league_of_legends.Crawl.Failure.Delay.{failure_backoff_lem, retry_delay_bounds}
use league_of_legends.Crawl.Failure.Suspended.{fetch_error, suspended-waits}
use league_of_legends.Riot.Client.{ClientError, client_blocked, err}
use league_of_legends.Riot.Client.Perform.{perform}
use league_of_legends.Riot.Client.Examples.{
  answered, options, client, start, throttled, throttled-Suspends,
}
use league_of_legends.Crawl.Worker.{
  World, JobEnv, summary, process_match, process_job, retain_match, process_batch, DrainEnv,
  complete_each, settle_batch, abandon_retained, abandon_each, drain_queue,
}
use league_of_legends.Crawl.Worker.Closing.{IsDone}
use league_of_legends.Crawl.Worker.Durable.{drain_queue-Durable}
use league_of_legends.Crawl.Worker.Done.{PublishedRow, drain_queue-IsDone}

abbrev now : Time
now = seconds 100

abbrev row : Row
row = record {
  id = 3;
  match_id = "EUW1_1";
  kind = match;
  priority = pos 100;
  attempts = 0;
  not_before = pos 0;
  claimed_at = none;
  status = pending;
  last_cause = none;
  revivals = 0;
}

abbrev queue : Queue
queue = record { rows = row ∷ []; next_id = 4 }

abbrev policy : Policy
policy = record { max_attempts = 3; retry_base = seconds 2; retry_max = seconds 60 }

abbrev handler : HandlerEnv
handler = record {
  now = now;
  stopped = false;
  random = 5;
  random' = 7;
  blocked = none;
  can_release = true;
  store_ok = true;
}

abbrev pub job_env : JobEnv
job_env = record {
  stopped = false;
  knows = true;
  complete_ok = true;
  provenance = summary;
  fetch = none;
  write = record {
    ctx_done = false;
    has_fetch_time = true;
    io = record { opens = true; encodes = true; finalizes = true };
    dir = "2026-01-01";
  };
  upsert_ok = true;
  handler = handler;
}

abbrev drain_env : DrainEnv
drain_env = record {
  locked = λ n. false;
  now = now;
  limit = pos 20;
  claim_ok = true;
  jobs = λ item. job_env;
  stopped = false;
  flush_done = false;
  finalizes = λ dir. true;
  flush_cause = "archive flush: disk full";
  complete_ok = λ item. true;
}

abbrev world : World
world = record {
  queue = queue;
  matches = [];
  writer = record {
    rows_per_part = 100;
    closed = false;
    match_parts = [];
    timeline_parts = [];
    league_parts = [];
    static_parts = [];
    account_parts = [];
  };
}

drains : (drain_queue policy drain_env match world).1 ≡ false
unfolding drain_queue claim_jobs_of_kind claim choose id_in update_where to_item keep sort_by
    insert_by any process_batch process_job process_match retain_match settle_batch flush
    finalize_all finalize_parts finalize complete_each write_match write_row append append_open
    new_part
drains = refl

closed_row : IsDone 3 (drain_queue policy drain_env match world).0.queue
unfolding drain_queue claim_jobs_of_kind claim choose id_in update_where to_item keep sort_by
    insert_by any process_batch process_job process_match retain_match settle_batch flush
    finalize_all finalize_parts finalize complete_each complete_job completed write_match write_row
    append append_open new_part
closed_row = (_, inl refl, refl, refl)

known_match : In "EUW1_1" (drain_queue policy drain_env match world).0.matches
unfolding drain_queue claim_jobs_of_kind claim choose id_in update_where to_item keep sort_by
    insert_by any process_batch process_job process_match retain_match settle_batch flush
    finalize_all finalize_parts finalize complete_each complete_job completed write_match write_row
    append append_open new_part
known_match = inl refl

drain_queue-Durable_example :
    MatchPublished "EUW1_1" (drain_queue policy drain_env match world).0.writer
drain_queue-Durable_example =
    drain_queue-Durable policy drain_env match world (λ item. refl) (λ id m. elim m [ ]) drains
      "EUW1_1" known_match

drain_queue-IsDone_example :
    IsDone 3 queue
    ⊎ PublishedRow
        (claim_jobs_of_kind drain_env.locked match drain_env.limit drain_env.now queue).1
        (drain_queue policy drain_env match world).0
        3
drain_queue-IsDone_example =
    drain_queue-IsDone policy drain_env match world (λ item. refl) (λ id m. elim m [ ]) drains 3
      closed_row

-- A pass whose flush fails, and the next pass once the disk is well: the row is closed, and the
-- archive holds nothing.
abbrev full_disk : DrainEnv
full_disk = record drain_env { finalizes = λ dir. false }

abbrev next_pass : DrainEnv
next_pass = record drain_env { now = seconds 1000 }

abbrev after : World
after = (drain_queue policy next_pass match (drain_queue policy full_disk match world).0).0

closes_after_failed_flush : IsDone 3 after.queue
unfolding drain_queue claim_jobs_of_kind claim choose id_in update_where to_item keep sort_by
    insert_by any process_batch process_job process_match retain_match settle_batch flush
    finalize_all finalize_parts finalize complete_each complete_job completed write_match write_row
    append append_open new_part abandon_retained abandon_each handle_archive_failure requeue
    requeue_after retry_delay failure_backoff grow retry_job retried int64 ◌*ℤ◌ ◌+ℤ◌
closes_after_failed_flush = (_, inl refl, refl, refl)

holds_nothing :
    after.writer.match_parts
    ≡ ("2026-01-01", record { open_rows = none; rows = 1; published = [] }) ∷ []
unfolding drain_queue claim_jobs_of_kind claim choose id_in update_where to_item keep sort_by
    insert_by any process_batch process_job process_match retain_match settle_batch flush
    finalize_all finalize_parts finalize complete_each complete_job completed write_match write_row
    append append_open new_part abandon_retained abandon_each handle_archive_failure requeue
    requeue_after retry_delay failure_backoff grow retry_job retried int64 ◌*ℤ◌ ◌+ℤ◌
holds_nothing = refl

abbrev claimed_queue : Queue
claimed_queue = record { rows = claim now row ∷ []; next_id = 4 }

abbrev item : QueueItem
item = record {
  id = 3;
  match_id = "EUW1_1";
  kind = "match";
  priority = pos 100;
  attempts = 1;
  not_before = pos 0;
  claimed_at = now;
  status = claimed;
}

abbrev not_found : FetchError
not_found = record {
  circuit_open = false;
  rate_limited = false;
  context = false;
  status = some 404;
  cause = "status 404";
}

abbrev refused : FetchError
refused = record not_found { status = some 403; cause = "status 403" }

gone_row : IsDead 3 (handle_fetch_failure policy handler item not_found claimed_queue).0
unfolding handle_fetch_failure handle_class classify classify_status dead_letter dead_letter_job
    lettered update_where claim
gone_row = (_, inl refl, refl, refl)

handle_fetch_failure-IsDead_example :
    IsDead 3 claimed_queue
    ⊎ (item.id ≡ item.id)
      × (not_found.circuit_open ≡ false)
      × IsHopeless policy handler item not_found
handle_fetch_failure-IsDead_example =
    handle_fetch_failure-IsDead policy handler item not_found claimed_queue 3 gone_row

is_refused : classify refused ≡ key_refused
unfolding classify classify_status
is_refused = refl

handle_fetch_failure-refunds_example :
    Waits 3
      (now +ℤ retry_delay policy 5 1)
      0
      (handle_fetch_failure policy handler item refused claimed_queue).0
handle_fetch_failure-refunds_example =
    handle_fetch_failure-refunds policy handler item refused claimed_queue row now (inr is_refused)
      refl refl refl (inl refl)

failure_backoff_lem_example :
    failure_backoff policy 4 ≡ pos (min (2_000_000_000 * 2 ^ pred 4) 60_000_000_000)
failure_backoff_lem_example =
    failure_backoff_lem policy 2_000_000_000 60_000_000_000 4 refl refl (omega arith) (omega arith)

retry_delay_bounds_example :
    (k : ℕ) × (retry_delay policy 5 3 ≡ pos k)
    × (min (2_000_000_000 * 2 ^ pred 3) 60_000_000_000 / 2 ≤ k)
    × (k ≤ min (2_000_000_000 * 2 ^ pred 3) 60_000_000_000)
retry_delay_bounds_example =
    retry_delay_bounds policy 2_000_000_000 60_000_000_000 3 5 refl refl (omega arith) (omega arith)

abbrev held : HandlerEnv
held = record handler {
  now = start;
  blocked = some (client_blocked (perform options throttled false client).client start);
}

suspended-waits_example :
    (x : ClientError) × (delay : Duration) × ((perform options throttled false client).result
      ≡ err x)
    × (min_ℤ (seconds 120) (seconds 300) ≤ℤ delay)
    × (handle_fetch_failure policy held item (fetch_error "limited" x) queue
        ≡ (retry_job item.id (start +ℤ delay) "limited" queue, false))
suspended-waits_example =
    suspended-waits options throttled false client (answered 429 (seconds 120)) throttled-Suspends
      policy held item "limited" queue (omega arith) (omega arith) refl refl (omega arith) refl refl
