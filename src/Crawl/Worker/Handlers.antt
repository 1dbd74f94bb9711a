-- ===== src/Crawl/Worker/Handlers.antt =====
-- internal/crawl/worker.go: the handlers of a failed row close no row.
use league_of_legends.Prelude.{Bool, false, List, [], ◌∷◌, leb, ◌+ℤ◌, String, if_both, Duration}
use league_of_legends.Store.Row.{Queue, QueueItem}
use league_of_legends.Crawl.Failure.{
  FetchError, FailureClass, transient, limited, key_refused, gone, bad_request, cancelled, Policy,
  HandlerEnv, call, retry_detached, requeue_after, requeue, release, dead_letter, retry_or_bury,
  handle_class, classify, handle_fetch_failure, handle_archive_failure,
}
use league_of_legends.Crawl.Worker.Closing.{
  Quiet, retry_job-Quiet, dead_letter_job-Quiet, release_job-Quiet,
}
use league_of_legends.Crawl.Worker.{release_unstarted}

-- What a handler returns closes no row of the queue that it was given.
abbrev pub Leaves : Queue → Queue × Bool → Type 0
Leaves q r = Quiet q r.0

call-Leaves : (ok : Bool) (q q' : Queue) → Quiet q q' → Leaves q (call ok q' q)
call-Leaves ok q q' h = if_both (Leaves q) ok h (λ n d. d)

pub dead_letter-Leaves :
    (e : HandlerEnv) (item : QueueItem) (cause : String) (q : Queue)
    → Leaves q (dead_letter e item cause q)
unfolding dead_letter
dead_letter-Leaves e item cause q =
    call-Leaves e.store_ok q _ (dead_letter_job-Quiet item.id e.now cause q)

pub retry_detached-Leaves :
    (e : HandlerEnv) (item : QueueItem) (cause : String) (q : Queue)
    → Leaves q (retry_detached e item cause q)
unfolding retry_detached
retry_detached-Leaves e item cause q =
    if_both (Quiet q) e.store_ok (retry_job-Quiet item.id e.now cause q) (λ n d. d)

pub requeue_after-Leaves :
    (e : HandlerEnv) (item : QueueItem) (cause : String) (delay : Duration) (q : Queue)
    → Leaves q (requeue_after e item cause delay q)
unfolding requeue_after
requeue_after-Leaves e item cause delay q =
    if_both (Leaves q) e.stopped (retry_detached-Leaves e item cause q)
      (call-Leaves e.store_ok q _ (retry_job-Quiet item.id (e.now +ℤ delay) cause q))

requeue-Leaves :
    (o : Policy) (e : HandlerEnv) (item : QueueItem) (cause : String) (q : Queue)
    → Leaves q (requeue o e item cause q)
unfolding requeue
requeue-Leaves o e item cause q = requeue_after-Leaves e item cause _ q

pub release-Leaves :
    (o : Policy) (e : HandlerEnv) (item : QueueItem) (cause : String) (q : Queue)
    → Leaves q (release o e item cause q)
unfolding release
release-Leaves o e item cause q =
    if_both (Leaves q) e.can_release
      (call-Leaves e.store_ok q _ (release_job-Quiet item.id _ cause q))
      (requeue-Leaves o e item cause q)

retry_or_bury-Leaves :
    (o : Policy) (e : HandlerEnv) (item : QueueItem) (cause : String) (q : Queue)
    → Leaves q (retry_or_bury o e item cause q)
unfolding retry_or_bury
retry_or_bury-Leaves o e item cause q =
    if_both (Leaves q) e.stopped (retry_detached-Leaves e item cause q) (
      if_both (Leaves q) (leb o.max_attempts item.attempts) (dead_letter-Leaves e item cause q)
        (requeue_after-Leaves e item cause _ q))

handle_class-Leaves :
    (c : FailureClass) (o : Policy) (e : HandlerEnv) (item : QueueItem) (cause : String) (q : Queue)
    → Leaves q (handle_class c o e item cause q)
unfolding handle_class
handle_class-Leaves gone o e item cause q = dead_letter-Leaves e item cause q
handle_class-Leaves bad_request o e item cause q = dead_letter-Leaves e item cause q
handle_class-Leaves key_refused o e item cause q = release-Leaves o e item cause q
handle_class-Leaves transient o e item cause q = retry_or_bury-Leaves o e item cause q
handle_class-Leaves limited o e item cause q = retry_or_bury-Leaves o e item cause q
handle_class-Leaves cancelled o e item cause q = retry_or_bury-Leaves o e item cause q

pub handle_fetch_failure-Leaves :
    (o : Policy) (e : HandlerEnv) (item : QueueItem) (err : FetchError) (q : Queue)
    → Leaves q (handle_fetch_failure o e item err q)
unfolding handle_fetch_failure
handle_fetch_failure-Leaves o e item err q =
    if_both (Leaves q) err.circuit_open (release-Leaves o e item err.cause q)
      (handle_class-Leaves (classify err) o e item err.cause q)

pub handle_archive_failure-Leaves :
    (o : Policy) (e : HandlerEnv) (item : QueueItem) (cause : String) (q : Queue)
    → Leaves q (handle_archive_failure o e item cause q)
unfolding handle_archive_failure
handle_archive_failure-Leaves o e item cause q =
    if_both (Leaves q) (leb o.max_attempts item.attempts) (dead_letter-Leaves e item cause q)
      (requeue-Leaves o e item cause q)

pub release_unstarted-Quiet :
    (o : Policy) (env : QueueItem → HandlerEnv) (items : List QueueItem) (q : Queue)
    → Quiet q (release_unstarted o env items q)
unfolding release_unstarted
release_unstarted-Quiet o env [] q n d = d
release_unstarted-Quiet o env (item ∷ items) q n d =
    release-Leaves o (record (env item) { stopped = false }) item "" q n
      (release_unstarted-Quiet o env items _ n d)
