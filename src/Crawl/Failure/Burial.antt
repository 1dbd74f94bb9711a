-- ===== src/Crawl/Failure/Burial.antt =====
-- internal/crawl/worker.go: when a failed fetch costs a row its place in the queue, and when it does
-- not even cost it an attempt.
use league_of_legends.Prelude.{
  ℕ, ◌≤◌, ◌≡◌, refl, sym, ap, ◌∙◌, subst, ◌⊎◌, inl, inr, Bool, true, false, Option, none, some, leb,
  ◌==◌, ==_iff, ◌+ℤ◌, String, In, arith, if_both, Time, Duration, if_cases, Never, ◌≢◌, ◌||◌,
}
use league_of_legends.Store.Row.{Row, Queue, QueueItem, dead, update_where, owned}
use league_of_legends.Store.Touched.{update_where-In, owned-id}
use league_of_legends.Store.Close.{
  retried, lettered, released, retry_job, dead_letter_job, release_job,
}
use league_of_legends.Crawl.Failure.{
  FetchError, FailureClass, transient, limited, key_refused, gone, bad_request, cancelled, Policy,
  HandlerEnv, call, retry_detached, requeue_after, requeue, release, dead_letter, retry_or_bury,
  handle_class, classify, classify_status, handle_fetch_failure,
}

-- The row `n` is retired.
abbrev pub IsDead : ℕ → Queue → Type 0
IsDead n q = (r : Row) × In r q.rows × (r.id ≡ n) × (r.status ≡ dead)

-- A handler's return retires no row but those that satisfy `P`.
abbrev Buries : (ℕ → Type 0) → Queue → Queue × Bool → Type 0
Buries P q r = (n : ℕ) → IsDead n r.0 → IsDead n q ⊎ P n

-- An UPDATE of the row that a worker holds retires it, if `f` retires rows, and no other.
update-Buries :
    (P : ℕ → Type 0) (id : ℕ) (f : Row → Row) (q : Queue) (err : Bool)
    → ((r : Row) → (f r).id ≡ r.id)
    → ((r : Row) → owned id r ≡ true → (f r).status ≡ dead → P id)
    → Buries P q (record q { rows = update_where (owned id) f q.rows }, err)
update-Buries P id f q err same h n (r', m, i, d) =
    let (r, k, c) = update_where-In (owned id) f r' q.rows m in
    elim c [
      | inl e ↦ inl (r, k, ap (λ x. x.id) (sym e) ∙ i, ap (λ x. x.status) (sym e) ∙ d)
      | inr s ↦
          let it = sym (owned-id id r s.0) ∙ sym (same r) ∙ ap (λ x. x.id) (sym s.1) ∙ i in
          inr (subst P it (h r s.0 (ap (λ x. x.status) (sym s.1) ∙ d)))
    ]

module _ (P : ℕ → Type 0) (o : Policy) (e : HandlerEnv) (item : QueueItem) (cause : String)
    (q : Queue) where
  call-Buries : (q' : Queue) → Buries P q (q', false) → Buries P q (call e.store_ok q' q)
  call-Buries q' h = if_both (Buries P q) e.store_ok h (λ n d. inl d)

  retry_job-Buries : (t : Time) (err : Bool) → Buries P q (retry_job item.id t cause q, err)
  unfolding retry_job retried
  retry_job-Buries t err = update-Buries P item.id _ q err (λ r. refl) (λ r _ d. ground arith)

  retry_detached-Buries : Buries P q (retry_detached e item cause q)
  unfolding retry_detached
  retry_detached-Buries =
      if_both (λ q'. Buries P q (q', false)) e.store_ok (retry_job-Buries e.now false)
        (λ n d. inl d)

  requeue_after-Buries : (delay : Duration) → Buries P q (requeue_after e item cause delay q)
  unfolding requeue_after
  requeue_after-Buries delay =
      if_both (Buries P q) e.stopped retry_detached-Buries
        (call-Buries _ (retry_job-Buries (e.now +ℤ delay) false))

  release-Buries : Buries P q (release o e item cause q)
  unfolding release requeue release_job released
  release-Buries =
      if_both (Buries P q) e.can_release
        (call-Buries _ (update-Buries P item.id _ q false (λ r. refl) (λ r _ d. ground arith)))
        (requeue_after-Buries _)

  dead_letter-Buries : P item.id → Buries P q (dead_letter e item cause q)
  unfolding dead_letter dead_letter_job lettered
  dead_letter-Buries p = call-Buries _ (update-Buries P item.id _ q false (λ r. refl) (λ r _ _. p))

  retry_or_bury-Buries :
      (e.stopped ≡ false → o.max_attempts ≤ item.attempts → P item.id)
      → Buries P q (retry_or_bury o e item cause q)
  unfolding retry_or_bury
  retry_or_bury-Buries p =
      if_cases (Buries P q) e.stopped (λ _. retry_detached-Buries)
        (λ runs.
          if_cases (Buries P q) (leb o.max_attempts item.attempts)
            (λ spent. dead_letter-Buries (p runs (ground arith))) (λ _. requeue_after-Buries _))

-- The statuses that say that a payload can never be had.
abbrev pub IsPermanent : Option ℕ → Type 0
IsPermanent none = Never
IsPermanent (some s) = ((s ≡ 404) ⊎ (s ≡ 410)) ⊎ ((s ≡ 400) ⊎ (s ≡ 422))

-- Why a failed fetch may retire its row: the status is permanent, or the attempts are spent, the run
-- goes on, and it is not the key that was refused.
abbrev pub IsHopeless : Policy → HandlerEnv → QueueItem → FetchError → Type 0
IsHopeless o e item err =
    IsPermanent err.status
    ⊎ (o.max_attempts ≤ item.attempts) × (e.stopped ≡ false) × (classify err ≢ key_refused)

one_of : (s a b : ℕ) → (s == a || s == b) ≡ true → (s ≡ a) ⊎ (s ≡ b)
one_of s a b h = ground (arith, ==_iff s a, ==_iff s b)

-- What is never worth another attempt.
abbrev IsFinal : FailureClass → Type 0
IsFinal c = (c ≡ gone) ⊎ (c ≡ bad_request)

classify_status-IsPermanent : (s : ℕ) → IsFinal (classify_status s) → IsPermanent (some s)
unfolding classify_status
classify_status-IsPermanent s =
    let P : FailureClass → Type 0 = λ c. IsFinal c → IsPermanent (some s) in
    if_cases P (s == 404 || s == 410) (λ h _. inl (one_of s 404 410 h))
      (λ _.
        if_cases P (s == 400 || s == 422) (λ h _. inr (one_of s 400 422 h))
          (λ _.
            if_both P (s == 401 || s == 403) (λ c. ground arith)
              (if_both P (s == 429) (λ c. ground arith) (λ c. ground arith))))

of_status :
    (o : Option ℕ)
    → IsFinal (elim o [ none ↦ transient | some s ↦ classify_status s ])
    → IsPermanent o
of_status none c = ground arith
of_status (some s) c = classify_status-IsPermanent s c

classify-IsPermanent : (err : FetchError) → IsFinal (classify err) → IsPermanent err.status
unfolding classify
classify-IsPermanent err =
    let P : FailureClass → Type 0 = λ c. IsFinal c → IsPermanent err.status in
    if_both P err.rate_limited (λ c. ground arith)
      (if_both P err.context (λ c. ground arith) (of_status err.status))

handle_class-Buries :
    (P : ℕ → Type 0) (c : FailureClass) (o : Policy) (e : HandlerEnv) (item : QueueItem)
    (cause : String) (q : Queue)
    → ((c ≡ gone) ⊎ (c ≡ bad_request) → P item.id)
    → (e.stopped ≡ false → o.max_attempts ≤ item.attempts → c ≢ key_refused → P item.id)
    → Buries P q (handle_class c o e item cause q)
unfolding handle_class
handle_class-Buries P gone o e item cause q p r =
    dead_letter-Buries P o e item cause q (p (inl refl))
handle_class-Buries P bad_request o e item cause q p r =
    dead_letter-Buries P o e item cause q (p (inr refl))
handle_class-Buries P key_refused o e item cause q p r = release-Buries P o e item cause q
handle_class-Buries P transient o e item cause q p r =
    retry_or_bury-Buries P o e item cause q (λ a b. r a b (ground arith))
handle_class-Buries P limited o e item cause q p r =
    retry_or_bury-Buries P o e item cause q (λ a b. r a b (ground arith))
handle_class-Buries P cancelled o e item cause q p r =
    retry_or_bury-Buries P o e item cause q (λ a b. r a b (ground arith))

-- A row that a failed fetch retires is the row of the job, the breaker did not refuse the call, and
-- the error has the status 404, 410, 400 or 422, or else the row had spent its attempts, the run was
-- not stopping, and the key was not refused.
pub handle_fetch_failure-IsDead :
    (o : Policy) (e : HandlerEnv) (item : QueueItem) (err : FetchError) (q : Queue) (n : ℕ)
    → IsDead n (handle_fetch_failure o e item err q).0
    → IsDead n q ⊎ (n ≡ item.id) × (err.circuit_open ≡ false) × IsHopeless o e item err
unfolding handle_fetch_failure
handle_fetch_failure-IsDead o e item err q =
    let P : ℕ → Type 0 =
      λ n. (n ≡ item.id) × (err.circuit_open ≡ false) × IsHopeless o e item err in
    if_cases (Buries P q) err.circuit_open (λ _. release-Buries P o e item err.cause q)
      (λ called.
        handle_class-Buries P (classify err) o e item err.cause q
          (λ c. (refl, called, inl (classify-IsPermanent err c)))
          (λ runs spent paid. (refl, called, inr (spent, runs, paid))))
