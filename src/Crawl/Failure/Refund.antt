-- ===== src/Crawl/Failure/Refund.antt =====
-- internal/crawl/worker.go: a refusal that is not the row's fault costs the row nothing.
use league_of_legends.Prelude.{
  ℕ, ◌≡◌, refl, subst, ◌⊎◌, inl, inr, Bool, true, List, [], ◌∷◌, ◌+ℤ◌, if◌then◌else◌, In, arith,
  if_cases, Time, ==_iff, String,
}
use league_of_legends.Store.Row.{Row, Queue, QueueItem, retry, update_where, owned}
use league_of_legends.Store.Claim.{claim}
use league_of_legends.Store.Close.{released, release_job}
use league_of_legends.Crawl.Failure.{
  FetchError, key_refused, Policy, HandlerEnv, release, handle_class, classify,
  handle_fetch_failure, retry_delay,
}

In-update_where :
    (p : Row → Bool) (f : Row → Row) (r : Row) (rs : List Row)
    → p r ≡ true
    → In r rs
    → In (f r) (update_where p f rs)
unfolding update_where
In-update_where p f r [] h m = elim m [ ]
In-update_where p f r (s ∷ rs) h (inr m) = inr (In-update_where p f r rs h m)
In-update_where p f r (s ∷ rs) h (inl e) = inl (
    subst (λ x. f r ≡ (if p x then f x else x)) e
      (if_cases (λ x. f r ≡ x) (p r) (λ _. refl) (λ k. cc)))

-- The row `n` waits for a retry that is due at `due`, with `attempts` charged.
abbrev pub Waits : ℕ → Time → ℕ → Queue → Type 0
Waits n due attempts q =
    (r : Row) × In r q.rows
    × (r.id ≡ n)
    × (r.status ≡ retry)
    × (r.not_before ≡ due)
    × (r.attempts ≡ attempts)

release-Waits :
    (o : Policy) (e : HandlerEnv) (item : QueueItem) (cause : String) (q : Queue) (r : Row)
    (now : Time)
    → e.can_release ≡ true
    → e.store_ok ≡ true
    → r.id ≡ item.id
    → In (claim now r) q.rows
    → Waits r.id
        (e.now +ℤ retry_delay o e.random item.attempts)
        r.attempts
        (release o e item cause q).0
unfolding release release_job released claim
release-Waits o e item cause q r now can ok i m =
    let held : owned item.id (claim now r) ≡ true = ground (arith, ==_iff r.id item.id) in
    rw (can, ok)
      (
        _,
        In-update_where (owned item.id) _ (claim now r) q.rows held m,
        refl,
        refl,
        refl,
        omega arith,
      )

-- A claimed row whose fetch the open circuit stopped, or whose key was refused, goes back to wait
-- for its retry with as many attempts charged as before the claim, if the store can refund an attempt
-- and its statement succeeds.
pub handle_fetch_failure-refunds :
    (o : Policy) (e : HandlerEnv) (item : QueueItem) (err : FetchError) (q : Queue) (r : Row)
    (now : Time)
    → (err.circuit_open ≡ true) ⊎ (classify err ≡ key_refused)
    → e.can_release ≡ true
    → e.store_ok ≡ true
    → r.id ≡ item.id
    → In (claim now r) q.rows
    → Waits r.id
        (e.now +ℤ retry_delay o e.random item.attempts)
        r.attempts
        (handle_fetch_failure o e item err q).0
unfolding handle_fetch_failure handle_class
handle_fetch_failure-refunds o e item err q r now why can ok i m =
    let back = release-Waits o e item err.cause q r now can ok i m in
    if_cases
      (λ (x : Queue × Bool).
        Waits r.id (e.now +ℤ retry_delay o e.random item.attempts) r.attempts x.0)
      err.circuit_open (λ _. back)
      (λ closed. elim why [ inl open_now ↦ ground arith | inr refused ↦ rw refused back ])
