-- ===== src/Crawl/Worker/Closing.antt =====
-- internal/crawl/worker.go: which rows a batch closes.
use league_of_legends.Prelude.{ℕ, ◌≡◌, sym, ap, ◌∙◌, ◌⊎◌, inl, inr, Bool, String, In, arith, Time}
use league_of_legends.Store.Row.{Row, Queue, done, update_where, owned}
use league_of_legends.Store.Touched.{update_where-In, owned-id}
use league_of_legends.Store.Close.{
  completed, retried, lettered, released, complete_job, retry_job, dead_letter_job, release_job,
}

-- The row `n` is closed.
abbrev pub IsDone : ℕ → Queue → Type 0
IsDone n q = (r : Row) × In r q.rows × (r.id ≡ n) × (r.status ≡ done)

-- `q'` has closed no row that `q` had not, but those that satisfy `P`.
abbrev pub Closes : (ℕ → Type 0) → Queue → Queue → Type 0
Closes P q q' = (n : ℕ) → IsDone n q' → IsDone n q ⊎ P n

-- `q'` has closed no row.
abbrev pub Quiet : Queue → Queue → Type 0
Quiet q q' = (n : ℕ) → IsDone n q' → IsDone n q

pub update_where-Quiet :
    (p : Row → Bool) (f : Row → Row) (q : Queue)
    → ((r : Row) → (f r).status ≡ done → (r.status ≡ done) × ((f r).id ≡ r.id))
    → Quiet q (record q { rows = update_where p f q.rows })
update_where-Quiet p f q h n (r', m, i, d) =
    let (r, k, c) = update_where-In p f r' q.rows m in
    elim c [
      | inl e ↦ (r, k, ap (λ x. x.id) (sym e) ∙ i, ap (λ x. x.status) (sym e) ∙ d)
      | inr s ↦
          let (was, same_id) = h r (ap (λ x. x.status) (sym s.1) ∙ d) in
          (r, k, sym same_id ∙ ap (λ x. x.id) (sym s.1) ∙ i, was)
    ]

pub retry_job-Quiet :
    (id : ℕ) (t : Time) (cause : String) (q : Queue) → Quiet q (retry_job id t cause q)
unfolding retry_job retried
retry_job-Quiet id t cause q = update_where-Quiet _ _ q (λ r e. ground arith)

pub dead_letter_job-Quiet :
    (id : ℕ) (t : Time) (cause : String) (q : Queue) → Quiet q (dead_letter_job id t cause q)
unfolding dead_letter_job lettered
dead_letter_job-Quiet id t cause q = update_where-Quiet _ _ q (λ r e. ground arith)

pub release_job-Quiet :
    (id : ℕ) (t : Time) (cause : String) (q : Queue) → Quiet q (release_job id t cause q)
unfolding release_job released
release_job-Quiet id t cause q = update_where-Quiet _ _ q (λ r e. ground arith)

pub complete_job-Closes : (id : ℕ) (q : Queue) → Closes (λ n. id ≡ n) q (complete_job id q)
unfolding complete_job completed
complete_job-Closes id q n (r', m, i, d) =
    let (r, k, c) = update_where-In (owned id) completed r' q.rows m in
    elim c [
      | inl e ↦ inl (r, k, ap (λ x. x.id) (sym e) ∙ i, ap (λ x. x.status) (sym e) ∙ d)
      | inr s ↦ inr (sym (owned-id id r s.0) ∙ ap (λ x. x.id) (sym s.1) ∙ i)
    ]
