-- ===== src/Post/Guards.antt =====
-- internal/post/post.go: what the guarded status changes do to the row of a job.
use ai_social_publisher.Common.{
  ℕ, ◌≡◌, refl, subst, Bool, true, some, arith, ◌==◌, Bool-cases, inl, inr,
}
use ai_social_publisher.Status.{Status, can_transition}
use ai_social_publisher.Rows.{Job, Db}
use ai_social_publisher.Exec.{Env, State, ok}
use ai_social_publisher.Exec.Atomic.{
  Ensures-pure, Ensures-raise, Ensures-if, Ensures-exec, Ensures-query, Ensures-transaction,
  Ensures-bind,
}
use ai_social_publisher.Store.{find_job, put_job, update_job, job_fits, always}
use ai_social_publisher.Post.Advances.{Updated, none_fits, one_fits, update_job-Updated}
use ai_social_publisher.Post.Progress.{select_job-found}
use ai_social_publisher.Post.Jobs.{select_job, with_status, update_status}

-- What an update of one row has done that says it affected that row.
pub record Wrote (id : ℕ) (test : Job → Bool) (f : Job → Job) (a b : Db) : Type 0 where
  pub row : Job
  pub found : find_job id a ≡ some row
  pub fits : test row ≡ true
  pub wrote : b ≡ put_job (f row) a

pub update_job-Wrote :
    (id : ℕ) (test : Job → Bool) (f : Job → Job) (a b : Db) (n : ℕ)
    → update_job id test f a ≡ ok (n, b)
    → (n == 1) ≡ true
    → Wrote id test f a b
update_job-Wrote id test f a b n e one = go (update_job-Updated id test f a b n e)
  where
    go : Updated id test f a b n → Wrote id test f a b
    go (none_fits z _) = absurd (ground arith)
    go (one_fits j found t _ _ same) = record { row = j; found = found; fits = t; wrote = same }

-- An update of a row that was read.
pub update_job-found :
    (id : ℕ) (f : Job → Job) (a b : Db) (n : ℕ) (j : Job)
    → find_job id a ≡ some j
    → update_job id always f a ≡ ok (n, b)
    → b ≡ put_job (f j) a
unfolding update_job
update_job-found id f a b n j found e = elim (Bool-cases (job_fits a (f j))) [
  | inl fits ↦ ground arith
  | inr fits ↦ absurd (ground arith)
]

-- When `UpdateStatus` returns no error, the job existed, `CanTransition` allowed the change, and the
-- tables differ in the status and the update time of that job alone.
pub update_status-changes :
    (id : ℕ) (to : Status) (env : Env) (s : State)
    → (update_status id to env s).0 ≡ ok tt
    → (j : Job) × (now : ℕ) × (find_job id s.db ≡ some j)
      × (can_transition j.status to ≡ true)
      × ((update_status id to env s).1.db ≡ put_job (with_status to now j) s.db)
unfolding update_status
update_status-changes id to env s h =
    let Q : Unit {0} → Db → Type 0 = λ u b.
      (j : Job) × (now : ℕ) × (find_job id s.db ≡ some j)
      × (can_transition j.status to ≡ true)
      × (b ≡ put_job (with_status to now j) s.db) in
    (Ensures-transaction {P = λ d. d ≡ s.db} {Q = Q} _ λ now.
        Ensures-bind (λ j d. (d ≡ s.db) × (find_job id s.db ≡ some j)) _ _
          (Ensures-query (select_job id)
            λ db j p e. (p, subst (λ d. find_job id d ≡ some j) p (select_job-found id db j e)))
          λ j.
            Ensures-if (can_transition j.status to) _ _
              (λ allowed.
                Ensures-bind
                  (λ n d. (find_job id s.db ≡ some j) × (d ≡ put_job (with_status to now j) s.db)) _
                  _
                  (Ensures-exec (update_job id always (with_status to now)) λ a b n p e. (
                    p.1,
                    update_job-found id (with_status to now) s.db b n j p.1 (
                        subst (λ d. update_job id always (with_status to now) d ≡ ok (n, b)) p.0 e),
                  ))
                  λ n. Ensures-pure tt (λ d p. (j, now, p.0, allowed, p.1)))
              (λ _. Ensures-raise _)).at
      env s refl tt h
