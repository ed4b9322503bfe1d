-- ===== src/Post/Claims.antt =====
-- internal/post/post.go: `ClaimStatus` and `ClaimScheduledDue`, by which one worker of several takes
-- a job.
use ai_social_publisher.Common.{
  ℕ, ◌≤◌, ◌≡◌, ◌≢◌, refl, sym, subst, ◌∙◌, Bool, true, false, ◌&&◌, Option, none, some, arith, ◌==◌,
  some_inj,
}
use ai_social_publisher.Status.{Status, Status-discrete, ◌is◌, can_transition, scheduled, approved}
use ai_social_publisher.Rows.{Job, Db}
use ai_social_publisher.Exec.{Env, State, ok, pure, ◌>>=◌, exec_now}
use ai_social_publisher.Exec.Atomic.{
  Ensures, Ensures-pure, Ensures-raise, Ensures-if, Ensures-exec_now, Ensures-bind, Ensures-mono,
}
use ai_social_publisher.Table.{find_by-key}
use ai_social_publisher.Store.{find_job, put_job, update_job}
use ai_social_publisher.Post.Advances.{job_id, find_job-put_job}
use ai_social_publisher.Post.Guards.{Wrote, update_job-Wrote}
use ai_social_publisher.Post.Jobs.{with_status, claim_status}
use ai_social_publisher.Post.Schedule.{is_due, claim_scheduled_due}

abbrev Claimed : ℕ → (Job → Bool) → Status → Db → Bool → Db → Type 0
Claimed id test to a mine b = mine ≡ true → (now : ℕ) × Wrote id test (with_status to now) a b

-- The statement of a claim and what is read off its `RowsAffected`.
claim-Claimed :
    (id : ℕ) (test : Job → Bool) (to : Status) (a : Db)
    → Ensures
        (λ d. d ≡ a)
        (exec_now (λ now. update_job id test (with_status to now)) >>= λ n. pure (n == 1))
        (Claimed id test to a)
claim-Claimed id test to a =
    Ensures-bind (λ n b. (n == 1) ≡ true → (now : ℕ) × Wrote id test (with_status to now) a b) _ _
      (Ensures-exec_now (λ now. update_job id test (with_status to now))
        λ now d b n same e one. (
          now,
          update_job-Wrote id test (with_status to now) a b n
              (subst (λ x. update_job id test (with_status to now) x ≡ ok (n, b)) same e) one,
        ))
      λ n. Ensures-pure (n == 1) (λ d p. p)

-- When `ClaimStatus` answers true, the job stood in the expected status, the change is one that
-- `CanTransition` allows, and the job's row was given the new status, and nothing else was written
-- but its update time.
pub claim_status-takes :
    (id : ℕ) (from to : Status) (env : Env) (s : State)
    → (claim_status id from to env s).0 ≡ ok true
    → (can_transition from to ≡ true)
      × (now : ℕ) × Wrote id
          (λ j. j.status is from)
          (with_status to now)
          s.db
          (claim_status id from to env s).1.db
unfolding claim_status
claim_status-takes id from to env s h =
    let Q : Bool → Db → Type 0 = λ mine b.
      mine ≡ true
      → (can_transition from to ≡ true)
        × (now : ℕ) × Wrote id (λ j. j.status is from) (with_status to now) s.db b in
    (Ensures-if {P = λ d. d ≡ s.db} {Q = Q} (can_transition from to) _ _
        (λ allowed.
          Ensures-mono (λ mine b c one. (allowed, (c one).0, (c one).1))
            (claim-Claimed id (λ j. j.status is from) to s.db))
        (λ _. Ensures-raise _)).at
      env s refl true h refl

changes : (s t : Status) → can_transition s t ≡ true → t is s ≡ false
unfolding can_transition Status-discrete
changes s t h = ground arith

-- When `ClaimStatus` has answered true, a later call for the same job and the same change, by
-- another worker in another environment, does not answer true as long as the tables are the same.
pub claim_status-excludes :
    (id : ℕ) (from to : Status) (env env' : Env) (s t : State)
    → (claim_status id from to env s).0 ≡ ok true
    → t.db ≡ (claim_status id from to env s).1.db
    → (claim_status id from to env' t).0 ≢ ok true
claim_status-excludes id from to env env' s t first same second =
    let (allowed, now, a) = claim_status-takes id from to env s first in
    let (_, _, b) = claim_status-takes id from to env' t second in
    let found : find_job id t.db ≡ some (with_status to now a.row) =
      subst (λ d. find_job id d ≡ some (with_status to now a.row)) (sym (same ∙ a.wrote))
        (find_job-put_job id s.db a.row (with_status to now a.row) a.found
          (find_by-key job_id id s.db.jobs a.row a.found)) in
    let row : with_status to now a.row ≡ b.row = some_inj _ _ (sym found ∙ b.found) in
    let still : to is from ≡ true = subst (λ (j : Job). j.status is from ≡ true) (sym row) b.fits in
    absurd (ground (arith, changes from to allowed))

-- When `ClaimScheduledDue` answers true, the job was SCHEDULED for a time that has come, and it is
-- now APPROVED.
pub claim_scheduled_due-due :
    (id time : ℕ) (env : Env) (s : State)
    → (claim_scheduled_due id time env s).0 ≡ ok true
    → (j : Job) × (at now : ℕ) × (find_job id s.db ≡ some j)
      × (j.status ≡ scheduled)
      × (j.scheduled_publish_at ≡ some at)
      × (at ≤ time)
      × ((claim_scheduled_due id time env s).1.db ≡ put_job (with_status approved now j) s.db)
unfolding claim_scheduled_due can_transition Status-discrete
claim_scheduled_due-due id time env s h =
    let test : Job → Bool = λ j. j.status is scheduled && is_due j.scheduled_publish_at time in
    let (now, w) = (claim-Claimed id test approved s.db).at env s refl true h refl in
    let (at, planned, come) = due_at w.row.scheduled_publish_at (ground (arith, w.fits)) in
    (
      w.row,
      at,
      now,
      w.found,
      is_true w.row.status scheduled (ground (arith, w.fits)),
      planned,
      come,
      w.wrote,
    )
  where
    due_at : (o : Option ℕ) → is_due o time ≡ true → (at : ℕ) × (o ≡ some at) × (at ≤ time)
    due_at none h = absurd (ground arith)
    due_at (some at) h = (at, refl, ground arith)

    is_true : (s t : Status) → s is t ≡ true → s ≡ t
    is_true s t h = ground arith
