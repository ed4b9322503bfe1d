-- ===== src/Post/Outcome.antt =====
-- internal/post/post.go: `UpdateStatus` on every branch.
use ai_social_publisher.Common.{
  ℕ, ◌+◌, ◌≡◌, refl, Bool, true, false, Option, none, some, ◌∙◌, if◌then◌else◌,
}
use ai_social_publisher.Status.{Status, can_transition}
use ai_social_publisher.Rows.{Job, Db}
use ai_social_publisher.Errors.{Error, sentinel, job_not_found, check_violation}
use ai_social_publisher.Exec.{
  Env, State, Result, ok, err, M, transaction, query, exec, pure, raise, ◌>>◌, finish, unchanged,
  ◌>>=◌,
}
use ai_social_publisher.Exec.Total.{Reliable}
use ai_social_publisher.Store.{find_job, put_job, update_job, job_fits, always}
use ai_social_publisher.Post.Jobs.{select_job, with_status, refused, update_status}

-- What a status change is meant to do to the row of a job, if it has one.
abbrev pub status_set : Status → ℕ → Db → Option Job → Result Db
status_set to now db none = err (sentinel job_not_found)
status_set to now db (some j) =
    if can_transition j.status to
    then if job_fits db (with_status to now j)
      then ok (put_job (with_status to now j) db)
      else err check_violation
    else err (refused j.status to)

-- A run that has changed the tables as meant, or has failed with the error meant and left them.
abbrev pub Follows : Result Db → Db → Result (Unit {0}) × State → Type 0
Follows (ok db) before run = (run.0 ≡ ok tt) × (run.1.db ≡ db)
Follows (err e) before run = (run.0 ≡ err e) × (run.1.db ≡ before)

-- The same of a transaction's body: what it leaves where it fails does not matter.
abbrev Ends : Result Db → Result (Unit {0}) × State → Type 0
Ends (ok db) run = (run.0 ≡ ok tt) × (run.1.db ≡ db)
Ends (err e) run = run.0 ≡ err e

module _ (env : Env) (up : Reliable env) where
  finish-Follows :
      (before : Db) (x : Result Db) (run : Result (Unit {0}) × State)
      → Ends x run
      → Follows x before (finish before env run)
  finish-Follows before (ok db) (r, s) (e, same) = rw (e, up s.calls) (refl, same)
  finish-Follows before (err f) (r, s) e = rw e (refl, refl)

  -- The body decides what a transaction does.
  transaction-Follows :
      (body : ℕ → M (Unit {0})) (s : State) (x : Result Db)
      → Ends x (body (env.clock (s.calls + 1)) env (record s { calls = s.calls + 1 }))
      → Follows x s.db (transaction body env s)
  unfolding transaction
  transaction-Follows body s x h = rw (up s.calls) (
      finish-Follows s.db x (body (env.clock (s.calls + 1)) env (record s { calls = s.calls + 1 }))
        h)

  module _ {A : Type 0} (s : State) (x : Result Db) (k : A → M (Unit {0})) where
    exec-Ends :
        (f : Db → Result (A × Db)) (a : A) (db : Db)
        → f s.db ≡ ok (a, db)
        → Ends x (k a env (record s { calls = s.calls + 1; db = db }))
        → Ends x ((exec f >>= k) env s)
    unfolding exec ◌>>=◌
    exec-Ends f a db e h = rw (up s.calls, e) h

    query-Ends :
        (f : Db → Result A) (a : A)
        → f s.db ≡ ok a
        → Ends x (k a env (record s { calls = s.calls + 1 }))
        → Ends x ((query f >>= k) env s)
    unfolding query
    query-Ends f a e h = exec-Ends (λ db. unchanged db (f db)) a s.db (rw e refl) h

  module _ {A : Type 0} (s : State) (e : Error) (k : A → M (Unit {0})) where
    exec-Ends_err :
        (f : Db → Result (A × Db)) → f s.db ≡ err e → Ends (err e) ((exec f >>= k) env s)
    unfolding exec ◌>>=◌
    exec-Ends_err f h = rw (up s.calls, h) refl

    query-Ends_err : (f : Db → Result A) → f s.db ≡ err e → Ends (err e) ((query f >>= k) env s)
    unfolding query
    query-Ends_err f h = exec-Ends_err (λ db. unchanged db (f db)) (rw h refl)

update_job-at :
    (id : ℕ) (f : Job → Job) (db : Db) (j : Job)
    → find_job id db ≡ some j
    → update_job id always f db
      ≡ (if job_fits db (f j) then ok (1, put_job (f j) db) else err check_violation)
unfolding update_job
update_job-at id f db j found = rw (update_job, found) refl

module _ (env : Env) (up : Reliable env) (id : ℕ) (to : Status) (s : State) where
  abbrev now : ℕ
  now = env.clock (s.calls + 1)

  abbrev change : Job → M (Unit {0})
  change j =
      if can_transition j.status to
      then exec (update_job id always (with_status to now)) >> pure tt
      else raise (refused j.status to)

  abbrev s1 : State
  s1 = record s { calls = s.calls + 1 }

  written :
      (j : Job) (b : Bool)
      → find_job id s.db ≡ some j
      → job_fits s.db (with_status to now j) ≡ b
      → Ends (if b then ok (put_job (with_status to now j) s.db) else err check_violation) (
          (exec (update_job id always (with_status to now)) >> pure tt) env
            (record s1 { calls = s1.calls + 1 }))
  unfolding pure
  written j true found fits =
      exec-Ends env up _ (ok (put_job (with_status to now j) s.db)) _ _ 1
        (put_job (with_status to now j) s.db)
        (update_job-at id (with_status to now) s.db j found ∙ rw fits refl) (refl, refl)
  written j false found fits =
      exec-Ends_err env up _ _ _ _
        (update_job-at id (with_status to now) s.db j found ∙ rw fits refl)

  changed :
      (j : Job) (b : Bool)
      → find_job id s.db ≡ some j
      → can_transition j.status to ≡ b
      → Ends
          (if b
            then (if job_fits s.db (with_status to now j)
                then ok (put_job (with_status to now j) s.db)
                else err check_violation)
            else err (refused j.status to))
          (change j env (record s1 { calls = s1.calls + 1 }))
  unfolding raise
  changed j true found e = rw e (written j _ found refl)
  changed j false found e = rw e refl

  found_or_not :
      (o : Option Job)
      → find_job id s.db ≡ o
      → Ends (status_set to now s.db o) ((query (select_job id) >>= change) env s1)
  found_or_not none e = query-Ends_err env up _ _ _ _ (rw e refl)
  found_or_not (some j) e = query-Ends env up _ _ _ _ j (rw e refl) (changed j _ e refl)

-- Where the database answers, `UpdateStatus` with its transaction and its two statements does what
-- one step on the row does: it fails with ErrNotFound if there is no row, with the refusal if
-- `CanTransition` does not allow the change, with the server's error if the new row breaks the
-- schema, each time with the tables as they were, and otherwise writes the new row.
pub update_status-outcome :
    (id : ℕ) (to : Status) (env : Env) (s : State)
    → Reliable env
    → Follows
        (status_set to (env.clock (s.calls + 1)) s.db (find_job id s.db))
        s.db
        (update_status id to env s)
unfolding update_status
update_status-outcome id to env s up =
    transaction-Follows env up _ s _ (found_or_not env up id to s (find_job id s.db) refl)
