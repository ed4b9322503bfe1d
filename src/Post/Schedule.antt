-- ===== src/Post/Schedule.antt =====
-- internal/post/post.go: scheduled publishing. A time is compared as a number of nanoseconds, so
-- `time.Time`'s zone does not enter.
use ai_social_publisher.Common.{
  ℕ, Bool, false, ◌&&◌, Option, none, some, List, [], ◌∷◌, leb, ◌==◌, if◌then◌else◌, concat, filter,
  sort_by, take, is_some,
}
use ai_social_publisher.Status.{◌is◌, text, can_transition, ready_to_publish, scheduled, approved}
use ai_social_publisher.Rows.{Job}
use ai_social_publisher.Errors.{sentinel, wrapped, job_not_found, invalid_transition}
use ai_social_publisher.Exec.{ok, M, pure, raise, ◌>>=◌, ◌>>◌, exec, exec_now, query, transaction}
use ai_social_publisher.Store.{update_job, always}
use ai_social_publisher.Post.Jobs.{select_job, with_status, refused, clamp_limit}

-- `Schedule`
unfoldable pub schedule : ℕ → ℕ → M (Unit {0})
schedule id at = transaction λ now. do
  job ← query (select_job id)
  if can_transition job.status scheduled
      then if is_some job.selected_variant_id
        then (do
          exec (
              update_job id always (λ j. record j {
                status = scheduled;
                scheduled_publish_at = some at;
                updated_at = now;
              }))
          pure tt)
        else raise (wrapped "" (sentinel job_not_found) ": job has no selected variant")
      else raise (refused job.status scheduled)

-- `Reschedule`
unfoldable pub reschedule : ℕ → ℕ → M (Unit {0})
reschedule id at = do
  n ← exec_now (λ now.
      update_job id (λ j. j.status is scheduled)
        (λ j. record j { scheduled_publish_at = some at; updated_at = now }))
  if n == 1
      then pure tt
      else raise
          (wrapped "" (sentinel invalid_transition) ": only a scheduled job can be rescheduled")

-- `CancelSchedule`
unfoldable pub cancel_schedule : ℕ → M (Unit {0})
cancel_schedule id = transaction λ now. do
  job ← query (select_job id)
  if job.status is scheduled
      then (do
        exec (
            update_job id always (λ j. record j {
              status = ready_to_publish;
              scheduled_publish_at = none;
              updated_at = now;
            }))
        pure tt)
      else raise (
          wrapped "" (sentinel invalid_transition)
            (concat (": cannot cancel schedule in " ∷ text job.status ∷ [])))

-- `scheduled_publish_at IS NOT NULL AND scheduled_publish_at <= $4`
abbrev pub is_due : Option ℕ → ℕ → Bool
is_due none now = false
is_due (some at) now = leb at now

-- `ClaimScheduledDue`
unfoldable pub claim_scheduled_due : ℕ → ℕ → M Bool
claim_scheduled_due id time =
    if can_transition scheduled approved
    then (do
      n ← exec_now (λ now.
          update_job id (λ j. j.status is scheduled && is_due j.scheduled_publish_at time)
            (with_status approved now))
      pure (n == 1))
    else raise (refused scheduled approved)

abbrev due_time : Job → ℕ
due_time j = elim j.scheduled_publish_at [ none ↦ 0 | some at ↦ at ]

-- `ListDueScheduled`
unfoldable pub list_due_scheduled : ℕ → ℕ → M (List Job)
list_due_scheduled time limit = query (λ db. ok (
    take (clamp_limit limit) (
      sort_by due_time (
        filter (λ (j : Job). j.status is scheduled && is_due j.scheduled_publish_at time)
          db.jobs))))
