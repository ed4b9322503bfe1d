-- ===== src/Approval/Queue.antt =====
-- internal/approval/service.go: a reviewed job is queued or scheduled.
use ai_social_publisher.Common.{
  ℕ, ◌+◌, ◌*◌, ◌^◌, ◌/◌, String, Bool, [], ◌∷◌, ltb, leb, str_eq, if◌then◌else◌, concat, format_int,
  trim_space,
}
use ai_social_publisher.Status.{◌is◌, text, ready_to_publish, scheduled, approved, skipped}
use ai_social_publisher.Rows.{Job, Variant}
use ai_social_publisher.Errors.{Error, sentinel, wrapped, invalid_transition, invalid_schedule}
use ai_social_publisher.Exec.{
  Result, ok, err, M, pure, raise, lift, ask, time_now, ◌>>=◌, ◌>>◌, on_option,
}
use ai_social_publisher.Post.Jobs.{get_by_id, update_status}
use ai_social_publisher.Post.Review.{get_variant_by_id}
use ai_social_publisher.Post.Schedule.{schedule, reschedule, cancel_schedule}
use ai_social_publisher.Approval.Context.{load_job_context, queue_notice}
use ai_social_publisher.Approval.Preview.{
  no_selected_variant, is_past_review, prepare_preview, select_variant_for_review,
}

unfoldable pub needs_preview : Variant → Bool
needs_preview v = str_eq (trim_space v.image_url) ""

-- The picture of the selected variant, rendered if it has none.
unfoldable pub ensure_preview : ℕ → ℕ → M (Unit {0})
unfolding needs_preview
ensure_preview job_id selected = do
  variant ← get_variant_by_id selected
  if needs_preview variant then prepare_preview job_id else pure tt

unfoldable pub not_in : Job → String → Error
not_in job what =
    wrapped "" (sentinel invalid_transition) (concat (": " ∷ text job.status ∷ what ∷ []))

unfoldable pub queue_reviewed : ℕ → Job → M (Unit {0})
unfolding ensure_preview
queue_reviewed job_id job =
    on_option job.selected_variant_id
      (λ selected. ensure_preview job_id selected >> update_status job_id approved)
      (raise (no_selected_variant job_id))

-- `QueuePublish`
unfoldable pub queue_publish : ℕ → M (Unit {0})
unfolding queue_reviewed
queue_publish job_id = do
  job ← get_by_id job_id
  if is_past_review job
      then pure tt
      else if job.status is ready_to_publish
      then queue_reviewed job_id job
      else raise (not_in job " is not publishable")

-- `SelectVariantForJob`
unfoldable pub select_variant_for_job : ℕ → ℕ → M (Unit {0})
select_variant_for_job job_id variant_id = do
  select_variant_for_review job_id variant_id
  queue_publish job_id

-- `SelectVariant`
unfoldable pub select_variant : ℕ → M (Unit {0})
unfolding select_variant_for_job
select_variant variant_id = do
  variant ← get_variant_by_id variant_id
  select_variant_for_job variant.post_job_id variant_id

abbrev pub hour : ℕ
hour = 3600 * 10 ^ 9

abbrev pub max_schedule_horizon : ℕ
max_schedule_horizon = 30 * 24 * hour

-- `validateScheduleAt`
unfoldable pub validate_schedule_at : ℕ → ℕ → ℕ → Result ℕ
validate_schedule_at now at horizon =
    if leb at now
    then err (wrapped "" (sentinel invalid_schedule) ": scheduled time must be in the future")
    else if ltb (now + horizon) at
    then err (
        wrapped "" (sentinel invalid_schedule) (
          concat (
            ": scheduled time must be within "
            ∷ format_int (horizon / (24 * hour))
            ∷ " days"
            ∷ [])))
    else ok at

-- The switch of `SchedulePublish` on the job's status.
unfoldable pub set_schedule : ℕ → Job → ℕ → M (Unit {0})
unfolding ensure_preview
set_schedule job_id job at =
    if job.status is scheduled
    then reschedule job_id at
    else if job.status is ready_to_publish
    then on_option job.selected_variant_id
        (λ selected. ensure_preview job_id selected >> schedule job_id at)
        (raise (no_selected_variant job_id))
    else raise (not_in job " is not schedulable")

-- `SchedulePublish`
unfoldable pub schedule_publish : ℕ → ℕ → M (Unit {0})
unfolding set_schedule
schedule_publish job_id at = do
  now ← time_now
  valid_at ← lift (validate_schedule_at now at max_schedule_horizon)
  ctx ← load_job_context job_id
  set_schedule job_id ctx.job valid_at
  when_text ← ask (λ env n. env.format_time valid_at)
  queue_notice
      (concat ("scheduled:" ∷ format_int job_id ∷ ":" ∷ format_int (valid_at / 10 ^ 9) ∷ []))
      "⏰ Yayın zamanlandı"
      (concat (
        "\"" ∷ ctx.candidate.title ∷ "\" için Instagram yayını " ∷ when_text
        ∷ " (UTC) zamanına planlandı." ∷ []))

-- `CancelScheduledPublish`
unfoldable pub cancel_scheduled_publish : ℕ → M (Unit {0})
cancel_scheduled_publish job_id = cancel_schedule job_id

-- `SkipJob`
unfoldable pub skip_job : ℕ → M (Unit {0})
skip_job job_id = update_status job_id skipped

-- `CancelJob`
unfoldable pub cancel_job : ℕ → M (Unit {0})
cancel_job job_id = update_status job_id skipped
