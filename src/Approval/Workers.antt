-- ===== src/Approval/Workers.antt =====
-- internal/approval/service.go: the work that the scheduler runs in turns.
use ai_social_publisher.Common.{
  ℕ, ◌*◌, ◌-◌, String, Bool, ◌||◌, [], ◌∷◌, ltb, if◌then◌else◌, concat,
}
use ai_social_publisher.Status.{
  Status, ◌is◌, scoring_queued, scoring, variants_queued, generating_variants, waiting_ai, approved,
  publishing,
}
use ai_social_publisher.Rows.{Job, Candidate, Account}
use ai_social_publisher.Errors.{error_text}
use ai_social_publisher.Exec.{
  M, pure, ask, time_now, attempt, logged, ◌>>=◌, on_result, on_option, for_each,
}
use ai_social_publisher.Post.Jobs.{
  minute, list_by_status, list_stale_processing, claim_status, park_for_ai_retry, mark_published,
  mark_failed,
}
use ai_social_publisher.Post.Schedule.{list_due_scheduled, claim_scheduled_due}
use ai_social_publisher.Post.Logs.{successful_publish_media_id}
use ai_social_publisher.Approval.Context.{load_candidate_account}
use ai_social_publisher.Approval.Intake.{score_job}
use ai_social_publisher.Approval.Variants.{run_variant_generation}
use ai_social_publisher.Approval.Publish.{publish_job}

abbrev pub worker_batch_size : ℕ
worker_batch_size = 5

-- `claimed, err := …; if err != nil || !claimed { continue }`
unfoldable pub if_claimed : M Bool → M (Unit {0}) → M (Unit {0})
if_claimed claim work = do
  claimed ← attempt claim
  on_result claimed (λ mine. if mine then work else pure tt) (λ e. pure tt)

-- The body of the two queues' loops: claim, load, and work, or fail the job.
unfoldable pub process_queued :
    Status → Status → String → (Job → Candidate → Account → M (Unit {0})) → Job → M (Unit {0})
unfolding if_claimed
process_queued from to what work queued = if_claimed (claim_status queued.id from to) (do
  loaded ← attempt (load_candidate_account queued)
  on_result loaded (λ both. logged (work queued both.0 both.1))
      (λ e. logged (mark_failed queued.id (concat (what ∷ error_text e ∷ [])))))

-- `ProcessScoringQueue`
unfoldable pub process_scoring_queue : M (Unit {0})
unfolding process_queued
process_scoring_queue = do
  jobs ← list_by_status scoring_queued worker_batch_size
  for_each jobs (process_queued scoring_queued scoring "load scoring context: " score_job)

-- `ProcessVariantQueue`
unfoldable pub process_variant_queue : M (Unit {0})
unfolding process_queued
process_variant_queue = do
  jobs ← list_by_status variants_queued worker_batch_size
  for_each jobs (
      process_queued variants_queued generating_variants "load variant context: "
        (λ job candidate acct.
          run_variant_generation job candidate acct job.requested_variant_count))

unfoldable pub retry_target : Job → Status
retry_target job = if ltb 0 job.requested_variant_count then variants_queued else scoring_queued

-- `RetryWaitingAI`
unfoldable pub retry_waiting_ai : M (Unit {0})
unfolding retry_target
retry_waiting_ai = do
  jobs ← list_by_status waiting_ai 50
  for_each jobs (λ job. logged (claim_status job.id waiting_ai (retry_target job)))

unfoldable pub recover_publishing : Job → M (Unit {0})
recover_publishing job = do
  found ← attempt (successful_publish_media_id job.id)
  let uncertain = logged (
      mark_failed job.id
        "publish result is uncertain after worker interruption; reconcile manually before retrying")
  on_result found
      (λ media_id. on_option media_id (λ id. logged (mark_published job.id id)) uncertain)
      (λ e. uncertain)

-- The switch of `RecoverStaleJobs`.
unfoldable pub recover : Job → M (Unit {0})
unfolding recover_publishing
recover job =
    if job.status is scoring || job.status is generating_variants
    then logged (park_for_ai_retry job.id "recovered stale worker lease")
    else if job.status is publishing
    then recover_publishing job
    else pure tt

-- `RecoverStaleJobs`
unfoldable pub recover_stale_jobs : M (Unit {0})
unfolding recover
recover_stale_jobs = do
  now ← time_now
  cfg ← ask (λ env n. env.cfg)
  jobs ← list_stale_processing (now - cfg.stale_job_timeout_minutes * minute) 50
  for_each jobs recover

-- `PublishApproved`
unfoldable pub publish_approved : M (Unit {0})
publish_approved = do
  jobs ← list_by_status approved 20
  for_each jobs (λ job. logged (publish_job job.id))

-- `ProcessScheduledPublishes`
unfoldable pub process_scheduled_publishes : M (Unit {0})
unfolding if_claimed
process_scheduled_publishes = do
  now ← time_now
  jobs ← list_due_scheduled now 20
  for_each jobs (λ job. if_claimed (claim_scheduled_due job.id now) (logged (publish_job job.id)))
