-- ===== src/Scheduler.antt =====
-- internal/scheduler/scheduler.go: what each worker does at a tick, and runs of the whole system:
-- ticks of the workers and requests of the operator in any order.
pub mod Once
pub mod Runs
pub mod History
use ai_social_publisher.Common.{ℕ, String, List, [], ◌∷◌}
use ai_social_publisher.Rows.{Candidate}
use ai_social_publisher.Exec.{M, pure, ask, logged, ◌>>=◌, ◌>>◌, Item}
use ai_social_publisher.Account.{sync_from_config}
use ai_social_publisher.Approval.Sync.{sync_news, sync_item}
use ai_social_publisher.Approval.Intake.{process_candidate}
use ai_social_publisher.Approval.Preview.{select_variant_for_review, update_variant_caption}
use ai_social_publisher.Approval.Queue.{queue_publish, schedule_publish, cancel_scheduled_publish}
use ai_social_publisher.Approval.Workers.{
  process_scoring_queue, process_variant_queue, retry_waiting_ai, recover_stale_jobs,
  publish_approved, process_scheduled_publishes,
}
use ai_social_publisher.Approval.Notices.{
  repair_notifications, purge_delivered_notifications, deliver_notifications,
}
use ai_social_publisher.Http.{Web, Request}
use ai_social_publisher.Http.Api.{Route, serve_api, serve_callback}
use ai_social_publisher.Approval.Callback.{Callback, handle_callback}

-- The workers of `Start`, less the removal of old media files.
pub data Task : Type 0 where
  news_sync waiting_ai_retry scoring_work variant_work notifications notification_repair : Task
  stale_job_recovery media_cleanup publish_due : Task

-- The function that `Start` gives to each worker; errors are logged.
unfoldable pub run_task : Task → M (Unit {0})
run_task news_sync = logged sync_news
run_task waiting_ai_retry = logged retry_waiting_ai
run_task scoring_work = logged process_scoring_queue
run_task variant_work = logged process_variant_queue
run_task notifications = logged deliver_notifications
run_task notification_repair = logged repair_notifications
run_task stale_job_recovery = logged recover_stale_jobs
run_task media_cleanup = logged purge_delivered_notifications
run_task publish_due = logged process_scheduled_publishes >> logged publish_approved

pub data Event : Type 0 where
  tick : Task → Event
  -- the process starts: `main` writes the configured accounts
  start : Event
  -- one item of a news sync whose goroutines are in any order
  news_item : String → Item → Event
  found : Candidate → Event
  -- a request of the JSON API, or a callback, with the server's secrets and decoders
  api : Web → Route → Request → Event
  telegram : Web → Request → Event
  callback : Callback → Event
  review : (job_id variant_id : ℕ) → Event
  edit : (job_id variant_id : ℕ) → String → Event
  confirm : (job_id : ℕ) → Event
  plan : (job_id at : ℕ) → Event
  unplan : (job_id : ℕ) → Event

-- One call of the service, whose error its caller reports.
unfoldable pub handle : Event → M (Unit {0})
unfolding run_task
handle (tick t) = run_task t
handle start = logged (ask (λ env n. env.cfg.accounts) >>= sync_from_config)
handle (news_item category item) = logged (sync_item category item)
handle (found c) = logged (process_candidate c)
handle (api web route req) = logged (serve_api web route req)
handle (telegram web req) = logged (serve_callback web req)
handle (callback cb) = logged (handle_callback cb)
handle (review j v) = logged (select_variant_for_review j v)
handle (edit j v caption) = logged (update_variant_caption j v caption)
handle (confirm j) = logged (queue_publish j)
handle (plan j at) = logged (schedule_publish j at)
handle (unplan j) = logged (cancel_scheduled_publish j)

unfoldable pub run : List Event → M (Unit {0})
unfolding handle
run [] = pure tt
run (e ∷ es) = handle e >> run es
