-- ===== src/Approval/Progress/Workers.antt =====
-- The queues, the notices and the callbacks move jobs along the graph.
use ai_social_publisher.Common.{ℕ, zero, suc, String, Bool}
use ai_social_publisher.Status.{Status}
use ai_social_publisher.Rows.{Job, Candidate, Account}
use ai_social_publisher.Exec.{M}
use ai_social_publisher.Exec.Rules.{Any, Moves}
use ai_social_publisher.Post.Progress.{Progress}
use ai_social_publisher.Post.Progress.Jobs.{
  claim_status-Progress, mark_published-Progress, mark_failed-Progress, list_by_status-Progress,
  list_recent_by_status-Progress, list_stale_processing-Progress, park_for_ai_retry-Progress,
}
use ai_social_publisher.Post.Progress.Review.{list_variants-Progress}
use ai_social_publisher.Post.Progress.Schedule.{successful_publish_media_id-Progress}
use ai_social_publisher.Outbox.Progress.{
  claim_due-Progress, mark_sent-Progress, mark_failed-Progress as delivery_failed-Progress,
  purge_sent-Progress,
}
use ai_social_publisher.Approval.Workers.{
  if_claimed, process_queued, process_scoring_queue, process_variant_queue, retry_waiting_ai,
  recover_publishing, recover, recover_stale_jobs,
}
use ai_social_publisher.Approval.Notices.{
  or_continue, repair_first, repair_variants, repair_published, repair_failed, repair_notifications,
  purge_delivered_notifications, deliver_rounds, deliver_notifications,
}
use ai_social_publisher.Approval.Callback.{Callback, dispatch, handle_callback}
use ai_social_publisher.Approval.Progress.{
  flow, flow-pure, flow-bind, flow-on_option, flow-on_result, load_candidate_account-Progress,
  queue_notice-Progress, get_latest_score-Progress,
}
use ai_social_publisher.Approval.Progress.Content.{
  queue_first_approval-Progress, score_job-Progress, generate_variants-Progress,
  regenerate_variants-Progress, queue_variant_approval-Progress, run_variant_generation-Progress,
}
use ai_social_publisher.Approval.Progress.Publish.{
  publish_notice-Progress, skip_job-Progress, cancel_job-Progress, select_variant-Progress,
}

-- The queues.
if_claimed-Progress :
    (claim : M Bool) (work : M (Unit {0}))
    → Moves Any Progress claim
    → Moves Any Progress work
    → Moves Any Progress (if_claimed claim work)
unfolding if_claimed
if_claimed-Progress claim work kc kw = search flow

process_queued-Progress :
    (from to : Status) (what : String) (work : Job → Candidate → Account → M (Unit {0})) (job : Job)
    → ((j : Job) (c : Candidate) (a : Account) → Moves Any Progress (work j c a))
    → Moves Any Progress (process_queued from to what work job)
unfolding process_queued
process_queued-Progress from to what work job k =
    if_claimed-Progress _ _ (claim_status-Progress job.id from to)
      (search (flow, load_candidate_account-Progress, mark_failed-Progress, k))

pub process_scoring_queue-Progress : Moves Any Progress process_scoring_queue
unfolding process_scoring_queue
process_scoring_queue-Progress =
    search (flow, list_by_status-Progress, process_queued-Progress, score_job-Progress)

pub process_variant_queue-Progress : Moves Any Progress process_variant_queue
unfolding process_variant_queue
process_variant_queue-Progress =
    search (flow, list_by_status-Progress, process_queued-Progress, run_variant_generation-Progress)

pub retry_waiting_ai-Progress : Moves Any Progress retry_waiting_ai
unfolding retry_waiting_ai
retry_waiting_ai-Progress = search (flow, list_by_status-Progress, claim_status-Progress)

recover_publishing-Progress : (job : Job) → Moves Any Progress (recover_publishing job)
unfolding recover_publishing
recover_publishing-Progress job =
    search
      (flow, successful_publish_media_id-Progress, mark_published-Progress, mark_failed-Progress)
      depth 8

recover-Progress : (job : Job) → Moves Any Progress (recover job)
unfolding recover
recover-Progress job = search (flow, park_for_ai_retry-Progress, recover_publishing-Progress)

pub recover_stale_jobs-Progress : Moves Any Progress recover_stale_jobs
unfolding recover_stale_jobs
recover_stale_jobs-Progress =
    search (flow, list_stale_processing-Progress, recover-Progress) depth 8

-- The notices.
or_continue-Progress {ℓ} :
    {A : Type ℓ} (m : M A) (k : A → M (Unit {0}))
    → Moves Any Progress m
    → ((a : A) → Moves Any Progress (k a))
    → Moves Any Progress (or_continue m k)
unfolding or_continue
or_continue-Progress m k km kk = search flow

repair_first-Progress : (job : Job) → Moves Any Progress (repair_first job)
unfolding repair_first
repair_first-Progress job = search (
  flow, or_continue-Progress, load_candidate_account-Progress, get_latest_score-Progress,
  queue_first_approval-Progress,
)

repair_variants-Progress : (job : Job) → Moves Any Progress (repair_variants job)
unfolding repair_variants
repair_variants-Progress job = search (
  flow, or_continue-Progress, load_candidate_account-Progress, list_variants-Progress,
  queue_variant_approval-Progress,
)

repair_published-Progress : (job : Job) → Moves Any Progress (repair_published job)
unfolding repair_published
repair_published-Progress job =
    search (flow, or_continue-Progress, load_candidate_account-Progress, publish_notice-Progress)

repair_failed-Progress : (job : Job) → Moves Any Progress (repair_failed job)
unfolding repair_failed
repair_failed-Progress job = search (flow, queue_notice-Progress)

pub repair_notifications-Progress : Moves Any Progress repair_notifications
unfolding repair_notifications
repair_notifications-Progress =
    search
      (
        flow, list_by_status-Progress, list_recent_by_status-Progress, repair_first-Progress,
        repair_variants-Progress, repair_published-Progress, repair_failed-Progress,
      )
      depth 14

pub purge_delivered_notifications-Progress : Moves Any Progress purge_delivered_notifications
unfolding purge_delivered_notifications
purge_delivered_notifications-Progress = search (flow, purge_sent-Progress)

deliver_rounds-Progress : (rounds : ℕ) → Moves Any Progress (deliver_rounds rounds)
unfolding deliver_rounds
deliver_rounds-Progress zero = search flow
deliver_rounds-Progress (suc rounds) =
    let more = deliver_rounds-Progress rounds in
    flow-bind _ _ claim_due-Progress λ claimed.
      flow-on_option claimed _ _
        (λ m. flow-bind _ _ (search flow) λ sent.
          flow-on_result sent _ _ (λ _. flow-bind _ _ (mark_sent-Progress m.id) (λ _. more))
            (λ e. flow-bind _ _ (delivery_failed-Progress m.id m.attempts e) (λ _. more)))
        (flow-pure tt)

pub deliver_notifications-Progress : Moves Any Progress deliver_notifications
unfolding deliver_notifications
deliver_notifications-Progress = deliver_rounds-Progress 20

dispatch-Progress : (action : String) (id : ℕ) → Moves Any Progress (dispatch action id)
unfolding dispatch
dispatch-Progress action id =
    search
      (
        flow, generate_variants-Progress, skip_job-Progress, select_variant-Progress,
        regenerate_variants-Progress, cancel_job-Progress,
      )
      depth 8

pub handle_callback-Progress : (cb : Callback) → Moves Any Progress (handle_callback cb)
unfolding handle_callback
handle_callback-Progress cb = search (flow, dispatch-Progress)
