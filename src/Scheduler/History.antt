-- ===== src/Scheduler/History.antt =====
-- Runs of the whole system: any sequence of ticks and requests, under any errors of the database,
-- the providers and the remote services.
use ai_social_publisher.Common.{ℕ, ◌≤◌, ◌≡◌, ap, ◌∙◌, true, some, List, [], ◌∷◌, arith}
use ai_social_publisher.Status.{is_terminal}
use ai_social_publisher.Status.Graph.{◌⟶*◌, publishes_left, terminal-⟶*}
use ai_social_publisher.Rows.{Job}
use ai_social_publisher.Exec.{Env, State}
use ai_social_publisher.Exec.Rules.{Any, Moves, Moves-pure, Moves-bind}
use ai_social_publisher.Store.{find_job}
use ai_social_publisher.Approval.Progress.{flow}
use ai_social_publisher.Approval.Progress.Content.{
  process_candidate-Progress, select_variant_for_review-Progress, edit_caption-Progress,
}
use ai_social_publisher.Approval.Progress.Publish.{
  queue_publish-Progress, schedule_publish-Progress, cancel_scheduled_publish-Progress,
}
use ai_social_publisher.Approval.Progress.Workers.{
  process_scoring_queue-Progress, process_variant_queue-Progress, retry_waiting_ai-Progress,
  recover_stale_jobs-Progress, repair_notifications-Progress, deliver_notifications-Progress,
  purge_delivered_notifications-Progress, handle_callback-Progress,
}
use ai_social_publisher.Approval.Progress.Sync.{
  sync_item-Progress, sync_news-Progress, sync_from_config-Progress,
}
use ai_social_publisher.Http.Flow.{serve_api-Progress, serve_callback-Progress}
use ai_social_publisher.Scheduler.{
  Task, news_sync, waiting_ai_retry, scoring_work, variant_work, notifications, notification_repair,
  stale_job_recovery, media_cleanup, publish_due, run_task, Event, tick, start, news_item, found,
  api, telegram, callback, review, edit, confirm, plan, unplan, handle, run,
}
use ai_social_publisher.Scheduler.Once.{
  times_published, left_of, left, left_le_one, budget, Paced, Paced-IsStable,
}
use ai_social_publisher.Scheduler.Runs.{
  paced, pace-logged, process_scheduled_publishes-Paced, publish_approved-Paced,
}

run_task-Paced : (t : Task) → Moves Any Paced (run_task t)
unfolding run_task
run_task-Paced news_sync = paced (search (flow, sync_news-Progress))
run_task-Paced waiting_ai_retry = paced (search (flow, retry_waiting_ai-Progress))
run_task-Paced scoring_work = paced (search (flow, process_scoring_queue-Progress))
run_task-Paced variant_work = paced (search (flow, process_variant_queue-Progress))
run_task-Paced notifications = paced (search (flow, deliver_notifications-Progress))
run_task-Paced notification_repair = paced (search (flow, repair_notifications-Progress))
run_task-Paced stale_job_recovery = paced (search (flow, recover_stale_jobs-Progress))
run_task-Paced media_cleanup = paced (search (flow, purge_delivered_notifications-Progress))
run_task-Paced publish_due =
    Moves-bind Paced-IsStable _ _ (pace-logged _ process_scheduled_publishes-Paced)
      (λ _. pace-logged _ publish_approved-Paced)

handle-Paced : (e : Event) → Moves Any Paced (handle e)
unfolding handle
handle-Paced (tick t) = run_task-Paced t
handle-Paced start = paced (search (flow, sync_from_config-Progress))
handle-Paced (news_item category item) = paced (search (flow, sync_item-Progress))
handle-Paced (found c) = paced (search (flow, process_candidate-Progress))
handle-Paced (api web route req) = paced (search (flow, serve_api-Progress))
handle-Paced (telegram web req) = paced (search (flow, serve_callback-Progress))
handle-Paced (callback cb) = paced (search (flow, handle_callback-Progress))
handle-Paced (review j v) = paced (search (flow, select_variant_for_review-Progress))
handle-Paced (edit j v caption) = paced (search (flow, edit_caption-Progress))
handle-Paced (confirm j) = paced (search (flow, queue_publish-Progress))
handle-Paced (plan j at) = paced (search (flow, schedule_publish-Progress))
handle-Paced (unplan j) = paced (search (flow, cancel_scheduled_publish-Progress))

run-Paced : (es : List Event) → Moves Any Paced (run es)
unfolding run
run-Paced [] = Moves-pure Paced-IsStable tt
run-Paced (e ∷ es) = Moves-bind Paced-IsStable _ _ (handle-Paced e) (λ _. run-Paced es)

-- From a state in which nothing has been published, no run (any ticks of the workers and any
-- requests, in any order, whatever the database and the services answer) hands a job to the
-- Instagram publisher more than once.
pub run-published_once :
    (env : Env) (s : State) (es : List Event) (id : ℕ)
    → s.published ≡ []
    → times_published id (run es env s).1.published ≤ 1
unfolding budget times_published left
run-published_once env s es id fresh =
    let within = ((run-Paced es).at env s tt).within id in
    let start : times_published id s.published ≡ 0 = ap (times_published id) fresh in
    omega (arith, within, start, left_le_one (find_job id s.db))

-- A job from whose status no further publication is counted (PUBLISHING, PUBLISHED, SKIPPED or
-- FAILED) is not handed to the Instagram publisher by any run.
pub run-not_published_again :
    (env : Env) (s : State) (es : List Event) (id : ℕ) (j : Job)
    → find_job id s.db ≡ some j
    → publishes_left j.status ≡ 0
    → times_published id (run es env s).1.published ≤ times_published id s.published
unfolding budget left
run-not_published_again env s es id j present done =
    let within = ((run-Paced es).at env s tt).within id in
    let start : left id s.db ≡ 0 = ap left_of present ∙ done in omega (arith, within, start)

-- Over any run a job is never lost, and its status changes along `allowedTransitions` only.
pub run-follows_graph :
    (env : Env) (s : State) (es : List Event) (id : ℕ) (j : Job)
    → find_job id s.db ≡ some j
    → (j' : Job) × (find_job id (run es env s).1.db ≡ some j') × (j.status ⟶* j'.status)
run-follows_graph env s es id j present = ((run-Paced es).at env s tt).advances.job id j present

-- Over any run a job in a terminal status is kept in that status.
pub run-terminal_kept :
    (env : Env) (s : State) (es : List Event) (id : ℕ) (j : Job)
    → find_job id s.db ≡ some j
    → is_terminal j.status ≡ true
    → (j' : Job) × (find_job id (run es env s).1.db ≡ some j') × (j'.status ≡ j.status)
run-terminal_kept env s es id j present ends =
    let (j', there, way) = run-follows_graph env s es id j present in
    (j', there, terminal-⟶* ends way)

-- From a state in which nothing has been published, a job that a run has handed to the Instagram
-- publisher is, at the end, in a status from which it cannot be published again.
pub run-published_settles :
    (env : Env) (s : State) (es : List Event) (id : ℕ) (j : Job)
    → s.published ≡ []
    → times_published id (run es env s).1.published ≡ 1
    → find_job id (run es env s).1.db ≡ some j
    → publishes_left j.status ≡ 0
unfolding budget times_published left
run-published_settles env s es id j fresh handed present =
    let within = ((run-Paced es).at env s tt).within id in
    let start : times_published id s.published ≡ 0 = ap (times_published id) fresh in
    let ended : left id (run es env s).1.db ≡ publishes_left j.status = ap left_of present in
    omega (arith, within, start, ended, handed, left_le_one (find_job id s.db))
