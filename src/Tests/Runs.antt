-- ===== src/Tests/Runs.antt =====
-- The theorems on runs, on a run of a job.
use ai_social_publisher.Common.{
  ℕ, ◌≤◌, ◌≡◌, refl, List, [], ◌∷◌, some, filter, sort_by, insert_by, trim_space,
}
use ai_social_publisher.Status.{
  Status-discrete, approved, published, is_terminal, can_transition, ready_to_publish,
  allowed_transitions,
}
use ai_social_publisher.Status.Graph.{◌⟶*◌, publishes_left}
use ai_social_publisher.Rows.{Job}
use ai_social_publisher.Table.{find_by, put_by}
use ai_social_publisher.Store.{find_job, update_job, job_fits, variant_of_job}
use ai_social_publisher.Exec.{
  logged, attempt, pure, ◌>>=◌, query, exec, exec_now, ask, for_each, exec_insert, transaction,
}
use ai_social_publisher.Post.Jobs.{
  list_by_status, due_by_status, get_by_id, claim_status, mark_published, transition,
}
use ai_social_publisher.Post.Schedule.{list_due_scheduled}
use ai_social_publisher.Post.Review.{get_variant_by_id}
use ai_social_publisher.Post.Logs.{insert_publish_log, insert_log}
use ai_social_publisher.News.{get_candidate, get_account}
use ai_social_publisher.Instagram.{publish_image}
use ai_social_publisher.Approval.Context.{load_job_context, load_candidate_account}
use ai_social_publisher.Approval.Publish.{
  publish_job, claim_and_publish, publish_claimed, publish_variant, send_image, note_published,
  settle_publish, success_log,
}
use ai_social_publisher.Approval.Queue.{needs_preview}
use ai_social_publisher.Approval.Workers.{process_scheduled_publishes, publish_approved}
use ai_social_publisher.Scheduler.{
  handle, run_task, Event, tick, confirm, publish_due, stale_job_recovery, run,
}
use ai_social_publisher.Scheduler.Once.{times_published}
use ai_social_publisher.Scheduler.History.{
  run-published_once, run-follows_graph, run-terminal_kept, run-not_published_again,
  run-published_settles,
}
use ai_social_publisher.Tests.{job, state, env, faulty}

abbrev events : List Event
events = confirm 7 ∷ tick publish_due ∷ tick stale_job_recovery ∷ tick publish_due ∷ []

run-published_once_example :
    times_published 7 (run events env (state ready_to_publish)).1.published ≤ 1
run-published_once_example = run-published_once env (state ready_to_publish) events 7 refl

run-follows_graph_example :
    (j : Job) × (find_job 7 (run events faulty (state ready_to_publish)).1.db ≡ some j)
    × (ready_to_publish ⟶* j.status)
unfolding find_by
run-follows_graph_example =
    run-follows_graph faulty (state ready_to_publish) events 7 (job ready_to_publish (some 5)) refl

run-terminal_kept_example :
    (j : Job) × (find_job 7 (run events env (state published)).1.db ≡ some j)
    × (j.status ≡ published)
unfolding find_by is_terminal Status-discrete
run-terminal_kept_example =
    run-terminal_kept env (state published) events 7 (job published (some 5)) refl refl

run-not_published_again_example :
    times_published 7 (run events env (state published)).1.published
    ≤ times_published 7 (state published).published
unfolding find_by publishes_left
run-not_published_again_example =
    run-not_published_again env (state published) events 7 (job published (some 5)) refl refl

-- The job as a publisher's tick leaves it, with no fault and in a dry run.
abbrev sent : Job
sent = record (job published (some 5)) { instagram_media_id = "dryrun_media_19"; updated_at = 23 }

run-published_settles_example : publishes_left sent.status ≡ 0
unfolding find_by times_published run handle run_task logged attempt pure ◌>>=◌
    process_scheduled_publishes publish_approved list_due_scheduled list_by_status due_by_status
    query exec exec_now ask for_each filter sort_by insert_by Status-discrete publish_job
    load_job_context get_by_id load_candidate_account get_candidate get_account claim_and_publish
    claim_status can_transition allowed_transitions update_job put_by job_fits variant_of_job
    publish_claimed get_variant_by_id publish_variant needs_preview trim_space send_image
    note_published publish_image settle_publish success_log insert_publish_log insert_log
    exec_insert mark_published transition transaction
    ai_social_publisher.Approval.Context.queue_notice ai_social_publisher.Outbox.enqueue
    ai_social_publisher.Outbox.insert_row ai_social_publisher.Outbox.has_key
    ai_social_publisher.Common.concat ai_social_publisher.Common.format_int
run-published_settles_example =
    run-published_settles env (state approved) (tick publish_due ∷ []) 7 sent refl refl refl
