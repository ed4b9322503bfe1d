-- ===== src/Approval/Progress/Publish.antt =====
-- Publication, the queues and the notices move jobs along the graph, the publisher's calls aside.
use ai_social_publisher.Common.{ℕ, String, List}
use ai_social_publisher.Rows.{Job, Candidate}
use ai_social_publisher.Exec.{Result, ok, err, Config}
use ai_social_publisher.Exec.Rules.{Any, Moves}
use ai_social_publisher.Instagram.{
  PublishRequest, PublishResult, post_form, create_media_container, publish_media, publish_image,
}
use ai_social_publisher.Post.Progress.{Progress}
use ai_social_publisher.Post.Progress.Jobs.{
  get_by_id-Progress, update_status-Progress, mark_published-Progress, mark_failed-Progress,
}
use ai_social_publisher.Post.Progress.Review.{get_variant_by_id-Progress}
use ai_social_publisher.Post.Progress.Schedule.{
  schedule-Progress, reschedule-Progress, cancel_schedule-Progress, insert_publish_log-Progress,
}
use ai_social_publisher.Approval.Publish.{fail, publish_notice, settle_publish, not_claimed}
use ai_social_publisher.Approval.Queue.{
  ensure_preview, queue_reviewed, queue_publish, select_variant_for_job, select_variant,
  set_schedule, schedule_publish, cancel_scheduled_publish, skip_job, cancel_job,
}
use ai_social_publisher.Approval.Progress.{flow, load_job_context-Progress, queue_notice-Progress}
use ai_social_publisher.Approval.Progress.Content.{
  prepare_preview-Progress, select_variant_for_review-Progress,
}

ensure_preview-Progress : (id v : ℕ) → Moves Any Progress (ensure_preview id v)
unfolding ensure_preview
ensure_preview-Progress id v = search (flow, get_variant_by_id-Progress, prepare_preview-Progress)

queue_reviewed-Progress : (id : ℕ) (job : Job) → Moves Any Progress (queue_reviewed id job)
unfolding queue_reviewed
queue_reviewed-Progress id job = search (flow, ensure_preview-Progress, update_status-Progress)

pub queue_publish-Progress : (id : ℕ) → Moves Any Progress (queue_publish id)
unfolding queue_publish
queue_publish-Progress id = search (flow, get_by_id-Progress, queue_reviewed-Progress)

select_variant_for_job-Progress : (id v : ℕ) → Moves Any Progress (select_variant_for_job id v)
unfolding select_variant_for_job
select_variant_for_job-Progress id v =
    search (flow, select_variant_for_review-Progress, queue_publish-Progress)

pub select_variant-Progress : (v : ℕ) → Moves Any Progress (select_variant v)
unfolding select_variant
select_variant-Progress v =
    search (flow, get_variant_by_id-Progress, select_variant_for_job-Progress)

set_schedule-Progress : (id : ℕ) (job : Job) (at : ℕ) → Moves Any Progress (set_schedule id job at)
unfolding set_schedule
set_schedule-Progress id job at =
    search (flow, ensure_preview-Progress, schedule-Progress, reschedule-Progress) depth 8

pub schedule_publish-Progress : (id at : ℕ) → Moves Any Progress (schedule_publish id at)
unfolding schedule_publish
schedule_publish-Progress id at =
    search (flow, load_job_context-Progress, set_schedule-Progress, queue_notice-Progress) depth 9

pub cancel_scheduled_publish-Progress : (id : ℕ) → Moves Any Progress (cancel_scheduled_publish id)
unfolding cancel_scheduled_publish
cancel_scheduled_publish-Progress id = cancel_schedule-Progress id

pub skip_job-Progress : (id : ℕ) → Moves Any Progress (skip_job id)
unfolding skip_job
skip_job-Progress id = update_status-Progress id _

pub cancel_job-Progress : (id : ℕ) → Moves Any Progress (cancel_job id)
unfolding cancel_job
cancel_job-Progress id = update_status-Progress id _

pub fail-Progress : (id : ℕ) (msg : String) → Moves Any Progress (fail id msg)
unfolding fail
fail-Progress id msg = search (flow, mark_failed-Progress, queue_notice-Progress) depth 8

pub publish_notice-Progress :
    (id : ℕ) (suffix : String) (c : Candidate) (m : String)
    → Moves Any Progress (publish_notice id suffix c m)
unfolding publish_notice
publish_notice-Progress id suffix c m = search queue_notice-Progress

pub settle_publish-Progress :
    (id : ℕ) (c : Candidate) (x : Result PublishResult) → Moves Any Progress (settle_publish id c x)
unfolding settle_publish
settle_publish-Progress id c (err e) = search (flow, insert_publish_log-Progress, fail-Progress)
settle_publish-Progress id c (ok result) =
    search (flow, insert_publish_log-Progress, mark_published-Progress, publish_notice-Progress)
      depth 8

pub not_claimed-Progress : (id : ℕ) → Moves Any Progress (not_claimed id)
unfolding not_claimed
not_claimed-Progress id = search (flow, get_by_id-Progress)

post_form-Progress :
    (what user endpoint : String) (form : List (String × String))
    → Moves Any Progress (post_form what user endpoint form)
unfolding post_form
post_form-Progress what user endpoint form = search flow

create_media_container-Progress :
    (cfg : Config) (req : PublishRequest) → Moves Any Progress (create_media_container cfg req)
unfolding create_media_container
create_media_container-Progress cfg req = search (flow, post_form-Progress)

publish_media-Progress :
    (cfg : Config) (user id : String) → Moves Any Progress (publish_media cfg user id)
unfolding publish_media
publish_media-Progress cfg user id = search (flow, post_form-Progress) depth 8

pub publish_image-Progress : (req : PublishRequest) → Moves Any Progress (publish_image req)
unfolding publish_image
publish_image-Progress req =
    search (flow, create_media_container-Progress, publish_media-Progress) depth 10
