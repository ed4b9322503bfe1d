-- ===== src/Http/Flow.antt =====
-- Requests and jobs: whatever a request of internal/http/handlers.go asks for, jobs move along the
-- graph.
use ai_social_publisher.Common.{ℕ, String, Option, none, some}
use ai_social_publisher.Errors.{Error}
use ai_social_publisher.Exec.{M}
use ai_social_publisher.Exec.Rules.{Any, Moves, Moves-query}
use ai_social_publisher.News.{list_candidates}
use ai_social_publisher.Account.{list_accounts}
use ai_social_publisher.Post.Jobs.{list}
use ai_social_publisher.Post.Logs.{status_counts}
use ai_social_publisher.Outbox.{counts}
use ai_social_publisher.Post.Progress.{Progress, r}
use ai_social_publisher.Post.Progress.Jobs.{get_by_id-Progress}
use ai_social_publisher.Post.Progress.Review.{list_variants-Progress}
use ai_social_publisher.Approval.Callback.{Callback}
use ai_social_publisher.Approval.Queue.{select_variant_for_job}
use ai_social_publisher.Approval.Progress.{flow, flow-pure}
use ai_social_publisher.Approval.Progress.Content.{
  generate_variants-Progress, select_variant_for_review-Progress,
}
use ai_social_publisher.Approval.Progress.Publish.{
  queue_publish-Progress, schedule_publish-Progress, cancel_scheduled_publish-Progress,
  skip_job-Progress,
}
use ai_social_publisher.Approval.Progress.Workers.{handle_callback-Progress}
use ai_social_publisher.Approval.Progress.Sync.{sync_news-Progress}
use ai_social_publisher.Http.{
  Request, Web, Response, write_handler_error, reply, api_auth, check_signature,
  telegram_callback_auth,
}
use ai_social_publisher.Http.Api.{
  Route, accounts_route, sync_route, candidates_route, posts_route, post_route, generate_route,
  approve_route, reject_route, publish_route, schedule_route, unschedule_route, analytics_route,
  sync_answer, get_post, generate_post, approve_post, reject_post, publish_post, schedule_post,
  unschedule_post, accept_callback, telegram_callback, analytics_posts, accounts_answer,
  candidates_answer, posts_answer, handle_route, serve_api, serve_callback,
}

write_handler_error-Progress : (e : Error) → Moves Any Progress (write_handler_error e)
unfolding write_handler_error
write_handler_error-Progress e = search flow

reply-Progress :
    {A : Type 0} (m : M A) (k : A → M Response)
    → Moves Any Progress m
    → ((a : A) → Moves Any Progress (k a))
    → Moves Any Progress (reply m k)
unfolding reply
reply-Progress m k km kk = search (flow, write_handler_error-Progress)

ruleset answers = (flow, reply-Progress)

sync_answer-Progress : (a : ℕ × Option Error) → Moves Any Progress (sync_answer a)
unfolding sync_answer
sync_answer-Progress (n, none) = flow-pure _
sync_answer-Progress (n, some e) = search flow

list_accounts-Progress : Moves Any Progress list_accounts
unfolding list_accounts
list_accounts-Progress = Moves-query r _

list_candidates-Progress : (n : ℕ) → Moves Any Progress (list_candidates n)
unfolding list_candidates
list_candidates-Progress n = Moves-query r _

list-Progress : (n : ℕ) → Moves Any Progress (list n)
unfolding list
list-Progress n = Moves-query r _

status_counts-Progress : Moves Any Progress status_counts
unfolding status_counts
status_counts-Progress = Moves-query r _

counts-Progress : Moves Any Progress counts
unfolding counts
counts-Progress = Moves-query r _

ruleset reads = (
  get_by_id-Progress, list_variants-Progress, list_accounts-Progress, list_candidates-Progress,
  list-Progress, status_counts-Progress, counts-Progress,
)

select_variant_for_job-Progress :
    (job_id variant_id : ℕ) → Moves Any Progress (select_variant_for_job job_id variant_id)
unfolding select_variant_for_job
select_variant_for_job-Progress job_id variant_id =
    search (flow, select_variant_for_review-Progress, queue_publish-Progress)

handle_route-Progress :
    (web : Web) (route : Route) (req : Request) → Moves Any Progress (handle_route web route req)
unfolding handle_route get_post generate_post approve_post reject_post publish_post schedule_post
    unschedule_post analytics_posts accounts_answer candidates_answer posts_answer
handle_route-Progress web accounts_route req = search (answers, reads)
handle_route-Progress web sync_route req =
    search (answers, sync_news-Progress, sync_answer-Progress)
handle_route-Progress web candidates_route req = search (answers, reads)
handle_route-Progress web posts_route req = search (answers, reads)
handle_route-Progress web post_route req = search (answers, reads)
handle_route-Progress web generate_route req = search (answers, generate_variants-Progress)
handle_route-Progress web approve_route req = search (answers, select_variant_for_job-Progress)
handle_route-Progress web reject_route req = search (answers, skip_job-Progress)
handle_route-Progress web publish_route req = search (answers, queue_publish-Progress)
handle_route-Progress web schedule_route req = search (answers, schedule_publish-Progress)
handle_route-Progress web unschedule_route req = search (answers, cancel_scheduled_publish-Progress)
handle_route-Progress web analytics_route req = search (answers, reads)

pub serve_api-Progress :
    (web : Web) (route : Route) (req : Request) → Moves Any Progress (serve_api web route req)
unfolding serve_api api_auth
serve_api-Progress web route req = search (flow, handle_route-Progress)

accept_callback-Progress : (web : Web) (cb : Callback) → Moves Any Progress (accept_callback web cb)
unfolding accept_callback
accept_callback-Progress web cb = search (answers, handle_callback-Progress) depth 8

telegram_callback-Progress :
    (web : Web) (req : Request) → Moves Any Progress (telegram_callback web req)
unfolding telegram_callback
telegram_callback-Progress web req = search (flow, accept_callback-Progress)

check_signature-Progress :
    (web : Web) (req : Request) (body provided : String) (now : ℕ) (next : M Response)
    → Moves Any Progress next
    → Moves Any Progress (check_signature web req body provided now next)
unfolding check_signature
check_signature-Progress web req body provided now next k = search flow

pub serve_callback-Progress :
    (web : Web) (req : Request) → Moves Any Progress (serve_callback web req)
unfolding serve_callback telegram_callback_auth
serve_callback-Progress web req =
    search (flow, check_signature-Progress, telegram_callback-Progress)
