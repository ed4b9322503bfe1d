-- ===== src/Http/Api.antt =====
-- internal/http/handlers.go: the handlers, one for each route of internal/http/server.go.
use ai_social_publisher.Common.{
  ℕ, ◌+◌, ℤ, String, Bool, true, false, ◌||◌, Option, none, some, List, [], ◌∷◌, ◌==◌, ltb, str_eq,
  if◌then◌else◌, trim_space, parse_id, one_of,
}
use ai_social_publisher.Status.{
  Status, new, scoring_queued, scoring, waiting_ai, scored, waiting_first_approval, variants_queued,
  generating_variants, waiting_variant_approval, ready_to_publish, scheduled, approved, publishing,
  published, skipped, failed,
}
use ai_social_publisher.Errors.{Error}
use ai_social_publisher.Exec.{M, on_option}
use ai_social_publisher.News.{list_candidates}
use ai_social_publisher.Account.{list_accounts}
use ai_social_publisher.Post.Jobs.{list, get_by_id}
use ai_social_publisher.Post.Review.{list_variants}
use ai_social_publisher.Post.Logs.{status_counts}
use ai_social_publisher.Outbox.{counts}
use ai_social_publisher.Approval.Context.{
  generate_post_action, skip_news_action, select_variant_action, regenerate_variants_action,
  cancel_action,
}
use ai_social_publisher.Approval.Variants.{generate_variants}
use ai_social_publisher.Approval.Queue.{
  select_variant_for_job, skip_job, queue_publish, schedule_publish, cancel_scheduled_publish,
}
use ai_social_publisher.Approval.Callback.{Callback, handle_callback}
use ai_social_publisher.Approval.Sync.{sync_news}
use ai_social_publisher.Http.{
  Request, Web, accounts, new_candidates, candidates, posts, post, analytics, status_text, Response,
  write_json, write_error, reply, with_id, decode, secure_equal, api_auth, telegram_callback_auth,
}

-- `limit, _ := strconv.Atoi(…)`: a text that is no number gives 0, and so does a negative number
-- here; the repositories read both as 50.
abbrev limit_of : Request → ℕ
limit_of req = elim (parse_id req.limit) [ none ↦ 0 | some n ↦ n ]

unfoldable pub sync_answer : ℕ × Option Error → M Response
sync_answer (n, none) = write_json 200 (new_candidates n false)
sync_answer (n, some e) =
    if ltb 0 n then write_json 207 (new_candidates n true) else write_error 502 "news sync failed"

-- `getPost`
unfoldable pub get_post : Request → M Response
unfolding reply
get_post req = with_id req λ id.
    reply (get_by_id id)
      λ job. reply (list_variants id) λ variants. write_json 200 (post job variants)

-- `generatePost`
unfoldable pub generate_post : Request → M Response
unfolding reply
generate_post req =
    with_id req
      λ id. reply (generate_variants id) λ _. write_json 202 (status_text "variants_queued")

abbrev chosen : Option ℤ → Option ℕ
chosen none = none
chosen (some (ℤ.pos n)) = if n == 0 then none else some n
chosen (some (ℤ.negsuc n)) = some 0

-- `approvePost`; no variant has a negative id, which is read as 0 here, which none has either.
unfoldable pub approve_post : Web → Request → M Response
unfolding reply
approve_post web req = with_id req λ id.
    on_option (chosen (decode web.decode_approve req))
      (λ variant_id.
        reply (select_variant_for_job id variant_id) λ _. write_json 202 (status_text "approved"))
      (write_error 400 "variantId is required")

-- `rejectPost`
unfoldable pub reject_post : Request → M Response
unfolding reply
reject_post req = with_id req λ id. reply (skip_job id) λ _. write_json 200 (status_text "skipped")

-- `publishPost`
unfoldable pub publish_post : Request → M Response
unfolding reply
publish_post req =
    with_id req λ id. reply (queue_publish id) λ _. write_json 202 (status_text "publish_queued")

-- `schedulePost`
unfoldable pub schedule_post : Web → Request → M Response
unfolding reply
schedule_post web req = with_id req λ id.
    on_option (decode web.decode_schedule req)
      (λ text.
        on_option (web.parse_time (trim_space text))
          (λ at. reply (schedule_publish id at) λ _. write_json 202 (status_text "scheduled"))
          (write_error 400 "scheduledAt must be an RFC3339 timestamp"))
      (write_error 400 "scheduledAt is required (RFC3339)")

-- `unschedulePost`
unfoldable pub unschedule_post : Request → M Response
unfolding reply
unschedule_post req =
    with_id req
      λ id. reply (cancel_scheduled_publish id) λ _. write_json 200 (status_text "unscheduled")

-- `validTelegramAction`
abbrev pub telegram_actions : List String
telegram_actions =
    generate_post_action ∷ skip_news_action ∷ select_variant_action ∷ regenerate_variants_action
    ∷ cancel_action ∷ []

abbrev pub is_positive : Option ℕ → Bool
is_positive none = false
is_positive (some n) = ltb 0 n

-- `telegramUserAllowed`
unfoldable pub telegram_user_allowed : List String → String → Bool
telegram_user_allowed [] user = false
telegram_user_allowed (allowed ∷ rest) user =
    let more = telegram_user_allowed rest user in if secure_equal user allowed then true else more

unfoldable pub accept_callback : Web → Callback → M Response
unfolding reply telegram_user_allowed
accept_callback web cb =
    if str_eq cb.action "" || str_eq cb.payload ""
    then write_error 400 "action and payload are required"
    else if one_of cb.action telegram_actions
    then if is_positive (parse_id cb.payload)
      then if telegram_user_allowed web.allowed_users cb.user
        then reply (handle_callback cb) (λ _. write_json 200 (status_text "ok"))
        else write_error 403 "telegram user is not allowed"
      else write_error 400 "invalid callback payload"
    else write_error 400 "unknown callback action"

-- `telegramCallback`
unfoldable pub telegram_callback : Web → Request → M Response
unfolding accept_callback
telegram_callback web req =
    on_option (decode web.decode_callback req) (accept_callback web)
      (write_error 400 "invalid JSON body")

abbrev pub all_statuses : List Status
all_statuses =
    new ∷ scoring_queued ∷ scoring ∷ waiting_ai ∷ scored ∷ waiting_first_approval ∷ variants_queued
    ∷ generating_variants ∷ waiting_variant_approval ∷ ready_to_publish ∷ scheduled ∷ approved
    ∷ publishing ∷ published ∷ skipped ∷ failed ∷ []

abbrev pub sum_counts : (Status → ℕ) → List Status → ℕ
sum_counts f [] = 0
sum_counts f (s ∷ rest) = f s + sum_counts f rest

-- `analyticsPosts`; the counts of the published, the failed and the waiting jobs are in `by_status`.
unfoldable pub analytics_posts : M Response
unfolding reply
analytics_posts = reply status_counts λ by_status. reply counts λ both. write_json 200 (
    analytics (record {
      total_jobs = sum_counts by_status all_statuses;
      by_status = by_status;
      pending = both.0;
      dead = both.1;
    }))

-- The routes of the API's group.
pub data Route : Type 0 where
  accounts_route sync_route candidates_route posts_route post_route generate_route : Route
  approve_route reject_route publish_route schedule_route unschedule_route analytics_route : Route

-- Whether a route is a GET.
abbrev pub is_read : Route → Bool
is_read accounts_route = true
is_read candidates_route = true
is_read posts_route = true
is_read post_route = true
is_read analytics_route = true
is_read _ = false

-- `listAccounts`
unfoldable pub accounts_answer : M Response
unfolding reply
accounts_answer = reply list_accounts λ as'. write_json 200 (accounts as')

-- `listCandidates`
unfoldable pub candidates_answer : Request → M Response
unfolding reply
candidates_answer req = reply (list_candidates (limit_of req)) λ cs. write_json 200 (candidates cs)

-- `listPosts`
unfoldable pub posts_answer : Request → M Response
unfolding reply
posts_answer req = reply (list (limit_of req)) λ js. write_json 200 (posts js)

unfoldable pub handle_route : Web → Route → Request → M Response
unfolding reply sync_answer get_post generate_post approve_post reject_post publish_post
    schedule_post unschedule_post analytics_posts accounts_answer candidates_answer posts_answer
handle_route web accounts_route req = accounts_answer
handle_route web sync_route req = reply sync_news sync_answer
handle_route web candidates_route req = candidates_answer req
handle_route web posts_route req = posts_answer req
handle_route web post_route req = get_post req
handle_route web generate_route req = generate_post req
handle_route web approve_route req = approve_post web req
handle_route web reject_route req = reject_post req
handle_route web publish_route req = publish_post req
handle_route web schedule_route req = schedule_post web req
handle_route web unschedule_route req = unschedule_post req
handle_route web analytics_route req = analytics_posts

-- A request of the API's group, through `apiAuth`.
unfoldable pub serve_api : Web → Route → Request → M Response
unfolding api_auth handle_route
serve_api web route req = api_auth web req (handle_route web route req)

-- POST /api/telegram/callback, through `telegramCallbackAuth`.
unfoldable pub serve_callback : Web → Request → M Response
unfolding telegram_callback_auth
serve_callback web req = telegram_callback_auth web req (telegram_callback web req)
