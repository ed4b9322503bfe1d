-- ===== src/Approval/Context.antt =====
-- internal/approval/service.go: the helpers of the service, and what it sends.
use ai_social_publisher.Common.{ℕ, String, Option, none, some, List, [], ◌∷◌, str_eq, if◌then◌else◌}
use ai_social_publisher.Rows.{Job, Candidate, Account, Button, Notification}
use ai_social_publisher.Exec.{M, pure, ◌>>=◌, NewsView, AccountConfig, Config}
use ai_social_publisher.News.{get_candidate, get_account}
use ai_social_publisher.Post.Jobs.{get_by_id}
use ai_social_publisher.Outbox.{enqueue}

-- `telegram.Action…`
abbrev pub generate_post_action : String
generate_post_action = "GENERATE_POST"

abbrev pub skip_news_action : String
skip_news_action = "SKIP_NEWS"

abbrev pub select_variant_action : String
select_variant_action = "SELECT_VARIANT"

abbrev pub regenerate_variants_action : String
regenerate_variants_action = "REGENERATE_VARIANTS"

abbrev pub cancel_action : String
cancel_action = "CANCEL"

-- `loadCandidateAccount`
unfoldable pub load_candidate_account : Job → M (Candidate × Account)
load_candidate_account job = do
  candidate ← get_candidate job.news_candidate_id
  acct ← get_account job.social_account_id
  pure (candidate, acct)

-- The three results of `loadJobContext`.
pub record JobContext : Type 0 where
  pub job : Job
  pub candidate : Candidate
  pub acct : Account

-- `loadJobContext`
unfoldable pub load_job_context : ℕ → M JobContext
load_job_context job_id = do
  job ← get_by_id job_id
  both ← load_candidate_account job
  pure (record { job = job; candidate = both.0; acct = both.1 })

-- `AccountByCategory` of internal/config/config.go
unfoldable pub account_by_category : String → List AccountConfig → Option AccountConfig
account_by_category category [] = none
account_by_category category (a ∷ rest) =
    let more = account_by_category category rest in
    if str_eq a.category category then some a else more

abbrev styles_of : Option AccountConfig → List String
styles_of none = []
styles_of (some a) = a.styles

-- `stylesFor`
unfoldable pub styles_for : String → Config → List String
unfolding account_by_category
styles_for category cfg = styles_of (account_by_category category cfg.accounts)

abbrev pub plain : String → String → List Button → Notification
plain title message buttons = record {
  channel = "";
  idempotency_key = "";
  title = title;
  message = message;
  buttons = buttons;
}

-- `queueNotice`
unfoldable pub queue_notice : String → String → String → M (Unit {0})
queue_notice key title message = enqueue key (plain title message [])

-- `toAINews`
unfoldable pub to_ai_news : Candidate → NewsView
to_ai_news c = record {
  id = c.external_news_id;
  title = c.title;
  summary = c.summary;
  source = c.source;
  source_url = c.source_url;
  category = c.category;
  published_at = c.published_at;
}
