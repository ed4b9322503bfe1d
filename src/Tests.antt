-- ===== src/Tests.antt =====
-- Concrete rows, an environment and states, on which the theorems are applied.
mod Runs
mod Jobs
mod Messages
mod Rules
mod Requests
mod Answers
use ai_social_publisher.Common.{
  if◌then◌else◌, ◌==◌, ℕ, ◌+◌, String, Bool, true, false, Option, none, some, List, [], ◌∷◌,
}
use ai_social_publisher.Status.{Status, approved}
use ai_social_publisher.Rows.{
  Job, Variant, Candidate, Account, Notification, notification, Payload, object, OutboxRow, Db,
}
use ai_social_publisher.Errors.{message}
use ai_social_publisher.Exec.{
  Env, State, Result, ok, err, Config, Provider, NewsView, NewsScore, PostVariant,
}

abbrev pub job : Status → Option ℕ → Job
job status at = record {
  id = 7;
  news_candidate_id = 1;
  social_account_id = 2;
  status = status;
  requested_variant_count = 1;
  selected_variant_id = some 9;
  instagram_media_id = "";
  ai_provider = "tgpt";
  ai_model = "";
  ai_error = "";
  error_message = "";
  ai_retry_count = 2;
  next_ai_retry_at = 0;
  created_at = 0;
  updated_at = 0;
  scheduled_publish_at = at;
}

abbrev pub variant : Variant
variant = record {
  id = 9;
  post_job_id = 7;
  variant_no = 1;
  style = "short";
  caption = "Hi";
  image_url = "u";
  created_at = 0;
}

abbrev pub candidate : Candidate
candidate = record {
  id = 1;
  external_news_id = "x";
  title = "T";
  summary = "S";
  source = "R";
  source_url = "U";
  category = "tech";
  published_at = none;
  created_at = 0;
}

abbrev pub account : Account
account = record {
  id = 2;
  code = "tech";
  name = "Tech";
  category = "tech";
  instagram_user_id = "ig";
  variant_count = 3;
  notify_threshold = 70;
  is_active = true;
  created_at = 0;
  updated_at = 0;
}

abbrev pub note : Notification
note = record { channel = ""; idempotency_key = "k"; title = "t"; message = "m"; buttons = [] }

abbrev pub row : OutboxRow
row = record {
  id = 4;
  dedupe_key = "k";
  payload = notification note;
  attempts = 0;
  next_attempt_at = 0;
  locked_until = none;
  sent_at = none;
  dead_at = none;
  last_error = "";
}

abbrev pub db : Status → Db
db status = record {
  jobs = job status (some 5) ∷ [];
  variants = variant ∷ [];
  logs = [];
  outbox = row ∷ [];
  candidates = candidate ∷ [];
  scores = [];
  accounts = account ∷ [];
}

abbrev pub state : Status → State
state status = record { db = db status; seq = 20; calls = 0; published = [] }

abbrev pub cfg : Config
cfg = record {
  accounts = [];
  categories = "tech" ∷ [];
  default_variant_count = 3;
  max_variant_count = 5;
  publish_enabled = false;
  access_token = "";
  graph_base_url = "";
  api_version = "";
  stale_job_timeout_minutes = 15;
}

abbrev pub news : NewsView
news = record {
  id = "x";
  title = "T";
  summary = "S";
  source = "R";
  source_url = "U";
  category = "tech";
  published_at = none;
}

abbrev pub good_score : NewsScore
good_score = record {
  importance_score = 80;
  virality_score = 10;
  account_fit = "tech";
  should_notify = true;
  risk_level = "low";
  reason = "";
}

-- A provider that answers, and one that never does.
abbrev pub good : Provider
good = record {
  name = "tgpt";
  model = none;
  is_available = λ n. true;
  score_news = λ n v. ok good_score;
  generate_post_variants =
      λ n r. ok (record { variant_no = 1; style = "short"; caption = "Hi" } ∷ []);
}

abbrev pub bad : Provider
bad = record {
  name = "ollama";
  model = some "m";
  is_available = λ n. true;
  score_news = λ n v. err (message "timeout");
  generate_post_variants = λ n r. err (message "timeout");
}

abbrev pub env_of : List Provider → (ℕ → Option String) → Env
env_of providers fault = record {
  cfg = cfg;
  db_fault = fault;
  clock = λ n. 10 + n;
  format_time = λ n. "";
  render = λ n v w a. ok "path";
  upload = λ n p. ok "url";
  graph_post = λ n u e f. ok (object "1" "" none);
  providers = providers;
  fetch_news = λ n c. ok [];
  parse_request_uri = λ s. some (record { scheme = "https"; host = "h" });
  telegram_post = λ n m. ok tt;
}

abbrev pub env : Env
env = env_of (bad ∷ good ∷ []) (λ n. none)

-- The third statement fails.
abbrev pub faulty : Env
faulty = env_of [] (λ n. if n == 2 then some "connection lost" else none)
