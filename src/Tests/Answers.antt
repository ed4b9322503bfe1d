-- ===== src/Tests/Answers.antt =====
-- The theorems on the configuration and on the answers of the models, on concrete ones.
use ai_social_publisher.Common.{
  ℕ, ◌≤◌, ◌<◌, ◌≡◌, refl, ℤ, pos, String, Bool, true, false, Option, none, some, List, [], ◌∷◌, All,
  length,
}
use ai_social_publisher.Rows.{Score, Db}
use ai_social_publisher.Errors.{message}
use ai_social_publisher.Status.{approved}
use ai_social_publisher.Exec.{Env, AccountConfig, PostVariant, GenerateRequest, ok, err}
use ai_social_publisher.News.{write_score}
use ai_social_publisher.Account.{sync_from_config}
use ai_social_publisher.Account.Startup.{Serves}
use ai_social_publisher.Settings.{RootConfig, TgptConfig, OllamaConfig, Urls, ParsedUrl}
use ai_social_publisher.Settings.Defaults.{apply_defaults}
use ai_social_publisher.Settings.Validate.{validate}
use ai_social_publisher.Settings.Startup.{validated-sync_from_config}
use ai_social_publisher.Ai.{ScoreResult, VariantsResult, generate_post_variants}
use ai_social_publisher.Ai.Parse.{Json, RawScore, parse_score, clean_json}
use ai_social_publisher.Ai.Scores.{Numbered, parse_score-write_score}
use ai_social_publisher.Ai.Storable.{generate_post_variants-Numbered}
use ai_social_publisher.Ai.Clients.{
  Shell, OllamaServer, timed_out, finished, tgpt_provider, ollama_provider,
}
use ai_social_publisher.Ai.Documents.{clean_json-fenced}
use ai_social_publisher.Approval.Intake.{score_row}
use ai_social_publisher.Tests.{env, env_of, state, candidate}

abbrev secret : String
secret = "0123456789abcdef0123456789abcdef"

abbrev channel : AccountConfig
channel = record {
  code = "tech";
  name = "Tech";
  category = "technology";
  instagram_user_id = "ig";
  variant_count = pos 0;
  notify_threshold = pos 0;
  styles = [];
}

abbrev settings : RootConfig
settings = record {
  app = record { env = ""; http_port = pos 0; public_base_url = "https://p" };
  database = record {
    url = "postgres://db";
    max_open_conns = pos 0;
    max_idle_conns = pos 0;
    conn_max_lifetime_minutes = pos 0;
    auto_migrate = true;
  };
  news_service = record {
    base_url = "https://n";
    auth_token = secret;
    timeout_seconds = pos 0;
    categories = [];
  };
  telegram_service = record {
    base_url = "https://t";
    auth_token = secret;
    timeout_seconds = pos 0;
  };
  providers = record {
    tgpt = record { enabled = true; command = ""; timeout_seconds = pos 0; allowed_env = [] };
    ollama = record { enabled = false; base_url = ""; model = ""; timeout_seconds = pos 0 };
  };
  post_generation = record { default_variant_count = pos 0; max_variant_count = pos 0 };
  instagram = record {
    graph_base_url = "";
    api_version = "";
    access_token = "";
    publish_enabled = false;
  };
  storage = record { driver = ""; base_dir = ""; retention_days = pos 0 };
  scheduler = record {
    enabled = true;
    news_sync_interval_minutes = pos 0;
    waiting_ai_retry_interval_minutes = pos 0;
    publish_interval_minutes = pos 0;
    work_interval_seconds = pos 0;
    notification_interval_seconds = pos 0;
    stale_job_timeout_minutes = pos 0;
  };
  security = record {
    api_token = secret;
    telegram_callback_secret = secret;
    allowed_telegram_users = "me" ∷ [];
  };
  accounts = channel ∷ [];
}

abbrev urls : Urls
urls = record {
  parse = λ raw. some (record { scheme = "postgres"; host = "h"; hostname = "h"; sslmode = "" });
  parse_request_uri = λ raw. some (record { scheme = "https"; host = "h" });
}

settings_valid : validate urls (apply_defaults settings) ≡ ok tt
unfolding ai_social_publisher.Settings.Validate.validate
    ai_social_publisher.Settings.Validate.and_then
    ai_social_publisher.Settings.Validate.validate_database_url apply_defaults
    ai_social_publisher.Settings.Validate.refuse
    ai_social_publisher.Settings.Validate.validate_process ai_social_publisher.Common.one_of
    ai_social_publisher.Settings.Validate.validate_services
    ai_social_publisher.Settings.Validate.validate_http_url
    ai_social_publisher.Settings.Validate.validate_publishing
    ai_social_publisher.Settings.Validate.validate_secrets
    ai_social_publisher.Settings.Validate.validate_providers ai_social_publisher.Common.trim_space
    ai_social_publisher.Settings.Validate.validate_env_names
    ai_social_publisher.Settings.Validate.has_separator
    ai_social_publisher.Settings.Validate.validate_channels
    ai_social_publisher.Settings.Validate.validate_categories
    ai_social_publisher.Settings.Validate.validate_accounts
    ai_social_publisher.Settings.Validate.validate_users
    ai_social_publisher.Settings.Validate.code_matches
    ai_social_publisher.Settings.Validate.equal_fold
settings_valid = refl

validated-sync_from_config_example :
    ((sync_from_config (apply_defaults settings).accounts env (state approved)).0 ≡ ok tt)
    × All
        (Serves
          (sync_from_config (apply_defaults settings).accounts env (state approved)).1.db.accounts)
        (apply_defaults settings).accounts
validated-sync_from_config_example =
    validated-sync_from_config urls settings env (state approved) settings_valid (λ n. refl)

abbrev raw_score : RawScore
raw_score = record {
  importance_score = pos 300;
  virality_score = pos 1;
  account_fit = "";
  should_notify = false;
  risk_level = "low";
  reason = "";
}

abbrev json : Json
json = record {
  score = λ text. ok raw_score;
  envelope = λ text. ok (record { style = "short"; caption = "Hi" } ∷ []);
  array = λ text. err (message "no array");
}

abbrev scored_as : ScoreResult
scored_as = record {
  score = record {
    importance_score = 100;
    virality_score = 1;
    account_fit = "skip";
    should_notify = false;
    risk_level = "low";
    reason = "";
  };
  provider = "tgpt";
  model = "";
}

abbrev rows : Db
rows = (state approved).db

parse_score-write_score_example :
    (saved : Score × Db) × (write_score (score_row candidate scored_as) 21 0 rows ≡ ok saved)
unfolding parse_score ai_social_publisher.Common.trim_space ai_social_publisher.Common.cut
    ai_social_publisher.Common.rune_count ai_social_publisher.Table.find_by
parse_score-write_score_example =
    parse_score-write_score json "{}" candidate candidate scored_as 21 0 rows refl refl

abbrev first_variant : List PostVariant
first_variant = record { variant_no = 1; style = "short"; caption = "Hi" } ∷ []

abbrev command : TgptConfig
command = record { enabled = true; command = "tgpt"; timeout_seconds = pos 60; allowed_env = [] }

abbrev shell : Shell
shell = record {
  look_path = λ n c. false;
  lookup_env = λ name. none;
  run_command = λ n c env prompt. timed_out;
  timeout_text = "1m0s";
}

abbrev local_model : OllamaConfig
local_model = record {
  enabled = true;
  base_url = "http://ollama";
  model = "m";
  timeout_seconds = pos 90;
}

abbrev server : OllamaServer
server = record {
  tags = λ n url. some 200;
  generate = λ n url model prompt. finished (record { status = 200; response = ok "{}" });
  timeout_text = "1m30s";
}

abbrev request : GenerateRequest
request = record {
  news = record {
    id = "1";
    title = "T";
    summary = "S";
    source = "";
    source_url = "";
    category = "economy";
    published_at = none;
  };
  category = "economy";
  variant_count = 1;
  styles = "short" ∷ "long" ∷ [];
}

abbrev answered : VariantsResult
answered = record { variants = first_variant; provider = "ollama"; model = "m" }

abbrev both_providers : Env
both_providers =
    env_of (tgpt_provider command shell json ∷ ollama_provider local_model server json ∷ [])
      (λ n. none)

generate_post_variants-Numbered_example : (length first_variant ≡ 1) × Numbered 0 first_variant
unfolding generate_post_variants ai_social_publisher.Exec.◌>>=◌ tgpt_provider ollama_provider
    ai_social_publisher.Ai.Clients.ollama_generate ai_social_publisher.Common.trim_space
    ai_social_publisher.Ai.Parse.parse_variants ai_social_publisher.Common.cut
    ai_social_publisher.Common.rune_count
generate_post_variants-Numbered_example =
    generate_post_variants-Numbered command shell local_model server json request both_providers
      (state approved) answered refl refl

clean_json-fenced_example : clean_json "```json\n{x}\n```" ≡ "{x}"
clean_json-fenced_example = clean_json-fenced "{" "}" "x" refl refl (refl, tt)
