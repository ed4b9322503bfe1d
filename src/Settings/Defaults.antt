-- ===== src/Settings/Defaults.antt =====
-- internal/config/config.go: `applyDefaults`.
use ai_social_publisher.Common.{
  ℤ, pos, leb_ℤ, ltb_ℤ, String, Bool, false, List, [], ◌∷◌, map, str_eq, if◌then◌else◌, ◌==◌,
}
use ai_social_publisher.Exec.{AccountConfig}
use ai_social_publisher.Settings.{
  AppConfig, DatabaseConfig, NewsServiceConfig, TelegramServiceConfig, PostGenerationConfig,
  InstagramConfig, StorageConfig, SchedulerConfig, RootConfig, TgptConfig, OllamaConfig,
}

abbrev is_zero : ℤ → Bool
is_zero (ℤ.pos n) = n == 0
is_zero (ℤ.negsuc n) = false

-- `if v == 0 { v = d }`, for numbers, texts and lists
abbrev pub or_number : ℤ → ℤ → ℤ
or_number v d = if is_zero v then d else v

abbrev pub or_text : String → String → String
or_text v d = if str_eq v "" then d else v

abbrev pub or_list : List String → List String → List String
or_list [] d = d
or_list (x ∷ xs) d = x ∷ xs

abbrev pub app_defaults : AppConfig → AppConfig
app_defaults a = record a {
  http_port = or_number a.http_port (pos 8080);
  env = or_text a.env "development";
}

abbrev pub database_defaults : DatabaseConfig → DatabaseConfig
database_defaults d = record d {
  max_open_conns = or_number d.max_open_conns (pos 10);
  max_idle_conns = or_number d.max_idle_conns (pos 5);
  conn_max_lifetime_minutes = or_number d.conn_max_lifetime_minutes (pos 30);
}

abbrev pub news_defaults : NewsServiceConfig → NewsServiceConfig
news_defaults n = record n {
  timeout_seconds = or_number n.timeout_seconds (pos 20);
  categories = or_list n.categories ("technology" ∷ "cinema" ∷ "news" ∷ "economy" ∷ []);
}

abbrev pub telegram_defaults : TelegramServiceConfig → TelegramServiceConfig
telegram_defaults t = record t { timeout_seconds = or_number t.timeout_seconds (pos 15) }

abbrev pub tgpt_defaults : TgptConfig → TgptConfig
tgpt_defaults t = record t {
  command = or_text t.command "tgpt";
  timeout_seconds = or_number t.timeout_seconds (pos 120);
  allowed_env = or_list t.allowed_env ("PATH" ∷ "HOME" ∷ "TMPDIR" ∷ "LANG" ∷ "SSL_CERT_FILE" ∷ []);
}

abbrev pub ollama_defaults : OllamaConfig → OllamaConfig
ollama_defaults o = record o {
  base_url = or_text o.base_url "http://localhost:11434";
  model = or_text o.model "llama3.1:8b";
  timeout_seconds = or_number o.timeout_seconds (pos 90);
}

abbrev pub generation_defaults : PostGenerationConfig → PostGenerationConfig
generation_defaults p = record {
  default_variant_count = or_number p.default_variant_count (pos 3);
  max_variant_count = or_number p.max_variant_count (pos 10);
}

abbrev pub instagram_defaults : InstagramConfig → InstagramConfig
instagram_defaults i = record i {
  graph_base_url = or_text i.graph_base_url "https://graph.facebook.com";
  api_version = or_text i.api_version "v23.0";
}

abbrev pub storage_defaults : StorageConfig → StorageConfig
storage_defaults s = record {
  driver = or_text s.driver "local";
  base_dir = or_text s.base_dir "./storage/uploads";
  retention_days = or_number s.retention_days (pos 30);
}

abbrev pub scheduler_defaults : SchedulerConfig → SchedulerConfig
scheduler_defaults s = record s {
  news_sync_interval_minutes = or_number s.news_sync_interval_minutes (pos 10);
  waiting_ai_retry_interval_minutes = or_number s.waiting_ai_retry_interval_minutes (pos 15);
  publish_interval_minutes = or_number s.publish_interval_minutes (pos 1);
  work_interval_seconds = or_number s.work_interval_seconds (pos 5);
  notification_interval_seconds = or_number s.notification_interval_seconds (pos 5);
  stale_job_timeout_minutes = or_number s.stale_job_timeout_minutes (pos 10);
}

-- An account's number of variants: the default where none is given, and the maximum at most.
unfoldable pub variant_count_default : PostGenerationConfig → ℤ → ℤ
variant_count_default p count =
    let given = if leb_ℤ count (pos 0) then p.default_variant_count else count in
    if ltb_ℤ p.max_variant_count given then p.max_variant_count else given

abbrev pub account_defaults : PostGenerationConfig → AccountConfig → AccountConfig
account_defaults p a = record a {
  variant_count = variant_count_default p a.variant_count;
  notify_threshold = or_number a.notify_threshold (pos 80);
}

-- `applyDefaults`
unfoldable pub apply_defaults : RootConfig → RootConfig
apply_defaults c =
    let generation = generation_defaults c.post_generation in
    record {
      app = app_defaults c.app;
      database = database_defaults c.database;
      news_service = news_defaults c.news_service;
      telegram_service = telegram_defaults c.telegram_service;
      providers = record {
        tgpt = tgpt_defaults c.providers.tgpt;
        ollama = ollama_defaults c.providers.ollama;
      };
      post_generation = generation;
      instagram = instagram_defaults c.instagram;
      storage = storage_defaults c.storage;
      scheduler = scheduler_defaults c.scheduler;
      security = c.security;
      accounts = map (account_defaults generation) c.accounts;
    }
