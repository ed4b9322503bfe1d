-- ===== src/Settings.antt =====
-- internal/config/config.go: the configuration as the YAML file gives it, before it is checked; its
-- numbers are Go ints.
pub mod Defaults
pub mod Validate
pub mod Startup
use ai_social_publisher.Common.{ℤ, String, Bool, Option, List}
use ai_social_publisher.Exec.{AccountConfig, Url}

pub record AppConfig : Type 0 where
  pub env : String
  pub http_port : ℤ
  pub public_base_url : String

pub record DatabaseConfig : Type 0 where
  pub url : String
  pub max_open_conns : ℤ
  pub max_idle_conns : ℤ
  pub conn_max_lifetime_minutes : ℤ
  pub auto_migrate : Bool

pub record NewsServiceConfig : Type 0 where
  pub base_url : String
  pub auth_token : String
  pub timeout_seconds : ℤ
  pub categories : List String

pub record TelegramServiceConfig : Type 0 where
  pub base_url : String
  pub auth_token : String
  pub timeout_seconds : ℤ

pub record TgptConfig : Type 0 where
  pub enabled : Bool
  pub command : String
  pub timeout_seconds : ℤ
  pub allowed_env : List String

pub record OllamaConfig : Type 0 where
  pub enabled : Bool
  pub base_url : String
  pub model : String
  pub timeout_seconds : ℤ

-- `AIProvidersConfig`, the one field of `AIConfig`
pub record AiProvidersConfig : Type 0 where
  pub tgpt : TgptConfig
  pub ollama : OllamaConfig

pub record PostGenerationConfig : Type 0 where
  pub default_variant_count : ℤ
  pub max_variant_count : ℤ

pub record InstagramConfig : Type 0 where
  pub graph_base_url : String
  pub api_version : String
  pub access_token : String
  pub publish_enabled : Bool

pub record StorageConfig : Type 0 where
  pub driver : String
  pub base_dir : String
  pub retention_days : ℤ

pub record SchedulerConfig : Type 0 where
  pub enabled : Bool
  pub news_sync_interval_minutes : ℤ
  pub waiting_ai_retry_interval_minutes : ℤ
  pub publish_interval_minutes : ℤ
  pub work_interval_seconds : ℤ
  pub notification_interval_seconds : ℤ
  pub stale_job_timeout_minutes : ℤ

pub record SecurityConfig : Type 0 where
  pub api_token : String
  pub telegram_callback_secret : String
  pub allowed_telegram_users : List String

-- `Config`
pub record RootConfig : Type 0 where
  pub app : AppConfig
  pub database : DatabaseConfig
  pub news_service : NewsServiceConfig
  pub telegram_service : TelegramServiceConfig
  pub providers : AiProvidersConfig
  pub post_generation : PostGenerationConfig
  pub instagram : InstagramConfig
  pub storage : StorageConfig
  pub scheduler : SchedulerConfig
  pub security : SecurityConfig
  pub accounts : List AccountConfig

-- What `validate` reads of the URL that `url.Parse` returns.
pub record ParsedUrl : Type 0 where
  pub scheme : String
  pub host : String
  pub hostname : String
  pub sslmode : String

-- `url.Parse` and `url.ParseRequestURI`
pub record Urls : Type 0 where
  pub parse : String → Option ParsedUrl
  pub parse_request_uri : String → Option Url
