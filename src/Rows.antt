-- ===== src/Rows.antt =====
-- The rows that the packages keep in PostgreSQL (internal/post/post.go, internal/news/news.go,
-- internal/account/account.go, internal/outbox/outbox.go, internal/telegram/telegram.go and the
-- tables of migrations/). Ids and counts are numbers; a time is the number of nanoseconds since
-- the epoch; a nullable column is an `Option`.
use ai_social_publisher.Common.{ℕ, String, Bool, Option, List}
use ai_social_publisher.Status.{Status}

-- `post.Job`
pub record Job : Type 0 where
  pub id : ℕ
  pub news_candidate_id : ℕ
  pub social_account_id : ℕ
  pub status : Status
  pub requested_variant_count : ℕ
  pub selected_variant_id : Option ℕ
  pub instagram_media_id : String
  pub ai_provider : String
  pub ai_model : String
  pub ai_error : String
  pub error_message : String
  pub ai_retry_count : ℕ
  pub next_ai_retry_at : ℕ
  pub created_at : ℕ
  pub updated_at : ℕ
  pub scheduled_publish_at : Option ℕ

-- `post.Variant`
pub record Variant : Type 0 where
  pub id : ℕ
  pub post_job_id : ℕ
  pub variant_no : ℕ
  pub style : String
  pub caption : String
  pub image_url : String
  pub created_at : ℕ

-- A JSON payload, by the fields that the code reads from it: `malformed` is a text that
-- `json.Unmarshal` refuses.
pub data Payload : Type 0 where
  malformed : Payload
  object : (id media_id : String) → (error : Option String) → Payload

-- `post.PublishLog`, with its row id; `none` is a NULL payload.
pub record PublishLog : Type 0 where
  pub id : ℕ
  pub post_job_id : ℕ
  pub platform : String
  pub response_payload : Option Payload
  pub success : Bool
  pub error_message : String

-- `news.Candidate`, less the raw payload
pub record Candidate : Type 0 where
  pub id : ℕ
  pub external_news_id : String
  pub title : String
  pub summary : String
  pub source : String
  pub source_url : String
  pub category : String
  pub published_at : Option ℕ
  pub created_at : ℕ

-- `news.Score`
pub record Score : Type 0 where
  pub id : ℕ
  pub news_candidate_id : ℕ
  pub importance_score : ℕ
  pub virality_score : ℕ
  pub account_fit : String
  pub should_notify : Bool
  pub risk_level : String
  pub reason : String
  pub ai_provider : String
  pub ai_model : String
  pub created_at : ℕ

-- `account.Account`
pub record Account : Type 0 where
  pub id : ℕ
  pub code : String
  pub name : String
  pub category : String
  pub instagram_user_id : String
  pub variant_count : ℕ
  pub notify_threshold : ℕ
  pub is_active : Bool
  pub created_at : ℕ
  pub updated_at : ℕ

-- `telegram.Button`
pub record Button : Type 0 where
  pub text : String
  pub action : String
  pub payload : String

-- `telegram.Notification`
pub record Notification : Type 0 where
  pub channel : String
  pub idempotency_key : String
  pub title : String
  pub message : String
  pub buttons : List Button

-- The payload column of notification_outbox: the JSON of a notification, or a text that
-- `json.Unmarshal` refuses with the given error.
pub data Stored : Type 0 where
  notification : Notification → Stored
  garbled : (error : String) → Stored

-- A row of notification_outbox.
pub record OutboxRow : Type 0 where
  pub id : ℕ
  pub dedupe_key : String
  pub payload : Stored
  pub attempts : ℕ
  pub next_attempt_at : ℕ
  pub locked_until : Option ℕ
  pub sent_at : Option ℕ
  pub dead_at : Option ℕ
  pub last_error : String

-- The tables.
pub record Db : Type 0 where
  pub jobs : List Job
  pub variants : List Variant
  pub logs : List PublishLog
  pub outbox : List OutboxRow
  pub candidates : List Candidate
  pub scores : List Score
  pub accounts : List Account
