-- ===== src/Settings/Validate.antt =====
-- internal/config/config.go: `validate`, in the order of its checks.
use ai_social_publisher.Common.{
  ℕ, ◌+◌, pos, ltb_ℤ, String, Bool, true, false, not, ◌&&◌, ◌||◌, Option, none, some, List, [], ◌∷◌,
  ltb, leb, ◌==◌, str_eq, if◌then◌else◌, concat, trim_space, one_of,
}
use Prim.Native.String.{len}
use Prim.Native.Char.{code}
use ai_social_publisher.Errors.{message}
use ai_social_publisher.Exec.{Result, ok, err, AccountConfig, Url}
use ai_social_publisher.Settings.{
  AppConfig, DatabaseConfig, SecurityConfig, RootConfig, AiProvidersConfig, PostGenerationConfig,
  SchedulerConfig, ParsedUrl, Urls,
}

abbrev pub Checked : Type 0
Checked = Result (Unit {0})

-- `if bad { return fmt.Errorf(text) }`, and what comes after.
unfoldable pub refuse : Bool → String → Checked → Checked
refuse bad text rest = if bad then err (message text) else rest

-- `if err := …; err != nil { return err }`, and what comes after.
unfoldable pub and_then : Checked → Checked → Checked
and_then (err e) rest = err e
and_then (ok u) rest = rest

abbrev blank : String → Bool
blank s = str_eq (trim_space s) ""

abbrev lower : ℕ → ℕ
lower n = if leb 65 n && leb n 90 then n + 32 else n

-- `strings.ToLower`, as far as it can give an ASCII text
unfoldable pub lower_is : String → String → Bool
lower_is String.[] String.[] = true
lower_is String.[] (String.◌∷◌ d t) = false
lower_is (String.◌∷◌ c s) String.[] = false
lower_is (String.◌∷◌ c s) (String.◌∷◌ d t) = lower (code c) == code d && lower_is s t

-- The letters that simple folding identifies with an ASCII one: also the long s and the Kelvin sign.
abbrev folded : ℕ → ℕ
folded n = if n == 383 then 115 else if n == 8490 then 107 else lower n

-- `strings.EqualFold` with a text of small ASCII letters
unfoldable pub equal_fold : String → String → Bool
equal_fold String.[] String.[] = true
equal_fold String.[] (String.◌∷◌ d t) = false
equal_fold (String.◌∷◌ c s) String.[] = false
equal_fold (String.◌∷◌ c s) (String.◌∷◌ d t) = folded (code c) == code d && equal_fold s t

abbrev is_web : Url → Bool
is_web u = not (str_eq u.host "") && (str_eq u.scheme "http" || str_eq u.scheme "https")

-- `validateHTTPURL`
unfoldable pub validate_http_url : Urls → (name raw : String) → Bool → Checked
validate_http_url urls name raw require_https = elim (urls.parse_request_uri raw) [
  | none ↦ err (message (concat (name ∷ " must be a valid absolute HTTP URL" ∷ [])))
  | some u ↦ refuse (not (is_web u)) (concat (name ∷ " must be a valid absolute HTTP URL" ∷ [])) (
      refuse (require_https && not (str_eq u.scheme "https"))
        (concat (name ∷ " must use HTTPS" ∷ [])) (ok tt))
]

abbrev is_postgres : ParsedUrl → Bool
is_postgres u =
    not (str_eq u.host "") && (str_eq u.scheme "postgres" || str_eq u.scheme "postgresql")

unfoldable pub validate_database_url : Urls → AppConfig → DatabaseConfig → Checked
validate_database_url urls app d =
    if str_eq d.url "" then err (message "database.url is required") else elim (urls.parse d.url) [
      | none ↦ err (message "database.url must be a valid postgres URL")
      | some u ↦ refuse (not (is_postgres u)) "database.url must be a valid postgres URL" (
          refuse (str_eq app.env "production" && equal_fold u.sslmode "disable")
            "database.url must not disable TLS in production" (ok tt))
    ]

abbrev no_accounts : List AccountConfig → Bool
no_accounts [] = true
no_accounts (a ∷ rest) = false

abbrev nobody : List String → Bool
nobody [] = true
nobody (u ∷ rest) = false

abbrev bad_interval : SchedulerConfig → Bool
bad_interval s =
    ltb_ℤ s.news_sync_interval_minutes (pos 1)
    || (ltb_ℤ s.waiting_ai_retry_interval_minutes (pos 1)
        || (ltb_ℤ s.publish_interval_minutes (pos 1)
            || (ltb_ℤ s.work_interval_seconds (pos 1)
                || (ltb_ℤ s.notification_interval_seconds (pos 1)
                    || ltb_ℤ s.stale_job_timeout_minutes (pos 1)))))

abbrev bad_timeout : RootConfig → Bool
bad_timeout c =
    ltb_ℤ c.news_service.timeout_seconds (pos 1)
    || (ltb_ℤ c.telegram_service.timeout_seconds (pos 1)
        || (ltb_ℤ c.providers.tgpt.timeout_seconds (pos 1)
            || ltb_ℤ c.providers.ollama.timeout_seconds (pos 1)))

-- The checks of the process's own settings: from the accounts' presence to the intervals.
unfoldable pub validate_process : RootConfig → Checked
validate_process c = refuse (no_accounts c.accounts) "at least one account must be configured" (
    refuse (ltb_ℤ c.app.http_port (pos 1) || ltb_ℤ (pos 65535) c.app.http_port)
      "app.http_port must be between 1 and 65535"
      (refuse (not (one_of c.app.env ("development" ∷ "test" ∷ "production" ∷ [])))
        "app.env must be development, test or production"
        (refuse
          (ltb_ℤ c.database.max_open_conns (pos 1)
            || (ltb_ℤ c.database.max_idle_conns (pos 0)
                || ltb_ℤ c.database.max_open_conns c.database.max_idle_conns))
          "database connection pool limits are invalid"
          (refuse (bad_timeout c) "service timeout values must be positive"
            (refuse (bad_interval c.scheduler) "scheduler intervals must be positive" (ok tt))))))

abbrev is_local : String → Bool
is_local host = lower_is host "localhost" || (lower_is host "127.0.0.1" || lower_is host "::1")

-- `publicURL, _ := url.Parse(…)`; where it fails the code would read a nil URL.
abbrev public_host : Option ParsedUrl → String
public_host none = ""
public_host (some u) = u.hostname

unfoldable pub validate_publishing : Urls → RootConfig → Checked
validate_publishing urls c =
    if c.instagram.publish_enabled
    then refuse (is_local (public_host (urls.parse c.app.public_base_url)))
        "app.public_base_url must be publicly reachable when Instagram publishing is enabled"
        (refuse (blank c.instagram.access_token)
          "instagram.access_token is required when publishing is enabled" (ok tt))
    else ok tt

-- The checks of the services and of the storage.
unfoldable pub validate_services : Urls → RootConfig → Checked
validate_services urls c =
    let https = str_eq c.app.env "production" in
    and_then (validate_http_url urls "news_service.base_url" c.news_service.base_url https) (
      and_then
        (validate_http_url urls "telegram_service.base_url" c.telegram_service.base_url https)
        (refuse
          (ltb (len c.news_service.auth_token) 32 || ltb (len c.telegram_service.auth_token) 32)
          "news_service.auth_token and telegram_service.auth_token must be at least 32 characters"
          (and_then
            (validate_http_url urls "instagram.graph_base_url" c.instagram.graph_base_url true)
            (refuse (not (str_eq c.storage.driver "local"))
              (concat (
                "storage.driver \"" ∷ c.storage.driver ∷ "\" is unsupported (supported: local)"
                ∷ []))
              (refuse (ltb_ℤ c.storage.retention_days (pos 1))
                "storage.retention_days must be positive"
                (refuse (str_eq c.app.public_base_url "") "app.public_base_url is required" (
                  and_then
                    (validate_http_url urls "app.public_base_url" c.app.public_base_url
                      c.instagram.publish_enabled)
                    (validate_publishing urls c))))))))

-- The checks of the secrets.
unfoldable pub validate_secrets : SecurityConfig → Checked
validate_secrets s =
    refuse (ltb (len s.api_token) 32) "security.api_token must be at least 32 characters" (
      refuse (ltb (len s.telegram_callback_secret) 32)
        "security.telegram_callback_secret must be at least 32 characters"
        (refuse (nobody s.allowed_telegram_users)
          "security.allowed_telegram_users must contain at least one user" (ok tt)))

-- `strings.ContainsAny(name, "=\x00")`
unfoldable pub has_separator : String → Bool
has_separator String.[] = false
has_separator (String.◌∷◌ c s) = code c == 61 || (code c == 0 || has_separator s)

unfoldable pub validate_env_names : List String → Checked
validate_env_names [] = ok tt
validate_env_names (name ∷ rest) =
    let others = validate_env_names rest in
    if blank name || has_separator name
    then err (message "ai.providers.tgpt.allowed_env contains an invalid variable name")
    else others

-- The checks of the AI providers and of the counts.
unfoldable pub validate_providers : Urls → AiProvidersConfig → PostGenerationConfig → Checked
validate_providers urls p g =
    refuse (not p.tgpt.enabled && not p.ollama.enabled) "at least one AI provider must be enabled" (
      and_then
        (if p.ollama.enabled
          then and_then
              (validate_http_url urls "ai.providers.ollama.base_url" p.ollama.base_url false)
              (refuse (blank p.ollama.model) "ai.providers.ollama.model is required when enabled"
                (ok tt))
          else ok tt)
        (refuse (p.tgpt.enabled && blank p.tgpt.command)
          "ai.providers.tgpt.command is required when enabled"
          (and_then (validate_env_names p.tgpt.allowed_env) (
            refuse
              (ltb_ℤ g.max_variant_count (pos 1)
                || (ltb_ℤ (pos 10) g.max_variant_count
                    || (ltb_ℤ g.default_variant_count (pos 1)
                        || ltb_ℤ g.max_variant_count g.default_variant_count)))
              "post_generation variant counts are invalid" (ok tt)))))

-- The configured categories, trimmed: the keys of `configuredNewsCategories`, where `seen` are the
-- earlier ones.
unfoldable pub validate_categories : List String → List String → Result (List String)
validate_categories seen [] = ok seen
validate_categories seen (category ∷ rest) =
    let name = trim_space category in
    let others = validate_categories (name ∷ seen) rest in
    if str_eq name "" || one_of name seen
    then err (message "news_service.categories contains an empty or duplicate category")
    else others

abbrev code_char : ℕ → Bool
code_char n =
    (leb 65 n && leb n 90)
    || ((leb 97 n && leb n 122) || ((leb 48 n && leb n 57) || (n == 95 || n == 45)))

-- `accountCodeRe`, for a code that is not empty
unfoldable pub code_matches : String → Bool
code_matches String.[] = true
code_matches (String.◌∷◌ c s) = code_char (code c) && code_matches s

abbrev about : String → String → String
about code text = concat ("account \"" ∷ code ∷ "\": " ∷ text ∷ [])

-- The loop over the accounts; `codes` and `taken` are the earlier ones' codes and categories.
unfoldable pub validate_accounts :
    (publish : Bool) (configured codes taken : List String) → List AccountConfig → Checked
validate_accounts publish configured codes taken [] = ok tt
validate_accounts publish configured codes taken (a ∷ rest) =
    let others = validate_accounts publish configured (a.code ∷ codes) (a.category ∷ taken) rest in
    refuse (str_eq a.code "") "account code must not be empty" (
      refuse (not (code_matches a.code))
        (concat
          ("account code \"" ∷ a.code ∷ "\" may only contain letters, digits, '-' and '_'" ∷ []))
        (refuse (one_of a.code codes) (concat ("duplicate account code \"" ∷ a.code ∷ "\"" ∷ [])) (
          refuse (str_eq a.category "") (about a.code "category is required") (
            refuse (one_of a.category taken)
              (concat ("duplicate account category \"" ∷ a.category ∷ "\" is unsupported" ∷ []))
              (refuse (not (one_of a.category configured))
                (concat (
                  "account \"" ∷ a.code ∷ "\" category \"" ∷ a.category
                  ∷ "\" is not included in news_service.categories" ∷ []))
                (refuse (ltb_ℤ a.notify_threshold (pos 0) || ltb_ℤ (pos 100) a.notify_threshold)
                  (about a.code "notify_threshold must be between 0 and 100")
                  (refuse (publish && blank a.instagram_user_id)
                    (about a.code "instagram_user_id is required when publishing is enabled")
                    others)))))))

unfoldable pub validate_users : List String → Checked
validate_users [] = ok tt
validate_users (user ∷ rest) =
    let others = validate_users rest in
    if blank user
    then err (message "security.allowed_telegram_users must not contain empty users")
    else others

unfoldable pub validate_channels : RootConfig → Result (List String) → Checked
validate_channels c (err e) = err e
validate_channels c (ok configured) =
    and_then (validate_accounts c.instagram.publish_enabled configured [] [] c.accounts)
      (validate_users c.security.allowed_telegram_users)

-- `validate`
unfoldable pub validate : Urls → RootConfig → Checked
validate urls c = and_then (validate_database_url urls c.app c.database) (
    and_then (validate_process c) (
      and_then (validate_services urls c) (
        and_then (validate_secrets c.security) (
          and_then (validate_providers urls c.providers c.post_generation)
            (validate_channels c (validate_categories [] c.news_service.categories))))))
