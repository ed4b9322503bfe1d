-- ===== src/Errors.antt =====
-- Go's error values: the sentinels of the packages, `fmt.Errorf` with %w, `errors.Join` and
-- `errors.Is`.
use ai_social_publisher.Common.{String, Bool, true, false, [], ◌∷◌, ◌||◌, concat}

-- The sentinel values: `sql.ErrNoRows`, `post.ErrNotFound`, `post.ErrInvalidTransition`, `news.ErrNotFound`,
-- `account.ErrNotFound`, `approval.ErrInvalidSchedule` and `ai.ErrAllProvidersFailed`.
pub data Sentinel : Type 0 where
  no_rows job_not_found invalid_transition candidate_not_found account_not_found : Sentinel
  invalid_schedule all_providers_failed : Sentinel

pub data Error : Type 0 where
  sentinel : Sentinel → Error
  -- `errors.New`, and `fmt.Errorf` with no %w
  message : String → Error
  -- a run-time panic, which unwinds to the scheduler's `recover`
  panic : String → Error
  -- an error of the driver or of a remote service
  driver : String → Error
  -- a statement that a CHECK or a foreign key of the schema rejects
  check_violation : Error
  -- `fmt.Errorf("before%wafter", inner)`
  wrapped : (before : String) → Error → (after : String) → Error
  -- `errors.Join`
  joined : Error → Error → Error

pub Sentinel-discrete : Discrete Sentinel
Sentinel-discrete = hlevel

-- `errors.Is`
unfoldable pub is_error : Error → Sentinel → Bool
is_error (sentinel s) t = elim (Sentinel-discrete s t) [ yes p ↦ true | no p ↦ false ]
is_error (wrapped _ e _) t = is_error e t
is_error (joined a b) t = is_error a t || is_error b t
is_error _ t = false

sentinel_text : Sentinel → String
sentinel_text no_rows = "sql: no rows in result set"
sentinel_text job_not_found = "post job not found"
sentinel_text invalid_transition = "invalid status transition"
sentinel_text candidate_not_found = "news candidate not found"
sentinel_text account_not_found = "account not found"
sentinel_text invalid_schedule = "invalid schedule time"
sentinel_text all_providers_failed = "all AI providers failed"

-- `err.Error()`
unfoldable pub error_text : Error → String
unfolding sentinel_text
error_text (sentinel s) = sentinel_text s
error_text (message m) = m
error_text (panic m) = m
error_text (driver m) = m
error_text check_violation = "new row violates a constraint"
error_text (wrapped before e after) = concat (before ∷ error_text e ∷ after ∷ [])
error_text (joined a b) = concat (error_text a ∷ "\n" ∷ error_text b ∷ [])
