-- ===== src/Http.antt =====
-- internal/http/handlers.go and internal/http/security.go: the requests of the JSON API, what decodes
-- and authenticates them, and the responses. Headers of a response are not modelled.
pub mod Api
pub mod Flow
pub mod Access
pub mod Errors
use ai_social_publisher.Common.{
  ℕ, ◌+◌, ◌*◌, ℤ, pos_part, String, Bool, true, false, ◌&&◌, ◌||◌, not, Option, none, some, List,
  [], ◌∷◌, ◌==◌, leb, str_eq, if◌then◌else◌, trim_space, cut_prefix, parse_id, concat, one_of,
}
use Prim.Native.String.{len}
use ai_social_publisher.Status.{Status}
use ai_social_publisher.Rows.{Job, Variant, Candidate, Account}
use ai_social_publisher.Errors.{
  Error, is_error, error_text, job_not_found, account_not_found, invalid_transition,
  invalid_schedule,
}
use ai_social_publisher.Exec.{Env, M, pure, attempt, ask, ◌>>=◌, on_result, on_option}
use ai_social_publisher.Approval.Callback.{Callback}

-- What the handlers read of a request. The body is `none` where it cannot be read, or is larger than
-- `MaxBytesReader` lets through.
pub record Request : Type 0 where
  pub path_id : String
  pub limit : String
  pub authorization : String
  pub signature : String
  pub timestamp : String
  pub body : Option String

-- What the handlers use of the configuration (`config.SecurityConfig`) and of Go's library: the JSON
-- decoder on each of the three bodies (`none` where it fails, or where fields are unknown or a second
-- value follows), `time.Parse` of RFC 3339, `hex.DecodeString`, and HMAC-SHA256 (key and message),
-- whose bytes are given as a text.
pub record Web : Type 0 where
  pub api_token : String
  pub callback_secret : String
  pub allowed_users : List String
  pub decode_approve : String → Option ℤ
  pub decode_schedule : String → Option String
  pub decode_callback : String → Option Callback
  pub parse_time : String → Option ℕ
  pub hex_decode : String → Option String
  pub hmac_sha256 : (key text : String) → String

-- `analyticsPosts`
pub record Analytics : Type 0 where
  pub total_jobs : ℕ
  pub by_status : Status → ℕ
  pub pending : ℕ
  pub dead : ℕ

-- The JSON value of a response.
pub data Body : Type 0 where
  failure : String → Body
  status_text : String → Body
  accounts : List Account → Body
  new_candidates : (n : ℕ) → (partly : Bool) → Body
  candidates : List Candidate → Body
  posts : List Job → Body
  post : Job → List Variant → Body
  analytics : Analytics → Body

pub record Response : Type 0 where
  pub code : ℕ
  pub body : Body

-- `writeJSON`
abbrev pub write_json : ℕ → Body → M Response
write_json code body = pure (record { code = code; body = body })

-- `writeError`
abbrev pub write_error : ℕ → String → M Response
write_error code text = write_json code (failure text)

-- `statusForRepoError`
unfoldable pub status_for_repo_error : Error → ℕ
status_for_repo_error e =
    if is_error e job_not_found || is_error e account_not_found
    then 404
    else if is_error e invalid_transition
    then 409
    else if is_error e invalid_schedule
    then 400
    else 500

-- `writeHandlerError`
unfoldable pub write_handler_error : Error → M Response
unfolding status_for_repo_error
write_handler_error e =
    let code = status_for_repo_error e in
    if leb 500 code
    then write_error code "internal server error"
    else write_error code (error_text e)

-- A call of a repository or of the service, and the handler's answer to its error.
unfoldable pub reply {ℓ} : {A : Type ℓ} → M A → (A → M Response) → M Response
unfolding write_handler_error
reply m k = attempt m >>= λ r. on_result r k write_handler_error

-- `pathID`
abbrev pub with_id : Request → (ℕ → M Response) → M Response
with_id req k = on_option (parse_id req.path_id) k (write_error 400 "invalid id")

-- `decodeJSON`; a body that cannot be read is an error too.
abbrev pub decode {ℓ} : {A : Type ℓ} → (String → Option A) → Request → Option A
decode f req = elim req.body [ none ↦ none | some text ↦ f text ]

-- `secureEqual`
abbrev pub secure_equal : String → String → Bool
secure_equal a b = if len a == len b then str_eq a b else false

abbrev pub bearer : Option String → String → Bool
bearer none token = false
bearer (some rest) token = secure_equal (trim_space rest) token

-- The test of `apiAuth`
unfoldable pub is_authorized : Web → Request → Bool
is_authorized web req = bearer (cut_prefix "Bearer " req.authorization) web.api_token

-- `apiAuth`
unfoldable pub api_auth : Web → Request → M Response → M Response
unfolding is_authorized
api_auth web req next = if is_authorized web req then next else write_error 401 "unauthorized"

-- `5*time.Minute`, in nanoseconds
abbrev pub tolerance : ℕ
tolerance = 300 * 1000000000

-- A timestamp in seconds is at most five minutes from now. One that is no number of seconds since the
-- epoch, negative ones included, is not.
abbrev pub is_fresh : ℕ → Option ℕ → Bool
is_fresh now none = false
is_fresh now (some seconds) =
    leb (seconds * 1000000000) (now + tolerance) && leb now (seconds * 1000000000 + tolerance)

-- The signature that a callback's sender computes: of the timestamp, a dot and the body.
unfoldable pub signature_of : Web → (timestamp body : String) → String
signature_of web timestamp body =
    web.hmac_sha256 web.callback_secret (concat (timestamp ∷ "." ∷ body ∷ []))

-- `telegramCallbackAuth` with the body and the decoded signature
unfoldable pub check_signature :
    Web → Request → (body provided : String) → (now : ℕ) → M Response → M Response
unfolding signature_of
check_signature web req body provided now next =
    if is_fresh now (parse_id req.timestamp)
    then if str_eq provided (signature_of web req.timestamp body)
      then next
      else write_error 401 "invalid callback signature"
    else write_error 401 "expired callback timestamp"

-- `telegramCallbackAuth`
unfoldable pub telegram_callback_auth : Web → Request → M Response → M Response
unfolding check_signature
telegram_callback_auth web req next =
    on_option req.body
      (λ body.
        on_option (web.hex_decode req.signature)
          (λ provided.
            ask (λ env n. env.clock n) >>= λ now. check_signature web req body provided now next)
          (write_error 401 "invalid callback signature"))
      (write_error 400 "invalid callback body")
