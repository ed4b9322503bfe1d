-- ===== src/Exec.antt =====
-- The setting in which the packages run: what the environment answers (`Env`), what a run has
-- changed (`State`), and the actions over both. Every question to the environment (a statement
-- sent to PostgreSQL, a reading of the clock, a call of a remote service) has its own number,
-- `calls`, so that the environment may answer each as it likes, with an error too.
pub mod Rules
pub mod Chains
pub mod Atomic
pub mod Clock
pub mod Total
use ai_social_publisher.Common.{
  ℤ, ℕ, suc, ◌+◌, String, Bool, Option, none, some, List, [], ◌∷◌, ◌++◌, if◌then◌else◌,
}
use ai_social_publisher.Rows.{Db, Variant, Candidate, Account, Notification, Payload}
use ai_social_publisher.Errors.{Error, driver}

pub data Result {ℓ} (A : Type ℓ) : Type ℓ where
  ok : A → Result A
  err : Error → Result A

-- `news.Item`; `none` is the zero time.
pub record Item : Type 0 where
  pub id : String
  pub title : String
  pub summary : String
  pub source : String
  pub url : String
  pub category : String
  pub published_at : Option ℕ

-- What the code reads of a `url.URL`.
pub record Url : Type 0 where
  pub scheme : String
  pub host : String

-- `ai.NewsCandidate`
pub record NewsView : Type 0 where
  pub id : String
  pub title : String
  pub summary : String
  pub source : String
  pub source_url : String
  pub category : String
  pub published_at : Option ℕ

-- `ai.NewsScore`
pub record NewsScore : Type 0 where
  pub importance_score : ℕ
  pub virality_score : ℕ
  pub account_fit : String
  pub should_notify : Bool
  pub risk_level : String
  pub reason : String

-- `ai.PostVariant`
pub record PostVariant : Type 0 where
  pub variant_no : ℕ
  pub style : String
  pub caption : String

-- `ai.GeneratePostVariantsRequest`
pub record GenerateRequest : Type 0 where
  pub news : NewsView
  pub category : String
  pub variant_count : ℕ
  pub styles : List String

-- The interface `ai.AIProvider` with the optional `Model()`; the first argument is the number of
-- the call.
pub record Provider : Type 0 where
  pub name : String
  pub model : Option String
  pub is_available : ℕ → Bool
  pub score_news : ℕ → NewsView → Result NewsScore
  pub generate_post_variants : ℕ → GenerateRequest → Result (List PostVariant)

-- `config.AccountConfig`
pub record AccountConfig : Type 0 where
  pub code : String
  pub name : String
  pub category : String
  pub instagram_user_id : String
  pub variant_count : ℤ
  pub notify_threshold : ℤ
  pub styles : List String

-- What of `config.Config` the packages read.
pub record Config : Type 0 where
  pub accounts : List AccountConfig
  pub categories : List String
  pub default_variant_count : ℕ
  pub max_variant_count : ℕ
  pub publish_enabled : Bool
  pub access_token : String
  pub graph_base_url : String
  pub api_version : String
  pub stale_job_timeout_minutes : ℕ

pub record Env : Type 0 where
  pub cfg : Config
  -- the error of a statement that the driver or the server fails
  pub db_fault : ℕ → Option String
  pub clock : ℕ → ℕ
  -- `Format("02.01.2006 15:04")` of a time in UTC
  pub format_time : ℕ → String
  -- `media.MediaRenderer` and `storage.Storage`: the path of the picture, its public URL
  pub render : ℕ → Variant → NewsView → Account → Result String
  pub upload : ℕ → String → Result String
  -- a form posted to an endpoint of an Instagram user: the body of the reply, or an error
  pub graph_post : ℕ → (user endpoint : String) → List (String × String) → Result Payload
  pub providers : List Provider
  -- the news of a category, as `FetchByCategory` returns them
  pub fetch_news : ℕ → String → Result (List Item)
  -- `url.ParseRequestURI`, and the text of its result that an error has
  pub parse_request_uri : String → Option Url
  -- a notification posted to the Telegram service
  pub telegram_post : ℕ → Notification → Result (Unit {0})

pub record State : Type 0 where
  pub db : Db
  -- the sequence that numbers new rows; it is not rolled back
  pub seq : ℕ
  pub calls : ℕ
  -- the jobs for which the Instagram publisher was called, newest first: a record for statements
  -- about runs, which no code reads
  pub published : List ℕ

abbrev pub M {ℓ} : Type ℓ → Type ℓ
M A = Env → State → Result A × State

module _ {ℓ} {A : Type ℓ} where
  unfoldable pub pure : A → M A
  pure a env s = (ok a, s)

  unfoldable pub raise : Error → M A
  raise e env s = (err e, s)

  -- The value of an action that may fail, and the error where it does: `if err := …; err != nil`.
  unfoldable pub attempt : M A → M (Result A)
  attempt m env s = let (r, s') = m env s in (ok r, s')

  unfoldable pub lift : Result A → M A
  lift r env s = (r, s)

  -- A question to the environment.
  unfoldable pub ask : (Env → ℕ → A) → M A
  ask f env s = (ok (f env s.calls), record s { calls = s.calls + 1 })

module _ {ℓ κ} {A : Type ℓ} {B : Type κ} where
  abbrev pub continue : Result A → (A → M B) → M B
  continue (ok a) f env s = f a env s
  continue (err e) f env s = (err e, s)

  infixl 5 ◌>>=◌ ◌>>◌
  unfoldable pub ◌>>=◌ : M A → (A → M B) → M B
  unfolding pure raise attempt lift ask
  ◌>>=◌ m f env s = let (r, s') = m env s in continue r f env s'

  abbrev pub ◌>>◌ : M A → M B → M B
  m >> k = m >>= λ _. k

-- `time.Now()`
abbrev pub time_now : M ℕ
time_now = ask (λ env n. env.clock n)

abbrev pub settle {ℓ} : {A : Type ℓ} → Result (A × Db) → State → Result A × State
settle (ok (a, db)) s = (ok a, record s { db = db })
settle (err e) s = (err e, s)

abbrev pub answer {ℓ} : {A : Type ℓ} → Option String → Result (A × Db) → State → Result A × State
answer (some e) r s = (err (driver e), s)
answer none r s = settle r s

-- One statement inside a transaction: it reads the tables, and changes them or fails.
unfoldable pub exec {ℓ} : {A : Type ℓ} → (Db → Result (A × Db)) → M A
exec f env s = answer (env.db_fault s.calls) (f s.db) (record s { calls = s.calls + 1 })

-- One statement outside a transaction; its argument is the server's `now()`.
unfoldable pub exec_now {ℓ} : {A : Type ℓ} → (ℕ → Db → Result (A × Db)) → M A
unfolding exec
exec_now f env s = exec (f (env.clock s.calls)) env s

-- An INSERT takes the next number of the sequence, whether or not it then fails. The second
-- argument is the server's `now()`.
unfoldable pub exec_insert {ℓ} : {A : Type ℓ} → (ℕ → ℕ → Db → Result (A × Db)) → M A
unfolding exec
exec_insert f env s = exec (f s.seq (env.clock s.calls)) env (record s { seq = s.seq + 1 })

abbrev pub unchanged {ℓ} : {A : Type ℓ} → Db → Result A → Result (A × Db)
unchanged db (ok a) = ok (a, db)
unchanged db (err e) = err e

-- A statement that only reads.
unfoldable pub query {ℓ} : {A : Type ℓ} → (Db → Result A) → M A
unfolding exec
query f = exec (λ db. unchanged db (f db))

abbrev commit {ℓ} : {A : Type ℓ} → Db → A → Option String → State → Result A × State
commit before a none s = (ok a, s)
commit before a (some e) s = (err (driver e), record s { db = before })

abbrev pub finish {ℓ} : {A : Type ℓ} → Db → Env → Result A × State → Result A × State
finish before env (err e, s) = (err e, record s { db = before })
finish before env (ok a, s) =
    commit before a (env.db_fault s.calls) (record s { calls = s.calls + 1 })

abbrev begin {ℓ} : {A : Type ℓ} → Option String → (ℕ → M A) → Env → State → Result A × State
begin (some e) body env s = (err (driver e), s)
begin none body env s = finish s.db env (body (env.clock s.calls) env s)

-- `BeginTx`, the body, `Commit`, with the deferred `Rollback`: an error of the body or of the
-- commit restores the tables. The body is given the transaction's `now()`.
unfoldable pub transaction {ℓ} : {A : Type ℓ} → (ℕ → M A) → M A
transaction body env s = begin (env.db_fault s.calls) body env (record s { calls = s.calls + 1 })

-- A `for` loop over a slice.
unfoldable pub for_each {ℓ} : {A : Type ℓ} → List A → (A → M (Unit {0})) → M (Unit {0})
unfolding pure ◌>>=◌
for_each [] f = pure tt
for_each (x ∷ xs) f = f x >> for_each xs f

-- `if err != nil { … } else { … }`
abbrev pub on_result {ℓ κ} : {A : Type ℓ} {B : Type κ} → Result A → (A → M B) → (Error → M B) → M B
on_result (ok a) k h = k a
on_result (err e) k h = h e

abbrev pub on_option {ℓ κ} : {A : Type ℓ} {B : Type κ} → Option A → (A → M B) → M B → M B
on_option (some a) k h = k a
on_option none k h = h

-- An action whose error is only logged.
unfoldable pub logged {ℓ} : {A : Type ℓ} → M A → M (Unit {0})
unfolding pure attempt ◌>>=◌
logged m = attempt m >> pure tt

-- `if b { m }`
abbrev pub when : Bool → M (Unit {0}) → M (Unit {0})
when b m = if b then m else pure tt
