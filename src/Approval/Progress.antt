-- ===== src/Approval/Progress.antt =====
-- The actions of the service move jobs along the graph: the rules, as a set for `search`, and the
-- parts of the service that every other part calls.
pub mod Content
pub mod Publish
pub mod Sync
pub mod Workers
use ai_social_publisher.Common.{
  ℕ, String, Bool, true, false, ◌≡◌, Option, none, some, List, [], ◌∷◌, if◌then◌else◌,
}
use ai_social_publisher.Rows.{Job, Candidate, Account, Score}
use ai_social_publisher.Errors.{Error}
use ai_social_publisher.Exec.{
  Env, Result, ok, err, M, pure, raise, lift, ask, attempt, logged, ◌>>=◌, ◌>>◌, on_result,
  on_option, for_each,
}
use ai_social_publisher.Exec.Rules.{
  Any, Moves, Moves-pure, Moves-raise, Moves-lift, Moves-ask, Moves-attempt, Moves-if, Moves-bind,
  Moves-query, Moves-for_each, Moves-exec_insert,
}
use ai_social_publisher.News.{
  get_candidate, get_by_external_id, get_account, get_account_by_category, get_latest_score,
  save_score, write_score,
}
use ai_social_publisher.Post.Progress.{Progress, r, elsewhere_insert}
use ai_social_publisher.Post.Progress.Jobs.{get_by_id-Progress}
use ai_social_publisher.Outbox.Progress.{enqueue-Progress}
use ai_social_publisher.Approval.Context.{load_candidate_account, load_job_context, queue_notice}

module _ {ℓ} {A : Type ℓ} where
  pub flow-pure : (a : A) → Moves Any Progress (pure a)
  flow-pure a = Moves-pure r a

  pub flow-raise : (e : Error) → Moves Any Progress (raise {A = A} e)
  flow-raise e = Moves-raise r e

  pub flow-lift : (a : Result A) → Moves Any Progress (lift a)
  flow-lift a = Moves-lift r a

  pub flow-ask : (f : Env → ℕ → A) → Moves Any Progress (ask f)
  flow-ask f = Moves-ask r f

  pub flow-attempt : (m : M A) → Moves Any Progress m → Moves Any Progress (attempt m)
  flow-attempt m k = Moves-attempt r m k

  pub flow-if :
      (b : Bool) (m n : M A)
      → Moves Any Progress m
      → Moves Any Progress n
      → Moves Any Progress (if b then m else n)
  flow-if b m n km kn = Moves-if r b m n (λ _. km) (λ _. kn)

  pub flow-logged : (m : M A) → Moves Any Progress m → Moves Any Progress (logged m)
  unfolding logged
  flow-logged m k = Moves-bind r _ _ (Moves-attempt r m k) (λ _. Moves-pure r tt)

module _ {ℓ κ} {A : Type ℓ} {B : Type κ} where
  pub flow-bind :
      (m : M A) (f : A → M B)
      → Moves Any Progress m
      → ((a : A) → Moves Any Progress (f a))
      → Moves Any Progress (m >>= f)
  flow-bind m f km kf = Moves-bind r m f km kf

  pub flow-on_result :
      (x : Result A) (k : A → M B) (h : Error → M B)
      → ((a : A) → Moves Any Progress (k a))
      → ((e : Error) → Moves Any Progress (h e))
      → Moves Any Progress (on_result x k h)
  flow-on_result (ok a) k h kk kh = kk a
  flow-on_result (err e) k h kk kh = kh e

  pub flow-on_option :
      (x : Option A) (k : A → M B) (h : M B)
      → ((a : A) → Moves Any Progress (k a))
      → Moves Any Progress h
      → Moves Any Progress (on_option x k h)
  flow-on_option (some a) k h kk kh = kk a
  flow-on_option none k h kk kh = kh

pub flow-for_each {ℓ} :
    {A : Type ℓ} (xs : List A) (f : A → M (Unit {0}))
    → ((a : A) → Moves Any Progress (f a))
    → Moves Any Progress (for_each xs f)
flow-for_each xs f k = Moves-for_each r xs f k

pub ruleset flow = (
  flow-pure, flow-raise, flow-lift, flow-ask, flow-attempt, flow-if, flow-logged, flow-bind,
  flow-on_result, flow-on_option, flow-for_each,
)

pub get_candidate-Progress : (id : ℕ) → Moves Any Progress (get_candidate id)
unfolding get_candidate
get_candidate-Progress id = Moves-query r _

pub get_account-Progress : (id : ℕ) → Moves Any Progress (get_account id)
unfolding get_account
get_account-Progress id = Moves-query r _

pub get_account_by_category-Progress :
    (category : String) → Moves Any Progress (get_account_by_category category)
unfolding get_account_by_category
get_account_by_category-Progress category = Moves-query r _

pub get_latest_score-Progress : (id : ℕ) → Moves Any Progress (get_latest_score id)
unfolding get_latest_score
get_latest_score-Progress id = Moves-query r _

pub load_candidate_account-Progress : (job : Job) → Moves Any Progress (load_candidate_account job)
unfolding load_candidate_account
load_candidate_account-Progress job = search (flow, get_candidate-Progress, get_account-Progress)

pub load_job_context-Progress : (id : ℕ) → Moves Any Progress (load_job_context id)
unfolding load_job_context
load_job_context-Progress id = search (flow, get_by_id-Progress, load_candidate_account-Progress)

pub queue_notice-Progress :
    (key title message : String) → Moves Any Progress (queue_notice key title message)
unfolding queue_notice
queue_notice-Progress key title message = search enqueue-Progress
