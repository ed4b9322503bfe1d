-- ===== src/Approval/Progress/Sync.antt =====
-- The news sync and jobs: `Progress` for each part of Approval.Sync.
use ai_social_publisher.Common.{ℕ, String, Bool, ◌≡◌, Option, none, some, List, [], ◌∷◌, arith}
use ai_social_publisher.Rows.{Candidate, Db}
use ai_social_publisher.Exec.{ok, Item, AccountConfig}
use ai_social_publisher.Exec.Rules.{Any, Moves, Moves-query, Moves-transaction}
use ai_social_publisher.News.{insert_candidate, get_by_external_id, stored_or_existing, upsert}
use ai_social_publisher.Post.Progress.{Progress, Progress-IsAtomic, r, elsewhere, elsewhere_insert}
use ai_social_publisher.Approval.Sync.{
  store_item, process_new, sync_item, sync_items, sync_category, sync_categories, sync_news,
}
use ai_social_publisher.Account.{upsert_account, upsert_accounts, sync_from_config, deactivate_all}
use ai_social_publisher.Approval.Progress.{
  flow, flow-pure, flow-raise, flow-attempt, flow-bind, flow-on_result,
}
use ai_social_publisher.Approval.Progress.Content.{process_candidate-Progress}

insert_candidate-jobs :
    (c : Candidate) (id now : ℕ) (db db' : Db) (a : Option Candidate)
    → insert_candidate c id now db ≡ ok (a, db')
    → db'.jobs ≡ db.jobs
unfolding insert_candidate
insert_candidate-jobs c id now db db' a e = ground arith

stored_or_existing-Progress :
    (x : String) (o : Option Candidate) → Moves Any Progress (stored_or_existing x o)
unfolding stored_or_existing get_by_external_id
stored_or_existing-Progress x (some c) = flow-pure _
stored_or_existing-Progress x none = flow-bind _ _ (Moves-query r _) (λ c. flow-pure _)

upsert-Progress : (c : Candidate) → Moves Any Progress (upsert c)
unfolding upsert
upsert-Progress c =
    flow-bind _ _
      (elsewhere_insert (insert_candidate c)
        λ id now db db' a e. insert_candidate-jobs c id now db db' a e)
      (stored_or_existing-Progress c.external_news_id)

store_item-Progress : (item : Item) → Moves Any Progress (store_item item)
unfolding store_item
store_item-Progress item = search (flow, upsert-Progress)

process_new-Progress : (c : Candidate) (created : Bool) → Moves Any Progress (process_new c created)
unfolding process_new
process_new-Progress c created = search (flow, process_candidate-Progress)

pub sync_item-Progress :
    (category : String) (item : Item) → Moves Any Progress (sync_item category item)
unfolding sync_item
sync_item-Progress category item = search (flow, store_item-Progress, process_new-Progress)

sync_items-Progress :
    (category : String) (items : List Item) → Moves Any Progress (sync_items category items)
unfolding sync_items
sync_items-Progress category [] = flow-pure _
sync_items-Progress category (item ∷ items) =
    flow-bind _ _ (sync_item-Progress category item)
      λ first. flow-bind _ _ (sync_items-Progress category items) λ rest. flow-pure _

sync_category-Progress : (category : String) → Moves Any Progress (sync_category category)
unfolding sync_category
sync_category-Progress category = search (flow, sync_items-Progress)

sync_categories-Progress : (cs : List String) → Moves Any Progress (sync_categories cs)
unfolding sync_categories
sync_categories-Progress [] = flow-pure _
sync_categories-Progress (c ∷ cs) =
    flow-bind _ _ (sync_category-Progress c)
      λ first. flow-bind _ _ (sync_categories-Progress cs) λ others. flow-pure _

pub sync_news-Progress : Moves Any Progress sync_news
unfolding sync_news
sync_news-Progress = search (flow, sync_categories-Progress)

upsert_account-jobs :
    (a : AccountConfig) (now id t : ℕ) (db db' : Db) (u : Unit {0})
    → upsert_account a now id t db ≡ ok (u, db')
    → db'.jobs ≡ db.jobs
unfolding upsert_account
upsert_account-jobs a now id t db db' u e = ground arith

upsert_accounts-Progress :
    (now : ℕ) (accounts : List AccountConfig) → Moves Any Progress (upsert_accounts now accounts)
unfolding upsert_accounts
upsert_accounts-Progress now [] = flow-pure _
upsert_accounts-Progress now (a ∷ rest) =
    flow-bind _ _
      (flow-attempt _ (
        elsewhere_insert (upsert_account a now)
          λ id t db db' u e. upsert_account-jobs a now id t db db' u e))
      λ written.
        flow-on_result written _ _ (λ _. upsert_accounts-Progress now rest) (λ e. flow-raise _)

deactivate_all-jobs :
    (now : ℕ) (db db' : Db) (u : Unit {0})
    → deactivate_all now db ≡ ok (u, db')
    → db'.jobs ≡ db.jobs
unfolding deactivate_all
deactivate_all-jobs now db db' u e = ground arith

pub sync_from_config-Progress :
    (accounts : List AccountConfig) → Moves Any Progress (sync_from_config accounts)
unfolding sync_from_config
sync_from_config-Progress accounts = Moves-transaction Progress-IsAtomic {P = Any} _ λ now.
    flow-bind _ _ (flow-attempt _ (elsewhere (deactivate_all now) (deactivate_all-jobs now)))
      λ cleared.
        flow-on_result cleared _ _ (λ _. upsert_accounts-Progress now accounts) (λ e. flow-raise _)
