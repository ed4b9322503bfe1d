-- ===== src/Approval/Sync.antt =====
-- internal/approval/service.go: `SyncNews` and `storeItem`. The goroutines of `SyncNews`, one for each
-- category, share only the two accumulators: here they run one after another, and a run of the whole
-- system may take their items in any order.
use ai_social_publisher.Common.{
  ℕ, ◌+◌, String, Bool, ◌&&◌, ◌||◌, not, false, Option, none, some, List, [], ◌∷◌, ◌++◌, ltb, leb,
  str_eq, is_some, if◌then◌else◌, concat, trim_space, rune_count, take_runes,
}
use ai_social_publisher.Rows.{Candidate}
use ai_social_publisher.Errors.{Error, message, joined}
use ai_social_publisher.Exec.{
  Result, ok, err, M, pure, raise, ask, attempt, ◌>>=◌, on_result, Item, Url, AccountConfig,
}
use ai_social_publisher.News.{upsert}
use ai_social_publisher.Approval.Context.{account_by_category}
use ai_social_publisher.Approval.Intake.{process_candidate}

-- `truncateRunes`
unfoldable pub truncate_runes : String → ℕ → String
truncate_runes value limit = if leb (rune_count value) limit then value else take_runes limit value

-- The fields of an item as `storeItem` cleans them.
unfoldable pub cleaned : Item → Item
unfolding truncate_runes
cleaned item = record item {
  id = trim_space item.id;
  title = trim_space item.title;
  category = trim_space item.category;
  summary = truncate_runes (trim_space item.summary) 4000;
  source = truncate_runes (trim_space item.source) 200;
  url = trim_space item.url;
}

unfoldable pub is_http : Option Url → Bool
is_http none = false
is_http (some u) = not (str_eq u.host "") && (str_eq u.scheme "http" || str_eq u.scheme "https")

unfoldable pub candidate_of : Item → Candidate
candidate_of item = record {
  id = 0;
  external_news_id = item.id;
  title = item.title;
  summary = item.summary;
  source = item.source;
  source_url = item.url;
  category = item.category;
  published_at = item.published_at;
  created_at = 0;
}

-- The checks of `storeItem` on a cleaned item, in their order.
unfoldable pub checked : (String → Option Url) → List AccountConfig → Item → Result Candidate
unfolding is_http candidate_of account_by_category
checked parse_url accounts item =
    if str_eq item.id "" || str_eq item.title "" || str_eq item.category ""
    then err (message "news item id, title and category are required")
    else if ltb 500 (rune_count item.id)
    then err (message "news id exceeds 500 characters")
    else if ltb 500 (rune_count item.title)
    then err (message "news title exceeds 500 characters")
    else if ltb 2000 (rune_count item.url)
    then err (message "news source URL exceeds 2000 characters")
    else if not (str_eq item.url "") && not (is_http (parse_url item.url))
    then err (message "news source URL is invalid")
    else if is_some (account_by_category item.category accounts)
    then ok (candidate_of item)
    else err (message (concat ("unsupported news category \"" ∷ item.category ∷ "\"" ∷ [])))

-- `storeItem`
unfoldable pub store_item : Item → M (Candidate × Bool)
unfolding cleaned checked
store_item item = do
  candidate ← ask (λ env n. checked env.parse_request_uri env.cfg.accounts (cleaned item))
  on_result candidate upsert (λ e. raise e)

-- What one item adds to `newCount` and to `syncErrors`.
pub record Tally : Type 0 where
  pub new_count : ℕ
  pub errors : List Error

abbrev pub no_news : Tally
no_news = record { new_count = 0; errors = [] }

abbrev pub one_error : Error → Tally
one_error e = record { new_count = 0; errors = e ∷ [] }

abbrev pub add_tally : Tally → Tally → Tally
add_tally a b = record { new_count = a.new_count + b.new_count; errors = a.errors ++ b.errors }

mismatch : String → Item → Error
mismatch category item = message (
    concat (
      "news item \"" ∷ item.id ∷ "\" category \"" ∷ item.category
      ∷ "\" does not match requested category \"" ∷ category ∷ "\"" ∷ []))

-- A stored candidate: it is processed if it is new.
unfoldable pub process_new : Candidate → Bool → M Tally
process_new candidate created =
    if created
    then (do
      processed ← attempt (process_candidate candidate)
      on_result processed (λ _. pure (record { new_count = 1; errors = [] }))
          (λ e. pure (record { new_count = 1; errors = e ∷ [] })))
    else pure no_news

-- The body of the inner loop of `SyncNews`.
unfoldable pub sync_item : String → Item → M Tally
unfolding store_item mismatch process_new
sync_item category item =
    if str_eq (trim_space item.category) category
    then (do
      stored ← attempt (store_item item)
      on_result stored (λ both. process_new both.0 both.1) (λ e. pure (one_error e)))
    else pure (one_error (mismatch category item))

unfoldable pub sync_items : String → List Item → M Tally
unfolding sync_item
sync_items category [] = pure no_news
sync_items category (item ∷ items) = do
  first ← sync_item category item
  rest ← sync_items category items
  pure (add_tally first rest)

-- One goroutine of `SyncNews`: a category that cannot be fetched does not stop the others.
unfoldable pub sync_category : String → M Tally
unfolding sync_items
sync_category category = do
  items ← ask (λ env n. env.fetch_news n category)
  on_result items (sync_items category) (λ e. pure (one_error e))

unfoldable pub sync_categories : List String → M Tally
unfolding sync_category
sync_categories [] = pure no_news
sync_categories (category ∷ rest) = do
  first ← sync_category category
  others ← sync_categories rest
  pure (add_tally first others)

-- `errors.Join`; none is nil.
unfoldable pub join_errors : List Error → Option Error
join_errors [] = none
join_errors (e ∷ []) = some e
join_errors (e ∷ f ∷ rest) = elim (join_errors (f ∷ rest)) [
  | none ↦ some e
  | some more ↦ some (joined e more)
]

-- `SyncNews`: the number of new candidates, and the error.
unfoldable pub sync_news : M (ℕ × Option Error)
unfolding sync_categories join_errors
sync_news = do
  categories ← ask (λ env n. env.cfg.categories)
  tally ← sync_categories categories
  pure (tally.new_count, join_errors tally.errors)
