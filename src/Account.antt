-- ===== src/Account.antt =====
-- internal/account/account.go: the configured accounts are written to the table, and accounts are read.
pub mod Startup
use ai_social_publisher.Common.{
  ℕ, ℤ, pos, leb_ℤ, pos_part, String, Bool, true, false, ◌&&◌, not, Option, none, some, List, [],
  ◌∷◌, ◌++◌, ◌==◌, str_eq, if◌then◌else◌, concat, map, sort_by,
}
use ai_social_publisher.Rows.{Account, Db}
use ai_social_publisher.Errors.{wrapped, check_violation, account_not_found}
use ai_social_publisher.Exec.{
  Result, ok, err, M, pure, raise, attempt, on_result, ◌>>=◌, ◌>>◌, exec, exec_insert, query,
  transaction, AccountConfig,
}
use ai_social_publisher.Store.{or_missing}
use ai_social_publisher.News.{first_active}

abbrev deactivated : ℕ → Account → Account
deactivated now a = if a.is_active then record a { is_active = false; updated_at = now } else a

-- `UPDATE social_accounts SET is_active = FALSE, updated_at = now() WHERE is_active = TRUE`
unfoldable pub deactivate_all : ℕ → Db → Result (Unit {0} × Db)
deactivate_all now db = ok (tt, record db { accounts = map (deactivated now) db.accounts })

-- chk_social_accounts_variant_count and chk_social_accounts_notify_threshold
unfoldable pub account_fits : AccountConfig → Bool
account_fits a =
    leb_ℤ (pos 1) a.variant_count
    && (leb_ℤ a.variant_count (pos 10)
        && (leb_ℤ (pos 0) a.notify_threshold && leb_ℤ a.notify_threshold (pos 100)))

-- uq_social_accounts_active_category: another row is active in the category.
unfoldable pub category_taken : String → String → List Account → Bool
category_taken code category [] = false
category_taken code category (a ∷ rest) =
    let more = category_taken code category rest in
    if not (str_eq a.code code) && (a.is_active && str_eq a.category category) then true else more

abbrev pub account_row : AccountConfig → ℕ → ℕ → ℕ → Account
account_row a id created now = record {
  id = id;
  code = a.code;
  name = a.name;
  category = a.category;
  instagram_user_id = a.instagram_user_id;
  variant_count = pos_part a.variant_count;
  notify_threshold = pos_part a.notify_threshold;
  is_active = true;
  created_at = created;
  updated_at = now;
}

-- The row with the code is rewritten, or a new one stands at the end.
unfoldable pub put_account : AccountConfig → ℕ → ℕ → List Account → List Account
put_account a id now [] = account_row a id now now ∷ []
put_account a id now (x ∷ xs) =
    let rest = put_account a id now xs in
    if str_eq x.code a.code then account_row a x.id x.created_at now ∷ xs else x ∷ rest

-- `INSERT INTO social_accounts … ON CONFLICT (code) DO UPDATE SET …`, at the transaction's `now()`
unfoldable pub upsert_account : AccountConfig → ℕ → ℕ → ℕ → Db → Result (Unit {0} × Db)
unfolding account_fits category_taken put_account
upsert_account a now id _ db =
    if account_fits a && not (category_taken a.code a.category db.accounts)
    then ok (tt, record db { accounts = put_account a id now db.accounts })
    else err check_violation

unfoldable pub upsert_accounts : ℕ → List AccountConfig → M (Unit {0})
upsert_accounts now [] = pure tt
upsert_accounts now (a ∷ rest) =
    let others = upsert_accounts now rest in
    attempt (exec_insert (upsert_account a now)) >>= λ written.
    on_result written (λ _. others)
      (λ e. raise (wrapped (concat ("upsert account \"" ∷ a.code ∷ "\": " ∷ [])) e ""))

-- `SyncFromConfig`
unfoldable pub sync_from_config : List AccountConfig → M (Unit {0})
unfolding upsert_accounts
sync_from_config accounts = transaction λ now. do
  cleared ← attempt (exec (deactivate_all now))
  on_result cleared (λ _. upsert_accounts now accounts)
      (λ e. raise (wrapped "deactivate accounts: " e ""))

-- `List`
unfoldable pub list_accounts : M (List Account)
list_accounts = query (λ db. ok (sort_by (λ (a : Account). a.id) db.accounts))

-- `GetByCode`
unfoldable pub get_by_code : String → M Account
get_by_code code = query (λ db.
    or_missing account_not_found (first_active (λ (a : Account). str_eq a.code code) db.accounts))
