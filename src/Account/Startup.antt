-- ===== src/Account/Startup.antt =====
-- internal/account/account.go: `SyncFromConfig` where the database answers. The configured accounts are
-- active afterwards, each found by its category.
use ai_social_publisher.Common.{
  ℕ, ◌≡◌, refl, sym, ap, ◌∙◌, pos_part, String, Bool, true, false, not, ◌&&◌, ◌||◌, some, List, [],
  ◌∷◌, inl, inr, arith, map, str_eq, eq_iff, eq_refl, Bool-cases, All, one_of,
}
use ai_social_publisher.Rows.{Account}
use ai_social_publisher.Exec.{Env, State, ok, AccountConfig}
use ai_social_publisher.Exec.Total.{
  Reliable, Achieves, Achieves-pure, Achieves-exec, Achieves-exec_insert, Achieves-transaction,
  Achieves-checked, Achieves-mono,
}
use ai_social_publisher.News.{first_active}
use ai_social_publisher.Account.{
  deactivated, deactivate_all, account_fits, category_taken, account_row, put_account,
  upsert_account, upsert_accounts, sync_from_config,
}

-- The active rows are those of the accounts written so far: their codes and categories.
abbrev Known : (codes taken : List String) → Account → Type 0
Known codes taken r = not r.is_active || (one_of r.code codes && one_of r.category taken) ≡ true

-- No code and no category twice, nor one of those before.
abbrev pub Distinct : (codes taken : List String) → List AccountConfig → Type 0
Distinct codes taken [] = Unit
Distinct codes taken (a ∷ rest) =
    (one_of a.code codes ≡ false)
    × (one_of a.category taken ≡ false)
    × Distinct (a.code ∷ codes) (a.category ∷ taken) rest

-- The rows that are found by a category.
abbrev pub in_category : String → Account → Bool
in_category category r = str_eq r.category category

-- The row that stands for a configured account.
abbrev pub Serves : List Account → AccountConfig → Type 0
Serves rows a =
    (r : Account) × (first_active (in_category a.category) rows ≡ some r)
    × (r.code ≡ a.code)
    × (r.variant_count ≡ pos_part a.variant_count)
    × (r.notify_threshold ≡ pos_part a.notify_threshold)

-- A row of a new category is not active, nor is one of a new code.
new_category-inactive :
    (codes taken : List String) (r : Account) (category : String)
    → Known codes taken r
    → one_of category taken ≡ false
    → r.is_active && str_eq r.category category ≡ false
new_category-inactive codes taken r category known new =
    elim (Bool-cases (str_eq r.category category)) [
      | inr other ↦ rw other (ground arith)
      | inl same ↦
          let absent : one_of r.category taken ≡ false =
            ap (λ c. one_of c taken) ((eq_iff r.category category).0 same) ∙ new in
          rw same (ground (arith, known, absent))
    ]

new_code-inactive :
    (codes taken : List String) (r : Account) (code : String)
    → Known codes taken r
    → one_of code codes ≡ false
    → str_eq r.code code ≡ true
    → r.is_active ≡ false
new_code-inactive codes taken r code known new same =
    let absent : one_of r.code codes ≡ false =
      ap (λ c. one_of c codes) ((eq_iff r.code code).0 same) ∙ new in
    ground (arith, known, absent)

category_taken-Known :
    (codes taken : List String) (code category : String) (rows : List Account)
    → All (Known codes taken) rows
    → one_of category taken ≡ false
    → category_taken code category rows ≡ false
unfolding category_taken
category_taken-Known codes taken code category [] h new = refl
category_taken-Known codes taken code category (r ∷ rows) h new =
    rw
      (
        new_category-inactive codes taken r category h.0 new,
        category_taken-Known codes taken code category rows h.1 new,
      )
      (ground arith)

Known-more :
    (codes taken : List String) (code category : String) (r : Account)
    → Known codes taken r
    → Known (code ∷ codes) (category ∷ taken) r
unfolding one_of
Known-more codes taken code category r h = ground arith

Known-row :
    (codes taken : List String) (a : AccountConfig) (id created now : ℕ)
    → Known (a.code ∷ codes) (a.category ∷ taken) (account_row a id created now)
unfolding one_of
Known-row codes taken a id created now = rw (eq_refl a.code, eq_refl a.category) refl

All-Known-more :
    (codes taken : List String) (code category : String) (rows : List Account)
    → All (Known codes taken) rows
    → All (Known (code ∷ codes) (category ∷ taken)) rows
All-Known-more codes taken code category [] h = tt
All-Known-more codes taken code category (r ∷ rows) h =
    (Known-more codes taken code category r h.0, All-Known-more codes taken code category rows h.1)

put_account-Known :
    (codes taken : List String) (a : AccountConfig) (id now : ℕ) (rows : List Account)
    → All (Known codes taken) rows
    → All (Known (a.code ∷ codes) (a.category ∷ taken)) (put_account a id now rows)
unfolding put_account
put_account-Known codes taken a id now [] h = (Known-row codes taken a id now now, tt)
put_account-Known codes taken a id now (r ∷ rows) h = elim (Bool-cases (str_eq r.code a.code)) [
  | inl same ↦ rw same (
    Known-row codes taken a r.id r.created_at now,
    All-Known-more codes taken a.code a.category rows h.1,
  )
  | inr other ↦ rw other (
    Known-more codes taken a.code a.category r h.0,
    put_account-Known codes taken a id now rows h.1,
  )
]

-- An account with a new code leaves the rows of the other categories as they are.
first_active-put_other :
    (codes taken : List String) (a : AccountConfig) (id now : ℕ) (category : String)
    (rows : List Account)
    → All (Known codes taken) rows
    → one_of a.code codes ≡ false
    → str_eq a.category category ≡ false
    → first_active (in_category category) (put_account a id now rows)
      ≡ first_active (in_category category) rows
unfolding put_account
first_active-put_other codes taken a id now category [] h new other = rw other refl
first_active-put_other codes taken a id now category (r ∷ rows) h new other =
    elim (Bool-cases (str_eq r.code a.code)) [
      | inl same ↦
          let inactive = new_code-inactive codes taken r a.code h.0 new same in
          rw (same, other, inactive) (ground arith)
      | inr differs ↦
          rw (differs, first_active-put_other codes taken a id now category rows h.1 new other) refl
    ]

-- An account with a new category is found by it.
first_active-put_new :
    (codes taken : List String) (a : AccountConfig) (id now : ℕ) (rows : List Account)
    → All (Known codes taken) rows
    → one_of a.category taken ≡ false
    → (i : ℕ) × (created : ℕ) × (first_active (in_category a.category) (put_account a id now rows)
        ≡ some (account_row a i created now))
unfolding put_account
first_active-put_new codes taken a id now [] h new = (id, now, rw (eq_refl a.category) refl)
first_active-put_new codes taken a id now (r ∷ rows) h new =
    elim (Bool-cases (str_eq r.code a.code)) [
      | inl same ↦ (r.id, r.created_at, rw (same, eq_refl a.category) refl)
      | inr differs ↦
          let (i, created, found) = first_active-put_new codes taken a id now rows h.1 new in
          let skipped = new_category-inactive codes taken r a.category h.0 new in
          (i, created, rw (differs, found) (ground (arith, skipped)))
    ]

-- What the table holds when some of the configured accounts are written.
record Written (codes taken : List String) (done : List AccountConfig) (rows : List Account)
    : Type 0 where
  known : All (Known codes taken) rows
  listed : All (λ (b : AccountConfig). one_of b.category taken ≡ true) done
  served : All (Serves rows) done

All-listed-more :
    (taken : List String) (category : String) (done : List AccountConfig)
    → All (λ (b : AccountConfig). one_of b.category taken ≡ true) done
    → All (λ (b : AccountConfig). one_of b.category (category ∷ taken) ≡ true) done
unfolding one_of
All-listed-more taken category [] h = tt
All-listed-more taken category (b ∷ done) h =
    (ground (arith, h.0), All-listed-more taken category done h.1)

All-Serves-put :
    (codes taken : List String) (a : AccountConfig) (id now : ℕ) (rows : List Account)
    (done : List AccountConfig)
    → All (Known codes taken) rows
    → one_of a.code codes ≡ false
    → one_of a.category taken ≡ false
    → All (λ (b : AccountConfig). one_of b.category taken ≡ true) done
    → All (Serves rows) done
    → All (Serves (put_account a id now rows)) done
All-Serves-put codes taken a id now rows [] known new_code new listed h = tt
All-Serves-put codes taken a id now rows (b ∷ done) known new_code new listed h =
    let (r, found, code, count, threshold) = h.0 in
    let other : str_eq a.category b.category ≡ false =
      elim (Bool-cases (str_eq a.category b.category)) [
        | inr f ↦ f
        | inl t ↦
            let clash = sym (ap (λ c. one_of c taken) ((eq_iff a.category b.category).0 t)) ∙ new in
            absurd (ground (arith, clash, listed.0))
      ] in
    (
      (
        r,
        first_active-put_other codes taken a id now b.category rows known new_code other ∙ found,
        code,
        count,
        threshold,
      ),
      All-Serves-put codes taken a id now rows done known new_code new listed.1 h.1,
    )

put_account-Written :
    (codes taken : List String) (done : List AccountConfig) (a : AccountConfig) (id now : ℕ)
    (rows : List Account)
    → one_of a.code codes ≡ false
    → one_of a.category taken ≡ false
    → Written codes taken done rows
    → Written (a.code ∷ codes) (a.category ∷ taken) (a ∷ done) (put_account a id now rows)
unfolding one_of
put_account-Written codes taken done a id now rows new_code new w =
    let (i, created, found) = first_active-put_new codes taken a id now rows w.known new in
    record {
      known = put_account-Known codes taken a id now rows w.known;
      listed = (rw (eq_refl a.category) refl, All-listed-more taken a.category done w.listed);
      served = (
        (account_row a i created now, found, refl, refl, refl),
        All-Serves-put codes taken a id now rows done w.known new_code new w.listed w.served,
      );
    }

upsert_accounts-Achieves :
    (now : ℕ) (codes taken : List String) (done accounts : List AccountConfig)
    → All (λ a. account_fits a ≡ true) accounts
    → Distinct codes taken accounts
    → Achieves
        (λ db. Written codes taken done db.accounts)
        (upsert_accounts now accounts)
        (λ _ db. All (Serves db.accounts) done × All (Serves db.accounts) accounts)
unfolding upsert_accounts upsert_account
upsert_accounts-Achieves now codes taken done [] fits distinct =
    Achieves-pure _ _ tt (λ db w. (w.served, tt))
upsert_accounts-Achieves now codes taken done (a ∷ rest) fits distinct =
    Achieves-checked _
      (λ _ db. Written (a.code ∷ codes) (a.category ∷ taken) (a ∷ done) db.accounts) _ _ _ _
      (Achieves-exec_insert _ _ (upsert_account a now) λ id t db w.
        let free =
          category_taken-Known codes taken a.code a.category db.accounts w.known distinct.1 in
        (
          tt,
          record db { accounts = put_account a id now db.accounts },
          rw (fits.0, free) refl,
          put_account-Written codes taken done a id now db.accounts distinct.0 distinct.1 w,
        ))
      λ _.
        Achieves-mono _ _ (λ _ db q. (q.0.1, (q.0.0, q.1)))
          (upsert_accounts-Achieves now (a.code ∷ codes) (a.category ∷ taken) (a ∷ done) rest fits.1
            distinct.2)

deactivated-Known : (now : ℕ) (rows : List Account) → All (Known [] []) (map (deactivated now) rows)
deactivated-Known now [] = tt
deactivated-Known now (r ∷ rows) = elim (Bool-cases r.is_active) [
  | inl on ↦ rw on (refl, deactivated-Known now rows)
  | inr off ↦ rw off (refl, deactivated-Known now rows)
]

sync_from_config-Achieves :
    (accounts : List AccountConfig)
    → All (λ a. account_fits a ≡ true) accounts
    → Distinct [] [] accounts
    → Achieves
        (λ _. Unit {0})
        (sync_from_config accounts)
        (λ _ db. All (Serves db.accounts) [] × All (Serves db.accounts) accounts)
unfolding sync_from_config deactivate_all
sync_from_config-Achieves accounts fits distinct = Achieves-transaction _ _ _ λ now.
    Achieves-checked _ (λ _ db. Written [] [] [] db.accounts) _ _ _ _
      (Achieves-exec _ _ (deactivate_all now) λ db u. (
        tt,
        record db { accounts = map (deactivated now) db.accounts },
        refl,
        record { known = deactivated-Known now db.accounts; listed = tt; served = tt },
      ))
      (λ _. upsert_accounts-Achieves now [] [] [] accounts fits distinct)

-- Where the database answers every statement, and whatever the table held before, accounts that fit
-- the CHECKs and share no code or category are all written: `SyncFromConfig` returns no error, and
-- each account is then the active one that its category finds, with its code and its numbers.
pub sync_from_config-Serves :
    (accounts : List AccountConfig) (env : Env) (s : State)
    → Reliable env
    → All (λ a. account_fits a ≡ true) accounts
    → Distinct [] [] accounts
    → ((sync_from_config accounts env s).0 ≡ ok tt)
      × All (Serves (sync_from_config accounts env s).1.db.accounts) accounts
sync_from_config-Serves accounts env s up fits distinct =
    let (u, e, q) = (sync_from_config-Achieves accounts fits distinct).at env s up tt in (e, q.1)
