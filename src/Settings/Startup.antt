-- ===== src/Settings/Startup.antt =====
-- A configuration that has been loaded, and the table of accounts (internal/config/config.go,
-- internal/account/account.go): what `validate` lets through is what `SyncFromConfig` can write.
use ai_social_publisher.Common.{
  ◌≡◌, refl, ℤ, pos, ◌≤ℤ◌, leb_ℤ, ltb_ℤ, String, Bool, true, false, ◌||◌, List, [], ◌∷◌, arith, map,
  All,
}
use ai_social_publisher.Exec.{Env, State, Result, ok, err, AccountConfig}
use ai_social_publisher.Settings.{RootConfig, PostGenerationConfig, Urls}
use ai_social_publisher.Settings.Defaults.{
  generation_defaults, variant_count_default, account_defaults, apply_defaults,
}
use ai_social_publisher.Settings.Validate.{
  Checked, refuse, and_then, validate, validate_providers, validate_accounts, validate_channels,
}
use ai_social_publisher.Account.{account_fits, sync_from_config}
use ai_social_publisher.Account.Startup.{Distinct, Serves, sync_from_config-Serves}
use ai_social_publisher.Exec.Total.{Reliable}

refuse-ok :
    (bad : Bool) (text : String) (rest : Checked)
    → refuse bad text rest ≡ ok tt
    → (bad ≡ false) × (rest ≡ ok tt)
unfolding refuse
refuse-ok bad text rest h = ground arith

and_then-ok : (x rest : Checked) → and_then x rest ≡ ok tt → (x ≡ ok tt) × (rest ≡ ok tt)
unfolding and_then
and_then-ok (ok u) rest h = (refl, h)
and_then-ok (err e) rest h = absurd (ground arith)

-- The bounds of the numbers of variants.
abbrev pub InRange : PostGenerationConfig → Type 0
InRange g =
    (pos 1 ≤ℤ g.max_variant_count)
    × (g.max_variant_count ≤ℤ pos 10)
    × (pos 1 ≤ℤ g.default_variant_count)
    × (g.default_variant_count ≤ℤ g.max_variant_count)

variant_count_default-fits :
    (g : PostGenerationConfig) (n : ℤ)
    → InRange g
    → (leb_ℤ (pos 1) (variant_count_default g n) ≡ true)
      × (leb_ℤ (variant_count_default g n) (pos 10) ≡ true)
unfolding variant_count_default
variant_count_default-fits g n h = ground arith

validate_providers-InRange :
    (urls : Urls) (c : RootConfig)
    → validate_providers urls c.providers c.post_generation ≡ ok tt
    → InRange c.post_generation
unfolding validate_providers
validate_providers-InRange urls c h =
    let a = refuse-ok _ _ _ h in
    let b = and_then-ok _ _ a.1 in
    let d = refuse-ok _ _ _ b.1 in
    let e = and_then-ok _ _ d.1 in let f = refuse-ok _ _ _ e.1 in ground (arith, f.0)

abbrev Threshold : AccountConfig → Type 0
Threshold a = ltb_ℤ a.notify_threshold (pos 0) || ltb_ℤ (pos 100) a.notify_threshold ≡ false

validate_accounts-Distinct :
    (publish : Bool) (configured codes taken : List String) (accounts : List AccountConfig)
    → validate_accounts publish configured codes taken accounts ≡ ok tt
    → Distinct codes taken accounts × All Threshold accounts
unfolding validate_accounts
validate_accounts-Distinct publish configured codes taken [] h = (tt, tt)
validate_accounts-Distinct publish configured codes taken (a ∷ rest) h =
    let named = refuse-ok _ _ _ h in
    let matches = refuse-ok _ _ _ named.1 in
    let new_code = refuse-ok _ _ _ matches.1 in
    let has_category = refuse-ok _ _ _ new_code.1 in
    let new_category = refuse-ok _ _ _ has_category.1 in
    let configured' = refuse-ok _ _ _ new_category.1 in
    let threshold = refuse-ok _ _ _ configured'.1 in
    let user = refuse-ok _ _ _ threshold.1 in
    let others =
      validate_accounts-Distinct publish configured (a.code ∷ codes) (a.category ∷ taken) rest
        user.1 in
    ((new_code.0, new_category.0, others.0), (threshold.0, others.1))

validate_channels-Distinct :
    (c : RootConfig) (o : Result (List String))
    → validate_channels c o ≡ ok tt
    → Distinct [] [] c.accounts × All Threshold c.accounts
unfolding validate_channels
validate_channels-Distinct c (err e) h = absurd (ground arith)
validate_channels-Distinct c (ok configured) h =
    validate_accounts-Distinct c.instagram.publish_enabled configured [] [] c.accounts
      (and_then-ok _ _ h).0

-- What `validate` has checked of the accounts and of the numbers of variants.
pub record Validated (c : RootConfig) : Type 0 where
  pub counts : InRange c.post_generation
  pub distinct : Distinct [] [] c.accounts
  pub thresholds : All Threshold c.accounts

validate-Validated : (urls : Urls) (c : RootConfig) → validate urls c ≡ ok tt → Validated c
unfolding validate
validate-Validated urls c h =
    let services = (and_then-ok _ _ (and_then-ok _ _ h).1).1 in
    let secrets = (and_then-ok _ _ services).1 in
    let providers = and_then-ok _ _ (and_then-ok _ _ secrets).1 in
    let channels = validate_channels-Distinct c _ providers.1 in
    record {
      counts = validate_providers-InRange urls c providers.0;
      distinct = channels.0;
      thresholds = channels.1;
    }

account_defaults-fits :
    (g : PostGenerationConfig) (a : AccountConfig)
    → InRange g
    → Threshold (account_defaults g a)
    → account_fits (account_defaults g a) ≡ true
unfolding account_fits
account_defaults-fits g a range h =
    let (low, high) = variant_count_default-fits g a.variant_count range in
    rw (low, high) (ground (arith, h))

All-account_fits :
    (g : PostGenerationConfig) (accounts : List AccountConfig)
    → InRange g
    → All Threshold (map (account_defaults g) accounts)
    → All (λ a. account_fits a ≡ true) (map (account_defaults g) accounts)
All-account_fits g [] range h = tt
All-account_fits g (a ∷ rest) range h =
    (account_defaults-fits g a range h.0, All-account_fits g rest range h.1)

-- A configuration that `Load` returns, defaults applied and checks passed, gives every account between
-- 1 and 10 variants and a threshold between 0 and 100, as the CHECKs of social_accounts ask, and no
-- two accounts the same code or the same category.
pub apply_defaults-accounts_fit :
    (urls : Urls) (c : RootConfig)
    → validate urls (apply_defaults c) ≡ ok tt
    → All (λ a. account_fits a ≡ true) (apply_defaults c).accounts
      × Distinct [] [] (apply_defaults c).accounts
unfolding apply_defaults
apply_defaults-accounts_fit urls c h =
    let v = validate-Validated urls (apply_defaults c) h in
    (
      All-account_fits (generation_defaults c.post_generation) c.accounts v.counts v.thresholds,
      v.distinct,
    )

-- A start of the process with a configuration that `Load` returns, on a database that answers, never
-- fails at the accounts: `SyncFromConfig` returns no error, and each configured account is then the
-- active one that its category finds, with its code and its numbers.
pub validated-sync_from_config :
    (urls : Urls) (c : RootConfig) (env : Env) (s : State)
    → validate urls (apply_defaults c) ≡ ok tt
    → Reliable env
    → ((sync_from_config (apply_defaults c).accounts env s).0 ≡ ok tt)
      × All
          (Serves (sync_from_config (apply_defaults c).accounts env s).1.db.accounts)
          (apply_defaults c).accounts
validated-sync_from_config urls c env s h up =
    let (fits, distinct) = apply_defaults-accounts_fit urls c h in
    sync_from_config-Serves (apply_defaults c).accounts env s up fits distinct
