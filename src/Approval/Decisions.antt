-- ===== src/Approval/Decisions.antt =====
-- internal/approval/service.go and internal/post/post.go: what the service decides, and what it
-- refuses.
use ai_social_publisher.Common.{
  ℕ, ◌+◌, ◌≤◌, ◌<◌, ◌≡◌, ◌≢◌, ◌↔◌, ◌⊎◌, refl, subst, String, true, false, not, none, [], ◌∷◌, arith,
  str_eq, eq_iff, eq_refl, Bool-cases, Option-cases, inl, inr, parse_id, concat,
}
use ai_social_publisher.Rows.{Account}
use ai_social_publisher.Errors.{Error, message}
use ai_social_publisher.Exec.{Env, State, ok, err, NewsScore, Config, raise}
use ai_social_publisher.Approval.Context.{
  generate_post_action, skip_news_action, select_variant_action, regenerate_variants_action,
  cancel_action,
}
use ai_social_publisher.Approval.Intake.{is_eligible}
use ai_social_publisher.Approval.Variants.{variant_count_for}
use ai_social_publisher.Approval.Queue.{validate_schedule_at}
use ai_social_publisher.Approval.Callback.{Callback, dispatch, handle_callback}

-- `validateScheduleAt` accepts a time, unchanged, exactly when it lies after now and not after the
-- horizon.
pub validate_schedule_at_iff :
    (now at horizon : ℕ)
    → (validate_schedule_at now at horizon ≡ ok at) ↔ ((now < at) × (at ≤ now + horizon))
unfolding validate_schedule_at
validate_schedule_at_iff now at horizon = (λ h. ground arith, λ h. ground (arith, h.0, h.1))

str_ne : (a b : String) → a ≢ b → str_eq a b ≡ false
str_ne a b h = elim (Bool-cases (str_eq a b)) [ inl t ↦ absurd (h ((eq_iff a b).0 t)) | inr t ↦ t ]

-- The owner is asked about a news exactly when the score says to notify, fits the account's category,
-- is not of high risk, and reaches the account's threshold.
pub is_eligible_iff :
    (score : NewsScore) (acct : Account)
    → (is_eligible score acct ≡ true) ↔ (
        (score.should_notify ≡ true)
        × (score.account_fit ≡ acct.category)
        × (score.risk_level ≢ "high")
        × (acct.notify_threshold ≤ score.importance_score))
unfolding is_eligible
is_eligible_iff score acct = (
  λ h. (
    ground arith,
    (eq_iff score.account_fit acct.category).0 (ground arith),
    λ high. absurd (
        ground
          (arith, eq_refl "high", subst (λ r. not (str_eq r "high") ≡ true) high (ground arith))),
    ground arith,
  ),
  λ h.
      let fit : str_eq score.account_fit acct.category ≡ true = (eq_iff _ _).1 h.1 in
      let risk : str_eq score.risk_level "high" ≡ false = str_ne _ _ h.2 in
      ground (arith, fit, risk, h.0, h.3),
)

-- If the configured default and maximum are at least one, the number of variants that
-- `GenerateVariants` asks for lies between one and the configured maximum.
pub variant_count_for_bounds :
    (acct : Account) (cfg : Config)
    → 1 ≤ cfg.default_variant_count
    → 1 ≤ cfg.max_variant_count
    → (1 ≤ variant_count_for acct cfg) × (variant_count_for acct cfg ≤ cfg.max_variant_count)
unfolding variant_count_for
variant_count_for_bounds acct cfg d m = (ground (arith, d, m), ground (arith, d, m))

abbrev bad_payload : Callback → Error
bad_payload cb = message (concat ("invalid payload \"" ∷ cb.payload ∷ "\"" ∷ []))

abbrev unknown : Callback → Error
unknown cb = message (concat ("unknown action \"" ∷ cb.action ∷ "\"" ∷ []))

-- A callback whose payload is not an id, or whose action is none of the five, returns an error and
-- changes nothing at all: not even a question is put to the environment.
pub handle_callback-refuses :
    (cb : Callback) (env : Env) (s : State)
    → (parse_id cb.payload ≡ none)
      ⊎ ((str_eq cb.action generate_post_action ≡ false)
          × (str_eq cb.action skip_news_action ≡ false)
          × (str_eq cb.action select_variant_action ≡ false)
          × (str_eq cb.action regenerate_variants_action ≡ false)
          × (str_eq cb.action cancel_action ≡ false))
    → (e : Error) × (handle_callback cb env s ≡ (err e, s))
unfolding handle_callback dispatch raise
handle_callback-refuses cb env s (inl h) = (bad_payload cb, rw h refl)
handle_callback-refuses cb env s (inr (a, b, c, d, e)) = elim (Option-cases (parse_id cb.payload)) [
  | inl h ↦ (bad_payload cb, rw h refl)
  | inr (id, h) ↦ (unknown cb, rw (h, a, b, c, d, e) refl)
]
