-- ===== src/Approval/Callback.antt =====
-- internal/approval/service.go: `HandleCallback`.
use ai_social_publisher.Common.{ℕ, String, [], ◌∷◌, str_eq, if◌then◌else◌, concat, parse_id}
use ai_social_publisher.Errors.{message}
use ai_social_publisher.Exec.{M, raise, on_option}
use ai_social_publisher.Approval.Context.{
  generate_post_action, skip_news_action, select_variant_action, regenerate_variants_action,
  cancel_action,
}
use ai_social_publisher.Approval.Variants.{generate_variants, regenerate_variants}
use ai_social_publisher.Approval.Queue.{select_variant, skip_job, cancel_job}

-- `telegram.Callback`
pub record Callback : Type 0 where
  pub action : String
  pub payload : String
  pub user : String

-- The switch of `HandleCallback`.
unfoldable pub dispatch : String → ℕ → M (Unit {0})
dispatch action id =
    if str_eq action generate_post_action
    then generate_variants id
    else if str_eq action skip_news_action
    then skip_job id
    else if str_eq action select_variant_action
    then select_variant id
    else if str_eq action regenerate_variants_action
    then regenerate_variants id
    else if str_eq action cancel_action
    then cancel_job id
    else raise (message (concat ("unknown action \"" ∷ action ∷ "\"" ∷ [])))

-- `HandleCallback`
unfoldable pub handle_callback : Callback → M (Unit {0})
unfolding dispatch
handle_callback cb =
    on_option (parse_id cb.payload) (dispatch cb.action)
      (raise (message (concat ("invalid payload \"" ∷ cb.payload ∷ "\"" ∷ []))))
