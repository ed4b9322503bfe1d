-- ===== src/Approval/Preview.antt =====
-- internal/approval/service.go: selection of a variant, edits of its caption, and the preview.
use ai_social_publisher.Common.{
  ℕ, zero, suc, String, Bool, ◌&&◌, ◌||◌, [], ◌∷◌, ltb, leb, ◌==◌, if◌then◌else◌, concat,
  format_int, is_just, trim_space, rune_count,
}
use ai_social_publisher.Status.{◌is◌, ready_to_publish, approved, publishing, published}
use ai_social_publisher.Rows.{Job, Variant, Account}
use ai_social_publisher.Errors.{Error, sentinel, message, wrapped, job_not_found}
use ai_social_publisher.Exec.{
  M, pure, raise, ask, attempt, ◌>>=◌, ◌>>◌, on_result, on_option, NewsView,
}
use ai_social_publisher.Post.Jobs.{get_by_id}
use ai_social_publisher.Post.Review
use ai_social_publisher.Post.Review.{
  reselect_variant, get_variant_by_id, set_variant_image_url_for_caption,
}
use ai_social_publisher.Approval.Context.{JobContext, load_job_context, to_ai_news}

unfoldable pub no_selected_variant : ℕ → Error
no_selected_variant job_id =
    message (concat ("job " ∷ format_int job_id ∷ " has no selected variant" ∷ []))

-- `RenderPostImage`, with the words that its error is wrapped in
unfoldable pub render_image : String → Variant → NewsView → Account → M String
render_image what v news acct = do
  rendered ← ask (λ env n. env.render n v news acct)
  on_result rendered pure (λ e. raise (wrapped what e ""))

-- `storage.Upload`
unfoldable pub upload_image : String → String → M String
upload_image what path = do
  uploaded ← ask (λ env n. env.upload n path)
  on_result uploaded pure (λ e. raise (wrapped what e ""))

-- One round of the loop of `PreparePreview`: whether the picture is of the caption that stands.
unfoldable pub render_selected : JobContext → ℕ → M Bool
unfolding render_image upload_image
render_selected ctx selected = do
  variant ← get_variant_by_id selected
  path ← render_image "render preview: " variant (to_ai_news ctx.candidate) ctx.acct
  url ← upload_image "store preview: " path
  saved ← attempt (set_variant_image_url_for_caption variant.id variant.caption url)
  on_result saved pure (λ e. raise (wrapped "save preview URL: " e ""))

unfoldable pub preview_once : ℕ → M Bool
unfolding render_selected
preview_once job_id = do
  ctx ← load_job_context job_id
  on_option ctx.job.selected_variant_id (render_selected ctx) (raise (no_selected_variant job_id))

unfoldable pub preview_attempts : ℕ → ℕ → M (Unit {0})
preview_attempts zero job_id =
    raise (message "caption changed while preview was rendering; retry preview")
preview_attempts (suc attempts) job_id =
    let again = preview_attempts attempts job_id in
    preview_once job_id >>= λ saved. if saved then pure tt else again

-- `PreparePreview`
unfoldable pub prepare_preview : ℕ → M (Unit {0})
unfolding preview_attempts
prepare_preview job_id = preview_attempts 2 job_id

-- The states in which the selection is final.
unfoldable pub is_past_review : Job → Bool
is_past_review job = job.status is approved || job.status is publishing || job.status is published

unfoldable pub choose : ℕ → Job → ℕ → M (Unit {0})
choose job_id job variant_id =
    if job.status is ready_to_publish
    then if is_just job.selected_variant_id variant_id
      then pure tt
      else reselect_variant job_id variant_id
    else Review.select_variant job_id variant_id

unfoldable pub review_selection : ℕ → Job → ℕ → M (Unit {0})
unfolding is_past_review choose
review_selection job_id job variant_id =
    if is_just job.selected_variant_id variant_id && is_past_review job
    then pure tt
    else choose job_id job variant_id >> prepare_preview job_id

-- `SelectVariantForReview`
unfoldable pub select_variant_for_review : ℕ → ℕ → M (Unit {0})
unfolding review_selection
select_variant_for_review job_id variant_id = do
  variant ← get_variant_by_id variant_id
  if variant.post_job_id == job_id
      then (do job ← get_by_id job_id; review_selection job_id job variant_id)
      else raise (sentinel job_not_found)

unfoldable pub is_caption : String → Bool
is_caption caption = ltb 0 (rune_count caption) && leb (rune_count caption) 2200

-- `UpdateVariantCaption`
unfoldable pub update_variant_caption : ℕ → ℕ → String → M (Unit {0})
unfolding is_caption
update_variant_caption job_id variant_id raw =
    let caption = trim_space raw in
    if is_caption caption
    then (do
      selected ← Review.update_variant_caption job_id variant_id caption
      if selected then prepare_preview job_id else pure tt)
    else raise (message "caption must contain between 1 and 2200 characters")
