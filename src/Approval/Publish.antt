-- ===== src/Approval/Publish.antt =====
-- internal/approval/service.go: a reviewed job is queued, scheduled and published.
use ai_social_publisher.Common.{
  ℕ, String, true, false, ◌||◌, none, some, [], ◌∷◌, if◌then◌else◌, concat, format_int, trim_space,
}
use ai_social_publisher.Status.{◌is◌, text, approved, publishing, published}
use ai_social_publisher.Rows.{Variant, Candidate, PublishLog}
use ai_social_publisher.Errors.{
  Error, sentinel, message, wrapped, joined, error_text, invalid_transition,
}
use ai_social_publisher.Exec.{
  Result, ok, err, M, pure, raise, ask, attempt, logged, ◌>>=◌, ◌>>◌, on_result, on_option,
}
use ai_social_publisher.Instagram.{PublishResult, publish_image}
use ai_social_publisher.Post.Jobs.{get_by_id, claim_status, mark_published, mark_failed}
use ai_social_publisher.Post.Review.{get_variant_by_id, set_variant_image_url}
use ai_social_publisher.Post.Logs.{insert_publish_log}
use ai_social_publisher.Approval.Context.{JobContext, load_job_context, queue_notice, to_ai_news}
use ai_social_publisher.Approval.Preview.{no_selected_variant}
use ai_social_publisher.Approval.Queue.{needs_preview}

unfoldable pub job_failed_key : ℕ → String
job_failed_key job_id = concat ("job-failed:" ∷ format_int job_id ∷ [])

-- `fail`: it always returns an error.
unfoldable pub fail : ℕ → String → M (Unit {0})
unfolding job_failed_key
fail job_id msg = do
  marked ← attempt (mark_failed job_id msg)
  on_result marked
      (λ _. do
        logged (
            queue_notice (job_failed_key job_id) "❌ Hata oluştu"
              (concat ("Post yayınlanamadı (job #" ∷ format_int job_id ∷ "): " ∷ msg ∷ [])))
        raise (message msg))
      (λ e. raise (joined (message msg) e))

-- Not in the source: the record of a call of the publisher for a job.
unfoldable pub note_published : ℕ → M (Unit {0})
note_published job_id env s = (ok tt, record s { published = job_id ∷ s.published })

unfoldable pub published_key : ℕ → String
published_key job_id = concat ("published:" ∷ format_int job_id ∷ [])

unfoldable pub publish_notice : ℕ → String → Candidate → String → M (Unit {0})
unfolding published_key
publish_notice job_id suffix candidate media_id =
    queue_notice (published_key job_id) (concat ("✅ Yayınlandı" ∷ suffix ∷ []))
      (concat ("\"" ∷ candidate.title ∷ "\" Instagram'da yayınlandı.\nMedia ID: " ∷ media_id ∷ []))

unfoldable pub success_log : ℕ → PublishResult → PublishLog
success_log job_id result = record {
  id = 0;
  post_job_id = job_id;
  platform = "instagram";
  response_payload = some result.response_dump;
  success = true;
  error_message = "";
}

unfoldable pub failure_log : ℕ → Error → PublishLog
failure_log job_id e = record {
  id = 0;
  post_job_id = job_id;
  platform = "instagram";
  response_payload = none;
  success = false;
  error_message = error_text e;
}

-- `PublishJob` after the publisher has returned.
unfoldable pub settle_publish : ℕ → Candidate → Result PublishResult → M (Unit {0})
unfolding success_log failure_log publish_notice
settle_publish job_id candidate (err e) = do
  logged (insert_publish_log (failure_log job_id e))
  fail job_id (concat ("instagram publish: " ∷ error_text e ∷ []))
settle_publish job_id candidate (ok result) = do
  logged (insert_publish_log (success_log job_id result))
  mark_published job_id result.media_id
  publish_notice job_id (if result.dry_run then " (dry-run)" else "") candidate result.media_id

unfoldable pub send_image : ℕ → JobContext → Variant → String → M (Unit {0})
unfolding settle_publish note_published
send_image job_id ctx variant image_url = do
  note_published job_id
  result ← attempt (
      publish_image (record {
        instagram_user_id = ctx.acct.instagram_user_id;
        image_url = image_url;
        caption = variant.caption;
      }))
  settle_publish job_id ctx.candidate result

-- The fallback of `PublishJob` for a variant with no picture.
unfoldable pub render_then_send : ℕ → JobContext → Variant → M (Unit {0})
unfolding send_image
render_then_send job_id ctx variant = do
  rendered ← ask (λ env n. env.render n variant (to_ai_news ctx.candidate) ctx.acct)
  on_result rendered
      (λ path. do
        uploaded ← ask (λ env n. env.upload n path)
        on_result uploaded
            (λ url. do
              logged (set_variant_image_url variant.id url)
              send_image job_id ctx variant url)
            (λ e. fail job_id (concat ("upload image: " ∷ error_text e ∷ []))))
      (λ e. fail job_id (concat ("render image: " ∷ error_text e ∷ [])))

unfoldable pub publish_variant : ℕ → JobContext → Variant → M (Unit {0})
unfolding render_then_send needs_preview
publish_variant job_id ctx variant =
    if needs_preview variant
    then render_then_send job_id ctx variant
    else send_image job_id ctx variant (trim_space variant.image_url)

-- `PublishJob` after the claim.
unfoldable pub publish_claimed : ℕ → JobContext → ℕ → M (Unit {0})
unfolding publish_variant
publish_claimed job_id ctx selected = do
  variant ← attempt (get_variant_by_id selected)
  on_result variant (publish_variant job_id ctx)
      (λ e. fail job_id (concat ("load variant: " ∷ error_text e ∷ [])))

-- `PublishJob` where another worker has the job.
unfoldable pub not_claimed : ℕ → M (Unit {0})
not_claimed job_id = do
  current ← get_by_id job_id
  if current.status is publishing || current.status is published
      then pure tt
      else raise (
          wrapped "" (sentinel invalid_transition)
            (concat (": cannot claim " ∷ text current.status ∷ " for publishing" ∷ [])))

unfoldable pub claim_and_publish : ℕ → JobContext → ℕ → M (Unit {0})
unfolding publish_claimed not_claimed
claim_and_publish job_id ctx selected = do
  claimed ← claim_status job_id approved publishing
  if claimed then publish_claimed job_id ctx selected else not_claimed job_id

-- `PublishJob`
unfoldable pub publish_job : ℕ → M (Unit {0})
unfolding claim_and_publish
publish_job job_id = do
  ctx ← load_job_context job_id
  on_option ctx.job.selected_variant_id (claim_and_publish job_id ctx)
      (raise (no_selected_variant job_id))
