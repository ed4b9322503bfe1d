-- ===== src/Approval/Variants.antt =====
-- internal/approval/service.go: variants are queued, generated and offered.
use ai_social_publisher.Common.{
  ℕ, String, List, [], ◌∷◌, ◌++◌, map, leb, ltb, if◌then◌else◌, concat, format_int, length,
}
use ai_social_publisher.Status.{◌is◌, failed, waiting_variant_approval}
use ai_social_publisher.Rows.{Job, Variant, Candidate, Account, Button}
use ai_social_publisher.Errors.{panic, is_error, all_providers_failed}
use ai_social_publisher.Exec.{
  M, raise, ask, attempt, ◌>>=◌, ◌>>◌, on_result, for_each, PostVariant, Config,
}
use ai_social_publisher.Ai.{VariantsResult, generate_post_variants}
use ai_social_publisher.Post.Jobs.{get_by_id, queue_variants, park_for_ai_retry, complete_ai_stage}
use ai_social_publisher.Post.Review.{replace_variants}
use ai_social_publisher.Outbox.{enqueue}
use ai_social_publisher.Approval.Context.{
  load_job_context, styles_for, plain, queue_notice, to_ai_news, select_variant_action,
  regenerate_variants_action, cancel_action,
}

-- The number of variants that `GenerateVariants` asks for.
unfoldable pub variant_count_for : Account → Config → ℕ
variant_count_for acct cfg =
    let count =
      if leb acct.variant_count 0 then cfg.default_variant_count else acct.variant_count in
    if ltb cfg.max_variant_count count then cfg.max_variant_count else count

-- `GenerateVariants`
unfoldable pub generate_variants : ℕ → M (Unit {0})
generate_variants job_id = do
  ctx ← load_job_context job_id
  cfg ← ask (λ env n. env.cfg)
  queue_variants job_id (variant_count_for ctx.acct cfg)

-- `RegenerateVariants`
unfoldable pub regenerate_variants : ℕ → M (Unit {0})
regenerate_variants job_id = do
  ctx ← load_job_context job_id
  queue_variants job_id (
      if leb ctx.job.requested_variant_count 0
      then ctx.acct.variant_count
      else ctx.job.requested_variant_count)

abbrev variant_content_key : ℕ → ℕ → String
variant_content_key job_id id =
    concat ("variant-content:" ∷ format_int job_id ∷ ":" ∷ format_int id ∷ [])

select_button : Variant → Button
select_button v = record {
  text = concat (format_int v.variant_no ∷ ". Alternatif" ∷ []);
  action = select_variant_action;
  payload = format_int v.id;
}

unfoldable pub offer : ℕ → Candidate → Variant → M (Unit {0})
offer job_id candidate v = enqueue (variant_content_key job_id v.id) (
    plain (concat ("📝 " ∷ format_int v.variant_no ∷ ". Alternatif — " ∷ candidate.title ∷ []))
      (concat ("Tarz: " ∷ v.style ∷ "\n\n" ∷ v.caption ∷ [])) [])

-- The question itself; `variants[0]` of an empty slice panics.
unfoldable pub ask_to_select : ℕ → Candidate → List Variant → List Variant → M (Unit {0})
unfolding select_button
ask_to_select job_id candidate all [] = raise (panic "index out of range")
ask_to_select job_id candidate all (v ∷ rest) =
    enqueue (concat ("variant-approval:" ∷ format_int job_id ∷ ":" ∷ format_int v.id ∷ [])) (
      plain "📝 Post alternatifleri hazır"
        (concat (
          "\""
          ∷ candidate.title
          ∷ "\" için "
          ∷ format_int (length all)
          ∷ " alternatif yukarıda gösterildi. Birini seç:"
          ∷ []))
        (map select_button all
          ++ record {
            text = "Yeniden Üret";
            action = regenerate_variants_action;
            payload = format_int job_id;
          }
            ∷ record { text = "İptal"; action = cancel_action; payload = format_int job_id }
            ∷ []))

-- `queueVariantApproval`
unfoldable pub queue_variant_approval : ℕ → Candidate → List Variant → M (Unit {0})
queue_variant_approval job_id candidate variants = do
  for_each variants (offer job_id candidate)
  ask_to_select job_id candidate variants variants

as_variant : PostVariant → Variant
as_variant v = record {
  id = 0;
  post_job_id = 0;
  variant_no = v.variant_no;
  style = v.style;
  caption = v.caption;
  image_url = "";
  created_at = 0;
}

-- What is said when no provider has answered: the job waits, or has failed for good.
unfoldable pub report_ai_failure : ℕ → M (Unit {0})
report_ai_failure job_id = do
  current ← attempt (get_by_id job_id)
  let waits =
      queue_notice (concat ("variants-ai-failed:" ∷ format_int job_id ∷ []))
        "⚠ Alternatif üretilemedi"
        "AI sağlayıcılar şu an yanıt vermiyor. Daha sonra tekrar denenecek."
  on_result current
      (λ job.
        if job.status is failed
        then queue_notice (concat ("variants-ai-exhausted:" ∷ format_int job_id ∷ []))
            "❌ Alternatif üretimi durduruldu"
            "AI sağlayıcıları art arda yanıt vermedi; job manuel inceleme için FAILED durumuna alındı."
        else waits)
      (λ e. waits)

unfoldable pub store_variants : Job → Candidate → VariantsResult → M (Unit {0})
unfolding as_variant
store_variants job candidate result = do
  saved ← replace_variants job.id (map as_variant result.variants)
  complete_ai_stage job.id waiting_variant_approval
  queue_variant_approval job.id candidate saved

-- `runVariantGeneration`
unfoldable pub run_variant_generation : Job → Candidate → Account → ℕ → M (Unit {0})
unfolding store_variants report_ai_failure
run_variant_generation job candidate acct count = do
  cfg ← ask (λ env n. env.cfg)
  generated ← attempt (
      generate_post_variants (record {
        news = to_ai_news candidate;
        category = acct.category;
        variant_count = count;
        styles = styles_for acct.category cfg;
      }))
  on_result generated (store_variants job candidate) (λ e.
      if is_error e all_providers_failed
      then (do
        park_for_ai_retry job.id "variants: all AI providers failed"
        report_ai_failure job.id)
      else raise e)
