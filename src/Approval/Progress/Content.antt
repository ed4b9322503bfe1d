-- ===== src/Approval/Progress/Content.antt =====
-- Intake, generation of variants and preview move jobs along the graph.
use ai_social_publisher.Common.{ℕ, zero, suc, String, ◌≡◌, List, [], ◌∷◌, arith}
use ai_social_publisher.Rows.{Job, Variant, Candidate, Account, Score, Db}
use ai_social_publisher.Exec.{
  Result, ok, err, M, Provider, NewsView, NewsScore, PostVariant, GenerateRequest,
}
use ai_social_publisher.Exec.Rules.{Any, Moves}
use ai_social_publisher.Ai.{
  ScoreResult, score_or, score_with, score_news, VariantsResult, variants_or, generate_with,
  generate_post_variants,
}
use ai_social_publisher.News.{save_score, write_score}
use ai_social_publisher.Post.Progress.{Progress, elsewhere_insert}
use ai_social_publisher.Post.Progress.Jobs.{
  get_by_id-Progress, get_or_create-Progress, update_status-Progress, apply_scored-Progress,
  park_for_ai_retry-Progress, queue_variants-Progress, complete_ai_stage-Progress,
}
use ai_social_publisher.Post.Progress.Review.{
  replace_variants-Progress, get_variant_by_id-Progress, select_variant-Progress,
  reselect_variant-Progress, set_variant_image_url_for_caption-Progress,
  update_variant_caption-Progress,
}
use ai_social_publisher.Outbox.Progress.{enqueue-Progress}
use ai_social_publisher.Approval.Context.{JobContext}
use ai_social_publisher.Approval.Intake.{
  process_candidate, queue_first_approval, record_score, score_job,
}
use ai_social_publisher.Approval.Variants.{
  generate_variants, regenerate_variants, offer, ask_to_select, queue_variant_approval,
  report_ai_failure, store_variants, run_variant_generation,
}
use ai_social_publisher.Approval.Preview.{
  render_image, upload_image, render_selected, preview_once, preview_attempts, prepare_preview,
  choose, review_selection, select_variant_for_review, update_variant_caption,
}
use ai_social_publisher.Approval.Progress.{
  flow, flow-pure, flow-bind, flow-ask, flow-if, get_account_by_category-Progress,
  load_job_context-Progress, queue_notice-Progress,
}

score_or-Progress :
    (p : Provider) (a : Result NewsScore) (rest : M ScoreResult)
    → Moves Any Progress rest
    → Moves Any Progress (score_or p a rest)
unfolding score_or
score_or-Progress p (ok score) rest k = search flow
score_or-Progress p (err e) rest k = k

score_with-Progress :
    (ps : List Provider) (news : NewsView) → Moves Any Progress (score_with ps news)
unfolding score_with
score_with-Progress [] news = search flow
score_with-Progress (p ∷ ps) news = flow-bind _ _ (flow-ask _) λ available.
    flow-if available _ _
      (flow-bind _ _ (flow-ask _) λ a. score_or-Progress p a _ (score_with-Progress ps news))
      (score_with-Progress ps news)

score_news-Progress : (news : NewsView) → Moves Any Progress (score_news news)
unfolding score_news
score_news-Progress news = search (flow, score_with-Progress)

variants_or-Progress :
    (p : Provider) (count : ℕ) (a : Result (List PostVariant)) (rest : M VariantsResult)
    → Moves Any Progress rest
    → Moves Any Progress (variants_or p count a rest)
unfolding variants_or
variants_or-Progress p count (ok vs) rest k = search flow
variants_or-Progress p count (err e) rest k = k

generate_with-Progress :
    (ps : List Provider) (req : GenerateRequest) → Moves Any Progress (generate_with ps req)
unfolding generate_with
generate_with-Progress [] req = search flow
generate_with-Progress (p ∷ ps) req = flow-bind _ _ (flow-ask _) λ available.
    flow-if available _ _
      (flow-bind _ _ (flow-ask _)
        λ a. variants_or-Progress p req.variant_count a _ (generate_with-Progress ps req))
      (generate_with-Progress ps req)

generate_post_variants-Progress :
    (req : GenerateRequest) → Moves Any Progress (generate_post_variants req)
unfolding generate_post_variants
generate_post_variants-Progress req = search (flow, generate_with-Progress)

write_score-jobs :
    (s : Score) (id now : ℕ) (db db' : Db) (a : Score)
    → write_score s id now db ≡ ok (a, db')
    → db'.jobs ≡ db.jobs
unfolding write_score
write_score-jobs s id now db db' a e = ground arith

save_score-Progress : (s : Score) → Moves Any Progress (save_score s)
unfolding save_score
save_score-Progress s =
    elsewhere_insert (write_score s) λ id now db db' a e. write_score-jobs s id now db db' a e

pub process_candidate-Progress : (c : Candidate) → Moves Any Progress (process_candidate c)
unfolding process_candidate
process_candidate-Progress c =
    search (flow, get_account_by_category-Progress, get_or_create-Progress, update_status-Progress)

pub queue_first_approval-Progress :
    (id : ℕ) (c : Candidate) (a : Account) (s : NewsScore)
    → Moves Any Progress (queue_first_approval id c a s)
unfolding queue_first_approval
queue_first_approval-Progress id c a s = search enqueue-Progress

record_score-Progress :
    (job : Job) (c : Candidate) (a : Account) (result : ScoreResult)
    → Moves Any Progress (record_score job c a result)
unfolding record_score
record_score-Progress job c a result =
    search
      (
        flow, save_score-Progress, apply_scored-Progress, update_status-Progress,
        queue_first_approval-Progress,
      )
      depth 8

pub score_job-Progress :
    (job : Job) (c : Candidate) (a : Account) → Moves Any Progress (score_job job c a)
unfolding score_job
score_job-Progress job c a =
    search (flow, score_news-Progress, record_score-Progress, park_for_ai_retry-Progress) depth 8

pub generate_variants-Progress : (id : ℕ) → Moves Any Progress (generate_variants id)
unfolding generate_variants
generate_variants-Progress id = search (flow, load_job_context-Progress, queue_variants-Progress)

pub regenerate_variants-Progress : (id : ℕ) → Moves Any Progress (regenerate_variants id)
unfolding regenerate_variants
regenerate_variants-Progress id = search (flow, load_job_context-Progress, queue_variants-Progress)

offer-Progress : (id : ℕ) (c : Candidate) (v : Variant) → Moves Any Progress (offer id c v)
unfolding offer
offer-Progress id c v = search enqueue-Progress

ask_to_select-Progress :
    (id : ℕ) (c : Candidate) (all vs : List Variant)
    → Moves Any Progress (ask_to_select id c all vs)
unfolding ask_to_select
ask_to_select-Progress id c all [] = search flow
ask_to_select-Progress id c all (v ∷ vs) = search enqueue-Progress

pub queue_variant_approval-Progress :
    (id : ℕ) (c : Candidate) (vs : List Variant)
    → Moves Any Progress (queue_variant_approval id c vs)
unfolding queue_variant_approval
queue_variant_approval-Progress id c vs = search (flow, offer-Progress, ask_to_select-Progress)

report_ai_failure-Progress : (id : ℕ) → Moves Any Progress (report_ai_failure id)
unfolding report_ai_failure
report_ai_failure-Progress id = search (flow, get_by_id-Progress, queue_notice-Progress)

store_variants-Progress :
    (job : Job) (c : Candidate) (result : VariantsResult)
    → Moves Any Progress (store_variants job c result)
unfolding store_variants
store_variants-Progress job c result =
    search
      (flow, replace_variants-Progress, complete_ai_stage-Progress, queue_variant_approval-Progress)
      depth 8

pub run_variant_generation-Progress :
    (job : Job) (c : Candidate) (a : Account) (count : ℕ)
    → Moves Any Progress (run_variant_generation job c a count)
unfolding run_variant_generation
run_variant_generation-Progress job c a count =
    search
      (
        flow, generate_post_variants-Progress, store_variants-Progress, park_for_ai_retry-Progress,
        report_ai_failure-Progress,
      )
      depth 8

pub render_image-Progress :
    (what : String) (v : Variant) (n : NewsView) (a : Account)
    → Moves Any Progress (render_image what v n a)
unfolding render_image
render_image-Progress what v n a = search flow

pub upload_image-Progress : (what path : String) → Moves Any Progress (upload_image what path)
unfolding upload_image
upload_image-Progress what path = search flow

render_selected-Progress :
    (ctx : JobContext) (selected : ℕ) → Moves Any Progress (render_selected ctx selected)
unfolding render_selected
render_selected-Progress ctx selected =
    search
      (
        flow, get_variant_by_id-Progress, render_image-Progress, upload_image-Progress,
        set_variant_image_url_for_caption-Progress,
      )
      depth 8

preview_once-Progress : (id : ℕ) → Moves Any Progress (preview_once id)
unfolding preview_once
preview_once-Progress id = search (flow, load_job_context-Progress, render_selected-Progress)

preview_attempts-Progress : (n id : ℕ) → Moves Any Progress (preview_attempts n id)
unfolding preview_attempts
preview_attempts-Progress zero id = search flow
preview_attempts-Progress (suc n) id =
    flow-bind _ _ (preview_once-Progress id)
      λ saved. flow-if saved _ _ (flow-pure tt) (preview_attempts-Progress n id)

pub prepare_preview-Progress : (id : ℕ) → Moves Any Progress (prepare_preview id)
unfolding prepare_preview
prepare_preview-Progress id = preview_attempts-Progress 2 id

choose-Progress : (id : ℕ) (job : Job) (v : ℕ) → Moves Any Progress (choose id job v)
unfolding choose
choose-Progress id job v = search (flow, reselect_variant-Progress, select_variant-Progress)

review_selection-Progress :
    (id : ℕ) (job : Job) (v : ℕ) → Moves Any Progress (review_selection id job v)
unfolding review_selection
review_selection-Progress id job v = search (flow, choose-Progress, prepare_preview-Progress)

pub select_variant_for_review-Progress :
    (id v : ℕ) → Moves Any Progress (select_variant_for_review id v)
unfolding select_variant_for_review
select_variant_for_review-Progress id v =
    search (flow, get_variant_by_id-Progress, get_by_id-Progress, review_selection-Progress)

pub edit_caption-Progress :
    (id v : ℕ) (raw : String) → Moves Any Progress (update_variant_caption id v raw)
unfolding update_variant_caption
edit_caption-Progress id v raw =
    search (flow, update_variant_caption-Progress, prepare_preview-Progress)
