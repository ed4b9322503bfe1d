-- ===== src/Approval/Intake.antt =====
-- internal/approval/service.go: a job for a candidate, its scoring, and the first approval.
use ai_social_publisher.Common.{
  ℕ, String, Bool, ◌&&◌, not, [], ◌∷◌, leb, str_eq, if◌then◌else◌, concat, format_int,
}
use ai_social_publisher.Status.{scoring_queued, scored, skipped, waiting_first_approval}
use ai_social_publisher.Rows.{Job, Candidate, Account, Score}
use ai_social_publisher.Errors.{is_error, account_not_found, all_providers_failed}
use ai_social_publisher.Exec.{M, pure, raise, attempt, ◌>>=◌, ◌>>◌, on_result, NewsScore}
use ai_social_publisher.Ai.{ScoreResult, score_news}
use ai_social_publisher.News.{get_account_by_category, save_score}
use ai_social_publisher.Post.Jobs.{get_or_create, update_status, park_for_ai_retry, apply_scored}
use ai_social_publisher.Outbox.{enqueue}
use ai_social_publisher.Approval.Context.{plain, to_ai_news, generate_post_action, skip_news_action}

-- `ProcessCandidate`
unfoldable pub process_candidate : Candidate → M (Unit {0})
process_candidate candidate = do
  found ← attempt (get_account_by_category candidate.category)
  on_result found
      (λ acct. do
        made ← get_or_create candidate.id acct.id
        if made.1 then update_status made.0.id scoring_queued else pure tt)
      (λ e. if is_error e account_not_found then pure tt else raise e)

-- The decision of `scoreJob`: who is asked about the news.
unfoldable pub is_eligible : NewsScore → Account → Bool
is_eligible score acct =
    score.should_notify
    && (str_eq score.account_fit acct.category
        && (not (str_eq score.risk_level "high")
            && leb acct.notify_threshold score.importance_score))

unfoldable pub first_approval_key : ℕ → String
first_approval_key job_id = concat ("first-approval:" ∷ format_int job_id ∷ [])

-- `queueFirstApproval`
unfoldable pub queue_first_approval : ℕ → Candidate → Account → NewsScore → M (Unit {0})
queue_first_approval job_id candidate acct score = enqueue (first_approval_key job_id) (
    plain "🔥 Önemli haber bulundu"
      (concat (
        "Başlık: "
        ∷ candidate.title
        ∷ "\nÖzet: "
        ∷ candidate.summary
        ∷ "\nKaynak: "
        ∷ candidate.source
        ∷ "\nURL: "
        ∷ candidate.source_url
        ∷ "\nSkor: "
        ∷ format_int score.importance_score
        ∷ "/100\nRisk: "
        ∷ score.risk_level
        ∷ "\nGerekçe: "
        ∷ score.reason
        ∷ "\nKategori: "
        ∷ acct.code
        ∷ []))
      (record { text = "Post Hazırla"; action = generate_post_action; payload = format_int job_id }
        ∷ record { text = "Geç"; action = skip_news_action; payload = format_int job_id }
        ∷ []))

unfoldable pub score_row : Candidate → ScoreResult → Score
score_row candidate result = record {
  id = 0;
  news_candidate_id = candidate.id;
  importance_score = result.score.importance_score;
  virality_score = result.score.virality_score;
  account_fit = result.score.account_fit;
  should_notify = result.score.should_notify;
  risk_level = result.score.risk_level;
  reason = result.score.reason;
  ai_provider = result.provider;
  ai_model = result.model;
  created_at = 0;
}

-- `scoreJob` after the score has come back
unfoldable pub record_score : Job → Candidate → Account → ScoreResult → M (Unit {0})
unfolding score_row
record_score job candidate acct result = do
  save_score (score_row candidate result)
  apply_scored job.id (record {
    status = scored;
    ai_provider = result.provider;
    ai_model = result.model;
    ai_error = "";
  })
  if is_eligible result.score acct
      then (do
        update_status job.id waiting_first_approval
        queue_first_approval job.id candidate acct result.score)
      else update_status job.id skipped

-- `scoreJob`
unfoldable pub score_job : Job → Candidate → Account → M (Unit {0})
unfolding record_score
score_job job candidate acct = do
  scored_news ← attempt (score_news (to_ai_news candidate))
  on_result scored_news (record_score job candidate acct) (λ e.
      if is_error e all_providers_failed
      then park_for_ai_retry job.id "scoring: all AI providers failed"
      else raise e)
