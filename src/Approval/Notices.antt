-- ===== src/Approval/Notices.antt =====
-- internal/approval/service.go: notifications are repaired, delivered and purged.
use ai_social_publisher.Common.{
  ℕ, zero, suc, ◌*◌, ◌-◌, [], ◌∷◌, ◌==◌, str_eq, if◌then◌else◌, concat, format_int, length,
}
use ai_social_publisher.Status.{waiting_first_approval, waiting_variant_approval, published, failed}
use ai_social_publisher.Rows.{Job, Score, Notification}
use ai_social_publisher.Exec.{
  Result, M, pure, ask, time_now, attempt, logged, ◌>>=◌, ◌>>◌, on_result, on_option, for_each,
  NewsScore,
}
use ai_social_publisher.News.{get_latest_score}
use ai_social_publisher.Post.Jobs.{list_by_status, list_recent_by_status}
use ai_social_publisher.Post.Review.{list_variants}
use ai_social_publisher.Outbox
use ai_social_publisher.Outbox.{Message, claim_due, mark_sent, purge_sent}
use ai_social_publisher.Approval.Context.{load_candidate_account, queue_notice}
use ai_social_publisher.Approval.Intake.{queue_first_approval}
use ai_social_publisher.Approval.Variants.{queue_variant_approval}
use ai_social_publisher.Approval.Publish.{job_failed_key, publish_notice}
use ai_social_publisher.Approval.Queue.{hour}

abbrev pub repair_lookback : ℕ
repair_lookback = 7 * 24 * hour

abbrev pub outbox_retention : ℕ
outbox_retention = 30 * 24 * hour

-- `r, err := …; if err != nil { continue }`
unfoldable pub or_continue {ℓ} : {A : Type ℓ} → M A → (A → M (Unit {0})) → M (Unit {0})
or_continue m k = do r ← attempt m; on_result r k (λ e. pure tt)

news_score : Score → NewsScore
news_score s = record {
  importance_score = s.importance_score;
  virality_score = s.virality_score;
  account_fit = s.account_fit;
  should_notify = s.should_notify;
  risk_level = s.risk_level;
  reason = s.reason;
}

unfoldable pub repair_first : Job → M (Unit {0})
unfolding or_continue news_score
repair_first job = or_continue (load_candidate_account job) λ both.
    or_continue (get_latest_score both.0.id)
      λ score. logged (queue_first_approval job.id both.0 both.1 (news_score score))

unfoldable pub repair_variants : Job → M (Unit {0})
unfolding or_continue
repair_variants job = or_continue (load_candidate_account job) λ both.
    or_continue (list_variants job.id) λ variants.
      if length variants == 0
      then pure tt
      else logged (queue_variant_approval job.id both.0 variants)

unfoldable pub repair_published : Job → M (Unit {0})
unfolding or_continue
repair_published job =
    or_continue (load_candidate_account job)
      λ both. logged (publish_notice job.id "" both.0 job.instagram_media_id)

unfoldable pub repair_failed : Job → M (Unit {0})
repair_failed job = logged (
    queue_notice (job_failed_key job.id) "❌ Job durduruldu"
      (concat ("Job #" ∷ format_int job.id ∷ " FAILED durumunda: " ∷ job.error_message ∷ [])))

-- `RepairNotifications`
unfoldable pub repair_notifications : M (Unit {0})
unfolding repair_first repair_variants repair_published repair_failed
repair_notifications = do
  first ← list_by_status waiting_first_approval 50
  for_each first repair_first
  variant_jobs ← list_by_status waiting_variant_approval 50
  for_each variant_jobs repair_variants
  now ← time_now
  published_jobs ← list_recent_by_status published (now - repair_lookback) 50
  for_each published_jobs repair_published
  failed_jobs ← list_recent_by_status failed (now - repair_lookback) 50
  for_each failed_jobs repair_failed

-- `PurgeDeliveredNotifications`
unfoldable pub purge_delivered_notifications : M (Unit {0})
purge_delivered_notifications = do now ← time_now; purge_sent (now - outbox_retention); pure tt

-- `telegram.Client.Send`, up to the HTTP request
unfoldable pub send : Notification → M (Result (Unit {0}))
send n = ask (λ env k.
    env.telegram_post k
      (record n { channel = if str_eq n.channel "" then "telegram" else n.channel }))

unfoldable pub deliver_rounds : ℕ → M (Unit {0})
unfolding send
deliver_rounds zero = pure tt
deliver_rounds (suc rounds) =
    let more = deliver_rounds rounds in
    claim_due >>= λ claimed.
    on_option claimed
      (λ message. do
        sent ← send message.notification
        on_result sent (λ _. mark_sent message.id >> more)
            (λ e. Outbox.mark_failed message.id message.attempts e >> more))
      (pure tt)

-- `DeliverNotifications`
unfoldable pub deliver_notifications : M (Unit {0})
unfolding deliver_rounds
deliver_notifications = deliver_rounds 20
