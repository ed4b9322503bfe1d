-- ===== src/Tests/Messages.antt =====
-- The theorems on the outbox, the providers and the Graph API, on one message and two providers.
use ai_social_publisher.Common.{
  ℕ, ◌+◌, ◌*◌, ◌≤◌, ◌≡◌, ◌≢◌, ◌↔◌, ◌⊎◌, refl, arith, inl, inr, String, Bool, true, false, not,
  Option, none, some, List, [], ◌∷◌, length, str_eq,
}
use ai_social_publisher.Rows.{Payload, Db}
use ai_social_publisher.Errors.{message, sentinel, all_providers_failed}
use ai_social_publisher.Status.{approved}
use ai_social_publisher.Exec.{Env, State, Result, ok, err, PostVariant, GenerateRequest}
use ai_social_publisher.Outbox.{Message, is_claimable, leased, killed, has_key, insert_row, new_row}
use ai_social_publisher.Outbox.Lease.{lease-excludes}
use ai_social_publisher.Outbox.Delivery.{
  UniqueKeys, inserted, insert_row-idempotent, keys-stay_unique,
}
use ai_social_publisher.Ai.{VariantsResult, score_news, generate_post_variants, model_of}
use ai_social_publisher.Ai.Chain.{
  Fails, generate_post_variants-Complete, score_news-first, score_news-none,
}
use ai_social_publisher.Instagram.{PublishRequest, publish_image}
use ai_social_publisher.Instagram.DryRun.{publish_image-offline}
use ai_social_publisher.Tests.{note, row, db, state, env, env_of, news, good, bad, good_score}

abbrev claimed : Message
claimed = record { id = 4; notification = note; attempts = 1 }

lease-excludes_example :
    (is_claimable 20 (leased 10 row) ≡ false)
    × (is_claimable 20 (record row { sent_at = some 10 }) ≡ false)
    × (is_claimable 20 (killed 10 "late" row) ≡ false)
lease-excludes_example = lease-excludes 10 20 row "late" (omega arith)

abbrev enqueued : Db
enqueued = record (db approved) { outbox = row ∷ new_row "other" note 5 12 ∷ [] }

insert_row-idempotent_example :
    (has_key "other" enqueued.outbox ≡ true)
    × (insert_row "other" note 6 13 enqueued ≡ ok (tt, enqueued))
unfolding insert_row has_key
insert_row-idempotent_example =
    insert_row-idempotent "other" note note 5 12 6 13 (db approved) enqueued refl

-- The database after another insertion.
abbrev enqueued_again : Db
enqueued_again = record enqueued {
  outbox = row ∷ new_row "other" note 5 12 ∷ new_row "third" note 6 13 ∷ [];
}

keys-stay_unique_example : UniqueKeys enqueued_again.outbox
unfolding insert_row has_key UniqueKeys
keys-stay_unique_example =
    keys-stay_unique enqueued enqueued_again (refl, (refl, tt)) (inserted "third" note 6 13 refl)

abbrev request : GenerateRequest
request = record { news = news; category = "tech"; variant_count = 1; styles = [] }

abbrev generated : VariantsResult
generated = record {
  variants = record { variant_no = 1; style = "short"; caption = "Hi" } ∷ [];
  provider = "tgpt";
  model = "tgpt";
}

generate_post_variants-Complete_example :
    (length generated.variants ≡ 1) × (generated.variants ≢ [])
unfolding generate_post_variants ai_social_publisher.Exec.◌>>=◌
generate_post_variants-Complete_example =
    generate_post_variants-Complete request env (state approved) generated refl

bad-Fails : Fails news bad
unfolding Fails
bad-Fails n up = (message "timeout", refl)

score_news-first_example :
    (score_news news env (state approved)).0
    ≡ ok (record { score = good_score; provider = "tgpt"; model = model_of good })
score_news-first_example =
    score_news-first (bad ∷ []) good [] news good_score env (state approved) refl (bad-Fails, tt)
      (λ n. refl) (λ n. refl)

abbrev env_bad : Env
env_bad = env_of (bad ∷ []) (λ n. none)

score_news-none_example :
    (score_news news env_bad (state approved)).0 ≡ err (sentinel all_providers_failed)
score_news-none_example = score_news-none news env_bad (state approved) (bad-Fails, tt)

abbrev request_of_user : PublishRequest
request_of_user = record { instagram_user_id = "ig"; image_url = "u"; caption = "Hi" }

abbrev broken : ℕ → String → String → List (String × String) → Result Payload
broken n user endpoint form = err (message "down")

publish_image-offline_example :
    publish_image request_of_user (record env { graph_post = broken }) (state approved)
    ≡ publish_image request_of_user env (state approved)
publish_image-offline_example =
    publish_image-offline request_of_user env (state approved) broken (inl refl)
