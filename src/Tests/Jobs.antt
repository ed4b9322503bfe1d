-- ===== src/Tests/Jobs.antt =====
-- The theorems on the repository of jobs, on one job and its variant.
use ai_social_publisher.Common.{
  ℕ, ◌+◌, ◌*◌, ◌≤◌, ◌<◌, ◌≡◌, ◌≢◌, ◌⊎◌, refl, Bool, true, false, ◌&&◌, Option, none, some, List, [],
  ◌∷◌, ◌++◌, length, All, ◌==◌, is_just,
}
use ai_social_publisher.Status.{
  Status, ◌is◌, can_transition, scoring, waiting_ai, failed, scheduled, approved, publishing,
  ready_to_publish, waiting_variant_approval, skipped,
}
use ai_social_publisher.Rows.{Job, Variant}
use ai_social_publisher.Exec.{ok, err, M, State}
use ai_social_publisher.Store.{find_job, find_variant, put_job, put_variant}
use ai_social_publisher.Post.Jobs.{
  claim_status, with_status, update_status, mark_failed, park_for_ai_retry, max_retries, minute,
  list_by_status, transition,
}
use ai_social_publisher.Post.Schedule.{claim_scheduled_due}
use ai_social_publisher.Post.Review.{
  replace_variants, update_variant_caption, set_variant_image_url_for_caption,
}
use ai_social_publisher.Post.Claims.{
  claim_status-excludes, claim_status-takes, claim_scheduled_due-due,
}
use ai_social_publisher.Post.Guards.{Wrote, update_status-changes}
use ai_social_publisher.Post.Outcome.{Follows, status_set, update_status-outcome}
use ai_social_publisher.Post.Stored.{of_others, AllCopied, replace_variants-stored}
use ai_social_publisher.Post.Retry.{park_for_ai_retry-outcome}
use ai_social_publisher.Post.Replace.{Replaced, replace_variants-deselects}
use ai_social_publisher.Post.Edits.{
  WroteVariant, edited, update_variant_caption-edits, set_variant_image_url_for_caption-current,
}
use ai_social_publisher.Post.Due.{list_by_status-due}
use ai_social_publisher.Tests.{job, variant, db, state, env, faulty}

-- The state in which a second worker finds the claimed job.
abbrev second : State
second = record (state approved) {
  db = record (db approved) { jobs = record (job publishing (some 5)) { updated_at = 10 } ∷ [] };
  calls = 40;
}

claim_status-excludes_example : (claim_status 7 approved publishing faulty second).0 ≢ ok true
unfolding claim_status can_transition ai_social_publisher.Status.Status-discrete
    ai_social_publisher.Exec.◌>>=◌ ai_social_publisher.Exec.exec_now
    ai_social_publisher.Store.update_job ai_social_publisher.Table.find_by
    ai_social_publisher.Store.job_fits ai_social_publisher.Store.variant_of_job
    ai_social_publisher.Table.put_by
claim_status-excludes_example =
    claim_status-excludes 7 approved publishing env faulty (state approved) second refl refl

claim_status-takes_example :
    (can_transition approved publishing ≡ true)
    × (now : ℕ) × Wrote 7
        (λ j. j.status is approved)
        (with_status publishing now)
        (db approved)
        (claim_status 7 approved publishing env (state approved)).1.db
unfolding claim_status can_transition ai_social_publisher.Status.Status-discrete
    ai_social_publisher.Exec.◌>>=◌ ai_social_publisher.Exec.exec_now
    ai_social_publisher.Store.update_job ai_social_publisher.Table.find_by
    ai_social_publisher.Store.job_fits ai_social_publisher.Store.variant_of_job
claim_status-takes_example = claim_status-takes 7 approved publishing env (state approved) refl

claim_scheduled_due-due_example :
    (j : Job) × (at now : ℕ) × (find_job 7 (db scheduled) ≡ some j)
    × (j.status ≡ scheduled)
    × (j.scheduled_publish_at ≡ some at)
    × (at ≤ 6)
    × ((claim_scheduled_due 7 6 env (state scheduled)).1.db
        ≡ put_job (with_status approved now j) (db scheduled))
unfolding claim_scheduled_due can_transition ai_social_publisher.Status.Status-discrete
    ai_social_publisher.Exec.◌>>=◌ ai_social_publisher.Exec.exec_now
    ai_social_publisher.Store.update_job ai_social_publisher.Table.find_by
    ai_social_publisher.Store.job_fits ai_social_publisher.Store.variant_of_job
claim_scheduled_due-due_example = claim_scheduled_due-due 7 6 env (state scheduled) refl

update_status-changes_example :
    (j : Job) × (now : ℕ) × (find_job 7 (db ready_to_publish) ≡ some j)
    × (can_transition j.status skipped ≡ true)
    × ((update_status 7 skipped env (state ready_to_publish)).1.db
        ≡ put_job (with_status skipped now j) (db ready_to_publish))
unfolding update_status ai_social_publisher.Exec.transaction ai_social_publisher.Exec.◌>>=◌
    ai_social_publisher.Exec.query ai_social_publisher.Table.find_by can_transition
    ai_social_publisher.Status.Status-discrete ai_social_publisher.Store.update_job
    ai_social_publisher.Store.job_fits ai_social_publisher.Store.variant_of_job
update_status-changes_example = update_status-changes 7 skipped env (state ready_to_publish) refl

update_status-outcome_example :
    Follows
      (status_set skipped 11 (db ready_to_publish) (find_job 7 (db ready_to_publish)))
      (db ready_to_publish)
      (update_status 7 skipped env (state ready_to_publish))
update_status-outcome_example =
    update_status-outcome 7 skipped env (state ready_to_publish) (λ n. refl)

park_for_ai_retry-outcome_example :
    (j j' : Job) × (n : ℕ) × (find_job 7 (db scoring) ≡ some j)
    × (can_transition j.status waiting_ai ≡ true)
    × ((park_for_ai_retry 7 "down" env (state scoring)).1.db ≡ put_job j' (db scoring))
    × (j'.ai_retry_count ≡ j.ai_retry_count + 1)
    × ((j'.status ≡ failed) × (max_retries ≤ j.ai_retry_count + 1)
        ⊎ (j'.status ≡ waiting_ai)
          × (j.ai_retry_count + 1 < max_retries)
          × (env.clock n + minute ≤ j'.next_ai_retry_at)
          × (j'.next_ai_retry_at ≤ env.clock n + 16 * minute))
unfolding park_for_ai_retry ai_social_publisher.Exec.transaction ai_social_publisher.Exec.◌>>=◌
    ai_social_publisher.Exec.query ai_social_publisher.Table.find_by can_transition
    ai_social_publisher.Status.Status-discrete ai_social_publisher.Store.update_job
    ai_social_publisher.Store.job_fits ai_social_publisher.Post.Jobs.parked
    ai_social_publisher.Store.variant_of_job
park_for_ai_retry-outcome_example = park_for_ai_retry-outcome 7 "down" env (state scoring) refl

abbrev new_variant : Variant
new_variant = record variant { id = 20; caption = "New"; created_at = 11 }

replace_variants-deselects_example :
    Replaced 7
      (job approved (some 5))
      (new_variant ∷ [])
      (replace_variants 7 (new_variant ∷ []) env (state approved)).1.db
unfolding replace_variants ai_social_publisher.Table.find_by ai_social_publisher.Exec.transaction
    ai_social_publisher.Exec.◌>>=◌ ai_social_publisher.Exec.exec
    ai_social_publisher.Store.update_job ai_social_publisher.Store.job_fits
    ai_social_publisher.Status.Status-discrete ai_social_publisher.Post.Review.delete_variants
    ai_social_publisher.Post.Review.insert_variants ai_social_publisher.Exec.exec_insert
    ai_social_publisher.Post.Review.insert_variant ai_social_publisher.Table.put_by
    ai_social_publisher.Store.variant_fits ai_social_publisher.Common.rune_count
    ai_social_publisher.Common.filter
replace_variants-deselects_example =
    replace_variants-deselects 7 (new_variant ∷ []) (new_variant ∷ []) env (state approved)
      (job approved (some 5)) refl refl

replace_variants-stored_example :
    ((replace_variants 7 (new_variant ∷ []) env (state approved)).1.db.variants
      ≡ of_others 7 (db approved).variants ++ new_variant ∷ [])
    × AllCopied 7 (new_variant ∷ []) (new_variant ∷ [])
unfolding replace_variants ai_social_publisher.Exec.transaction ai_social_publisher.Exec.◌>>=◌
    ai_social_publisher.Exec.exec ai_social_publisher.Store.update_job
    ai_social_publisher.Table.find_by ai_social_publisher.Store.job_fits
    ai_social_publisher.Status.Status-discrete ai_social_publisher.Post.Review.delete_variants
    ai_social_publisher.Post.Review.insert_variants ai_social_publisher.Exec.exec_insert
    ai_social_publisher.Post.Review.insert_variant ai_social_publisher.Table.put_by
    ai_social_publisher.Store.variant_fits ai_social_publisher.Common.rune_count
    ai_social_publisher.Common.filter
replace_variants-stored_example =
    replace_variants-stored 7 (new_variant ∷ []) (new_variant ∷ []) env (state approved) refl

update_variant_caption-edits_example :
    (j : Job) × (find_job 7 (db ready_to_publish) ≡ some j)
    × ((j.status ≡ waiting_variant_approval) ⊎ (j.status ≡ ready_to_publish))
    × (true ≡ is_just j.selected_variant_id 9)
    × WroteVariant 9
        (λ v. v.post_job_id == 7)
        (edited "Hello")
        (db ready_to_publish)
        (update_variant_caption 7 9 "Hello" env (state ready_to_publish)).1.db
unfolding update_variant_caption ai_social_publisher.Exec.transaction ai_social_publisher.Exec.◌>>=◌
    ai_social_publisher.Exec.query ai_social_publisher.Table.find_by
    ai_social_publisher.Status.Status-discrete ai_social_publisher.Store.update_variant
    ai_social_publisher.Store.variant_fits ai_social_publisher.Common.rune_count
update_variant_caption-edits_example =
    update_variant_caption-edits 7 9 "Hello" env (state ready_to_publish) true refl

set_variant_image_url_for_caption-current_example :
    (v : Variant) × (find_variant 9 (db ready_to_publish) ≡ some v)
    × (v.caption ≡ "Hi")
    × ((set_variant_image_url_for_caption 9 "Hi" "new" env (state ready_to_publish)).1.db
        ≡ put_variant (record v { image_url = "new" }) (db ready_to_publish))
unfolding set_variant_image_url_for_caption ai_social_publisher.Exec.◌>>=◌
    ai_social_publisher.Exec.exec ai_social_publisher.Store.update_variant
    ai_social_publisher.Table.find_by ai_social_publisher.Store.variant_fits
    ai_social_publisher.Common.rune_count
set_variant_image_url_for_caption-current_example =
    set_variant_image_url_for_caption-current 9 "Hi" "new" env (state ready_to_publish) refl

list_by_status-due_example :
    (length (job approved (some 5) ∷ []) ≤ 200)
    × All
        (λ (j : Job).
          (j.status is approved ≡ true) × (j.next_ai_retry_at ≤ env.clock (state approved).calls))
        (job approved (some 5) ∷ [])
unfolding list_by_status ai_social_publisher.Exec.exec_now ai_social_publisher.Common.sort_by
    ai_social_publisher.Common.filter ai_social_publisher.Status.Status-discrete
list_by_status-due_example =
    list_by_status-due approved 20 env (state approved) (job approved (some 5) ∷ []) refl
