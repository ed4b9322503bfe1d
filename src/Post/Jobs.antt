-- ===== src/Post/Jobs.antt =====
-- internal/post/post.go: creation, queries and guarded status changes of jobs. The context argument
-- and the connection are left out; every statement may fail (`Exec.exec`).
use mathlib.Core.List.{reverse}
use ai_social_publisher.Common.{
  ℕ, ◌+◌, ◌*◌, ◌^◌, ◌-◌, min, String, Bool, true, false, ◌&&◌, ◌||◌, Option, none, some, List, [],
  ◌∷◌, ◌++◌, ltb, leb, ◌==◌, if◌then◌else◌, concat, filter, sort_by, take, is_some,
}
use ai_social_publisher.Status.{
  Status, ◌is◌, text, can_transition, new, waiting_ai, variants_queued, scoring,
  generating_variants, publishing, published, failed,
}
use ai_social_publisher.Rows.{Job, Account, Db}
use ai_social_publisher.Errors.{
  Error, sentinel, wrapped, check_violation, job_not_found, invalid_transition,
}
use ai_social_publisher.Exec.{
  Result, ok, err, M, pure, raise, time_now, ◌>>=◌, ◌>>◌, exec, exec_now, exec_insert, query,
  transaction,
}
use ai_social_publisher.Table.{find_by}
use ai_social_publisher.Store.{find_job, find_candidate, or_missing, update_job, always}

abbrev pub minute : ℕ
minute = 60 * 10 ^ 9

-- `fmt.Errorf("%w: %s -> %s", ErrInvalidTransition, from, to)`
unfoldable pub refused : Status → Status → Error
refused from to =
    wrapped "" (sentinel invalid_transition) (concat (": " ∷ text from ∷ " -> " ∷ text to ∷ []))

-- `SELECT … FROM post_jobs WHERE id = $1`
abbrev pub select_job : ℕ → Db → Result Job
select_job id db = or_missing job_not_found (find_job id db)

unfoldable pub get_by_id : ℕ → M Job
get_by_id id = query (select_job id)

abbrev pub find_pair : ℕ → ℕ → List Job → Option Job
find_pair cid aid [] = none
find_pair cid aid (j ∷ js) =
    let rest = find_pair cid aid js in
    if j.news_candidate_id == cid && j.social_account_id == aid then some j else rest

abbrev pub new_job : ℕ → ℕ → ℕ → ℕ → Job
new_job id now cid aid = record {
  id = id;
  news_candidate_id = cid;
  social_account_id = aid;
  status = new;
  requested_variant_count = 0;
  selected_variant_id = none;
  instagram_media_id = "";
  ai_provider = "";
  ai_model = "";
  ai_error = "";
  error_message = "";
  ai_retry_count = 0;
  next_ai_retry_at = now;
  created_at = now;
  updated_at = now;
  scheduled_publish_at = none;
}

-- The foreign keys of a job: its candidate and its account.
abbrev pub parents_exist : ℕ → ℕ → Db → Bool
parents_exist cid aid db =
    is_some (find_candidate cid db) && is_some (find_by (λ (a : Account). a.id) aid db.accounts)

-- `INSERT … ON CONFLICT (news_candidate_id, social_account_id) DO NOTHING RETURNING …`; `none` is
-- `sql.ErrNoRows`.
unfoldable pub insert_job : ℕ → ℕ → ℕ → ℕ → Db → Result (Option Job × Db)
insert_job cid aid id now db =
    if is_some (find_pair cid aid db.jobs)
    then ok (none, db)
    else if parents_exist cid aid db
    then ok
        (some (new_job id now cid aid), record db { jobs = db.jobs ++ new_job id now cid aid ∷ [] })
    else err check_violation

unfoldable pub created_or_existing : ℕ → ℕ → Option Job → M (Job × Bool)
created_or_existing cid aid (some j) = pure (j, true)
created_or_existing cid aid none = do
  j ← query (λ db. or_missing job_not_found (find_pair cid aid db.jobs))
  pure (j, false)

-- `GetOrCreate`
unfoldable pub get_or_create : ℕ → ℕ → M (Job × Bool)
unfolding created_or_existing
get_or_create cid aid = do
  inserted ← exec_insert (insert_job cid aid)
  created_or_existing cid aid inserted

abbrev pub clamp_limit : ℕ → ℕ
clamp_limit limit = if leb limit 0 || ltb 200 limit then 50 else limit

-- `List`
unfoldable pub list : ℕ → M (List Job)
list limit =
    query (λ db. ok (take (clamp_limit limit) (reverse (sort_by (λ (j : Job). j.id) db.jobs))))

-- `WHERE status = $1 AND next_ai_retry_at <= now() ORDER BY updated_at ASC LIMIT $2`
unfoldable pub due_by_status : Status → ℕ → ℕ → List Job → List Job
due_by_status status limit now jobs = take limit (
    sort_by (λ (j : Job). j.updated_at)
      (filter (λ (j : Job). j.status is status && leb j.next_ai_retry_at now) jobs))

-- `ListByStatus`
unfoldable pub list_by_status : Status → ℕ → M (List Job)
unfolding due_by_status
list_by_status status limit =
    exec_now (λ now db. ok (due_by_status status (clamp_limit limit) now db.jobs, db))

-- `ListRecentByStatus`
unfoldable pub list_recent_by_status : Status → ℕ → ℕ → M (List Job)
list_recent_by_status status since limit = query (λ db. ok (
    take (clamp_limit limit) (
      reverse (
        sort_by (λ (j : Job). j.updated_at)
          (filter (λ (j : Job). j.status is status && leb since j.updated_at) db.jobs)))))

-- `ListStaleProcessing`
unfoldable pub list_stale_processing : ℕ → ℕ → M (List Job)
list_stale_processing cutoff limit = query (λ db. ok (
    take (clamp_limit limit) (
      sort_by (λ (j : Job). j.updated_at)
        (filter
          (λ (j : Job).
            (j.status is scoring || j.status is generating_variants || j.status is publishing)
            && ltb j.updated_at cutoff)
          db.jobs))))

-- `SET status = $1, updated_at = now()`
abbrev pub with_status : Status → ℕ → Job → Job
with_status to now j = record j { status = to; updated_at = now }

-- `transition`: the guard, the status change and the extra statements, in one transaction.
unfoldable pub transition : ℕ → Status → (ℕ → M (Unit {0})) → M (Unit {0})
transition id to extra = transaction λ now. do
  job ← query (select_job id)
  if can_transition job.status to
      then (do exec (update_job id always (with_status to now)); extra now)
      else raise (refused job.status to)

-- `UpdateStatus`
unfoldable pub update_status : ℕ → Status → M (Unit {0})
update_status id to = transaction λ now. do
  job ← query (select_job id)
  if can_transition job.status to
      then (do exec (update_job id always (with_status to now)); pure tt)
      else raise (refused job.status to)

-- `ClaimStatus`: the update holds only while the job stands in the expected state.
unfoldable pub claim_status : ℕ → Status → Status → M Bool
claim_status id from to =
    if can_transition from to
    then (do
      n ← exec_now (λ now. update_job id (λ j. j.status is from) (with_status to now))
      pure (n == 1))
    else raise (refused from to)

-- `ScoreUpdate`
pub record ScoreUpdate : Type 0 where
  pub status : Status
  pub ai_provider : String
  pub ai_model : String
  pub ai_error : String

abbrev scored_fields : ScoreUpdate → ℕ → Job → Job
scored_fields u now j = record j {
  ai_provider = u.ai_provider;
  ai_model = u.ai_model;
  ai_error = u.ai_error;
  ai_retry_count = 0;
  next_ai_retry_at = now;
}

-- `ApplyScored`
unfoldable pub apply_scored : ℕ → ScoreUpdate → M (Unit {0})
apply_scored id u =
    transition id u.status (λ now. do exec (update_job id always (scored_fields u now)); pure tt)

-- `CompleteAIStage`
unfoldable pub complete_ai_stage : ℕ → Status → M (Unit {0})
complete_ai_stage id to = transition id to (λ now. do
  exec (
      update_job id always
        (λ j. record j { ai_error = ""; ai_retry_count = 0; next_ai_retry_at = now }))
  pure tt)

abbrev pub max_retries : ℕ
max_retries = 8

-- `time.Minute << min(retries-1, 4)`
unfoldable pub retry_delay : ℕ → ℕ
retry_delay retries = minute * 2 ^ min (retries - 1) 4

-- The row that `ParkForAIRetry` writes, at the transaction's `now()` and the process's time.
unfoldable pub parked : String → ℕ → ℕ → Job → Job
unfolding retry_delay
parked ai_error now time j =
    let retries = j.ai_retry_count + 1 in
    if leb max_retries retries
    then record j {
      status = failed;
      ai_error = ai_error;
      error_message = concat ("AI retries exhausted: " ∷ ai_error ∷ []);
      ai_retry_count = retries;
      updated_at = now;
    }
    else record j {
      status = waiting_ai;
      ai_error = ai_error;
      ai_retry_count = retries;
      next_ai_retry_at = time + retry_delay retries;
      updated_at = now;
    }

-- `ParkForAIRetry`
unfoldable pub park_for_ai_retry : ℕ → String → M (Unit {0})
park_for_ai_retry id ai_error = transaction λ now. do
  job ← query (select_job id)
  if can_transition job.status waiting_ai
      then (do time ← time_now; exec (update_job id always (parked ai_error now time)); pure tt)
      else raise (refused job.status waiting_ai)

-- `QueueVariants`
unfoldable pub queue_variants : ℕ → ℕ → M (Unit {0})
queue_variants id count = transition id variants_queued (λ now. do
  exec (
      update_job id always
        (λ j. record j { requested_variant_count = count; selected_variant_id = none }))
  pure tt)

-- `MarkPublished`
unfoldable pub mark_published : ℕ → String → M (Unit {0})
mark_published id media_id = transition id published (λ now. do
  exec (update_job id always (λ j. record j { instagram_media_id = media_id; error_message = "" }))
  pure tt)

-- `MarkFailed`
unfoldable pub mark_failed : ℕ → String → M (Unit {0})
mark_failed id msg =
    transition id failed
      (λ now. do exec (update_job id always (λ j. record j { error_message = msg })); pure tt)
