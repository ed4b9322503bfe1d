-- ===== src/Post/Logs.antt =====
-- internal/post/post.go: publish logs and the counts of the console.
use ai_social_publisher.Common.{
  ℕ, String, ◌&&◌, not, Option, none, some, [], ◌∷◌, ◌++◌, ◌==◌, str_eq, if◌then◌else◌, filter,
  sort_by, is_some, last?, length,
}
use ai_social_publisher.Status.{Status, ◌is◌}
use ai_social_publisher.Rows.{Job, PublishLog, Payload, malformed, object, Db}
use ai_social_publisher.Errors.{message, check_violation}
use ai_social_publisher.Exec.{Result, ok, err, M, exec_insert, query}
use ai_social_publisher.Store.{find_job}

-- `INSERT INTO publish_logs …`; the job is a foreign key.
unfoldable pub insert_log : PublishLog → ℕ → ℕ → Db → Result (Unit {0} × Db)
insert_log l id now db = elim (find_job l.post_job_id db) [
  | none ↦ err check_violation
  | some j ↦ ok (tt, record db { logs = db.logs ++ record l { id = id } ∷ [] })
]

-- `InsertPublishLog`
unfoldable pub insert_publish_log : PublishLog → M (Unit {0})
unfolding insert_log
insert_publish_log l =
    exec_insert (
      insert_log (record l { platform = if str_eq l.platform "" then "instagram" else l.platform }))

-- The log that `SuccessfulPublishMediaID` reads: `WHERE post_job_id = $1 AND success = TRUE AND
-- response_payload IS NOT NULL ORDER BY id DESC LIMIT 1`.
unfoldable pub latest_success : ℕ → Db → Option PublishLog
latest_success job_id db = last? (
    sort_by (λ (l : PublishLog). l.id)
      (filter
        (λ (l : PublishLog). l.post_job_id == job_id && l.success && is_some l.response_payload)
        db.logs))

-- `json.Unmarshal`, and the first id of the two that is not empty.
unfoldable pub media_id_of : Option Payload → Result (Option String)
media_id_of none = ok none
media_id_of (some malformed) = err (message "invalid response payload")
media_id_of (some (object id media_id error)) = ok (
    if not (str_eq id "")
    then some id
    else if not (str_eq media_id "")
    then some media_id
    else none)

media_id_of_log : Option PublishLog → Result (Option String)
unfolding media_id_of
media_id_of_log none = ok none
media_id_of_log (some l) = media_id_of l.response_payload

-- `SuccessfulPublishMediaID`; `none` is its `("", false, nil)`.
unfoldable pub successful_publish_media_id : ℕ → M (Option String)
unfolding latest_success media_id_of_log
successful_publish_media_id job_id = query (λ db. media_id_of_log (latest_success job_id db))

-- `StatusCounts`, as the function from a status to its entry of the map, 0 where there is none.
unfoldable pub status_counts : M (Status → ℕ)
status_counts = query (λ db. ok (λ s. length (filter (λ (j : Job). j.status is s) db.jobs)))
