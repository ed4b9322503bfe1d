-- ===== src/Post/Review.antt =====
-- internal/post/post.go: the selection of a variant, edits of its caption, and the variants' rows.
use ai_social_publisher.Common.{
  ℕ, String, Bool, false, ◌&&◌, ◌||◌, none, some, List, [], ◌∷◌, ◌++◌, ◌==◌, str_eq, if◌then◌else◌,
  concat, filter, sort_by, is_just, not,
}
use ai_social_publisher.Status.{◌is◌, text, waiting_variant_approval, ready_to_publish}
use ai_social_publisher.Rows.{Job, Variant, Db}
use ai_social_publisher.Errors.{
  Error, sentinel, wrapped, check_violation, job_not_found, invalid_transition,
}
use ai_social_publisher.Exec.{
  Result, ok, err, M, pure, raise, ◌>>=◌, ◌>>◌, exec, exec_insert, query, transaction,
}
use ai_social_publisher.Store.{
  find_variant, variant_of_job, variant_fits, or_missing, update_job, update_variant, always,
}
use ai_social_publisher.Post.Jobs.{select_job, transition}

abbrev not_of_job : Error
not_of_job = wrapped "" (sentinel job_not_found) ": variant does not belong to job"

-- `… WHERE id = $2 AND EXISTS (SELECT 1 FROM post_variants WHERE id = $1 AND post_job_id = $2)`
abbrev pub select_update : ℕ → ℕ → (Job → Job) → Db → Result (ℕ × Db)
select_update id variant_id f db = update_job id (λ j. variant_of_job variant_id id db) f db

-- `SelectVariant`
unfoldable pub select_variant : ℕ → ℕ → M (Unit {0})
select_variant id variant_id = transition id ready_to_publish (λ now. do
  n ← exec (select_update id variant_id (λ j. record j { selected_variant_id = some variant_id }))
  if n == 1 then pure tt else raise not_of_job)

-- `ReselectVariant`
unfoldable pub reselect_variant : ℕ → ℕ → M (Unit {0})
reselect_variant id variant_id = transaction λ now. do
  job ← query (select_job id)
  if job.status is ready_to_publish
      then (do
        n ← exec (
            select_update id variant_id
              (λ j. record j { selected_variant_id = some variant_id; updated_at = now }))
        if n == 1 then pure tt else raise not_of_job)
      else raise (
          wrapped "" (sentinel invalid_transition)
            (concat (": cannot reselect variant in " ∷ text job.status ∷ [])))

-- `UpdateVariantCaption`; the result says whether the edited variant is the selected one.
unfoldable pub update_variant_caption : ℕ → ℕ → String → M Bool
update_variant_caption job_id variant_id caption = transaction λ now. do
  job ← query (select_job job_id)
  if job.status is waiting_variant_approval || job.status is ready_to_publish
      then (do
        n ← exec (
            update_variant variant_id (λ v. v.post_job_id == job_id)
              (λ v. record v { caption = caption; image_url = "" }))
        if n == 1
            then pure (is_just job.selected_variant_id variant_id)
            else raise (sentinel job_not_found))
      else raise (
          wrapped "" (sentinel invalid_transition)
            (concat (": caption cannot be edited in " ∷ text job.status ∷ [])))

-- ON DELETE SET NULL (selected_variant_id), for the jobs that had selected a deleted variant
abbrev pub unselect : Db → Job → Job
unselect db j = elim j.selected_variant_id [
  | none ↦ j
  | some v ↦ elim (find_variant v db) [
    | none ↦ record j { selected_variant_id = none }
    | some w ↦ j
  ]
]

unfoldable pub unselect_all : Db → List Job → List Job
unselect_all db [] = []
unselect_all db (j ∷ js) = unselect db j ∷ unselect_all db js

abbrev pub without_variants : ℕ → Db → Db
without_variants job_id db = record db {
  variants = filter (λ (v : Variant). not (v.post_job_id == job_id)) db.variants;
}

-- `DELETE FROM post_variants WHERE post_job_id = $1`
unfoldable pub delete_variants : ℕ → Db → Result (Unit {0} × Db)
unfolding unselect_all
delete_variants job_id db =
    let kept = without_variants job_id db in
    ok (tt, record kept { jobs = unselect_all kept db.jobs })

abbrev pub number_taken : ℕ → ℕ → List Variant → Bool
number_taken job_id number [] = false
number_taken job_id number (v ∷ vs) =
    (v.post_job_id == job_id && v.variant_no == number) || number_taken job_id number vs

-- `INSERT INTO post_variants … RETURNING id, created_at`, under the CHECKs of the table and
-- uq_post_variants_job_number; the job is a foreign key.
unfoldable pub insert_variant : ℕ → Variant → ℕ → ℕ → ℕ → Db → Result (Variant × Db)
insert_variant job_id v now id _ db =
    let row = record v { id = id; post_job_id = job_id; created_at = now } in
    elim (select_job job_id db) [
      | err e ↦ err check_violation
      | ok j ↦
          if variant_fits row && not (number_taken job_id row.variant_no db.variants)
          then ok (row, record db { variants = db.variants ++ row ∷ [] })
          else err check_violation
    ]

unfoldable pub insert_variants : ℕ → ℕ → List Variant → M (List Variant)
insert_variants now job_id [] = pure []
insert_variants now job_id (v ∷ vs) = do
  row ← exec_insert (insert_variant job_id v now)
  rows ← insert_variants now job_id vs
  pure (row ∷ rows)

-- `ReplaceVariants`
unfoldable pub replace_variants : ℕ → List Variant → M (List Variant)
replace_variants job_id variants = transaction λ now. do
  exec (update_job job_id always (λ j. record j { selected_variant_id = none }))
  exec (delete_variants job_id)
  insert_variants now job_id variants

-- `ListVariants`
unfoldable pub list_variants : ℕ → M (List Variant)
list_variants job_id = query (λ db. ok (
    sort_by (λ (v : Variant). v.variant_no)
      (filter (λ (v : Variant). v.post_job_id == job_id) db.variants)))

-- `GetVariantByID`
unfoldable pub get_variant_by_id : ℕ → M Variant
get_variant_by_id id = query (λ db. or_missing job_not_found (find_variant id db))

-- `SetVariantImageURL`
unfoldable pub set_variant_image_url : ℕ → String → M (Unit {0})
set_variant_image_url id url = do
  exec (update_variant id always (λ v. record v { image_url = url }))
  pure tt

-- `SetVariantImageURLForCaption`: only while the caption is the one that was rendered.
unfoldable pub set_variant_image_url_for_caption : ℕ → String → String → M Bool
set_variant_image_url_for_caption id caption url = do
  n ← exec (update_variant id (λ v. str_eq v.caption caption) (λ v. record v { image_url = url }))
  pure (n == 1)
