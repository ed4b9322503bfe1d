-- ===== src/Store.antt =====
-- The statements on the tables of posts, with the constraints of migrations/00001_init_schema.sql,
-- 00002_harden_workflow.sql and 00004_scheduled_publish.sql that they run under. A row that breaks
-- one of them fails its statement.
use ai_social_publisher.Common.{
  ℕ, Bool, true, false, ◌&&◌, ◌||◌, not, Option, none, some, ltb, leb, ◌==◌, if◌then◌else◌, is_some,
  rune_count,
}
use ai_social_publisher.Rows.{Job, Variant, Candidate, Db}
use ai_social_publisher.Errors.{Sentinel, sentinel, check_violation}
use ai_social_publisher.Status.{scheduled, ◌is◌}
use ai_social_publisher.Table.{find_by, put_by}
use ai_social_publisher.Exec.{Result, ok, err}

abbrev pub find_job : ℕ → Db → Option Job
find_job id db = find_by (λ (j : Job). j.id) id db.jobs

abbrev pub find_variant : ℕ → Db → Option Variant
find_variant id db = find_by (λ (v : Variant). v.id) id db.variants

abbrev pub find_candidate : ℕ → Db → Option Candidate
find_candidate id db = find_by (λ (c : Candidate). c.id) id db.candidates

abbrev pub put_job : Job → Db → Db
put_job j db = record db { jobs = put_by (λ (j : Job). j.id) j db.jobs }

abbrev pub put_variant : Variant → Db → Db
put_variant v db = record db { variants = put_by (λ (v : Variant). v.id) v db.variants }

-- A row, or the package's ErrNotFound where `sql.ErrNoRows` comes back.
abbrev pub or_missing {ℓ} : {A : Type ℓ} → Sentinel → Option A → Result A
or_missing e none = err (sentinel e)
or_missing e (some a) = ok a

-- `EXISTS (SELECT 1 FROM post_variants WHERE id = … AND post_job_id = …)`
unfoldable pub variant_of_job : ℕ → ℕ → Db → Bool
variant_of_job variant_id job_id db = elim (find_variant variant_id db) [
  | none ↦ false
  | some v ↦ v.post_job_id == job_id
]

abbrev selected_fits : Option ℕ → ℕ → Db → Bool
selected_fits none job_id db = true
selected_fits (some v) job_id db = variant_of_job v job_id db

-- chk_post_jobs_variant_count, chk_post_jobs_scheduled_at, fk_post_jobs_selected_variant_same_job
unfoldable pub job_fits : Db → Job → Bool
job_fits db j =
    leb j.requested_variant_count 10
    && (not (j.status is scheduled) || is_some j.scheduled_publish_at)
    && selected_fits j.selected_variant_id j.id db

-- chk_post_variants_number, chk_post_variants_caption
unfoldable pub variant_fits : Variant → Bool
variant_fits v =
    ltb 0 v.variant_no && (ltb 0 (rune_count v.caption) && leb (rune_count v.caption) 2200)

abbrev pub write_job : Db → Job → Result (ℕ × Db)
write_job db j = if job_fits db j then ok (1, put_job j db) else err check_violation

-- `UPDATE post_jobs SET … WHERE id = $1 AND …`; the result is `RowsAffected`.
unfoldable pub update_job : ℕ → (Job → Bool) → (Job → Job) → Db → Result (ℕ × Db)
update_job id test f db = elim (find_job id db) [
  | none ↦ ok (0, db)
  | some j ↦ if test j then write_job db (f j) else ok (0, db)
]

abbrev pub write_variant : Db → Variant → Result (ℕ × Db)
write_variant db v = if variant_fits v then ok (1, put_variant v db) else err check_violation

-- `UPDATE post_variants SET … WHERE id = $1 AND …`
unfoldable pub update_variant : ℕ → (Variant → Bool) → (Variant → Variant) → Db → Result (ℕ × Db)
update_variant id test f db = elim (find_variant id db) [
  | none ↦ ok (0, db)
  | some v ↦ if test v then write_variant db (f v) else ok (0, db)
]

abbrev pub always {ℓ} : {A : Type ℓ} → A → Bool
always a = true
