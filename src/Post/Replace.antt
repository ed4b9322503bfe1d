-- ===== src/Post/Replace.antt =====
-- internal/post/post.go: `ReplaceVariants`.
use ai_social_publisher.Common.{
  ℕ, ◌≡◌, refl, sym, subst, ap, ◌∙◌, true, ◌&&◌, not, none, some, List, [], ◌∷◌, arith, Bool-cases,
  Option-cases, inl, inr, All,
}
use ai_social_publisher.Rows.{Job, Variant, Db}
use ai_social_publisher.Exec.{Env, State, ok}
use ai_social_publisher.Exec.Atomic.{
  Ensures, Ensures-pure, Ensures-exec, Ensures-exec_insert, Ensures-transaction, Ensures-bind,
}
use ai_social_publisher.Table.{find_by, find_by-key}
use ai_social_publisher.Store.{find_job, update_job, variant_fits, always}
use ai_social_publisher.Post.Advances.{job_id, find_job-put_job}
use ai_social_publisher.Post.Guards.{update_job-found}
use ai_social_publisher.Post.Progress.Review.{find_job-unselect_all}
use ai_social_publisher.Post.Review.{
  unselect, unselect_all, without_variants, delete_variants, number_taken, insert_variant,
  insert_variants, replace_variants,
}

abbrev deselected : Job → Job
deselected j = record j { selected_variant_id = none }

unselect-clear : (k : Db) (x : Job) → x.selected_variant_id ≡ none → unselect k x ≡ x
unselect-clear k x e = rw e refl

-- What is left of a job whose variants are replaced, and of the new variants.
pub record Replaced (id : ℕ) (j : Job) (rows : List Variant) (b : Db) : Type 0 where
  pub job : find_job id b ≡ some (deselected j)
  pub all_of_job : All (λ (v : Variant). (v.post_job_id ≡ id) × (variant_fits v ≡ true)) rows

insert_variant-keeps :
    (id : ℕ) (v : Variant) (now n t : ℕ) (a b : Db) (row : Variant)
    → insert_variant id v now n t a ≡ ok (row, b)
    → (b.jobs ≡ a.jobs) × (row.post_job_id ≡ id) × (variant_fits row ≡ true)
unfolding insert_variant
insert_variant-keeps id v now n t a b row h =
    let new_row : Variant = record v { id = n; post_job_id = id; created_at = now } in
    elim (Option-cases (find_job id a)) [
      | inl e ↦ absurd (ground arith)
      | inr (j, e) ↦
          elim (Bool-cases
            (variant_fits new_row && not (number_taken id v.variant_no a.variants))) [
              | inr k ↦ absurd (ground arith)
              | inl k ↦
                  let same : new_row ≡ row = ground arith in
                  (
                    ground arith,
                    ap (λ (x : Variant). x.post_job_id) (sym same),
                    subst (λ (x : Variant). variant_fits x ≡ true) same (ground (arith, k)),
                  )
            ]
    ]

insert_variants-Replaced :
    (now id : ℕ) (j : Job) (vs : List Variant)
    → Ensures (λ d. find_job id d ≡ some (deselected j)) (insert_variants now id vs) (Replaced id j)
unfolding insert_variants
insert_variants-Replaced now id j [] = Ensures-pure [] (λ d p. record { job = p; all_of_job = tt })
insert_variants-Replaced now id j (v ∷ vs) =
    Ensures-bind
      (λ row d.
        (find_job id d ≡ some (deselected j)) × (row.post_job_id ≡ id) × (variant_fits row ≡ true))
      _ _
      (Ensures-exec_insert (insert_variant id v now) λ n t a b row p e.
        let (same, of_job, fits) = insert_variant-keeps id v now n t a b row e in
        (ap (λ js. find_by job_id id js) same ∙ p, of_job, fits))
      λ row.
        Ensures-bind
          (λ rows d. Replaced id j rows d × (row.post_job_id ≡ id) × (variant_fits row ≡ true)) _ _
          (record {
            at = λ env s p rows h.
                ((insert_variants-Replaced now id j vs).at env s p.0 rows h, p.1, p.2);
          })
          λ rows.
            Ensures-pure (row ∷ rows)
              (λ d p. record { job = p.0.job; all_of_job = ((p.1, p.2), p.0.all_of_job) })

delete_variants-keeps :
    (id k : ℕ) (j : Job) (a b : Db) (u : Unit {0})
    → find_job id a ≡ some j
    → j.selected_variant_id ≡ none
    → delete_variants k a ≡ ok (u, b)
    → find_job id b ≡ some j
unfolding delete_variants
delete_variants-keeps id k j a b u found clear h =
    let kept = without_variants k a in
    let jobs : unselect_all kept a.jobs ≡ b.jobs = ground arith in
    subst (λ js. find_by job_id id js ≡ some j) jobs
      (find_job-unselect_all kept id a.jobs j found ∙ ap some (unselect-clear kept j clear))

-- When `ReplaceVariants` returns no error for a job that exists, in whatever status it stands, the
-- job has lost its selection and is otherwise as it was, and the rows returned are the job's own and
-- fit the schema.
pub replace_variants-deselects :
    (id : ℕ) (variants rows : List Variant) (env : Env) (s : State) (j : Job)
    → find_job id s.db ≡ some j
    → (replace_variants id variants env s).0 ≡ ok rows
    → Replaced id j rows (replace_variants id variants env s).1.db
unfolding replace_variants
replace_variants-deselects id variants rows env s j present h =
    (Ensures-transaction {P = λ d. find_job id d ≡ some j} {Q = Replaced id j} _ λ now.
        Ensures-bind (λ n d. find_job id d ≡ some (deselected j)) _ _
          (Ensures-exec (update_job id always deselected) λ a b n p e.
            subst (λ d. find_job id d ≡ some (deselected j))
              (sym (update_job-found id deselected a b n j p e))
              (find_job-put_job id a j (deselected j) p (find_by-key job_id id a.jobs j p)))
          λ n.
            Ensures-bind (λ u d. find_job id d ≡ some (deselected j)) _ _
              (Ensures-exec (delete_variants id)
                λ a b u p e. delete_variants-keeps id id (deselected j) a b u p refl e)
              λ u. insert_variants-Replaced now id j variants).at
      env s present rows h
