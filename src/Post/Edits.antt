-- ===== src/Post/Edits.antt =====
-- internal/post/post.go: edits of captions and pictures, and the replacement of a job's variants.
use ai_social_publisher.Common.{
  ℕ, ◌≡◌, refl, subst, String, Bool, true, ◌||◌, some, arith, ◌==◌, str_eq, eq_iff, is_just,
  Bool-cases, Option-cases, inl, inr, ◌⊎◌,
}
use ai_social_publisher.Status.{Status, ◌is◌, waiting_variant_approval, ready_to_publish}
use ai_social_publisher.Rows.{Job, Variant, Db}
use ai_social_publisher.Exec.{Env, State, ok}
use ai_social_publisher.Exec.Atomic.{
  Ensures-pure, Ensures-raise, Ensures-if, Ensures-exec, Ensures-query, Ensures-transaction,
  Ensures-bind,
}
use ai_social_publisher.Store.{find_job, find_variant, variant_fits, put_variant, update_variant}
use ai_social_publisher.Post.Progress.{select_job-found}
use ai_social_publisher.Post.Jobs.{select_job}
use ai_social_publisher.Post.Review.{update_variant_caption, set_variant_image_url_for_caption}

-- What an update of one variant has done that says it affected that row.
pub record WroteVariant (id : ℕ) (test : Variant → Bool) (f : Variant → Variant) (a b : Db)
    : Type 0 where
  pub row : Variant
  pub found : find_variant id a ≡ some row
  pub fits : test row ≡ true
  pub allowed : variant_fits (f row) ≡ true
  pub wrote : b ≡ put_variant (f row) a

update_variant-WroteVariant :
    (id : ℕ) (test : Variant → Bool) (f : Variant → Variant) (a b : Db) (n : ℕ)
    → update_variant id test f a ≡ ok (n, b)
    → (n == 1) ≡ true
    → WroteVariant id test f a b
unfolding update_variant
update_variant-WroteVariant id test f a b n h one = elim (Option-cases (find_variant id a)) [
  | inl e ↦ absurd (ground arith)
  | inr (v, e) ↦ elim (Bool-cases (test v)) [
    | inr t ↦ absurd (ground arith)
    | inl t ↦ elim (Bool-cases (variant_fits (f v))) [
      | inr k ↦ absurd (ground arith)
      | inl k ↦ record { row = v; found = e; fits = t; allowed = k; wrote = ground arith }
    ]
  ]
]

abbrev pub edited : String → Variant → Variant
edited caption v = record v { caption = caption; image_url = "" }

-- When `UpdateVariantCaption` returns no error, the job was under review, the variant is the job's,
-- the caption was written within the schema's bounds and the picture of the old caption is gone, and
-- the answer says whether the variant is the selected one.
pub update_variant_caption-edits :
    (job variant : ℕ) (caption : String) (env : Env) (s : State) (selected : Bool)
    → (update_variant_caption job variant caption env s).0 ≡ ok selected
    → (j : Job) × (find_job job s.db ≡ some j)
      × ((j.status ≡ waiting_variant_approval) ⊎ (j.status ≡ ready_to_publish))
      × (selected ≡ is_just j.selected_variant_id variant)
      × WroteVariant variant
          (λ v. v.post_job_id == job)
          (edited caption)
          s.db
          (update_variant_caption job variant caption env s).1.db
unfolding update_variant_caption
update_variant_caption-edits job variant caption env s selected h =
    (Ensures-transaction {P = λ d. d ≡ s.db} {Q = Q} _ λ now.
        Ensures-bind (λ j d. (d ≡ s.db) × (find_job job s.db ≡ some j)) _ _
          (Ensures-query (select_job job)
            λ db j p e. (p, subst (λ d. find_job job d ≡ some j) p (select_job-found job db j e)))
          λ j.
            Ensures-if (j.status is waiting_variant_approval || j.status is ready_to_publish) _ _
              (λ reviewed.
                Ensures-bind
                  (λ n d.
                    (find_job job s.db ≡ some j)
                    × ((n == 1) ≡ true
                        → WroteVariant variant (λ v. v.post_job_id == job) (edited caption) s.db d))
                  _ _
                  (Ensures-exec
                    (update_variant variant (λ v. v.post_job_id == job) (edited caption))
                    λ a b n p e. (
                      p.1,
                      update_variant-WroteVariant variant _ _ s.db b n (
                          subst
                            (λ d.
                              update_variant variant (λ v. v.post_job_id == job) (edited caption) d
                              ≡ ok (n, b))
                            p.0 e),
                    ))
                  λ n.
                    Ensures-if (n == 1) _ _
                      (λ one.
                        Ensures-pure _
                          (λ d p. (j, p.0, under_review j.status reviewed, refl, p.1 one)))
                      (λ _. Ensures-raise _))
              (λ _. Ensures-raise _)).at
      env s refl selected h
  where
    under_review :
        (t : Status)
        → (t is waiting_variant_approval || t is ready_to_publish) ≡ true
        → (t ≡ waiting_variant_approval) ⊎ (t ≡ ready_to_publish)
    under_review t h = ground arith

    Q : Bool → Db → Type 0
    Q selected b =
        (j : Job) × (find_job job s.db ≡ some j)
        × ((j.status ≡ waiting_variant_approval) ⊎ (j.status ≡ ready_to_publish))
        × (selected ≡ is_just j.selected_variant_id variant)
        × WroteVariant variant (λ v. v.post_job_id == job) (edited caption) s.db b

-- When `SetVariantImageURLForCaption` answers true, the variant still had the caption that was
-- rendered, and only its picture was written.
pub set_variant_image_url_for_caption-current :
    (id : ℕ) (caption url : String) (env : Env) (s : State)
    → (set_variant_image_url_for_caption id caption url env s).0 ≡ ok true
    → (v : Variant) × (find_variant id s.db ≡ some v)
      × (v.caption ≡ caption)
      × ((set_variant_image_url_for_caption id caption url env s).1.db
          ≡ put_variant (record v { image_url = url }) s.db)
unfolding set_variant_image_url_for_caption
set_variant_image_url_for_caption-current id caption url env s h =
    let test : Variant → Bool = λ v. str_eq v.caption caption in
    let f : Variant → Variant = λ v. record v { image_url = url } in
    let R : ℕ → Db → Type 0 = λ n b. (n == 1) ≡ true → WroteVariant id test f s.db b in
    let w =
      (Ensures-bind {P = λ d. d ≡ s.db} {Q = λ one b. one ≡ true → WroteVariant id test f s.db b} R
          _ _
          (Ensures-exec (update_variant id test f) λ a b n p e.
            update_variant-WroteVariant id test f s.db b n
              (subst (λ d. update_variant id test f d ≡ ok (n, b)) p e))
          (λ n. Ensures-pure (n == 1) (λ b k. k))).at
        env s refl true h refl in
    (w.row, w.found, (eq_iff w.row.caption caption).0 w.fits, w.wrote)
