-- ===== src/Post/Stored.antt =====
-- internal/post/post.go: the table of variants after `ReplaceVariants`.
use ai_social_publisher.Common.{
  ℕ, ◌≡◌, refl, sym, subst, ap, ◌∙◌, Bool, ◌&&◌, not, ◌==◌, List, [], ◌∷◌, ◌++◌, arith, filter,
  Bool-cases, Option-cases, inl, inr,
}
use mathlib.Core.List.{append-nil, append_assoc}
use ai_social_publisher.Rows.{Job, Variant, Db}
use ai_social_publisher.Exec.{Env, State, ok}
use ai_social_publisher.Exec.Atomic.{
  Ensures, Ensures-pure, Ensures-exec, Ensures-exec_insert, Ensures-transaction, Ensures-bind,
}
use ai_social_publisher.Store.{find_job, update_job, variant_fits, always}
use ai_social_publisher.Post.Advances.{Updated, none_fits, one_fits, update_job-Updated}
use ai_social_publisher.Post.Review.{
  number_taken, delete_variants, insert_variant, insert_variants, replace_variants,
}

-- The variants of the other jobs.
abbrev pub of_others : ℕ → List Variant → List Variant
of_others id vs = filter (λ (v : Variant). not (v.post_job_id == id)) vs

-- A row that has the content of a variant, as one of the job.
abbrev pub Copies : ℕ → Variant → Variant → Type 0
Copies id v row = row ≡ record v { id = row.id; post_job_id = id; created_at = row.created_at }

-- Rows for the given variants, one for each and in their order.
abbrev pub AllCopied : ℕ → List Variant → List Variant → Type 0
AllCopied id [] [] = Unit
AllCopied id [] (r ∷ rs) = ⊥
AllCopied id (v ∷ vs) [] = ⊥
AllCopied id (v ∷ vs) (r ∷ rs) = Copies id v r × AllCopied id vs rs

update_job-variants :
    (id : ℕ) (test : Job → Bool) (f : Job → Job) (a b : Db) (n : ℕ)
    → update_job id test f a ≡ ok (n, b)
    → b.variants ≡ a.variants
unfolding update_job
update_job-variants id test f a b n e = go (update_job-Updated id test f a b n e)
  where
    go : Updated id test f a b n → b.variants ≡ a.variants
    go (none_fits z same) = ap (λ (d : Db). d.variants) same
    go (one_fits j found t z w same) = ap (λ (d : Db). d.variants) same

delete_variants-others :
    (id : ℕ) (a b : Db) (u : Unit {0})
    → delete_variants id a ≡ ok (u, b)
    → b.variants ≡ of_others id a.variants
unfolding delete_variants
delete_variants-others id a b u e = ground arith

insert_variant-appends :
    (id : ℕ) (v : Variant) (now n t : ℕ) (a b : Db) (row : Variant)
    → insert_variant id v now n t a ≡ ok (row, b)
    → (b.variants ≡ a.variants ++ row ∷ []) × Copies id v row
unfolding insert_variant
insert_variant-appends id v now n t a b row h =
    let new_row : Variant = record v { id = n; post_job_id = id; created_at = now } in
    elim (Option-cases (find_job id a)) [
      | inl e ↦ absurd (ground arith)
      | inr (j, e) ↦
          elim (Bool-cases
            (variant_fits new_row && not (number_taken id v.variant_no a.variants))) [
              | inr k ↦ absurd (ground arith)
              | inl k ↦
                  let same : new_row ≡ row = ground arith in
                  (ground arith, subst (Copies id v) same refl)
            ]
    ]

insert_variants-appends :
    (now id : ℕ) (kept : List Variant) (vs : List Variant)
    → Ensures
        (λ d. d.variants ≡ kept)
        (insert_variants now id vs)
        (λ rows d. (d.variants ≡ kept ++ rows) × AllCopied id vs rows)
unfolding insert_variants
insert_variants-appends now id kept [] = Ensures-pure [] (λ d p. (p ∙ sym (append-nil kept), tt))
insert_variants-appends now id kept (v ∷ vs) =
    Ensures-bind (λ row d. (d.variants ≡ kept ++ row ∷ []) × Copies id v row) _ _
      (Ensures-exec_insert (insert_variant id v now) λ n t a b row p e.
        let (grown, copied) = insert_variant-appends id v now n t a b row e in
        (grown ∙ ap (λ xs. xs ++ row ∷ []) p, copied))
      λ row.
        Ensures-bind
          (λ rows d.
            (d.variants ≡ (kept ++ row ∷ []) ++ rows) × AllCopied id vs rows × Copies id v row)
          _ _
          (record {
            at = λ env s p rows h.
                let (grown, copied) =
                  (insert_variants-appends now id (kept ++ row ∷ []) vs).at env s p.0 rows h in
                (grown, copied, p.1);
          })
          λ rows.
            Ensures-pure (row ∷ rows) (λ d p. (p.0 ∙ append_assoc kept (row ∷ []) rows, (p.2, p.1)))

-- When `ReplaceVariants` returns no error, the table of variants has the rows of the other jobs as
-- they were and after them the rows returned, which are the given variants in their order, each
-- under the job.
pub replace_variants-stored :
    (id : ℕ) (variants rows : List Variant) (env : Env) (s : State)
    → (replace_variants id variants env s).0 ≡ ok rows
    → ((replace_variants id variants env s).1.db.variants ≡ of_others id s.db.variants ++ rows)
      × AllCopied id variants rows
unfolding replace_variants
replace_variants-stored id variants rows env s h =
    (Ensures-transaction {P = λ d. d.variants ≡ s.db.variants}
        {Q = λ rows d.
          (d.variants ≡ of_others id s.db.variants ++ rows) × AllCopied id variants rows}
        _
        λ now.
          Ensures-bind (λ n d. d.variants ≡ s.db.variants) _ _
            (Ensures-exec (update_job id always _)
              λ a b n p e. update_job-variants id always _ a b n e ∙ p)
            λ n.
              Ensures-bind (λ u d. d.variants ≡ of_others id s.db.variants) _ _
                (Ensures-exec (delete_variants id)
                  λ a b u p e. delete_variants-others id a b u e ∙ ap (of_others id) p)
                λ u. insert_variants-appends now id (of_others id s.db.variants) variants).at
      env s refl rows h
