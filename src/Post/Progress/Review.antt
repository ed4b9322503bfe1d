-- ===== src/Post/Progress/Review.antt =====
-- The actions on variants of internal/post/post.go move jobs along the graph, on every path.
use ai_social_publisher.Common.{
  ℕ, String, ◌≡◌, refl, sym, subst, Bool, ◌||◌, some, List, [], ◌∷◌, arith, Option-cases,
  Bool-cases, ◌==◌, inl, inr,
}
use ai_social_publisher.Status.{◌is◌, waiting_variant_approval, ready_to_publish}
use ai_social_publisher.Status.Graph.{◌⟶*◌, here}
use ai_social_publisher.Rows.{Job, Variant, Db}
use ai_social_publisher.Exec.{ok, exec}
use ai_social_publisher.Exec.Rules.{
  Any, Moves, Moves-pure, Moves-raise, Moves-if, Moves-exec, Moves-query, Moves-bind,
  Moves-query-bind, Moves-transaction,
}
use ai_social_publisher.Store.{find_variant, variant_fits, update_variant, always, variant_of_job}
use ai_social_publisher.Table.{find_by}
use ai_social_publisher.Post.Advances.{job_id, Advances}
use ai_social_publisher.Post.Jobs.{select_job}
use ai_social_publisher.Post.Review.{
  select_variant, reselect_variant, update_variant_caption, unselect, unselect_all,
  without_variants, delete_variants, insert_variant, insert_variants, replace_variants,
  list_variants, get_variant_by_id, set_variant_image_url, set_variant_image_url_for_caption,
}
use ai_social_publisher.Post.Progress.{
  Progress, Progress-IsAtomic, r, touch, touch_then, done, one_row, weaken, elsewhere,
  elsewhere_insert, transition-Progress,
}

pub select_variant-Progress : (id v : ℕ) → Moves Any Progress (select_variant id v)
unfolding select_variant
select_variant-Progress id v =
    transition-Progress id _ _ λ now.
      touch_then id (λ db j. variant_of_job v id db) _ (λ j. (refl, refl)) _ (λ n. one_row n _)

pub reselect_variant-Progress : (id v : ℕ) → Moves Any Progress (reselect_variant id v)
unfolding reselect_variant
reselect_variant-Progress id v = Moves-transaction Progress-IsAtomic {P = Any} _ λ now.
    Moves-query-bind r {P = Any} (select_job id) _ λ j.
      Moves-if r (j.status is ready_to_publish) _ _
        (λ _. weaken (
          touch_then id (λ db i. variant_of_job v id db) _ (λ i. (refl, refl)) _
            (λ n. one_row n _)))
        (λ _. Moves-raise r _)

update_variant-jobs :
    (id : ℕ) (test : Variant → Bool) (f : Variant → Variant) (db db' : Db) (n : ℕ)
    → update_variant id test f db ≡ ok (n, db')
    → db'.jobs ≡ db.jobs
unfolding update_variant
update_variant-jobs id test f db db' n e = elim (Option-cases (find_variant id db)) [
  | inl p ↦ ground arith
  | inr (v, p) ↦ elim (Bool-cases (test v)) [
    | inr t ↦ ground arith
    | inl t ↦ elim (Bool-cases (variant_fits (f v))) [ inl b ↦ ground arith | inr b ↦ ground arith ]
  ]
]

touch_variant :
    {P : Db → Type 0} (id : ℕ) (test : Variant → Bool) (f : Variant → Variant)
    → Moves P Progress (exec (update_variant id test f))
touch_variant id test f =
    elsewhere (update_variant id test f) λ db db' n e. update_variant-jobs id test f db db' n e

pub update_variant_caption-Progress :
    (id v : ℕ) (caption : String) → Moves Any Progress (update_variant_caption id v caption)
unfolding update_variant_caption
update_variant_caption-Progress id v caption =
    Moves-transaction Progress-IsAtomic {P = Any} _ λ now.
      Moves-query-bind r {P = Any} (select_job id) _ λ j.
        Moves-if r (j.status is waiting_variant_approval || j.status is ready_to_publish) _ _
          (λ _.
            Moves-bind r _ _ (touch_variant v _ _)
              (λ n. Moves-if r (n == 1) _ _ (λ _. Moves-pure r _) (λ _. Moves-raise r _)))
          (λ _. Moves-raise r _)

pub set_variant_image_url-Progress :
    (v : ℕ) (url : String) → Moves Any Progress (set_variant_image_url v url)
unfolding set_variant_image_url
set_variant_image_url-Progress v url = Moves-bind r _ _ (touch_variant v _ _) done

pub set_variant_image_url_for_caption-Progress :
    (v : ℕ) (caption url : String)
    → Moves Any Progress (set_variant_image_url_for_caption v caption url)
unfolding set_variant_image_url_for_caption
set_variant_image_url_for_caption-Progress v caption url =
    Moves-bind r _ _ (touch_variant v _ _) (λ n. Moves-pure r _)

unselect-id : (db : Db) (j : Job) → (unselect db j).id ≡ j.id
unselect-id db j = ground arith

pub find_job-unselect_all :
    (db : Db) (id : ℕ) (js : List Job) (j : Job)
    → find_by job_id id js ≡ some j
    → find_by job_id id (unselect_all db js) ≡ some (unselect db j)
unfolding find_by unselect_all
find_job-unselect_all db id [] j h = ground arith
find_job-unselect_all db id (i ∷ js) j h =
    ground (arith, unselect-id db i, find_job-unselect_all db id js j)

unselect-status : (db : Db) (j : Job) → (unselect db j).status ≡ j.status
unselect-status db j = ground arith

delete_variants-Advances :
    (id : ℕ) (db db' : Db) (a : Unit {0}) → delete_variants id db ≡ ok (a, db') → Advances db db'
unfolding delete_variants
delete_variants-Advances id db db' a e =
    let kept : Db = without_variants id db in
    let e' : db' ≡ record kept { jobs = unselect_all kept db.jobs } = ground arith in
    subst (Advances db) (sym e') (record {
      job = λ i j found. (
        unselect kept j,
        find_job-unselect_all kept i db.jobs j found,
        subst (λ u. j.status ⟶* u) (sym (unselect-status kept j)) here,
      );
    })

insert_variant-jobs :
    (id : ℕ) (v : Variant) (now row other : ℕ) (db db' : Db) (a : Variant)
    → insert_variant id v now row other db ≡ ok (a, db')
    → db'.jobs ≡ db.jobs
unfolding insert_variant
insert_variant-jobs id v now row other db db' a e = ground arith

insert_variants-Progress :
    (now id : ℕ) (vs : List Variant) → Moves Any Progress (insert_variants now id vs)
unfolding insert_variants
insert_variants-Progress now id [] = Moves-pure r []
insert_variants-Progress now id (v ∷ vs) =
    Moves-bind r _ _
      (elsewhere_insert (insert_variant id v now)
        λ row other db db' a e. insert_variant-jobs id v now row other db db' a e)
      λ a. Moves-bind r _ _ (insert_variants-Progress now id vs) (λ rows. Moves-pure r _)

pub replace_variants-Progress :
    (id : ℕ) (vs : List Variant) → Moves Any Progress (replace_variants id vs)
unfolding replace_variants
replace_variants-Progress id vs = Moves-transaction Progress-IsAtomic {P = Any} _ λ now.
    Moves-bind r _ _ (touch id (λ _. always) _ (λ j. (refl, refl))) λ n.
      Moves-bind r _ _
        (Moves-exec r (delete_variants id) λ s a db p e. record {
          advances = delete_variants-Advances id s.db db a e;
          published = refl;
        })
        (λ _. insert_variants-Progress now id vs)

pub list_variants-Progress : (id : ℕ) → Moves Any Progress (list_variants id)
unfolding list_variants
list_variants-Progress id = Moves-query r _

pub get_variant_by_id-Progress : (id : ℕ) → Moves Any Progress (get_variant_by_id id)
unfolding get_variant_by_id
get_variant_by_id-Progress id = Moves-query r _
