-- ===== src/Post/Progress/Jobs.antt =====
-- The status changes of internal/post/post.go move jobs along the graph, on every path.
use ai_social_publisher.Common.{
  ℕ, String, ◌≡◌, refl, subst, true, Option, none, some, [], ◌∷◌, ◌++◌, ◌⊎◌, is_some, arith,
  Bool-cases, leb, ◌+◌, inl, inr,
}
use ai_social_publisher.Status.{Status, ◌is◌, can_transition, waiting_ai, failed}
use ai_social_publisher.Status.Graph.{◌⟶*◌, here, next}
use ai_social_publisher.Rows.{Job, Db}
use ai_social_publisher.Exec.{ok}
use ai_social_publisher.Exec.Rules.{
  Any, Moves, Moves-pure, Moves-raise, Moves-if, Moves-exec_now, Moves-exec_insert, Moves-query,
  Moves-bind, Moves-query-bind, Moves-ask-bind, Moves-transaction,
}
use ai_social_publisher.Store.{always}
use ai_social_publisher.Post.Advances.{
  Advances, Advances-same_jobs, Advances-append, Advances-trans,
}
use ai_social_publisher.Post.Jobs.{
  select_job, get_by_id, get_or_create, created_or_existing, insert_job, parents_exist, find_pair,
  new_job, list_by_status, list_recent_by_status, list_stale_processing, with_status, update_status,
  claim_status, ScoreUpdate, apply_scored, complete_ai_stage, parked, park_for_ai_retry,
  queue_variants, mark_published, mark_failed, max_retries,
}
use ai_social_publisher.Post.Progress.{
  Progress, Progress-IsAtomic, Progress-refl, r, update, update_now, Read-is, guarded, touch_then,
  done, transition-Progress,
}

-- A job that may wait for the AI may also fail.
waiting_ai-failed :
    (s : Status) → can_transition s waiting_ai ≡ true → can_transition s failed ≡ true
unfolding can_transition
waiting_ai-failed s h = ground arith

parked-⟶* :
    (e : String) (now time : ℕ) (j : Job)
    → can_transition j.status waiting_ai ≡ true
    → j.status ⟶* (parked e now time j).status
unfolding parked
parked-⟶* e now time j allowed = elim (Bool-cases (leb max_retries (j.ai_retry_count + 1))) [
  | inl b ↦ rw b (next here (waiting_ai-failed j.status allowed))
  | inr b ↦ rw b (next here allowed)
]

parked-id : (e : String) (now time : ℕ) (j : Job) → (parked e now time j).id ≡ j.id
unfolding parked
parked-id e now time j = ground arith

pub update_status-Progress : (id : ℕ) (to : Status) → Moves Any Progress (update_status id to)
unfolding update_status
update_status-Progress id to = Moves-transaction Progress-IsAtomic {P = Any} _ λ now.
    Moves-query-bind r {P = Any} (select_job id) _ λ j.
      Moves-if r (can_transition j.status to) _ _
        (λ allowed.
          Moves-bind r _ _ (guarded id j to (with_status to now) allowed (λ i. (refl, refl)))
            (λ _. Moves-pure r tt))
        (λ _. Moves-raise r _)

pub claim_status-Progress :
    (id : ℕ) (from to : Status) → Moves Any Progress (claim_status id from to)
unfolding claim_status
claim_status-Progress id from to =
    Moves-if r (can_transition from to) _ _
      (λ allowed.
        Moves-bind r _ _
          (update_now id (λ _ j. j.status is from) (with_status to)
            λ now db j t. (refl, next here (ground (arith))))
          (λ n. Moves-pure r _))
      (λ _. Moves-raise r _)

pub apply_scored-Progress : (id : ℕ) (u : ScoreUpdate) → Moves Any Progress (apply_scored id u)
unfolding apply_scored
apply_scored-Progress id u =
    transition-Progress id u.status _
      (λ now. touch_then id (λ _. always) _ (λ j. (refl, refl)) _ done)

pub complete_ai_stage-Progress :
    (id : ℕ) (to : Status) → Moves Any Progress (complete_ai_stage id to)
unfolding complete_ai_stage
complete_ai_stage-Progress id to =
    transition-Progress id to _ (λ now. touch_then id (λ _. always) _ (λ j. (refl, refl)) _ done)

pub queue_variants-Progress : (id count : ℕ) → Moves Any Progress (queue_variants id count)
unfolding queue_variants
queue_variants-Progress id count =
    transition-Progress id _ _ (λ now. touch_then id (λ _. always) _ (λ j. (refl, refl)) _ done)

pub mark_published-Progress : (id : ℕ) (m : String) → Moves Any Progress (mark_published id m)
unfolding mark_published
mark_published-Progress id m =
    transition-Progress id _ _ (λ now. touch_then id (λ _. always) _ (λ j. (refl, refl)) _ done)

pub mark_failed-Progress : (id : ℕ) (m : String) → Moves Any Progress (mark_failed id m)
unfolding mark_failed
mark_failed-Progress id m =
    transition-Progress id _ _ (λ now. touch_then id (λ _. always) _ (λ j. (refl, refl)) _ done)

pub park_for_ai_retry-Progress : (id : ℕ) (e : String) → Moves Any Progress (park_for_ai_retry id e)
unfolding park_for_ai_retry
park_for_ai_retry-Progress id e = Moves-transaction Progress-IsAtomic {P = Any} _ λ now.
    Moves-query-bind r {P = Any} (select_job id) _ λ j.
      Moves-if r (can_transition j.status waiting_ai) _ _
        (λ allowed. Moves-ask-bind r _ _ λ time.
          Moves-bind r _ _
            (update id (λ _. always) (parked e now time)
              λ db i p found t.
                let same : j ≡ i = Read-is id db j i p found in
                (
                  parked-id e now time i,
                  parked-⟶* e now time i
                      (subst (λ (x : Job). can_transition x.status waiting_ai ≡ true) same allowed),
                ))
            done)
        (λ _. Moves-raise r _)

pub get_by_id-Progress : (id : ℕ) → Moves Any Progress (get_by_id id)
unfolding get_by_id
get_by_id-Progress id = Moves-query r _

insert_job-jobs :
    (cid aid id now : ℕ) (db db' : Db) (o : Option Job)
    → insert_job cid aid id now db ≡ ok (o, db')
    → (db'.jobs ≡ db.jobs) ⊎ ((j : Job) × (db'.jobs ≡ db.jobs ++ j ∷ []))
unfolding insert_job
insert_job-jobs cid aid id now db db' o e =
    elim (Bool-cases (is_some (find_pair cid aid db.jobs))) [
      | inl taken ↦ inl (ground arith)
      | inr free ↦ elim (Bool-cases (parents_exist cid aid db)) [
        | inl p ↦ inr (new_job id now cid aid, ground arith)
        | inr p ↦ absurd (ground arith)
      ]
    ]

insert_job-Advances :
    (cid aid id now : ℕ) (db db' : Db) (o : Option Job)
    → insert_job cid aid id now db ≡ ok (o, db')
    → Advances db db'
insert_job-Advances cid aid id now db db' o e = elim (insert_job-jobs cid aid id now db db' o e) [
  | inl kept ↦ Advances-same_jobs db db' kept
  | inr (j, grown) ↦
      Advances-trans db (record db { jobs = db.jobs ++ j ∷ [] }) db' (Advances-append db (j ∷ []))
        (Advances-same_jobs _ db' grown)
]

created-Progress :
    (cid aid : ℕ) (o : Option Job) → Moves Any Progress (created_or_existing cid aid o)
unfolding created_or_existing
created-Progress cid aid none = Moves-bind r _ _ (Moves-query r _) (λ j. Moves-pure r _)
created-Progress cid aid (some j) = Moves-pure r _

pub get_or_create-Progress : (cid aid : ℕ) → Moves Any Progress (get_or_create cid aid)
unfolding get_or_create
get_or_create-Progress cid aid =
    Moves-bind r _ _
      (Moves-exec_insert r (insert_job cid aid) λ id now s o db p e. record {
        advances = insert_job-Advances cid aid id now s.db db o e;
        published = refl;
      })
      λ o. created-Progress cid aid o

pub list_by_status-Progress :
    (status : Status) (limit : ℕ) → Moves Any Progress (list_by_status status limit)
unfolding list_by_status
list_by_status-Progress status limit =
    Moves-exec_now r _ λ now s a db p e. Progress-refl s _ (ground arith) refl

pub list_recent_by_status-Progress :
    (status : Status) (since limit : ℕ)
    → Moves Any Progress (list_recent_by_status status since limit)
unfolding list_recent_by_status
list_recent_by_status-Progress status since limit = Moves-query r _

pub list_stale_processing-Progress :
    (cutoff limit : ℕ) → Moves Any Progress (list_stale_processing cutoff limit)
unfolding list_stale_processing
list_stale_processing-Progress cutoff limit = Moves-query r _
