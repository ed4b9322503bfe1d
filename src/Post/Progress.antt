-- ===== src/Post/Progress.antt =====
-- The relation between the states before and after an action of the repository: jobs move along the
-- graph of statuses, and nothing is published; and its rules for the statements on jobs.
pub mod Jobs
pub mod Review
pub mod Schedule
use ai_social_publisher.Common.{
  ℕ, String, ◌≡◌, refl, sym, ap, subst, ◌∙◌, Bool, true, false, ◌&&◌, Option, none, some, List, [],
  ◌∷◌, arith, if◌then◌else◌, Option-cases, Bool-cases, leb, ◌==◌, ◌+◌, inl, inr,
}
use ai_social_publisher.Status.{
  Status, Status-discrete, ◌is◌, can_transition, waiting_ai, ready_to_publish, scheduled, approved,
  failed,
}
use ai_social_publisher.Status.Graph.{◌⟶*◌, here, next}
use ai_social_publisher.Rows.{Job, Variant, PublishLog, Db}
use ai_social_publisher.Errors.{Error}
use ai_social_publisher.Exec.{
  State, Result, ok, err, M, pure, raise, time_now, ◌>>=◌, ◌>>◌, exec, exec_now, exec_insert, query,
  transaction,
}
use ai_social_publisher.Exec.Rules.{
  Any, Moves, IsStable, IsAtomic, Moves-pure, Moves-raise, Moves-if, Moves-exec, Moves-exec_now,
  Moves-exec_insert, Moves-query, Moves-bind, Moves-query-bind, Moves-ask-bind, Moves-transaction,
  Moves-mono,
}
use ai_social_publisher.Store.{
  find_job, find_variant, variant_fits, write_variant, put_job, update_job, update_variant,
  or_missing, always, variant_of_job,
}
use ai_social_publisher.Table.{find_by}
use ai_social_publisher.Post.Advances.{
  job_id, Advances, Advances-same_jobs, Advances-append, Advances-trans, Advances-update_job,
}
use ai_social_publisher.Post.Jobs.{
  select_job, get_by_id, get_or_create, created_or_existing, insert_job, new_job, list_by_status,
  list_recent_by_status, list_stale_processing, with_status, transition, update_status,
  claim_status, ScoreUpdate, apply_scored, complete_ai_stage, parked, park_for_ai_retry,
  queue_variants, mark_published, mark_failed, refused, max_retries,
}
use ai_social_publisher.Post.Review.{
  select_update, select_variant, reselect_variant, update_variant_caption, unselect, unselect_all,
  delete_variants, insert_variant, insert_variants, replace_variants, list_variants,
  get_variant_by_id, set_variant_image_url, set_variant_image_url_for_caption,
}
use ai_social_publisher.Post.Schedule.{
  schedule, reschedule, cancel_schedule, claim_scheduled_due, list_due_scheduled,
}
use ai_social_publisher.Post.Logs.{insert_publish_log, successful_publish_media_id}

pub record Progress (s t : State) : Type 0 where
  pub advances : Advances s.db t.db
  pub published : t.published ≡ s.published

pub Progress-refl : (s t : State) → t.db ≡ s.db → t.published ≡ s.published → Progress s t
Progress-refl s t e p = record {
  advances = Advances-same_jobs s.db t.db (ap (λ (db : Db). db.jobs) e);
  published = p;
}

pub Progress-IsStable : IsStable Progress
Progress-IsStable = record {
  refl_ticks = λ s n k. Progress-refl s _ refl refl;
  trans = λ s t u p q. record {
    advances = Advances-trans s.db t.db u.db p.advances q.advances;
    published = q.published ∙ p.published;
  };
}

pub Progress-IsAtomic : IsAtomic Progress
Progress-IsAtomic = record {
  stable = Progress-IsStable;
  rolls_back = λ s t p. Progress-refl s _ refl p.published;
}

abbrev pub r : IsStable Progress
r = Progress-IsStable

module _ {P : Db → Type 0} (id : ℕ) (test : Db → Job → Bool) where
  -- A statement that moves the row along the graph.
  pub update :
      (f : Job → Job)
      → ((db : Db) (j : Job)
          → P db
          → find_job id db ≡ some j
          → test db j ≡ true
          → ((f j).id ≡ j.id) × (j.status ⟶* (f j).status))
      → Moves P Progress (exec (λ db. update_job id (test db) f db))
  update f k =
      Moves-exec r (λ db. update_job id (test db) f db)
        λ s n db p e. record {
          advances =
              Advances-update_job id (test s.db) f s.db db n (λ j found t. k s.db j p found t) e;
          published = refl;
        }

  -- The same outside a transaction.
  pub update_now :
      (g : ℕ → Job → Job)
      → ((now : ℕ) (db : Db) (j : Job)
          → test db j ≡ true
          → ((g now j).id ≡ j.id) × (j.status ⟶* (g now j).status))
      → Moves P Progress (exec_now (λ now db. update_job id (test db) (g now) db))
  update_now g k =
      Moves-exec_now r (λ now db. update_job id (test db) (g now) db)
        λ now s n db p e. record {
          advances =
              Advances-update_job id (test s.db) (g now) s.db db n (λ j found t. k now s.db j t) e;
          published = refl;
        }

pub select_job-found :
    (id : ℕ) (db : Db) (j : Job) → select_job id db ≡ ok j → find_job id db ≡ some j
select_job-found id db j e = elim (Option-cases (find_job id db)) [
  | inl p ↦ absurd (ground arith)
  | inr (i, p) ↦ ground arith
]

-- What a transaction knows after it has read the row.
abbrev pub Read : ℕ → Job → Db → Type 0
Read id j db = Unit {0} × (select_job id db ≡ ok j)

pub Read-is : (id : ℕ) (db : Db) (j i : Job) → Read id j db → find_job id db ≡ some i → j ≡ i
Read-is id db j i p found = ground (arith, select_job-found id db j p.1)

-- The status change of a transaction that has read a status from which it is allowed.
pub guarded :
    (id : ℕ) (j : Job) (to : Status) (f : Job → Job)
    → can_transition j.status to ≡ true
    → ((i : Job) → ((f i).id ≡ i.id) × ((f i).status ≡ to))
    → Moves (Read id j) Progress (exec (update_job id always f))
guarded id j to f allowed same =
    update id (λ _. always) f
      λ db i p found t.
        let e : j ≡ i = Read-is id db j i p found in
        (
          (same i).0,
          subst (λ u. i.status ⟶* u) (sym (same i).1)
              (next here (subst (λ (x : Job). can_transition x.status to ≡ true) e allowed)),
        )

pub transition-Progress :
    (id : ℕ) (to : Status) (extra : ℕ → M (Unit {0}))
    → ((now : ℕ) → Moves Any Progress (extra now))
    → Moves Any Progress (transition id to extra)
unfolding transition
transition-Progress id to extra k = Moves-transaction Progress-IsAtomic {P = Any} _ λ now.
    Moves-query-bind r {P = Any} (select_job id) _ λ j.
      Moves-if r (can_transition j.status to) _ _
        (λ allowed.
          Moves-bind r _ _ (guarded id j to (with_status to now) allowed (λ i. (refl, refl)))
            (λ _. k now))
        (λ _. Moves-raise r _)

-- An extra statement that leaves the statuses alone.
pub touch :
    (id : ℕ) (test : Db → Job → Bool) (f : Job → Job)
    → ((j : Job) → ((f j).id ≡ j.id) × ((f j).status ≡ j.status))
    → Moves Any Progress (exec (λ db. update_job id (test db) f db))
touch id test f same =
    update id test f
      λ db j p found t. ((same j).0, subst (λ u. j.status ⟶* u) (sym (same j).1) here)

pub touch_then :
    (id : ℕ) (test : Db → Job → Bool) (f : Job → Job)
    → ((j : Job) → ((f j).id ≡ j.id) × ((f j).status ≡ j.status))
    → (k : ℕ → M (Unit {0})) → ((n : ℕ) → Moves Any Progress (k n))
    → Moves Any Progress (exec (λ db. update_job id (test db) f db) >>= k)
touch_then id test f same k kk = Moves-bind r _ k (touch id test f same) kk

pub done : (n : ℕ) → Moves Any Progress (pure {A = Unit {0}} tt)
done n = Moves-pure r tt

-- The statement must have affected one row.
pub one_row :
    (n : ℕ) (e : Error) → Moves {A = Unit {0}} Any Progress (if n == 1 then pure tt else raise e)
one_row n e = Moves-if r (n == 1) _ _ (λ _. done n) (λ _. Moves-raise r e)

pub weaken {ℓ} :
    {A : Type ℓ} {P : Db → Type 0} {m : M A} → Moves Any Progress m → Moves P Progress m
weaken {P} = Moves-mono {Q = Any} (λ db h. tt) (λ s t p. p)

-- A statement on other tables.
pub elsewhere :
    {A : Type 0} {P : Db → Type 0} (f : Db → Result (A × Db))
    → ((db db' : Db) (a : A) → f db ≡ ok (a, db') → db'.jobs ≡ db.jobs)
    → Moves P Progress (exec f)
elsewhere f k =
    Moves-exec r f λ s a db p e. record {
      advances = Advances-same_jobs s.db db (k s.db db a e);
      published = refl;
    }

pub elsewhere_insert :
    {A : Type 0} {P : Db → Type 0} (f : ℕ → ℕ → Db → Result (A × Db))
    → ((id now : ℕ) (db db' : Db) (a : A) → f id now db ≡ ok (a, db') → db'.jobs ≡ db.jobs)
    → Moves P Progress (exec_insert f)
elsewhere_insert f k = Moves-exec_insert r f λ id now s a db p e. record {
  advances = Advances-same_jobs s.db db (k id now s.db db a e);
  published = refl;
}
