-- ===== src/Post/Advances.antt =====
-- How jobs move: along the graph of statuses, whatever else the statements write.
use ai_social_publisher.Common.{
  ℕ, ◌≡◌, refl, sym, ◌∙◌, ap, subst, Bool, true, some, List, ◌++◌, arith, ◌==◌, ==_iff, Bool-cases,
  Option-cases, inl, inr,
}
use ai_social_publisher.Status.Graph.{◌⟶*◌, here, ⟶*_trans}
use ai_social_publisher.Rows.{Job, Db}
use ai_social_publisher.Exec.{ok}
use ai_social_publisher.Table.{
  find_by, find_by-key, find_by-put_by_self, find_by-put_by_ne, find_by-append,
}
use ai_social_publisher.Store.{find_job, put_job, update_job, job_fits}

abbrev pub job_id : Job → ℕ
job_id j = j.id

-- Every job is still there, in a status that the graph leads to.
pub record Advances (a b : Db) : Type 0 where
  pub job :
      (id : ℕ) (j : Job)
      → find_job id a ≡ some j
      → (j' : Job) × (find_job id b ≡ some j') × (j.status ⟶* j'.status)

pub Advances-same_jobs : (a b : Db) → b.jobs ≡ a.jobs → Advances a b
Advances-same_jobs a b e = record { job = λ id j h. (j, ap (λ l. find_by job_id id l) e ∙ h, here) }

pub Advances-trans : (a b c : Db) → Advances a b → Advances b c → Advances a c
Advances-trans a b c p q = record {
  job = λ id j h.
      let (j', h', w) = p.job id j h in
      let (j'', h'', w') = q.job id j' h' in (j'', h'', ⟶*_trans w w');
}

pub Advances-append : (db : Db) (js : List Job) → Advances db (record db { jobs = db.jobs ++ js })
Advances-append db js = record {
  job = λ id j h. (j, find_by-append job_id id db.jobs js j h, here);
}

-- The row that was written is read back.
pub find_job-put_job :
    (id : ℕ) (db : Db) (i j : Job)
    → find_job id db ≡ some i
    → j.id ≡ id
    → find_job id (put_job j db) ≡ some j
find_job-put_job id db i j found e =
    subst (λ n. find_job n (put_job j db) ≡ some j) e
      (find_by-put_by_self job_id j i db.jobs (subst (λ n. find_job n db ≡ some i) (sym e) found))

Advances-put_job :
    (db : Db) (i j : Job)
    → find_job j.id db ≡ some i
    → i.status ⟶* j.status
    → Advances db (put_job j db)
Advances-put_job db i j found w = record {
  job = λ id k h. elim (Bool-cases (j.id == id)) [
    | inl same ↦
        let e : j.id ≡ id = (==_iff j.id id).0 same in
        let e' : i ≡ k = ground (arith, found, h, e) in
        (
          j,
          find_job-put_job id db i j (subst (λ n. find_job n db ≡ some i) e found) e,
          subst (λ (x : Job). x.status ⟶* j.status) e' w,
        )
    | inr other ↦ (k, find_by-put_by_ne job_id j id db.jobs other ∙ h, here)
  ];
}

-- What an update has done, that affected no row or one.
pub data Updated (id : ℕ) (test : Job → Bool) (f : Job → Job) (db db' : Db) (n : ℕ) : Type 0 where
  none_fits : n ≡ 0 → db' ≡ db → Updated id test f db db' n
  one_fits :
      (j : Job)
      → find_job id db ≡ some j
      → test j ≡ true
      → job_fits db (f j) ≡ true
      → n ≡ 1
      → db' ≡ put_job (f j) db
      → Updated id test f db db' n

pub update_job-Updated :
    (id : ℕ) (test : Job → Bool) (f : Job → Job) (db db' : Db) (n : ℕ)
    → update_job id test f db ≡ ok (n, db')
    → Updated id test f db db' n
unfolding update_job
update_job-Updated id test f db db' n h = elim (Option-cases (find_job id db)) [
  | inl e ↦ none_fits (ground arith) (ground arith)
  | inr (j, e) ↦ elim (Bool-cases (test j)) [
    | inr t ↦ none_fits (ground arith) (ground arith)
    | inl t ↦ elim (Bool-cases (job_fits db (f j))) [
      | inr b ↦ absurd (ground arith)
      | inl b ↦ one_fits j e t b (ground arith) (ground arith)
    ]
  ]
]

-- An update that moves the row along the graph.
pub Advances-update_job :
    (id : ℕ) (test : Job → Bool) (f : Job → Job) (db db' : Db) (n : ℕ)
    → ((j : Job)
        → find_job id db ≡ some j
        → test j ≡ true
        → ((f j).id ≡ j.id) × (j.status ⟶* (f j).status))
    → update_job id test f db ≡ ok (n, db')
    → Advances db db'
Advances-update_job id test f db db' n step h = go (update_job-Updated id test f db db' n h)
  where
    go : Updated id test f db db' n → Advances db db'
    go (none_fits _ e) = subst (Advances db) (sym e) (Advances-same_jobs db db refl)
    go (one_fits j found t _ _ e) =
        let (same, w) = step j found t in
        let key : (f j).id ≡ id = same ∙ find_by-key job_id id db.jobs j found in
        subst (Advances db) (sym e)
          (Advances-put_job db j (f j) (subst (λ k. find_job k db ≡ some j) (sym key) found) w)
