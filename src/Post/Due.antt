-- ===== src/Post/Due.antt =====
-- internal/post/post.go: the list that the workers take their jobs from.
use ai_social_publisher.Common.{
  ℕ, ◌≤◌, ◌≡◌, refl, subst, Bool, true, ◌&&◌, List, arith, leb, All, All-filter, All-sort_by,
  All-take, length, length-take, filter, sort_by, take,
}
use ai_social_publisher.Status.{Status, ◌is◌}
use ai_social_publisher.Rows.{Job, Db}
use ai_social_publisher.Exec.{Env, State, Result, ok, exec_now}
use ai_social_publisher.Exec.Atomic.{Ensures-exec}
use ai_social_publisher.Post.Jobs.{clamp_limit, due_by_status, list_by_status}

listed : List Job → Db → Result (List Job × Db)
listed xs db = ok (xs, db)

pair_inj : (xs ys : List Job) (a b : Db) → listed xs a ≡ ok (ys, b) → xs ≡ ys
unfolding listed
pair_inj xs ys a b h = ground arith

clamp_limit_le : (limit : ℕ) → clamp_limit limit ≤ 200
clamp_limit_le limit = ground arith

-- What `ListByStatus` returns: at most 200 jobs, each in the status asked for and with its
-- next retry due by the time at which the statement reads the clock.
pub list_by_status-due :
    (status : Status) (limit : ℕ) (env : Env) (s : State) (jobs : List Job)
    → (list_by_status status limit env s).0 ≡ ok jobs
    → (length jobs ≤ 200)
      × All
          (λ (j : Job). (j.status is status ≡ true) × (j.next_ai_retry_at ≤ env.clock s.calls))
          jobs
unfolding list_by_status due_by_status exec_now listed
list_by_status-due status limit env s jobs h =
    (Ensures-exec {P = λ d. d ≡ s.db} {Q = λ l b. Due l}
        (λ db. ok (due_by_status status (clamp_limit limit) now db.jobs, db))
        λ db b l p e.
          let same : take (clamp_limit limit) (rows db.jobs) ≡ l = pair_inj _ l db b e in
          subst Due same (
            omega (arith, length-take (clamp_limit limit) (rows db.jobs), clamp_limit_le limit),
            All-take Good (clamp_limit limit) _ (
                All-sort_by Good (λ (j : Job). j.updated_at) _
                  (All-filter Good fits db.jobs (λ j t. (ground (arith, t), ground (arith, t))))),
          )).at
      env s refl jobs h
  where
    now : ℕ
    now = env.clock s.calls

    fits : Job → Bool
    fits j = j.status is status && leb j.next_ai_retry_at now

    rows : List Job → List Job
    rows js = sort_by (λ (j : Job). j.updated_at) (filter fits js)

    Good : Job → Type 0
    Good j = (j.status is status ≡ true) × (j.next_ai_retry_at ≤ now)

    Due : List Job → Type 0
    Due l = (length l ≤ 200) × All Good l
