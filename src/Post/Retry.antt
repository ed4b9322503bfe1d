-- ===== src/Post/Retry.antt =====
-- internal/post/post.go, `ParkForAIRetry`, and the lists that the workers take their jobs from.
use ai_social_publisher.Common.{
  ℕ, zero, suc, ◌+◌, ◌*◌, ◌^◌, ◌-◌, min, ◌≤◌, ◌<◌, ◌≡◌, refl, subst, true, some, arith, leb,
  Bool-cases, ◌⊎◌, inl, inr, String,
}
use ai_social_publisher.Status.{can_transition, waiting_ai, failed}
use ai_social_publisher.Rows.{Job, Db}
use ai_social_publisher.Exec.{Env, State, ok, pure, exec, ◌>>=◌}
use ai_social_publisher.Exec.Atomic.{
  Ensures, Ensures-pure, Ensures-raise, Ensures-exec, Ensures-query, Ensures-bind,
}
use ai_social_publisher.Exec.Clock.{
  Ensures-in, EnsuresIn-time_now, EnsuresIn-if, EnsuresIn-transaction, EnsuresIn-bind,
}
use ai_social_publisher.Store.{find_job, put_job, update_job, always}
use ai_social_publisher.Post.Guards.{update_job-found}
use ai_social_publisher.Post.Progress.{select_job-found}
use ai_social_publisher.Post.Jobs.{
  minute, max_retries, retry_delay, parked, park_for_ai_retry, select_job,
}

pow_small : (n : ℕ) → (1 ≤ 2 ^ min n 4) × (2 ^ min n 4 ≤ 16)
pow_small zero = (ground arith, ground arith)
pow_small (suc zero) = (ground arith, ground arith)
pow_small (suc (suc zero)) = (ground arith, ground arith)
pow_small (suc (suc (suc zero))) = (ground arith, ground arith)
pow_small (suc (suc (suc (suc n)))) = (ground arith, ground arith)

-- The wait before a retry is between one minute and sixteen.
pub retry_delay_bounds : (n : ℕ) → (minute ≤ retry_delay n) × (retry_delay n ≤ 16 * minute)
unfolding retry_delay
retry_delay_bounds n =
    let (low, high) = pow_small (n - 1) in (omega (arith, low), omega (arith, high))

-- The retry count goes up by one; below the limit the job waits for AI between one minute and
-- sixteen from the given time, and at the limit it has failed for good.
parked_outcome :
    (ai_error : String) (now time : ℕ) (j : Job)
    → ((parked ai_error now time j).ai_retry_count ≡ j.ai_retry_count + 1)
      × (((parked ai_error now time j).status ≡ failed) × (max_retries ≤ j.ai_retry_count + 1)
          ⊎ ((parked ai_error now time j).status ≡ waiting_ai)
            × (j.ai_retry_count + 1 < max_retries)
            × (time + minute ≤ (parked ai_error now time j).next_ai_retry_at)
            × ((parked ai_error now time j).next_ai_retry_at ≤ time + 16 * minute))
unfolding parked
parked_outcome ai_error now time j = elim (Bool-cases (leb max_retries (j.ai_retry_count + 1))) [
  | inl last ↦ rw last (refl, inl (refl, ground arith))
  | inr more ↦
      let (low, high) = retry_delay_bounds (j.ai_retry_count + 1) in
      rw more (refl, inr (refl, ground arith, omega (arith, low), omega (arith, high)))
]

-- When `ParkForAIRetry` returns no error, the job was being processed by AI (`CanTransition` allows
-- WAITING_AI), its retry count has gone up by one, and it either waits for AI with fewer than eight
-- retries and a next retry one to sixteen minutes after a reading of the environment's clock, or has
-- failed with eight or more; nothing else in the tables has changed than this row.
pub park_for_ai_retry-outcome :
    (id : ℕ) (ai_error : String) (env : Env) (s : State)
    → (park_for_ai_retry id ai_error env s).0 ≡ ok tt
    → (j j' : Job) × (n : ℕ) × (find_job id s.db ≡ some j)
      × (can_transition j.status waiting_ai ≡ true)
      × ((park_for_ai_retry id ai_error env s).1.db ≡ put_job j' s.db)
      × (j'.ai_retry_count ≡ j.ai_retry_count + 1)
      × ((j'.status ≡ failed) × (max_retries ≤ j.ai_retry_count + 1)
          ⊎ (j'.status ≡ waiting_ai)
            × (j.ai_retry_count + 1 < max_retries)
            × (env.clock n + minute ≤ j'.next_ai_retry_at)
            × (j'.next_ai_retry_at ≤ env.clock n + 16 * minute))
unfolding park_for_ai_retry
park_for_ai_retry-outcome id ai_error env s h =
    let (j, now, n, found, allowed, wrote) =
      (EnsuresIn-transaction env {P = λ d. d ≡ s.db} {Q = Q} _ λ now.
          EnsuresIn-bind env (λ j d. (d ≡ s.db) × (find_job id s.db ≡ some j)) _ _
            (Ensures-in env (
              Ensures-query (select_job id) λ db j p e.
                (p, subst (λ d. find_job id d ≡ some j) p (select_job-found id db j e))))
            λ j.
              EnsuresIn-if env (can_transition j.status waiting_ai) _ _
                (λ allowed.
                  EnsuresIn-bind env
                    (λ time d.
                      (n : ℕ) × (time ≡ env.clock n) × (d ≡ s.db) × (find_job id s.db ≡ some j))
                    _ _ (EnsuresIn-time_now env (λ n db p. (n, refl, p.0, p.1)))
                    λ time. Ensures-in env (parks now j allowed time))
                (λ _. Ensures-in env (Ensures-raise _))).at
        s refl tt h in
    let (count, outcome) = parked_outcome ai_error now (env.clock n) j in
    (j, parked ai_error now (env.clock n) j, n, found, allowed, wrote, count, outcome)
  where
    Q : Unit {0} → Db → Type 0
    Q u b =
        (j : Job) × (now n : ℕ) × (find_job id s.db ≡ some j)
        × (can_transition j.status waiting_ai ≡ true)
        × (b ≡ put_job (parked ai_error now (env.clock n) j) s.db)

    Read : Job → ℕ → Db → Type 0
    Read j time d = (n : ℕ) × (time ≡ env.clock n) × (d ≡ s.db) × (find_job id s.db ≡ some j)

    parks :
        (now : ℕ) (j : Job)
        → can_transition j.status waiting_ai ≡ true
        → (time : ℕ)
        → Ensures
            (Read j time)
            (exec (update_job id always (parked ai_error now time)) >>= λ n. pure tt)
            Q
    parks now j allowed time =
        Ensures-bind (λ n d. Q tt d) _ _
          (Ensures-exec (update_job id always (parked ai_error now time))
            λ a b k (n, read, same, found) e. (
              j,
              now,
              n,
              found,
              allowed,
              subst (λ t. b ≡ put_job (parked ai_error now t j) s.db) read
                  (update_job-found id (parked ai_error now time) s.db b k j found (
                    subst (λ d. update_job id always (parked ai_error now time) d ≡ ok (k, b)) same
                      e)),
            ))
          λ n. Ensures-pure tt (λ d p. p)
