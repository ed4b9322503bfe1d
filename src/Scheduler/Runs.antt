-- ===== src/Scheduler/Runs.antt =====
-- Runs of the system: every action, the publications too, under the relation of Scheduler.Once.
use ai_social_publisher.Common.{
  ℕ, ◌+◌, ◌≡◌, refl, true, Option, none, some, ◌==◌, arith, Bool-cases, inl, inr, String,
}
use ai_social_publisher.Status.{Status-discrete, ◌is◌, can_transition, approved, publishing}
use ai_social_publisher.Rows.{Variant, Db}
use ai_social_publisher.Errors.{Error}
use ai_social_publisher.Exec.{
  Env, State, Result, ok, err, M, pure, ◌>>=◌, exec, exec_now, answer, continue, logged, on_result,
  on_option,
}
use ai_social_publisher.Exec.Rules.{
  Any, Moves, Moves-pure, Moves-raise, Moves-if, Moves-attempt, Moves-bind, Moves-for_each,
  Moves-mono,
}
use ai_social_publisher.Exec.Chains.{Moves-then, Moves-test}
use ai_social_publisher.Store.{update_job}
use ai_social_publisher.Post.Jobs.{claim_status, with_status}
use ai_social_publisher.Post.Progress.{Progress}
use ai_social_publisher.Post.Progress.Jobs.{claim_status-Progress, list_by_status-Progress}
use ai_social_publisher.Post.Progress.Review.{
  get_variant_by_id-Progress, set_variant_image_url-Progress,
}
use ai_social_publisher.Post.Progress.Schedule.{
  claim_scheduled_due-Progress, list_due_scheduled-Progress,
}
use ai_social_publisher.Approval.Context.{JobContext}
use ai_social_publisher.Approval.Publish.{
  note_published, send_image, render_then_send, publish_variant, publish_claimed, claim_and_publish,
  publish_job,
}
use ai_social_publisher.Approval.Queue.{needs_preview}
use ai_social_publisher.Approval.Workers.{if_claimed, publish_approved, process_scheduled_publishes}
use ai_social_publisher.Approval.Progress.{flow, load_job_context-Progress}
use ai_social_publisher.Approval.Progress.Publish.{
  publish_image-Progress, settle_publish-Progress, fail-Progress, not_claimed-Progress,
}
use ai_social_publisher.Scheduler.Once.{
  times_published, budget, Paced, Overdraws, Claims, Progress-Paced, Paced-IsStable,
  Paced-Overdraws, Overdraws-Paced, Claims-Overdraws, Paced-weaken, claim-Claims,
}

-- What a statement has done, one of whose rows was affected.
claimed_answer :
    (C : State → Type 0) (env : Env) (t : State) (o : Option String) (x : Result (ℕ × Db))
    → ((n : ℕ) (db : Db) → x ≡ ok (n, db) → (n == 1) ≡ true → C (record t { db = db }))
    → (continue (answer o x t).0 (λ n. pure (n == 1)) env (answer o x t).1).0 ≡ ok true
    → C (continue (answer o x t).0 (λ n. pure (n == 1)) env (answer o x t).1).1
unfolding pure
claimed_answer C env t (some e) x k h = absurd (ground arith)
claimed_answer C env t none (err e) k h = absurd (ground arith)
claimed_answer C env t none (ok (n, db)) k h = k n db refl (ground arith)

Claims-ticks : (id : ℕ) (s t : State) (n : ℕ) → Claims id (record s { calls = n }) t → Claims id s t
unfolding budget
Claims-ticks id s t n c = record { advances = c.advances; within = c.within }

-- A claim that returns true has used up the call that was left.
claim_status-Claims :
    (id : ℕ) (env : Env) (s : State)
    → (claim_status id approved publishing env s).0 ≡ ok true
    → Claims id s (claim_status id approved publishing env s).1
unfolding claim_status can_transition Status-discrete ◌>>=◌ exec_now exec
claim_status-Claims id env s h =
    let t : State = record s { calls = s.calls + 1 } in
    let now = env.clock s.calls in
    Claims-ticks id s _ (s.calls + 1) (
      claimed_answer (Claims id t) env t (env.db_fault s.calls)
        (update_job id (λ j. j.status is approved) (with_status publishing now) t.db)
        (λ n db e one. claim-Claims id now n t db e one) h)

-- Every action that moves along Progress is paced.
pub paced {ℓ} : {A : Type ℓ} {m : M A} → Moves Any Progress m → Moves Any Paced m
paced = Moves-mono {Q = Any} (λ db h. h) Progress-Paced

drawn {ℓ} : {A : Type ℓ} {m : M A} (id : ℕ) → Moves Any Progress m → Moves Any (Overdraws id) m
drawn id = Moves-mono {Q = Any} (λ db h. h) (λ s t p. Paced-weaken id s t (Progress-Paced s t p))

note_published-Overdraws : (id : ℕ) → Moves Any (Overdraws id) (note_published id)
unfolding note_published budget times_published
note_published-Overdraws id = record {
  at = λ env s p. record {
    advances = (Paced-IsStable.refl_ticks s s.calls s.seq).advances;
    within = λ k. ground arith;
  };
}

send_image-Overdraws :
    (id : ℕ) (ctx : JobContext) (v : Variant) (url : String)
    → Moves Any (Overdraws id) (send_image id ctx v url)
unfolding send_image
send_image-Overdraws id ctx v url =
    Moves-then {R = Overdraws id} {S = Paced} _ _ (Overdraws-Paced id) (λ s t p. p)
      (note_published-Overdraws id)
      λ _. paced (search (flow, publish_image-Progress, settle_publish-Progress))

module _ (id : ℕ) where
  draw-bind {ℓ κ} :
      {A : Type ℓ} {B : Type κ} (m : M A) (f : A → M B)
      → Moves Any Progress m
      → ((a : A) → Moves Any (Overdraws id) (f a))
      → Moves Any (Overdraws id) (m >>= f)
  draw-bind m f km kf =
      Moves-then {R = Paced} {S = Overdraws id} m f (Paced-Overdraws id) (Paced-weaken id)
        (paced km) kf

  draw-on_result {ℓ κ} :
      {A : Type ℓ} {B : Type κ} (x : Result A) (k : A → M B) (h : Error → M B)
      → ((a : A) → Moves Any (Overdraws id) (k a))
      → ((e : Error) → Moves Any (Overdraws id) (h e))
      → Moves Any (Overdraws id) (on_result x k h)
  draw-on_result (ok a) k h kk kh = kk a
  draw-on_result (err e) k h kk kh = kh e

  render_then_send-Overdraws :
      (ctx : JobContext) (v : Variant) → Moves Any (Overdraws id) (render_then_send id ctx v)
  unfolding render_then_send
  render_then_send-Overdraws ctx v = draw-bind _ _ (search flow) λ rendered.
      draw-on_result rendered _ _
        (λ path. draw-bind _ _ (search flow) λ uploaded.
          draw-on_result uploaded _ _
            (λ url.
              draw-bind _ _ (search (flow, set_variant_image_url-Progress))
                λ _. send_image-Overdraws id ctx v url)
            (λ e. drawn id (fail-Progress id _)))
        (λ e. drawn id (fail-Progress id _))

  publish_variant-Overdraws :
      (ctx : JobContext) (v : Variant) → Moves Any (Overdraws id) (publish_variant id ctx v)
  unfolding publish_variant
  publish_variant-Overdraws ctx v = elim (Bool-cases (needs_preview v)) [
    | inl b ↦ rw b (render_then_send-Overdraws ctx v)
    | inr b ↦ rw b (send_image-Overdraws id ctx v _)
  ]

  publish_claimed-Overdraws :
      (ctx : JobContext) (selected : ℕ) → Moves Any (Overdraws id) (publish_claimed id ctx selected)
  unfolding publish_claimed
  publish_claimed-Overdraws ctx selected =
      draw-bind _ _ (search (flow, get_variant_by_id-Progress)) λ variant.
        draw-on_result variant _ _ (publish_variant-Overdraws ctx)
          (λ e. drawn id (fail-Progress id _))

  claim_and_publish-Paced :
      (ctx : JobContext) (selected : ℕ) → Moves Any Paced (claim_and_publish id ctx selected)
  unfolding claim_and_publish
  claim_and_publish-Paced ctx selected =
      Moves-test (Claims id) (Overdraws id) Paced _ _ Paced-IsStable (Claims-Overdraws id)
        (claim_status-Claims id) (paced (claim_status-Progress id _ _))
        (publish_claimed-Overdraws ctx selected) (paced (not_claimed-Progress id))

-- The rules for Paced.
pace-bind {ℓ κ} :
    {A : Type ℓ} {B : Type κ} (m : M A) (f : A → M B)
    → Moves Any Paced m
    → ((a : A) → Moves Any Paced (f a))
    → Moves Any Paced (m >>= f)
pace-bind m f km kf = Moves-bind Paced-IsStable m f km kf

pace-on_option {ℓ κ} :
    {A : Type ℓ} {B : Type κ} (x : Option A) (k : A → M B) (h : M B)
    → ((a : A) → Moves Any Paced (k a))
    → Moves Any Paced h
    → Moves Any Paced (on_option x k h)
pace-on_option (some a) k h kk kh = kk a
pace-on_option none k h kk kh = kh

pace-on_result {ℓ κ} :
    {A : Type ℓ} {B : Type κ} (x : Result A) (k : A → M B) (h : Error → M B)
    → ((a : A) → Moves Any Paced (k a))
    → ((e : Error) → Moves Any Paced (h e))
    → Moves Any Paced (on_result x k h)
pace-on_result (ok a) k h kk kh = kk a
pace-on_result (err e) k h kk kh = kh e

pub pace-logged {ℓ} : {A : Type ℓ} (m : M A) → Moves Any Paced m → Moves Any Paced (logged m)
unfolding logged
pace-logged m k =
    Moves-bind Paced-IsStable _ _ (Moves-attempt Paced-IsStable m k)
      (λ _. Moves-pure Paced-IsStable tt)

pub publish_job-Paced : (id : ℕ) → Moves Any Paced (publish_job id)
unfolding publish_job
publish_job-Paced id = pace-bind _ _ (paced (load_job_context-Progress id)) λ ctx.
    pace-on_option ctx.job.selected_variant_id _ _ (claim_and_publish-Paced id ctx)
      (Moves-raise Paced-IsStable _)

pub publish_approved-Paced : Moves Any Paced publish_approved
unfolding publish_approved
publish_approved-Paced =
    pace-bind _ _ (paced (list_by_status-Progress _ _))
      λ jobs. Moves-for_each Paced-IsStable jobs _ (λ job. pace-logged _ (publish_job-Paced job.id))

pub process_scheduled_publishes-Paced : Moves Any Paced process_scheduled_publishes
unfolding process_scheduled_publishes if_claimed
process_scheduled_publishes-Paced = pace-bind _ _ (paced (search flow)) λ now.
    pace-bind _ _ (paced (list_due_scheduled-Progress now _)) λ jobs.
      Moves-for_each Paced-IsStable jobs _ λ job.
        pace-bind _ _ (paced (search (flow, claim_scheduled_due-Progress))) λ claim.
          pace-on_result claim _ _
            (λ claimed.
              Moves-if Paced-IsStable claimed _ _ (λ _. pace-logged _ (publish_job-Paced job.id))
                (λ _. Moves-pure Paced-IsStable tt))
            (λ _. Moves-pure Paced-IsStable tt)
