-- ===== src/Scheduler/Once.antt =====
-- How often a job is handed to the Instagram publisher, and how often it still may be.
use ai_social_publisher.Common.{
  ℕ, suc, ◌+◌, ◌≤◌, ◌≡◌, refl, sym, subst, Bool, true, false, Option, none, some, List, [], ◌∷◌,
  ◌==◌, arith, if◌then◌else◌, Bool-cases, Option-cases, inl, inr, ==_iff,
}
use ai_social_publisher.Status.{Status, Status-discrete, ◌is◌, can_transition, approved, publishing}
use ai_social_publisher.Status.Graph.{here, next, publishes_left, publishes_left-⟶*}
use ai_social_publisher.Rows.{Job, Db}
use ai_social_publisher.Exec.{State, ok}
use ai_social_publisher.Exec.Rules.{IsStable}
use ai_social_publisher.Table.{find_by-key}
use ai_social_publisher.Store.{find_job, update_job}
use ai_social_publisher.Post.Advances.{
  Advances, Advances-trans, Advances-update_job, Updated, none_fits, one_fits, update_job-Updated,
  job_id, find_job-put_job,
}
use ai_social_publisher.Post.Jobs.{with_status}
use ai_social_publisher.Post.Progress.{Progress, Progress-IsStable}

-- How often the publisher was called for a job.
unfoldable pub times_published : ℕ → List ℕ → ℕ
times_published id [] = 0
times_published id (j ∷ js) = let rest = times_published id js in if j == id then suc rest else rest

abbrev pub left_of : Option Job → ℕ
left_of none = 1
left_of (some j) = publishes_left j.status

-- How often it may still be called; a job that is yet to be created counts as new.
unfoldable pub left : ℕ → Db → ℕ
left id db = left_of (find_job id db)

-- The calls made and the calls left.
unfoldable pub budget : ℕ → State → ℕ
unfolding left
budget id s = times_published id s.published + left id s.db

abbrev one_if : Bool → ℕ
one_if true = 1
one_if false = 0

pub record Paced (s t : State) : Type 0 where
  pub advances : Advances s.db t.db
  pub within : (id : ℕ) → budget id t ≤ budget id s

-- The publisher is called for `job` once more than the tables account for.
pub record Overdraws (job : ℕ) (s t : State) : Type 0 where
  pub advances : Advances s.db t.db
  pub within : (id : ℕ) → budget id t ≤ budget id s + one_if (job == id)

-- `job` has been claimed for the publisher.
pub record Claims (job : ℕ) (s t : State) : Type 0 where
  pub advances : Advances s.db t.db
  pub within : (id : ℕ) → budget id t + one_if (job == id) ≤ budget id s

may_publish : (s : Status) → s is approved ≡ true → can_transition s publishing ≡ true
unfolding can_transition Status-discrete
may_publish s t = ground arith

pub left_le_one : (o : Option Job) → left_of o ≤ 1
unfolding publishes_left
left_le_one none = omega arith
left_le_one (some j) = ground arith

left-Advances : (a b : Db) (id : ℕ) → Advances a b → left id b ≤ left id a
unfolding left
left-Advances a b id p = elim (Option-cases (find_job id a)) [
  | inl absent ↦ rw absent (left_le_one (find_job id b))
  | inr (j, present) ↦
      let (j', there, way) = p.job id j present in rw (present, there) (publishes_left-⟶* way)
]

pub Progress-Paced : (s t : State) → Progress s t → Paced s t
unfolding budget
Progress-Paced s t p = record {
  advances = p.advances;
  within = λ id. rw p.published (omega (arith, left-Advances s.db t.db id p.advances));
}

pub Paced-IsStable : IsStable Paced
unfolding budget
Paced-IsStable = record {
  refl_ticks = λ s n k. Progress-Paced s _ (Progress-IsStable.refl_ticks s n k);
  trans = λ s t u p q. record {
    advances = Advances-trans s.db t.db u.db p.advances q.advances;
    within = λ id. omega (arith, p.within id, q.within id);
  };
}

pub Paced-Overdraws : (job : ℕ) (s t u : State) → Paced s t → Overdraws job t u → Overdraws job s u
unfolding budget
Paced-Overdraws job s t u p q = record {
  advances = Advances-trans s.db t.db u.db p.advances q.advances;
  within = λ id. omega (arith, p.within id, q.within id);
}

pub Overdraws-Paced : (job : ℕ) (s t u : State) → Overdraws job s t → Paced t u → Overdraws job s u
unfolding budget
Overdraws-Paced job s t u p q = record {
  advances = Advances-trans s.db t.db u.db p.advances q.advances;
  within = λ id. omega (arith, p.within id, q.within id);
}

pub Claims-Overdraws : (job : ℕ) (s t u : State) → Claims job s t → Overdraws job t u → Paced s u
unfolding budget
Claims-Overdraws job s t u p q = record {
  advances = Advances-trans s.db t.db u.db p.advances q.advances;
  within = λ id. omega (arith, p.within id, q.within id);
}

pub Paced-weaken : (job : ℕ) (s t : State) → Paced s t → Overdraws job s t
unfolding budget
Paced-weaken job s t p = record { advances = p.advances; within = λ id. omega (arith, p.within id) }

pub Claims-weaken : (job : ℕ) (s t : State) → Claims job s t → Paced s t
unfolding budget
Claims-weaken job s t p = record {
  advances = p.advances;
  within = λ id. omega (arith, p.within id);
}

approved_left : (j : Job) → j.status is approved ≡ true → publishes_left j.status ≡ 1
unfolding publishes_left
approved_left j t = ground arith

approved-Advances :
    (id now n : ℕ) (s : State) (db : Db)
    → update_job id (λ j. j.status is approved) (with_status publishing now) s.db ≡ ok (n, db)
    → Advances s.db db
approved-Advances id now n s db e =
    Advances-update_job id (λ j. j.status is approved) (with_status publishing now) s.db db n
      (λ j found t. (refl, next here (may_publish j.status t))) e

-- The claimed job has used up the one call that was left to it.
claimed_left :
    (id now n : ℕ) (a b : Db)
    → Updated id (λ j. j.status is approved) (with_status publishing now) a b n
    → (n == 1) ≡ true
    → left id b + 1 ≤ left id a
unfolding left publishes_left
claimed_left id now n a b (none_fits z _) one = absurd (ground arith)
claimed_left id now n a b (one_fits j found t _ _ same) one =
    let key : j.id ≡ id = find_by-key job_id id a.jobs j found in
    let after = find_job-put_job id a j (with_status publishing now j) found key in
    rw (found, approved_left j t)
      (subst (λ (d : Db). left_of (find_job id d) + 1 ≤ 1) (sym same) (rw after (omega arith)))

pub claim-Claims :
    (id now n : ℕ) (s : State) (db : Db)
    → update_job id (λ j. j.status is approved) (with_status publishing now) s.db ≡ ok (n, db)
    → (n == 1) ≡ true
    → Claims id s (record s { db = db })
unfolding budget
claim-Claims id now n s db e one =
    let p : Advances s.db db = approved-Advances id now n s db e in
    record {
      advances = p;
      within = λ k. elim (Bool-cases (id == k)) [
        | inl same ↦
            let used : left k db + 1 ≤ left k s.db =
              subst (λ i. left i db + 1 ≤ left i s.db) ((==_iff id k).0 same)
                (claimed_left id now n s.db db (update_job-Updated id _ _ s.db db n e) one) in
            rw same (omega arith)
        | inr other ↦ rw other (omega (arith, left-Advances s.db db k p))
      ];
    }
