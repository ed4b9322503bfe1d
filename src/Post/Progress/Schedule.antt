-- ===== src/Post/Progress/Schedule.antt =====
-- The actions of scheduled publishing, and the logs, move jobs along the graph, on every path.
use ai_social_publisher.Common.{
  ℕ, ◌≡◌, refl, Bool, true, ◌&&◌, arith, if◌then◌else◌, str_eq, is_some,
}
use ai_social_publisher.Status.{
  Status, Status-discrete, ◌is◌, can_transition, ready_to_publish, scheduled, approved,
}
use ai_social_publisher.Status.Graph.{here, next}
use ai_social_publisher.Rows.{PublishLog, Db}
use ai_social_publisher.Exec.{ok}
use ai_social_publisher.Exec.Rules.{
  Any, Moves, Moves-pure, Moves-raise, Moves-if, Moves-query, Moves-bind, Moves-query-bind,
  Moves-transaction,
}
use ai_social_publisher.Post.Jobs.{select_job, with_status}
use ai_social_publisher.Post.Schedule.{
  schedule, reschedule, cancel_schedule, claim_scheduled_due, list_due_scheduled, is_due,
}
use ai_social_publisher.Post.Logs.{insert_log, insert_publish_log, successful_publish_media_id}
use ai_social_publisher.Post.Progress.{
  Progress, Progress-IsAtomic, r, update_now, guarded, done, one_row, elsewhere_insert,
}

pub schedule-Progress : (id at : ℕ) → Moves Any Progress (schedule id at)
unfolding schedule
schedule-Progress id at = Moves-transaction Progress-IsAtomic {P = Any} _ λ now.
    Moves-query-bind r {P = Any} (select_job id) _ λ j.
      Moves-if r (can_transition j.status scheduled) _ _
        (λ allowed.
          Moves-if r (is_some j.selected_variant_id) _ _
            (λ _. Moves-bind r _ _ (guarded id j scheduled _ allowed (λ i. (refl, refl))) done)
            (λ _. Moves-raise r _))
        (λ _. Moves-raise r _)

pub reschedule-Progress : (id at : ℕ) → Moves Any Progress (reschedule id at)
unfolding reschedule
reschedule-Progress id at =
    Moves-bind r _ _ (update_now id (λ _ j. j.status is scheduled) _ λ now db j t. (refl, here))
      (λ n. one_row n _)

back_allowed : (s : Status) → s is scheduled ≡ true → can_transition s ready_to_publish ≡ true
unfolding can_transition Status-discrete
back_allowed s h = ground arith

due_allowed :
    (s : Status) (b : Bool) → (s is scheduled && b) ≡ true → can_transition s approved ≡ true
unfolding can_transition Status-discrete
due_allowed s b h = ground arith

insert_log-jobs :
    (l : PublishLog) (id now : ℕ) (db db' : Db) (a : Unit {0})
    → insert_log l id now db ≡ ok (a, db')
    → db'.jobs ≡ db.jobs
unfolding insert_log
insert_log-jobs l id now db db' a e = ground arith

pub cancel_schedule-Progress : (id : ℕ) → Moves Any Progress (cancel_schedule id)
unfolding cancel_schedule
cancel_schedule-Progress id = Moves-transaction Progress-IsAtomic {P = Any} _ λ now.
    Moves-query-bind r {P = Any} (select_job id) _ λ j.
      Moves-if r (j.status is scheduled) _ _
        (λ t.
          Moves-bind r _ _
            (guarded id j ready_to_publish _ (back_allowed j.status t) (λ i. (refl, refl))) done)
        (λ _. Moves-raise r _)

pub claim_scheduled_due-Progress : (id time : ℕ) → Moves Any Progress (claim_scheduled_due id time)
unfolding claim_scheduled_due
claim_scheduled_due-Progress id time =
    Moves-if r (can_transition scheduled approved) _ _
      (λ allowed.
        Moves-bind r _ _
          (update_now id (λ _ j. j.status is scheduled && is_due j.scheduled_publish_at time)
            (with_status approved)
            λ now db j t.
              (refl, next here (due_allowed j.status (is_due j.scheduled_publish_at time) t)))
          (λ n. Moves-pure r _))
      (λ _. Moves-raise r _)

pub list_due_scheduled-Progress :
    (time limit : ℕ) → Moves Any Progress (list_due_scheduled time limit)
unfolding list_due_scheduled
list_due_scheduled-Progress time limit = Moves-query r _

pub insert_publish_log-Progress : (l : PublishLog) → Moves Any Progress (insert_publish_log l)
unfolding insert_publish_log
insert_publish_log-Progress l =
    let row : PublishLog = record l {
      platform = if str_eq l.platform "" then "instagram" else l.platform;
    } in
    elsewhere_insert (insert_log row) λ id now db db' a e. insert_log-jobs row id now db db' a e

pub successful_publish_media_id-Progress :
    (id : ℕ) → Moves Any Progress (successful_publish_media_id id)
unfolding successful_publish_media_id
successful_publish_media_id-Progress id = Moves-query r _
