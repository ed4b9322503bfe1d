-- ===== src/Outbox/Progress.antt =====
-- The actions of the outbox leave the jobs alone.
use ai_social_publisher.Common.{ℕ, String, leb, ◌≡◌, refl, arith, Option, none, some}
use ai_social_publisher.Rows.{Notification, Stored, notification, garbled, OutboxRow, Db}
use ai_social_publisher.Errors.{Error, no_rows, is_error}
use ai_social_publisher.Exec.{Result, ok, err, exec, exec_now}
use ai_social_publisher.Exec.Rules.{
  Any, Moves, Moves-pure, Moves-raise, Moves-if, Moves-attempt, Moves-exec_now, Moves-bind,
  Moves-query-bind, Moves-ask-bind, Moves-transaction,
}
use ai_social_publisher.Post.Advances.{Advances-same_jobs}
use ai_social_publisher.Post.Progress.{Progress, Progress-IsAtomic, r, elsewhere, elsewhere_insert}
use ai_social_publisher.Outbox.{
  insert_row, enqueue, update_row, Claim, undecodable, claimed, claim_row, claim_next, after_claim,
  settle_claim, claim_due, mark_sent, mark_failed, max_attempts, purge_sent,
}

touch_row :
    {P : Db → Type 0} (id : ℕ) (f : OutboxRow → OutboxRow)
    → Moves P Progress (exec (update_row id f))
unfolding update_row
touch_row id f = elsewhere _ (λ db db' a e. ground arith)

touch_row_now :
    {P : Db → Type 0} (id : ℕ) (f : ℕ → OutboxRow → OutboxRow)
    → Moves P Progress (exec_now (λ now. update_row id (f now)))
unfolding update_row
touch_row_now id f = Moves-exec_now r _ λ now s a db p e. record {
  advances = Advances-same_jobs s.db db (ground arith);
  published = refl;
}

insert_row-jobs :
    (key : String) (n : Notification) (id now : ℕ) (db db' : Db) (a : Unit {0})
    → insert_row key n id now db ≡ ok (a, db')
    → db'.jobs ≡ db.jobs
unfolding insert_row
insert_row-jobs key n id now db db' a e = ground arith

pub enqueue-Progress : (key : String) (n : Notification) → Moves Any Progress (enqueue key n)
unfolding enqueue
enqueue-Progress key n =
    elsewhere_insert (insert_row key _) λ id now db db' a e. insert_row-jobs key _ id now db db' a e

claim_row-Progress :
    {P : Db → Type 0} (now : ℕ) (row : OutboxRow) (payload : Stored)
    → Moves P Progress (claim_row now row payload)
unfolding claim_row
claim_row-Progress now row (garbled e) = Moves-bind r _ _ (touch_row row.id _) (λ _. Moves-pure r _)
claim_row-Progress now row (notification n) =
    Moves-bind r _ _ (touch_row row.id _) (λ _. Moves-pure r _)

claim_next-Progress :
    {P : Db → Type 0} (now : ℕ) (o : Option OutboxRow) → Moves P Progress (claim_next now o)
unfolding claim_next
claim_next-Progress now none = Moves-raise r _
claim_next-Progress now (some row) = claim_row-Progress now row row.payload

after_claim-Progress : (c : Claim) → Moves Any Progress (after_claim c)
unfolding after_claim
after_claim-Progress (undecodable id e) = Moves-raise r _
after_claim-Progress (claimed m) = Moves-pure r _

settle_claim-Progress : (x : Result Claim) → Moves Any Progress (settle_claim x)
unfolding settle_claim
settle_claim-Progress (ok c) = after_claim-Progress c
settle_claim-Progress (err e) =
    Moves-if r (is_error e no_rows) _ _ (λ _. Moves-pure r _) (λ _. Moves-raise r _)

pub claim_due-Progress : Moves Any Progress claim_due
unfolding claim_due
claim_due-Progress =
    Moves-bind r _ _
      (Moves-attempt r _ (
        Moves-transaction Progress-IsAtomic {P = Any} _
          λ now. Moves-query-bind r {P = Any} _ _ (λ o. claim_next-Progress now o)))
      settle_claim-Progress

pub mark_sent-Progress : (id : ℕ) → Moves Any Progress (mark_sent id)
unfolding mark_sent
mark_sent-Progress id = touch_row_now id _

pub mark_failed-Progress :
    (id attempts : ℕ) (e : Error) → Moves Any Progress (mark_failed id attempts e)
unfolding mark_failed
mark_failed-Progress id attempts e =
    Moves-if r (leb max_attempts attempts) _ _ (λ _. touch_row_now id _)
      (λ _. Moves-ask-bind r _ _ (λ time. touch_row id _))

pub purge_sent-Progress : (cutoff : ℕ) → Moves Any Progress (purge_sent cutoff)
unfolding purge_sent
purge_sent-Progress cutoff = elsewhere _ (λ db db' a e. ground arith)
