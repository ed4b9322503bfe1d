-- ===== src/Outbox.antt =====
-- internal/outbox/outbox.go: durable notifications.
pub mod Progress
pub mod Delivery
pub mod Lease
use ai_social_publisher.Common.{
  ℕ, ◌+◌, ◌*◌, ◌^◌, ◌-◌, min, String, Bool, true, false, ◌&&◌, not, Option, none, some, List, [],
  ◌∷◌, ◌++◌, ltb, leb, ◌==◌, str_eq, if◌then◌else◌, concat, format_int, filter, sort_by, is_some,
  length, truncate_bytes,
}
use ai_social_publisher.Rows.{Notification, Stored, notification, garbled, OutboxRow, Db}
use ai_social_publisher.Errors.{Error, sentinel, message, no_rows, is_error, error_text}
use ai_social_publisher.Exec.{
  Result, ok, err, M, pure, raise, time_now, ◌>>=◌, ◌>>◌, exec, exec_now, exec_insert, attempt,
  query, transaction,
}
use ai_social_publisher.Table.{find_by, put_by}
use ai_social_publisher.Post.Jobs.{minute}

-- `Message`
pub record Message : Type 0 where
  pub id : ℕ
  pub notification : Notification
  pub attempts : ℕ

abbrev pub max_attempts : ℕ
max_attempts = 10

unfoldable pub has_key : String → List OutboxRow → Bool
has_key key [] = false
has_key key (r ∷ rs) = let rest = has_key key rs in if str_eq r.dedupe_key key then true else rest

abbrev pub new_row : String → Notification → ℕ → ℕ → OutboxRow
new_row key n id now = record {
  id = id;
  dedupe_key = key;
  payload = notification n;
  attempts = 0;
  next_attempt_at = now;
  locked_until = none;
  sent_at = none;
  dead_at = none;
  last_error = "";
}

-- `INSERT … ON CONFLICT (dedupe_key) DO NOTHING`
unfoldable pub insert_row : String → Notification → ℕ → ℕ → Db → Result (Unit {0} × Db)
insert_row key n id now db =
    if has_key key db.outbox
    then ok (tt, db)
    else ok (tt, record db { outbox = db.outbox ++ new_row key n id now ∷ [] })

-- `Enqueue`
unfoldable pub enqueue : String → Notification → M (Unit {0})
enqueue key n = exec_insert (
    insert_row key (record n {
      idempotency_key = if str_eq n.idempotency_key "" then key else n.idempotency_key;
    }))

abbrev pub unlocked : Option ℕ → ℕ → Bool
unlocked none now = true
unlocked (some until) now = ltb until now

-- The condition of `ClaimDue`.
unfoldable pub is_claimable : ℕ → OutboxRow → Bool
is_claimable now r =
    not (is_some r.sent_at)
    && (not (is_some r.dead_at) && (leb r.next_attempt_at now && unlocked r.locked_until now))

abbrev pub first {ℓ} : {A : Type ℓ} → List A → Option A
first [] = none
first (x ∷ xs) = some x

-- `… ORDER BY id LIMIT 1`
unfoldable pub next_due : ℕ → List OutboxRow → Option OutboxRow
unfolding is_claimable
next_due now rows = first (sort_by (λ (r : OutboxRow). r.id) (filter (is_claimable now) rows))

-- `UPDATE notification_outbox SET … WHERE id = $1`
abbrev with_row : ℕ → (OutboxRow → OutboxRow) → List OutboxRow → List OutboxRow
with_row id f rows = elim (find_by (λ (r : OutboxRow). r.id) id rows) [
  | none ↦ rows
  | some r ↦ put_by (λ (r : OutboxRow). r.id) (f r) rows
]

unfoldable pub update_row : ℕ → (OutboxRow → OutboxRow) → Db → Result (Unit {0} × Db)
update_row id f db = ok (tt, record db { outbox = with_row id f db.outbox })

-- What the transaction of `ClaimDue` has done before it commits.
pub data Claim : Type 0 where
  undecodable : ℕ → String → Claim
  claimed : Message → Claim

abbrev pub leased : ℕ → OutboxRow → OutboxRow
leased now r = record r { locked_until = some (now + minute); attempts = r.attempts + 1 }

abbrev pub killed : ℕ → String → OutboxRow → OutboxRow
killed now e r = record r { dead_at = some now; locked_until = none; last_error = e }

-- The two ends of `ClaimDue`, after the payload was decoded or not.
unfoldable pub claim_row : ℕ → OutboxRow → Stored → M Claim
claim_row now r (garbled e) = do
  exec (update_row r.id (killed now (concat ("invalid stored payload: " ∷ e ∷ []))))
  pure (undecodable r.id e)
claim_row now r (notification n) = do
  exec (update_row r.id (leased now))
  pure (claimed (record { id = r.id; notification = n; attempts = r.attempts + 1 }))

unfoldable pub claim_next : ℕ → Option OutboxRow → M Claim
unfolding claim_row
claim_next now none = raise (sentinel no_rows)
claim_next now (some r) = claim_row now r r.payload

unfoldable pub after_claim : Claim → M (Option Message)
after_claim (undecodable id e) =
    raise (message (concat ("decode outbox payload " ∷ format_int id ∷ ": " ∷ e ∷ [])))
after_claim (claimed m) = pure (some m)

-- `sql.ErrNoRows` is no message and no error.
unfoldable pub settle_claim : Result Claim → M (Option Message)
unfolding after_claim is_error
settle_claim (ok claim) = after_claim claim
settle_claim (err e) = if is_error e no_rows then pure none else raise e

-- `ClaimDue`
unfoldable pub claim_due : M (Option Message)
unfolding claim_next settle_claim next_due
claim_due = do
  claim ←
      attempt
        (transaction (λ now. do r ← query (λ db. ok (next_due now db.outbox)); claim_next now r))
  settle_claim claim

-- `MarkSent`
unfoldable pub mark_sent : ℕ → M (Unit {0})
mark_sent id = exec_now (λ now.
    update_row id (λ r. record r { sent_at = some now; locked_until = none; last_error = "" }))

-- `time.Minute << min(attempts-1, 6)`
unfoldable pub delivery_delay : ℕ → ℕ
delivery_delay attempts = minute * 2 ^ min (attempts - 1) 6

abbrev pub postponed : ℕ → String → OutboxRow → OutboxRow
postponed at e r = record r { next_attempt_at = at; locked_until = none; last_error = e }

-- `MarkFailed`
unfoldable pub mark_failed : ℕ → ℕ → Error → M (Unit {0})
unfolding delivery_delay
mark_failed id attempts delivery_err =
    let msg = truncate_bytes 1000 (error_text delivery_err) in
    if leb max_attempts attempts
    then exec_now (λ now. update_row id (killed now msg))
    else (do time ← time_now; exec (update_row id (postponed (time + delivery_delay attempts) msg)))

abbrev pub sent_before : ℕ → OutboxRow → Bool
sent_before cutoff r = elim r.sent_at [ none ↦ false | some at ↦ ltb at cutoff ]

-- `PurgeSent`; the result is `RowsAffected`.
unfoldable pub purge_sent : ℕ → M ℕ
purge_sent cutoff = exec (λ db. ok (
  length (filter (sent_before cutoff) db.outbox),
  record db { outbox = filter (λ r. not (sent_before cutoff r)) db.outbox },
))

-- `Counts`: pending and dead messages.
unfoldable pub counts : M (ℕ × ℕ)
counts = query (λ db. ok (
  length (filter (λ (r : OutboxRow). not (is_some r.sent_at) && not (is_some r.dead_at)) db.outbox),
  length (filter (λ (r : OutboxRow). is_some r.dead_at) db.outbox),
))
