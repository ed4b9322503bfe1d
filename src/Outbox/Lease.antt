-- ===== src/Outbox/Lease.antt =====
-- internal/outbox/outbox.go: who may claim a message, and when it is sent again.
use ai_social_publisher.Common.{
  ℕ, String, zero, suc, ◌+◌, ◌*◌, ◌^◌, ◌-◌, min, ◌≤◌, ◌≡◌, refl, true, false, some, arith,
}
use ai_social_publisher.Rows.{notification, OutboxRow, Db}
use ai_social_publisher.Exec.{ok}
use ai_social_publisher.Post.Jobs.{minute}
use ai_social_publisher.Outbox.{
  Message, is_claimable, next_due, leased, killed, delivery_delay, update_row, Claim, undecodable,
  claimed,
}

-- A row that was leased at a time is not claimable until more than a minute has passed; a row that was
-- sent, or that was given up as dead, is not claimable either.
pub lease-excludes :
    (now later : ℕ) (r : OutboxRow) (e : String)
    → later ≤ now + minute
    → (is_claimable later (leased now r) ≡ false)
      × (is_claimable later (record r { sent_at = some now }) ≡ false)
      × (is_claimable later (killed now e r) ≡ false)
unfolding is_claimable
lease-excludes now later r e h = (ground (arith, h), refl, ground arith)

pow_small : (n : ℕ) → (1 ≤ 2 ^ min n 6) × (2 ^ min n 6 ≤ 64)
pow_small zero = (ground arith, ground arith)
pow_small (suc zero) = (ground arith, ground arith)
pow_small (suc (suc zero)) = (ground arith, ground arith)
pow_small (suc (suc (suc zero))) = (ground arith, ground arith)
pow_small (suc (suc (suc (suc zero)))) = (ground arith, ground arith)
pow_small (suc (suc (suc (suc (suc zero))))) = (ground arith, ground arith)
pow_small (suc (suc (suc (suc (suc (suc n)))))) = (ground arith, ground arith)

-- The wait before a message is sent again is between one minute and sixty-four.
pub delivery_delay_bounds : (n : ℕ) → (minute ≤ delivery_delay n) × (delivery_delay n ≤ 64 * minute)
unfolding delivery_delay
delivery_delay_bounds n =
    let (low, high) = pow_small (n - 1) in (omega (arith, low), omega (arith, high))

-- A message that was handed out: its row was claimable, and is now leased with one attempt more.
pub record HandedOut (a : Db) (m : Message) (b : Db) : Type 0 where
  pub row : OutboxRow
  pub now : ℕ
  pub due : next_due now a.outbox ≡ some row
  pub is_free : is_claimable now row ≡ true
  pub payload : row.payload ≡ notification m.notification
  pub id : m.id ≡ row.id
  pub attempts : m.attempts ≡ row.attempts + 1
  pub wrote : update_row row.id (leased now) a ≡ ok (tt, b)

abbrev Settled : Db → Claim → Db → Type 0
Settled a (undecodable id e) b = Unit
Settled a (claimed m) b = HandedOut a m b
