-- ===== src/Tests/Rules.antt =====
-- The theorems on the graph of statuses and on the service's decisions, at examples.
use ai_social_publisher.Common.{◌+◌, ◌≤◌, ◌<◌, ◌≡◌, ◌↔◌, ◌⊎◌, true}
use ai_social_publisher.Status.{
  can_transition, new, ready_to_publish, scheduled, approved, publishing, published,
}
use ai_social_publisher.Status.Graph.{◌⟶*◌, publishing_from, all_reachable}
use ai_social_publisher.Exec.{ok}
use ai_social_publisher.Approval.Queue.{validate_schedule_at, max_schedule_horizon}
use ai_social_publisher.Approval.Callback.{Callback}
use ai_social_publisher.Approval.Decisions.{validate_schedule_at_iff}

publishing_from_example :
    ((can_transition scheduled publishing ≡ true) ↔ (scheduled ≡ approved))
    × ((can_transition scheduled approved ≡ true)
        ↔ ((scheduled ≡ ready_to_publish) ⊎ (scheduled ≡ scheduled)))
publishing_from_example = publishing_from scheduled

all_reachable_example : new ⟶* published
all_reachable_example = all_reachable published

validate_schedule_at_iff_example :
    (validate_schedule_at 10 20 max_schedule_horizon ≡ ok 20)
    ↔ ((10 < 20) × (20 ≤ 10 + max_schedule_horizon))
validate_schedule_at_iff_example = validate_schedule_at_iff 10 20 max_schedule_horizon

abbrev odd : Callback
odd = record { action = "DELETE"; payload = "7"; user = "u" }
