-- ===== src/Status/Graph.antt =====
-- The state machine of a job as a graph.
use ai_social_publisher.Common.{true, false, ◌≡◌, refl, ◌↔◌, ◌⊎◌, arith, ℕ, ◌≤◌}
use ai_social_publisher.Status.{
  Status, Status-discrete, can_transition, is_terminal, new, scoring_queued, scoring, waiting_ai,
  scored, waiting_first_approval, variants_queued, generating_variants, waiting_variant_approval,
  ready_to_publish, scheduled, approved, publishing, published, skipped, failed,
}

-- A job that stands in `s` may come to stand in `t`.
infix 40 ◌⟶*◌
pub data ◌⟶*◌ (s : Status) : Status → Type 0 where
  here : s ⟶* s
  next : {t u : Status} → s ⟶* t → can_transition t u ≡ true → s ⟶* u

pub ⟶*_trans : {s t u : Status} → s ⟶* t → t ⟶* u → s ⟶* u
⟶*_trans p here = p
⟶*_trans p (next q e) = next (⟶*_trans p q) e

pub terminal-no_transition : (s t : Status) → is_terminal s ≡ true → can_transition s t ≡ false
unfolding can_transition is_terminal
terminal-no_transition s t h = ground arith

pub transition-not_terminal : (s t : Status) → can_transition s t ≡ true → is_terminal s ≡ false
unfolding can_transition is_terminal
transition-not_terminal s t h = ground arith

-- A terminal status is left by no sequence of transitions.
pub terminal-⟶* : {s t : Status} → is_terminal s ≡ true → s ⟶* t → t ≡ s
terminal-⟶* h here = refl
terminal-⟶* {s} h (next {t} {u} p e) =
    let stays : t ≡ s = terminal-⟶* h p in ground (arith, transition-not_terminal t u e)

-- How often a job in a status may still be handed to the publisher: only APPROVED → PUBLISHING
-- leads there, and PUBLISHING leads back to nothing that is published again.
unfoldable pub publishes_left : Status → ℕ
publishes_left publishing = 0
publishes_left published = 0
publishes_left skipped = 0
publishes_left failed = 0
publishes_left _ = 1

publishes_left-transition :
    (s t : Status) → can_transition s t ≡ true → publishes_left t ≤ publishes_left s
unfolding can_transition publishes_left
publishes_left-transition s t h = ground arith

-- The number of publishes that are left never grows.
pub publishes_left-⟶* : {s t : Status} → s ⟶* t → publishes_left t ≤ publishes_left s
publishes_left-⟶* here = omega arith
publishes_left-⟶* {s} (next {t} {u} p e) =
    omega (arith, publishes_left-⟶* p, publishes_left-transition t u e)

-- A status is terminal (`IsTerminal`) exactly when `CanTransition` lets a job leave it for no status.
pub terminal_iff :
    (s : Status) → (is_terminal s ≡ true) ↔ ((t : Status) → can_transition s t ≡ false)
unfolding can_transition is_terminal
terminal_iff s = (λ h t. terminal-no_transition s t h, λ h. ground (arith, h failed))

-- PUBLISHING may be entered from APPROVED and from no other status, and APPROVED from
-- READY_TO_PUBLISH and SCHEDULED and from no other.
pub publishing_from :
    (s : Status)
    → ((can_transition s publishing ≡ true) ↔ (s ≡ approved))
      × ((can_transition s approved ≡ true) ↔ ((s ≡ ready_to_publish) ⊎ (s ≡ scheduled)))
unfolding can_transition Status-discrete
publishing_from s =
    ((λ h. ground arith, λ h. ground (arith, h)), (λ h. ground arith, λ h. ground (arith, h)))

step : {s t : Status} (u : Status) → s ⟶* t → can_transition t u ≡ true → s ⟶* u
step u p e = next p e

-- A new job may come to stand in every status.
pub all_reachable : (s : Status) → new ⟶* s
unfolding can_transition Status-discrete
all_reachable s =
    let queued : new ⟶* scoring_queued = step scoring_queued here refl in
    let being_scored : new ⟶* scoring = step scoring queued refl in
    let has_score : new ⟶* scored = step scored being_scored refl in
    let first : new ⟶* waiting_first_approval = step waiting_first_approval has_score refl in
    let wanted : new ⟶* variants_queued = step variants_queued first refl in
    let made : new ⟶* generating_variants = step generating_variants wanted refl in
    let offered : new ⟶* waiting_variant_approval = step waiting_variant_approval made refl in
    let ready : new ⟶* ready_to_publish = step ready_to_publish offered refl in
    let agreed : new ⟶* approved = step approved ready refl in
    let sending : new ⟶* publishing = step publishing agreed refl in
    elim s as (λ k. new ⟶* k) [
      | new ↦ here
      | scoring_queued ↦ queued
      | scoring ↦ being_scored
      | waiting_ai ↦ step waiting_ai being_scored refl
      | scored ↦ has_score
      | waiting_first_approval ↦ first
      | variants_queued ↦ wanted
      | generating_variants ↦ made
      | waiting_variant_approval ↦ offered
      | ready_to_publish ↦ ready
      | scheduled ↦ step scheduled ready refl
      | approved ↦ agreed
      | publishing ↦ sending
      | published ↦ step published sending refl
      | skipped ↦ step skipped has_score refl
      | failed ↦ step failed here refl
    ]

-- A job in a status that is not terminal may always become FAILED.
may_fail : (s : Status) → is_terminal s ≡ false → can_transition s failed ≡ true
unfolding can_transition is_terminal
may_fail s h = ground arith
