-- ===== src/Status.antt =====
-- internal/post/status.go: the life of a post job.
pub mod Graph
use ai_social_publisher.Common.{String, Bool, true, false, List, [], ◌∷◌, ◌||◌, if◌then◌else◌}

pub data Status : Type 0 where
  new scoring_queued scoring waiting_ai scored waiting_first_approval variants_queued : Status
  generating_variants waiting_variant_approval ready_to_publish scheduled approved : Status
  publishing published skipped failed : Status

unfoldable pub Status-discrete : Discrete Status
Status-discrete = hlevel

infix 50 ◌is◌
abbrev pub ◌is◌ : Status → Status → Bool
a is b = elim (Status-discrete a b) [ yes p ↦ true | no p ↦ false ]

-- `allowedTransitions`
unfoldable pub allowed_transitions : Status → List Status
allowed_transitions new = scoring_queued ∷ failed ∷ []
allowed_transitions scoring_queued = scoring ∷ failed ∷ []
allowed_transitions scoring = waiting_ai ∷ scored ∷ failed ∷ []
allowed_transitions waiting_ai = scoring_queued ∷ variants_queued ∷ failed ∷ skipped ∷ []
allowed_transitions scored = waiting_first_approval ∷ skipped ∷ failed ∷ []
allowed_transitions waiting_first_approval = variants_queued ∷ skipped ∷ failed ∷ []
allowed_transitions variants_queued = generating_variants ∷ skipped ∷ failed ∷ []
allowed_transitions generating_variants = waiting_variant_approval ∷ waiting_ai ∷ failed ∷ []
allowed_transitions waiting_variant_approval =
    ready_to_publish ∷ variants_queued ∷ skipped ∷ failed ∷ []
allowed_transitions ready_to_publish =
    scheduled ∷ approved ∷ variants_queued ∷ skipped ∷ failed ∷ []
allowed_transitions scheduled = approved ∷ ready_to_publish ∷ skipped ∷ failed ∷ []
allowed_transitions approved = publishing ∷ failed ∷ []
allowed_transitions publishing = published ∷ failed ∷ []
allowed_transitions published = []
allowed_transitions skipped = []
allowed_transitions failed = []

contains : List Status → Status → Bool
contains [] to = false
contains (s ∷ rest) to = let more = contains rest to in if s is to then true else more

-- `CanTransition`
unfoldable pub can_transition : Status → Status → Bool
unfolding allowed_transitions contains
can_transition from to = contains (allowed_transitions from) to

-- `IsTerminal`
unfoldable pub is_terminal : Status → Bool
is_terminal s = s is published || s is skipped || s is failed

-- The text of a status, as it stands in the table and in messages.
unfoldable pub text : Status → String
text new = "NEW"
text scoring_queued = "SCORING_QUEUED"
text scoring = "SCORING"
text waiting_ai = "WAITING_AI"
text scored = "SCORED"
text waiting_first_approval = "WAITING_FIRST_APPROVAL"
text variants_queued = "VARIANTS_QUEUED"
text generating_variants = "GENERATING_VARIANTS"
text waiting_variant_approval = "WAITING_VARIANT_APPROVAL"
text ready_to_publish = "READY_TO_PUBLISH"
text scheduled = "SCHEDULED"
text approved = "APPROVED"
text publishing = "PUBLISHING"
text published = "PUBLISHED"
text skipped = "SKIPPED"
text failed = "FAILED"
