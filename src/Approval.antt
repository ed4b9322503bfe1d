-- ===== src/Approval.antt =====
-- internal/approval/service.go: the service that takes a news candidate through scoring, approval,
-- variants, preview and publication.
pub mod Progress
pub mod Context
pub mod Intake
pub mod Sync
pub mod Variants
pub mod Preview
pub mod Queue
pub mod Publish
pub mod Workers
pub mod Notices
pub mod Callback
pub mod Decisions
