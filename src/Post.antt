-- ===== src/Post.antt =====
-- internal/post/post.go: the repository of jobs, variants and publish logs.
pub mod Jobs
pub mod Review
pub mod Advances
pub mod Progress
pub mod Schedule
pub mod Logs
pub mod Guards
pub mod Outcome
pub mod Claims
pub mod Retry
pub mod Due
pub mod Edits
pub mod Replace
pub mod Stored
