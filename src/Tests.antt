-- ===== src/Tests.antt =====
-- Concrete runs of the models: constants, and each theorem at concrete data.
mod Signing
mod Logins
mod Encodings
mod Executions
mod Rosters
mod Submissions
mod Answers
mod Registrations
mod Performers
mod Deployments
mod Curves
mod Sessions
mod Stores
mod Badgers
mod Queues
mod Reorgs
