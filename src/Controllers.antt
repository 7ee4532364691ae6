-- ===== src/Controllers.antt =====
-- src/server/controller.rs: one pass of each of the five controllers, over the repositories. The
-- timer loop that takes a lease before each pass is not modelled; an error that is only logged is
-- dropped by `ignore`.
pub mod Owned
pub mod Deployments
pub mod StatefulSets
pub mod DaemonSets
pub mod Pods
pub mod Services
pub mod Frame
mod Tests
