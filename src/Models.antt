-- ===== src/Models.antt =====
-- src/models/: the API objects, one module to a file.
pub mod Meta
pub mod Affinity
pub mod Pod
pub mod Node
pub mod Deployment
pub mod StatefulSet
pub mod DaemonSet
pub mod Service
pub mod Event
pub mod Namespace
pub mod Auth
