-- ===== src/Tests.antt =====
-- Concrete inputs: a small cluster, a work queue and objects, at which the theorems are applied.
pub mod Objects
pub mod Cluster
pub mod Queue
pub mod Codec
mod Controller
mod Client
pub mod Xds
pub mod Bootstrap
mod Connection
pub mod Server
pub mod Tracker
mod Requests
pub mod Pool
pub mod Phases
mod Calls
mod Fake
mod Memory
mod Clientset
mod Signals
mod Commands
mod Refining
