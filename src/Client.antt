-- ===== src/Client.antt =====
-- pkg/client: the generated client library of the two custom resources.
pub mod Listers
pub mod Informers
pub mod Rest
pub mod Interfaces
pub mod Typed
pub mod Services
pub mod Configurations
pub mod Requests
pub mod Clientset
pub mod Fake
pub mod Generic
