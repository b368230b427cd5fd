-- ===== src/Controller.antt =====
-- pkg/controller: the reconciler of mesh services.
pub mod Meta
pub mod Resource
pub mod Reconcile
pub mod Worker
