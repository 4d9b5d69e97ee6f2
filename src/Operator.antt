-- ===== src/Operator.antt =====
-- operator/api/v1alpha1 and operator/controllers: the custom resources and their reconcilers.
pub mod Resources
pub mod Reconcile
pub mod Main
