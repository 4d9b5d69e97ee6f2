-- ===== src/Helm.antt =====
-- server/pkg/provider/helm.go: the delivery of an application as a helm release.
-- The settings and the manager are fixed by the chart's path and the namespace.
pub mod Setup
pub mod Actions
pub mod Delivery
