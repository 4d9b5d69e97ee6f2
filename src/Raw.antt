-- ===== src/Raw.antt =====
-- server/pkg/provider/raw.go: the delivery of an application as plain Kubernetes resources.
pub mod Manifest
pub mod Provider
pub mod Cleanup
