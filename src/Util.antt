-- ===== src/Util.antt =====
-- pkg/util: helpers of the reconcilers.
pub mod Gvk
pub mod RateLimit
pub mod Kubeconfig
pub mod Provision
pub mod ReaderSecret
pub mod Template
