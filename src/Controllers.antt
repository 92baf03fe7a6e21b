-- ===== src/Controllers.antt =====
-- controllers: the reconcilers.
pub mod Conditions
pub mod ClusterReconciler
pub mod CoreSyncers
pub mod RuleReconciler
pub mod Status
pub mod Sync
pub mod Watches
pub mod RemoteCluster
