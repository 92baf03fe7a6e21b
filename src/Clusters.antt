-- ===== src/Clusters.antt =====
-- pkg/clusters: the clusters that the controller is connected to, and what runs on them.
pub mod Feature
pub mod Controller
pub mod Reconciler
pub mod Lifecycle
pub mod Cluster
pub mod Manager
