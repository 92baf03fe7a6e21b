-- ===== src/Examples.antt =====
-- Tests on concrete inputs, and the theorems at inputs that meet their hypotheses.
mod Samples
mod Clusters
mod Registry
mod Rules
mod Nodes
mod Admission
mod Status
mod Sync
mod RuleRuns
mod ClusterRuns
mod CoreRuns
mod Certificates
mod Lifecycles
mod Starts
