-- ===== src/Api.antt =====
-- api/v1alpha1: the custom resources.
pub mod Selector
pub mod Object
pub mod Rules
pub mod Cluster
