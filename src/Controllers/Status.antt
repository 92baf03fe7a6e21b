-- ===== src/Controllers/Status.antt =====
-- `UpdateCluster` and `UpdateClusterStatus` of controllers/common.go: how the status of a cluster is
-- written. The requests that the API server accepts are returned in a list.
pub mod Writes
use cluster_registry_control.Common.{
  String, Bool, true, false, not, ◌&&◌, ◌==◌, Option, none, some, List, [], ◌∷◌, Map, if◌then◌else◌,
}
use cluster_registry_control.Api.Cluster.{
  ClusterCondition, ClusterResource, local_type, ready_state, failed_state,
}
use cluster_registry_control.Controllers.Conditions.{clusters_synced}

-- An error: its text, and whether it is a `permanentError`.
pub record Problem : Type 0 where
  pub text : String
  pub permanent : Bool

pub data UpdateError : Type 0 where
  reconciling : Problem → UpdateError
  could_not_get_cluster could_not_update_cluster_status could_not_update_status : UpdateError

-- The answer to a status update; an accepted one returns the resource as it is then.
pub data Answer : Type 0 where
  accepted : ClusterResource → Answer
  conflict denied : Answer

-- The API server: `get_version` is the resource version that `Get` finds.
pub record StatusApi : Type 0 where
  pub update : ClusterResource → Answer
  pub get_version : String → Option String

-- The conditions that are written: a local cluster has no `ClustersSynced`.
unfoldable pub conditions_to_write : String → Map ClusterCondition → List ClusterCondition
conditions_to_write type [] = []
conditions_to_write type ((t, c) ∷ rest) =
    let later = conditions_to_write type rest in
    if type == local_type && c.type == clusters_synced then later else c ∷ later

-- The receiver with the status that is written.
unfoldable pub set_status :
    Option Problem → Map ClusterCondition → ClusterResource → ClusterResource
unfolding conditions_to_write
set_status problem m cluster =
    let conditions = conditions_to_write cluster.status.type m in
    record cluster {
      status = elim problem [
        | none ↦ record cluster.status { conditions = conditions }
        | some e ↦ record cluster.status {
          conditions = conditions;
          state =
              if cluster.status.state == ready_state then failed_state else cluster.status.state;
          message = e.text;
        }
      ];
    }

module _ (a : StatusApi) where
  -- The accepted requests, the receiver afterwards, and the error.
  unfoldable pub update_cluster_status :
      ClusterResource → List ClusterResource × ClusterResource × Option UpdateError
  update_cluster_status cluster = elim (a.update cluster) [
    | accepted c ↦ (cluster ∷ [], c, none)
    | denied ↦ ([], cluster, some could_not_update_status)
    | conflict ↦ elim (a.get_version cluster.name) [
      | none ↦ ([], cluster, some could_not_get_cluster)
      | some v ↦
          let desired = record cluster { resource_version = v } in
          elim (a.update desired) [
            | accepted c ↦ (desired ∷ [], cluster, none)
            | _ ↦ ([], cluster, some could_not_update_cluster_status)
          ]
    ]
  ]

  -- A failed write is only logged if there is an error to return already, and a permanent error is
  -- not returned.
  unfoldable pub update_cluster :
      Option Problem
      → Map ClusterCondition
      → ClusterResource
      → List ClusterResource × ClusterResource × Option UpdateError
  unfolding update_cluster_status set_status
  update_cluster problem m cluster =
      let (writes, cluster', failed) = update_cluster_status (set_status problem m cluster) in
      (
        writes,
        cluster',
        elim problem [
          | none ↦ failed
          | some e ↦ if e.permanent then none else some (reconciling e)
        ],
      )
