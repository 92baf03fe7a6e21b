-- ===== src/Controllers/ClusterReconciler/Steps.antt =====
-- The steps of `Reconcile` of controllers/cluster_reconciler.go for a local and for a remote cluster.
use cluster_registry_control.Common.{
  Bool, true, false, not, ◌||◌, ◌==◌, Option, none, some, List, [], ◌∷◌, ◌++◌, Map, if◌then◌else◌,
  ok, err,
}
use cluster_registry_control.Api.Cluster.{ClusterCondition, ClusterResource, missing_auth_info}
use cluster_registry_control.ClusterMeta.Metadata.{get_cluster_metadata}
use cluster_registry_control.Util.ReaderSecret.{ReaderSecret, get_reader_secret_for_cluster}
use cluster_registry_control.Controllers.CoreSyncers.{
  CoreObject, DesiredState, reconcile_core_syncers,
}
use cluster_registry_control.Controllers.Conditions.{
  Event, local_conflict, set_condition, get_current_condition, local_cluster_condition,
  local_cluster_conflict_condition, cluster_metadata_condition, clusters_synced_condition,
}
use cluster_registry_control.Controllers.ClusterReconciler.{
  Failure, could_not_list, local_cluster_conflict, could_not_provision, could_not_sync_core,
  no_metadata_found, ClusterEnv, ClusterReconciler, trigger_cluster_reconcile,
}
use cluster_registry_control.Controllers.ClusterReconciler.Remote.{get_remote_cluster}

-- What is asked of the API server besides the status, where it is accepted.
pub data Effect : Type 0 where
  stores : ReaderSecret → Effect
  syncs : CoreObject → DesiredState → Effect

-- What a reconciliation changes on its way.
pub record Progress : Type 0 where
  pub reconciler : ClusterReconciler
  pub cluster : ClusterResource
  pub conditions : Map ClusterCondition
  pub events : List Event
  pub effects : List Effect

unfoldable pub note : ClusterEnv → ClusterCondition → Progress → Progress
note e c p =
    let (conditions, events) = set_condition e.now e.now c p.conditions in
    record p { conditions = conditions; events = p.events ++ events }

-- The loop of `checkLocalClusterConflict`: the first other resource of the same cluster.
unfoldable pub find_conflicting : ClusterResource → List ClusterResource → Option ClusterResource
find_conflicting cluster [] = none
find_conflicting cluster (c ∷ cs) =
    let later = find_conflicting cluster cs in
    if c.uid == cluster.uid
    then later
    else if c.spec.cluster_id == cluster.spec.cluster_id
    then some c
    else later

unfoldable pub check_local_cluster_conflict : ClusterEnv → Progress → Progress × Option Failure
check_local_cluster_conflict e p = elim e.list_clusters [
  | none ↦ (p, some could_not_list)
  | some cs ↦ elim (find_conflicting p.cluster cs) [
    | none ↦ (note e (local_cluster_conflict_condition false) p, none)
    | some c ↦
        let r =
          if (get_current_condition c local_conflict).status == "False"
          then trigger_cluster_reconcile c p.reconciler
          else p.reconciler in
        (
          note e (local_cluster_conflict_condition true) (record p { reconciler = r }),
          some local_cluster_conflict,
        )
  ]
]

-- What is stored, and whether there is no error.
unfoldable pub provision_local_cluster_reader_secret :
    ClusterEnv → ClusterResource → List Effect × Bool
provision_local_cluster_reader_secret e cluster =
    if not e.manage_local_cluster_secret
    then ([], true)
    else if cluster.spec.secret_name == "" || cluster.spec.secret_namespace == ""
    then ([], true)
    else elim (get_reader_secret_for_cluster e.secrets cluster e.reader_service_account_name
        e.api_server_endpoint_address) [
          | err x ↦ ([], false)
          | ok secret ↦ if e.stores_secret secret then (stores secret ∷ [], true) else ([], false)
        ]

abbrev pub syncs_of : List (CoreObject × DesiredState) → List Effect
syncs_of [] = []
syncs_of ((o, ds) ∷ rest) = syncs o ds ∷ syncs_of rest

abbrev pub with_effects : List Effect → Progress → Progress
with_effects fs p = record p { effects = p.effects ++ fs }

-- The steps after the metadata are found.
unfoldable pub finish_local_cluster : ClusterEnv → Progress → Progress × Option Failure
finish_local_cluster e p =
    let (stored, provided) = provision_local_cluster_reader_secret e p.cluster in
    let q = with_effects stored p in
    let (objects, synced) = reconcile_core_syncers e.core e.core_config in
    if not provided
    then (q, some could_not_provision)
    else (with_effects (syncs_of objects) q, if not synced then some could_not_sync_core else none)

-- From the metadata on.
unfoldable pub describe_local_cluster : ClusterEnv → Progress → Progress × Option Failure
describe_local_cluster e p = elim (get_cluster_metadata e.nodes) [
  | err m ↦
      let f = no_metadata_found m in
      (note e (cluster_metadata_condition (some (e.text_of f))) p, some f)
  | ok metadata ↦
      let q = note e (cluster_metadata_condition none) p in
      finish_local_cluster e (record q {
        cluster = record q.cluster { status = record q.cluster.status { metadata = metadata } };
      })
]

unfoldable pub reconcile_local_cluster : ClusterEnv → Progress → Progress × Option Failure
reconcile_local_cluster e p =
    let (p', failed) = check_local_cluster_conflict e (note e (local_cluster_condition true) p) in
    elim failed [ some f ↦ (p', some f) | none ↦ describe_local_cluster e p' ]

unfoldable pub reconcile_remote_cluster : ClusterEnv → Progress → Progress × Option Failure
reconcile_remote_cluster e p =
    let q = note e (local_cluster_condition false) p in
    if q.cluster.spec.secret_name == "" || q.cluster.spec.secret_namespace == ""
    then (
      record q {
        cluster = record q.cluster {
          status = record q.cluster.status { state = missing_auth_info };
        };
      },
      none,
    )
    else let (r, cluster, found) = get_remote_cluster e q.cluster q.reconciler in
      let q' = record q { reconciler = r; cluster = cluster } in
      elim found [
        | ok h ↦ (q', none)
        | err f ↦ (note e (clusters_synced_condition (some (e.text_of f))) q', some f)
      ]
