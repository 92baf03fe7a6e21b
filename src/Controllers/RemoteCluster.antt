-- ===== src/Controllers/RemoteCluster.antt =====
-- controllers/remote_cluster_reconciler.go and remote_cluster_feature_reconciler.go: the controllers
-- that run on a remote cluster. The first keeps the status of the local resource that stands for it.
pub mod Latest
pub mod Synced
use cluster_registry_control.Common.{
  ℕ, String, Bool, true, false, not, ◌&&◌, ◌||◌, ◌==◌, Option, none, some, List, [], ◌∷◌, ◌++◌, Map,
  get, put, if◌then◌else◌, Result, ok, err,
}
use cluster_registry_control.Api.Cluster.{ClusterCondition, ClusterResource, reset, ready_state}
use cluster_registry_control.Api.Selector.{Selectors}
use cluster_registry_control.ClusterMeta.{Env, MetaError}
use cluster_registry_control.ClusterMeta.Metadata.{get_cluster_metadata}
use cluster_registry_control.Clusters.Feature.{ClusterFeature}
use cluster_registry_control.Clusters.Cluster.{Cluster, add_feature, remove_feature}
use cluster_registry_control.Controllers.Sync.Mutate.{clusters_by_id}
use cluster_registry_control.Controllers.Conditions.{
  Event, set_condition, get_current_conditions, cluster_metadata_condition,
  clusters_synced_condition,
}
use cluster_registry_control.Controllers.Status.{Problem, StatusApi, UpdateError, update_cluster}
use cluster_registry_control.Controllers.ClusterReconciler.{
  ClusterAnswer, cluster_found, cluster_not_found, cluster_failed,
}

-- Why the clusters are not in sync.
pub data SyncFault : Type 0 where
  no_local_clusters no_remote_clusters : SyncFault
  name_mismatch not_ready : String → String → SyncFault  -- names; name and state
  not_at_remote : String → SyncFault

pub data RemoteFailure : Type 0 where
  no_cluster_id could_not_get invalid_cluster_id : RemoteFailure
  no_metadata_found : MetaError → RemoteFailure

-- What the reconciler is given. The texts of errors are those of the Go values.
pub record RemoteEnv : Type 0 where
  pub cluster_id : Option String  -- of the remote cluster
  pub get_resource : String → ClusterAnswer
  pub local_clusters : Option (List ClusterResource)
  pub remote_clusters : Option (List ClusterResource)
  pub nodes : Env
  pub status : StatusApi
  pub text_of : RemoteFailure → String
  pub text_of_faults : List SyncFault → String
  pub now : ℕ

-- What is wrong with one local cluster.
unfoldable pub faults_of : Map ClusterResource → ClusterResource → List SyncFault
faults_of remote c = elim (get c.spec.cluster_id remote) [
  | none ↦ not_at_remote c.name ∷ []
  | some rc ↦
      (if not (c.name == rc.name) then name_mismatch c.name rc.name ∷ [] else [])
      ++ (if not (rc.status.state == ready_state)
          then not_ready rc.name rc.status.state ∷ []
          else [])
]

-- The loop of `syncClusters`.
unfoldable pub collect_faults : Map ClusterResource → Map ClusterResource → List SyncFault
collect_faults remote [] = []
collect_faults remote ((id, c) ∷ rest) = faults_of remote c ++ collect_faults remote rest

-- `syncClusters`; no faults are the nil error.
unfoldable pub sync_clusters : RemoteEnv → List SyncFault
sync_clusters e = elim e.local_clusters [
  | none ↦ no_local_clusters ∷ []
  | some ls ↦ elim e.remote_clusters [
    | none ↦ no_remote_clusters ∷ []
    | some rs ↦ collect_faults (clusters_by_id rs []) (clusters_by_id ls [])
  ]
]

-- The resource, its conditions and the events on the way.
pub record RemoteRun : Type 0 where
  pub cluster : ClusterResource
  pub conditions : Map ClusterCondition
  pub events : List Event

unfoldable pub record_condition : RemoteEnv → ClusterCondition → RemoteRun → RemoteRun
record_condition e c p =
    let (conditions, events) = set_condition e.now e.now c p.conditions in
    record p { conditions = conditions; events = p.events ++ events }

abbrev pub text_of_sync : RemoteEnv → List SyncFault → Option String
text_of_sync e [] = none
text_of_sync e (f ∷ fs) = some (e.text_of_faults (f ∷ fs))

-- `reconcile`, for the id of the remote cluster.
unfoldable pub reconcile_status : RemoteEnv → String → RemoteRun → RemoteRun × Option RemoteFailure
reconcile_status e id p =
    if not (id == p.cluster.spec.cluster_id)
    then (p, some invalid_cluster_id)
    else elim (get_cluster_metadata e.nodes) [
      | err m ↦
          let text = some (e.text_of (no_metadata_found m)) in
          (
            record_condition e (clusters_synced_condition text)
                (record_condition e (cluster_metadata_condition text) p),
            some (no_metadata_found m),
          )
      | ok metadata ↦
          let q = record_condition e (cluster_metadata_condition none) p in
          let c = record q.cluster { status = record q.cluster.status { metadata = metadata } } in
          (
            record_condition e (clusters_synced_condition (text_of_sync e (sync_clusters e)))
                (record q { cluster = c }),
            none,
          )
    ]

abbrev pub is_permanent_failure : RemoteFailure → Bool
is_permanent_failure invalid_cluster_id = true
is_permanent_failure _ = false

abbrev pub problem_of : RemoteEnv → Option RemoteFailure → Option Problem
problem_of e none = none
problem_of e (some f) = some (record { text = e.text_of f; permanent = is_permanent_failure f })

-- What a run returns: the accepted status updates, the events, and the error.
pub record RemoteOutcome : Type 0 where
  pub writes : List ClusterResource
  pub events : List Event
  pub failed : Option UpdateError

-- `Reconcile` for a resource that was read.
unfoldable pub reconcile_resource : RemoteEnv → String → ClusterResource → RemoteOutcome
reconcile_resource e id cluster =
    let c = record cluster { status = reset cluster.status } in
    let (p, failure) =
      reconcile_status e id
        (record { cluster = c; conditions = get_current_conditions c; events = [] }) in
    let q : RemoteRun = elim failure [
      | none ↦ p
      | some f ↦ record_condition e (clusters_synced_condition (some (e.text_of f))) p
    ] in
    let (writes, cluster', failed) =
      update_cluster e.status (problem_of e failure) q.conditions q.cluster in
    record { writes = writes; events = q.events; failed = failed }

-- `setClusterID`, for the id that is kept.
unfoldable pub learn_cluster_id : RemoteEnv → String → Option String
learn_cluster_id e id = if id == "" then e.cluster_id else some id

-- `Reconcile`, with the id that is kept afterwards.
unfoldable pub reconcile_remote :
    RemoteEnv → String → String → String × Result RemoteFailure RemoteOutcome
reconcile_remote e name kept = elim (learn_cluster_id e kept) [
  | none ↦ (kept, err no_cluster_id)
  | some id ↦ (
    id,
    elim (e.get_resource name) [
      | cluster_not_found ↦ ok (record { writes = []; events = []; failed = none })
      | cluster_failed ↦ err could_not_get
      | cluster_found cluster ↦ ok (reconcile_resource e id cluster)
    ],
  )
]

-- What reading a feature gives: its name and its labels.
pub data FeatureAnswer : Type 0 where
  feature_found : String → Map String → FeatureAnswer
  feature_not_found feature_failed : FeatureAnswer

-- `Reconcile` of the feature reconciler, for the name of a request, and whether there is an error.
unfoldable pub reconcile_feature : Selectors → String → FeatureAnswer → Cluster → Cluster × Bool
reconcile_feature s name (feature_found feature labels) c =
    (add_feature s (record { uid = name; name = feature; labels = labels }) c, false)
reconcile_feature s name feature_not_found c = (remove_feature s name c, false)
reconcile_feature s name feature_failed c = (c, true)
