-- ===== src/Controllers/ClusterReconciler.antt =====
-- controllers/cluster_reconciler.go: the reconciler of the resources that stand for clusters. This
-- file has its state, what it is given, and the requests that it puts in its queue.
pub mod Remote
pub mod Steps
pub mod Run
pub mod Registry
pub mod Connected
pub mod Secrets
use cluster_registry_control.Common.{
  ℕ, String, Bool, true, false, not, ◌&&◌, ◌||◌, ◌==◌, Option, none, some, List, [], ◌∷◌, ◌++◌, Map,
  if◌then◌else◌, ok, err,
}
use cluster_registry_control.Api.Selector.{Selectors}
use cluster_registry_control.Api.Cluster.{ClusterResource, local_type}
use cluster_registry_control.Clusters.Cluster.{Probe}
use cluster_registry_control.Clusters.Manager.{Manager, get_cluster, remove}
use cluster_registry_control.Util.Kubeconfig.Overrides.{Urls, Overrides}
use cluster_registry_control.Controllers.Conditions.{local_conflict, get_current_condition}
use cluster_registry_control.Controllers.Status.{Problem, StatusApi, UpdateError}
use cluster_registry_control.ClusterMeta.{Env, MetaError}
use cluster_registry_control.Util.ReaderSecret.{SecretEnv, ReaderSecret}
use cluster_registry_control.Controllers.CoreSyncers.{CoreEnv, CoreConfig}

-- Where an error comes from.
pub data Failure : Type 0 where
  no_cluster_id could_not_get could_not_list local_cluster_conflict : Failure
  could_not_get_secret invalid_secret invalid_secret_content remote_not_alive : Failure
  could_not_load invalid_endpoint could_not_create_config could_not_start : Failure
  could_not_provision could_not_sync_core : Failure
  no_metadata_found : MetaError → Failure
  not_written : UpdateError → Failure

-- The errors that `WrapAsPermanentError` marks.
abbrev pub is_permanent : Failure → Bool
is_permanent local_cluster_conflict = true
is_permanent could_not_get_secret = true
is_permanent invalid_secret = true
is_permanent invalid_secret_content = true
is_permanent remote_not_alive = true
is_permanent _ = false

-- A secret: its type and its data.
pub record Secret : Type 0 where
  pub type : String
  pub data_map : Map String

-- What `Get` finds of a cluster.
pub data ClusterAnswer : Type 0 where
  cluster_found : ClusterResource → ClusterAnswer
  cluster_not_found cluster_failed : ClusterAnswer

-- What the reconciler is given: the answers of the API server, the configuration, the libraries
-- that read kubeconfigs, the first liveness check of a new cluster, what the secret for readers and
-- the core syncers of a local cluster are made with, the texts of errors, and the time.
pub record ClusterEnv : Type 0 where
  pub selectors : Selectors
  pub cluster_id : Option String
  pub get_resource : String → ClusterAnswer
  pub list_clusters : Option (List ClusterResource)
  pub status : StatusApi
  pub nodes : Env
  pub get_secret : String → String → Option Secret  -- namespace, name
  pub urls : Urls
  pub load_kubeconfig : String → Bool
  pub creates_config : String → Overrides → Bool
  pub network_name : String
  pub refresh_interval : ℕ  -- seconds
  pub first_probe : Probe
  pub creates_manager : Bool
  pub secrets : SecretEnv
  pub manage_local_cluster_secret : Bool
  pub reader_service_account_name : String
  pub api_server_endpoint_address : String
  pub stores_secret : ReaderSecret → Bool
  pub core : CoreEnv
  pub core_config : CoreConfig
  pub text_of : Failure → String
  pub now : ℕ

abbrev pub problem : ClusterEnv → Failure → Problem
problem e f = record { text = e.text_of f; permanent = is_permanent f }

-- The reconciler, and the first cluster pointer and controller handle that are not in use. The
-- queue is nil until it is set.
pub record ClusterReconciler : Type 0 where
  pub clusters_manager : Manager
  pub cluster_id : String
  pub queue : Option (List String)
  pub next_cluster : ℕ
  pub next_handle : ℕ

-- `setClusterID`.
unfoldable pub set_cluster_id : ClusterEnv → ClusterReconciler → Option ClusterReconciler
set_cluster_id e r =
    if r.cluster_id == ""
    then elim e.cluster_id [ none ↦ none | some id ↦ some (record r { cluster_id = id }) ]
    else some r

unfoldable pub trigger_cluster_reconcile : ClusterResource → ClusterReconciler → ClusterReconciler
trigger_cluster_reconcile c r = elim r.queue [
  | none ↦ r
  | some requests ↦ record r { queue = some (requests ++ c.name ∷ []) }
]

-- The loop of `triggerLocalClusterReconciles`.
unfoldable pub trigger_all : List ClusterResource → ClusterReconciler → ClusterReconciler
unfolding trigger_cluster_reconcile
trigger_all [] r = r
trigger_all (c ∷ cs) r = trigger_all cs (
    if (get_current_condition c local_conflict).status == "True"
    then trigger_cluster_reconcile c r
    else r)

-- `none` is an error.
unfoldable pub trigger_local_cluster_reconciles :
    ClusterEnv → ClusterReconciler → Option ClusterReconciler
trigger_local_cluster_reconciles e r = elim e.list_clusters [
  | none ↦ none
  | some cs ↦ some (trigger_all cs r)
]

-- `removeRemoteCluster`; that there is no such cluster is no error for its callers.
unfoldable pub remove_remote_cluster : String → ClusterReconciler → ClusterReconciler
remove_remote_cluster name r = elim (get_cluster name r.clusters_manager) [
  | err x ↦ r
  | ok h ↦ record r { clusters_manager = remove (some h) r.clusters_manager }
]
