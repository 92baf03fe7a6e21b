-- ===== src/Controllers/ClusterReconciler/Remote.antt =====
-- `getRemoteCluster` of controllers/cluster_reconciler.go: the registered cluster for a resource, made
-- again when its credentials have changed.
use Prim.Native.String.{◌++◌ as text_append}
use cluster_registry_control.Common.{
  ℕ, suc, String, Bool, false, not, ◌&&◌, ◌||◌, ◌==◌, none, some, [], ◌∷◌, if◌then◌else◌, Result,
  ok, err, get,
}
use cluster_registry_control.Api.Cluster.{
  ClusterResource, invalid_auth_info, secret_type, kubeconfig_key,
}
use cluster_registry_control.Clusters.Controller.{new_managed_controller}
use cluster_registry_control.Clusters.Cluster.{
  Cluster, live, with_secret_id, with_kubeconfig, add_on_dead_func, new_cluster, add_controller,
  start_cluster,
}
use cluster_registry_control.Clusters.Manager.{get_cluster, add, store, remove}
use cluster_registry_control.Util.Kubeconfig.Overrides.{
  get_kubeconfig_overrides_for_cluster_by_network,
}
use cluster_registry_control.Controllers.ClusterReconciler.{
  Failure, could_not_get_secret, invalid_secret, invalid_secret_content, remote_not_alive,
  could_not_load, invalid_endpoint, could_not_create_config, could_not_start, ClusterEnv,
  ClusterReconciler,
}

abbrev pub remote_cluster_controller : String
remote_cluster_controller = "remote-cluster"

abbrev pub feature_controller : String
feature_controller = "remote-cluster-feature"

-- The callback that puts the cluster's name in the queue.
abbrev pub requeue_func : ℕ
requeue_func = 0

unfoldable pub get_k8s_config_for_cluster : ClusterEnv → String → String → Result Failure String
get_k8s_config_for_cluster e namespace name = elim (e.get_secret namespace name) [
  | none ↦ err could_not_get_secret
  | some s ↦
      if not (s.type == secret_type)
      then err invalid_secret
      else elim (get kubeconfig_key s.data_map) [
        | none ↦ err invalid_secret_content
        | some content ↦ ok content
      ]
]

abbrev pub secret_id : ClusterResource → String
secret_id cluster =
    text_append cluster.spec.secret_namespace (text_append "/" cluster.spec.secret_name)

-- Whether a registered cluster was made from other credentials.
unfoldable pub credentials_changed : String → String → Cluster → Bool
credentials_changed id kubeconfig c =
    (elim c.secret_id [ none ↦ false | some old ↦ not (old == id) ])
    || (not (c.kubeconfig == "") && not (kubeconfig == c.kubeconfig))

-- The new cluster, before it is started.
unfoldable pub make_remote_cluster :
    ClusterEnv → ClusterReconciler → ClusterResource → String → Cluster
make_remote_cluster e r cluster kubeconfig =
    let c = new_cluster live cluster.name (
      with_secret_id (secret_id cluster)
      ∷ add_on_dead_func requeue_func
      ∷ with_kubeconfig kubeconfig
      ∷ []) in
    let remote = new_managed_controller r.next_handle remote_cluster_controller [] in
    let feature = new_managed_controller (suc r.next_handle) feature_controller [] in
    (add_controller e.selectors feature (add_controller e.selectors remote c).0).0

-- A cluster that started is put in the registry.
unfoldable pub register_remote_cluster :
    ClusterEnv → ClusterResource → String → ClusterReconciler → ClusterReconciler × Result Failure ℕ
register_remote_cluster e cluster kubeconfig r =
    let (c, failed) =
      start_cluster e.first_probe e.creates_manager (make_remote_cluster e r cluster kubeconfig) in
    elim failed [
      | some x ↦ (r, err could_not_start)
      | none ↦ (
        record r {
          clusters_manager =
              add r.next_cluster (record r.clusters_manager {
                heap = store r.next_cluster c r.clusters_manager.heap;
              });
          next_cluster = suc r.next_cluster;
          next_handle = suc (suc r.next_handle);
        },
        ok r.next_cluster,
      )
    ]

-- From `clientcmd.Load` on.
unfoldable pub connect_remote_cluster :
    ClusterEnv → ClusterResource → String → ClusterReconciler → ClusterReconciler × Result Failure ℕ
connect_remote_cluster e cluster kubeconfig r =
    if not (e.load_kubeconfig kubeconfig)
    then (r, err could_not_load)
    else elim (get_kubeconfig_overrides_for_cluster_by_network e.urls cluster e.network_name) [
      | none ↦ (r, err invalid_endpoint)
      | some overrides ↦
          if not (e.creates_config kubeconfig overrides)
          then (r, err could_not_create_config)
          else register_remote_cluster e cluster kubeconfig r
    ]

abbrev pub remove_pointer : ℕ → ClusterReconciler → ClusterReconciler
remove_pointer h r = record r { clusters_manager = remove (some h) r.clusters_manager }

-- For a kubeconfig that was read.
unfoldable pub refresh_remote_cluster :
    ClusterEnv → ClusterResource → String → ClusterReconciler → ClusterReconciler × Result Failure ℕ
refresh_remote_cluster e cluster kubeconfig r = elim (get_cluster cluster.name r.clusters_manager) [
  | err x ↦ connect_remote_cluster e cluster kubeconfig r
  | ok h ↦
      let c = r.clusters_manager.heap h in
      if not c.alive
      then (r, err remote_not_alive)
      else if credentials_changed (secret_id cluster) kubeconfig c
      then connect_remote_cluster e cluster kubeconfig (remove_pointer h r)
      else (r, ok h)
]

-- `getRemoteCluster`, which also changes the state of the resource.
unfoldable pub get_remote_cluster :
    ClusterEnv
    → ClusterResource
    → ClusterReconciler
    → ClusterReconciler × ClusterResource × Result Failure ℕ
get_remote_cluster e cluster r =
    elim (get_k8s_config_for_cluster e cluster.spec.secret_namespace cluster.spec.secret_name) [
      | err f ↦ (
        elim (get_cluster cluster.name r.clusters_manager) [
          | err x ↦ r
          | ok h ↦ remove_pointer h r
        ],
        record cluster { status = record cluster.status { state = invalid_auth_info } },
        err f,
      )
      | ok kubeconfig ↦
          let (r', found) = refresh_remote_cluster e cluster kubeconfig r in (r', cluster, found)
    ]
