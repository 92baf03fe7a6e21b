-- ===== src/Controllers/ClusterReconciler/Connected.antt =====
-- The cluster that `getRemoteCluster` of controllers/cluster_reconciler.go returns.
use cluster_registry_control.Common.{
  ℕ, String, ◌≡◌, refl, inl, inr, false, ◌==◌, eq_refl, Result-cases, ok, err, Result,
}
use cluster_registry_control.Api.Cluster.{ClusterResource, invalid_auth_info}
use cluster_registry_control.Clusters.Controller.{cluster_not_found}
use cluster_registry_control.Clusters.Manager.{get_cluster}
use cluster_registry_control.Clusters.Manager.Registered.{
  get_cluster-missing, get_cluster-remove_of, remove-IsRegistry,
}
use cluster_registry_control.Controllers.ClusterReconciler.{Failure, ClusterEnv, ClusterReconciler}
use cluster_registry_control.Controllers.ClusterReconciler.Remote.{
  remove_pointer, get_k8s_config_for_cluster, get_remote_cluster,
}
use cluster_registry_control.Controllers.ClusterReconciler.Registry.{
  IsSound, IsConnected, refresh-Step,
}

-- What `getRemoteCluster` promises, by what is read of the secret.
abbrev pub Answers :
    ClusterEnv
    → ClusterResource
    → Result Failure String
    → ClusterReconciler × ClusterResource × Result Failure ℕ
    → Type 0
Answers e cluster (err f) after =
    (get_cluster cluster.name after.0.clusters_manager ≡ err cluster_not_found)
    × (after.1.status.state ≡ invalid_auth_info)
    × (after.2 ≡ err f)
Answers e cluster (ok kubeconfig) after =
    (h : ℕ) → after.2 ≡ ok h → IsConnected e cluster kubeconfig h after.0

-- Only the name of the resource may be found otherwise than before, and the registry stays sound.
abbrev pub Touches : String → ClusterReconciler → ClusterReconciler → Type 0
Touches name r r' =
    IsSound r'
    × ((j : String)
        → (name == j) ≡ false
        → get_cluster j r'.clusters_manager ≡ get_cluster j r.clusters_manager)

module _ (e : ClusterEnv) (cluster : ClusterResource) (r : ClusterReconciler) (b : IsSound r) where
  drop-Touches :
      (h : ℕ)
      → get_cluster cluster.name r.clusters_manager ≡ ok h
      → Touches cluster.name r (remove_pointer h r)
        × (get_cluster cluster.name (remove_pointer h r).clusters_manager ≡ err cluster_not_found)
  drop-Touches h n =
      let after = get_cluster-remove_of r.next_cluster r.clusters_manager b cluster.name h n in
      (
        (
          remove-IsRegistry r.next_cluster r.clusters_manager b cluster.name h n,
          λ j f. rw f at (after j),
        ),
        rw (eq_refl cluster.name) at (after cluster.name),
      )

  -- From a sound registry: if the secret of the resource cannot be read, is of another type or has
  -- no kubeconfig, then no cluster of the resource's name is registered afterwards, the state of the
  -- resource is that of invalid credentials, and the error is returned. Otherwise a cluster that is
  -- returned is registered under the resource's name and is alive, and it keeps no reference to a secret
  -- and no kubeconfig other than those that the resource has now. The registry stays sound, and other names are found as
  -- before.
  pub get_remote_cluster_lem :
      Touches cluster.name r (get_remote_cluster e cluster r).0
      × Answers e cluster
          (get_k8s_config_for_cluster e cluster.spec.secret_namespace cluster.spec.secret_name)
          (get_remote_cluster e cluster r)
  unfolding get_remote_cluster
  get_remote_cluster_lem =
      elim (Result-cases
        (get_k8s_config_for_cluster e cluster.spec.secret_namespace cluster.spec.secret_name)) [
          | inl (kubeconfig, k) ↦
              let s = refresh-Step e cluster kubeconfig r b in
              rw (k, get_remote_cluster) ((s.sound, s.others), s.connected)
          | inr (f, k) ↦ elim (Result-cases (get_cluster cluster.name r.clusters_manager)) [
            | inl (h, n) ↦
                let (touches, gone) = drop-Touches h n in
                rw (k, n, get_remote_cluster) (touches, (gone, refl, refl))
            | inr (x, n) ↦
                rw (k, n, get_remote_cluster)
                  (
                    (b, λ j d. refl),
                    (get_cluster-missing cluster.name r.clusters_manager n, refl, refl),
                  )
          ]
        ]
