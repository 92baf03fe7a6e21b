-- ===== src/Controllers/ClusterReconciler/Registry.antt =====
-- The steps of `getRemoteCluster` of controllers/cluster_reconciler.go, and what they leave in the
-- registry.
use mathlib.Core.Path.{subst}
use cluster_registry_control.Common.{
  ℕ, suc, String, ◌≡◌, refl, sym, ap, ◌∙◌, ◌⊎◌, eq_iff, inl, inr, none, true, false, ◌==◌, not,
  some, [], ◌∷◌, arith, eq_refl, if◌then◌else◌, if-cases, Bool-cases, Option-cases, Result-cases,
  ok_eq, not_both, ok, err, Result,
}
use cluster_registry_control.Api.Cluster.{ClusterResource}
use cluster_registry_control.Clusters.Controller.{new_managed_controller}
use cluster_registry_control.Clusters.Cluster.{
  Cluster, live, with_secret_id, with_kubeconfig, add_on_dead_func, new_cluster, add_controller,
  start_cluster,
}
use cluster_registry_control.Clusters.Cluster.Identity.{
  identity, start_cluster-identity, add_controller-identity, start_cluster-alive,
}
use cluster_registry_control.Clusters.Manager.{get_cluster}
use cluster_registry_control.Clusters.Manager.Registered.{
  IsRegistry, add_new, get_cluster-add_new, heap-add_new, add_new-IsRegistry, get_cluster-remove_of,
  remove-IsRegistry,
}
use cluster_registry_control.Util.Kubeconfig.Overrides.{
  get_kubeconfig_overrides_for_cluster_by_network,
}
use cluster_registry_control.Controllers.ClusterReconciler.{
  Failure, could_not_start, could_not_load, invalid_endpoint, could_not_create_config,
  remote_not_alive, ClusterEnv, ClusterReconciler,
}
use cluster_registry_control.Controllers.ClusterReconciler.Remote.{
  secret_id, credentials_changed, make_remote_cluster, register_remote_cluster,
  connect_remote_cluster, remove_pointer, refresh_remote_cluster, requeue_func,
  remote_cluster_controller, feature_controller,
}

-- The registry is well formed, with the pointers that are in use.
abbrev pub IsSound : ClusterReconciler → Type 0
IsSound r = IsRegistry r.next_cluster r.clusters_manager

make_remote_cluster-identity :
    (e : ClusterEnv) (r : ClusterReconciler) (cluster : ClusterResource) (kubeconfig : String)
    → identity (make_remote_cluster e r cluster kubeconfig)
      ≡ (cluster.name, some (secret_id cluster), kubeconfig)
unfolding make_remote_cluster new_cluster with_secret_id with_kubeconfig add_on_dead_func
make_remote_cluster-identity e r cluster kubeconfig =
    let c = new_cluster live cluster.name (
      with_secret_id (secret_id cluster)
      ∷ add_on_dead_func requeue_func
      ∷ with_kubeconfig kubeconfig
      ∷ []) in
    let remote = new_managed_controller r.next_handle remote_cluster_controller [] in
    let feature = new_managed_controller (suc r.next_handle) feature_controller [] in
    add_controller-identity e.selectors feature (add_controller e.selectors remote c).0
    ∙ add_controller-identity e.selectors remote c

-- A cluster has no other reference to a secret and no other kubeconfig than these.
abbrev pub IsCurrent : String → String → Cluster → Type 0
IsCurrent id kubeconfig c =
    ((c.secret_id ≡ none) ⊎ (c.secret_id ≡ some id))
    × ((c.kubeconfig ≡ "") ⊎ (c.kubeconfig ≡ kubeconfig))

credentials_changed-IsCurrent :
    (id kubeconfig : String) (c : Cluster)
    → credentials_changed id kubeconfig c ≡ false
    → IsCurrent id kubeconfig c
unfolding credentials_changed
credentials_changed-IsCurrent id kubeconfig c h = (
  elim (Option-cases c.secret_id) [
    | inl n ↦ inl n
    | inr (old, n) ↦ inr (ground (arith, eq_iff old id))
  ],
  elim (Bool-cases (c.kubeconfig == "")) [
    | inl t ↦ inl ((eq_iff c.kubeconfig "").0 t)
    | inr f ↦ inr (ground (arith, eq_iff kubeconfig c.kubeconfig))
  ],
)

module _ (e : ClusterEnv) (cluster : ClusterResource) (kubeconfig : String) where
  -- A cluster that is returned is registered under the resource's name, is alive, and has no
  -- other credentials than the resource has now.
  abbrev pub IsConnected : ℕ → ClusterReconciler → Type 0
  IsConnected h r =
      (get_cluster cluster.name r.clusters_manager ≡ ok h)
      × ((r.clusters_manager.heap h).alive ≡ true)
      × IsCurrent (secret_id cluster) kubeconfig (r.clusters_manager.heap h)

  started : ClusterReconciler → Cluster
  started r =
      (start_cluster e.first_probe e.creates_manager (make_remote_cluster e r cluster kubeconfig)).0

  started-identity :
      (r : ClusterReconciler)
      → identity (started r) ≡ (cluster.name, some (secret_id cluster), kubeconfig)
  unfolding started
  started-identity r =
      start_cluster-identity e.first_probe e.creates_manager
        (make_remote_cluster e r cluster kubeconfig)
      ∙ make_remote_cluster-identity e r cluster kubeconfig

  started-IsCurrent : (r : ClusterReconciler) → IsCurrent (secret_id cluster) kubeconfig (started r)
  started-IsCurrent r =
      let id : (started r).secret_id ≡ some (secret_id cluster) =
        ap (λ p. p.1) (started-identity r) in
      let config : (started r).kubeconfig ≡ kubeconfig = ap (λ p. p.2) (started-identity r) in
      (inr id, inr config)

  -- What one of the steps does, from a sound registry.
  pub record Step (r : ClusterReconciler) (after : ClusterReconciler × Result Failure ℕ)
      : Type 0 where
    pub sound : IsSound after.0
    pub connected : (h : ℕ) → after.1 ≡ ok h → IsConnected h after.0
    pub others :
        (j : String)
        → (cluster.name == j) ≡ false
        → get_cluster j after.0.clusters_manager ≡ get_cluster j r.clusters_manager

  failed-Step : (r : ClusterReconciler) (x : Failure) → IsSound r → Step r (r, err x)
  failed-Step r x b = record {
    sound = b;
    connected = λ h q. absurd (not_both {a = h} q refl);
    others = λ j f. refl;
  }

  added : ClusterReconciler → ClusterReconciler
  added r = record r {
    clusters_manager = add_new r.next_cluster (started r) r.clusters_manager;
    next_cluster = suc r.next_cluster;
    next_handle = suc (suc r.next_handle);
  }

  added-Step :
      (r : ClusterReconciler)
      → IsSound r
      → (started r).alive ≡ true
      → Step r (added r, ok r.next_cluster)
  unfolding added
  added-Step r b alive =
      let named : (started r).name ≡ cluster.name = ap (λ p. p.0) (started-identity r) in
      let read : (j : String)
          → get_cluster j (added r).clusters_manager
            ≡ (if cluster.name == j then ok r.next_cluster else get_cluster j r.clusters_manager) =
        λ j.
          get_cluster-add_new r.next_cluster (started r) r.clusters_manager j
          ∙ ap (λ n. if n == j then ok r.next_cluster else get_cluster j r.clusters_manager)
              named in
      let stored : (added r).clusters_manager.heap r.next_cluster ≡ started r =
        rw (heap-add_new r.next_cluster (started r) r.clusters_manager r.next_cluster)
          (ground arith) in
      record {
        sound = add_new-IsRegistry r.next_cluster (started r) r.clusters_manager b;
        connected = λ h q.
            let same : r.next_cluster ≡ h = ok_eq refl q in
            subst (λ k. IsConnected k (added r)) same
              (
                rw (eq_refl cluster.name) at (read cluster.name),
                ap (λ c. c.alive) stored ∙ alive,
                subst (IsCurrent (secret_id cluster) kubeconfig) (sym stored) (started-IsCurrent r),
              );
        others = λ j f. rw f at (read j);
      }

  register-Step :
      (r : ClusterReconciler) → IsSound r → Step r (register_remote_cluster e cluster kubeconfig r)
  unfolding register_remote_cluster started added add_new
  register-Step r b =
      let c = make_remote_cluster e r cluster kubeconfig in
      elim (Option-cases (start_cluster e.first_probe e.creates_manager c).1) [
        | inl n ↦
            rw (n, register_remote_cluster)
              (added-Step r b (start_cluster-alive e.first_probe e.creates_manager c n))
        | inr (x, n) ↦ rw (n, register_remote_cluster) (failed-Step r could_not_start b)
      ]

  connect-Step :
      (r : ClusterReconciler) → IsSound r → Step r (connect_remote_cluster e cluster kubeconfig r)
  unfolding connect_remote_cluster
  connect-Step r b = elim (Bool-cases (e.load_kubeconfig kubeconfig)) [
    | inr l ↦ rw (l, connect_remote_cluster) (failed-Step r could_not_load b)
    | inl l ↦
        elim (Option-cases
          (get_kubeconfig_overrides_for_cluster_by_network e.urls cluster e.network_name)) [
            | inl o ↦ rw (l, o, connect_remote_cluster) (failed-Step r invalid_endpoint b)
            | inr (v, o) ↦ elim (Bool-cases (e.creates_config kubeconfig v)) [
              | inl c ↦ rw (l, o, c, connect_remote_cluster) (register-Step r b)
              | inr c ↦
                  rw (l, o, c, connect_remote_cluster) (failed-Step r could_not_create_config b)
            ]
          ]
  ]

  -- Removing the cluster of the resource first changes no other name.
  removed-Step :
      (r : ClusterReconciler) (h : ℕ) {after : ClusterReconciler × Result Failure ℕ}
      → IsSound r
      → get_cluster cluster.name r.clusters_manager ≡ ok h
      → Step (remove_pointer h r) after
      → Step r after
  removed-Step r h b q s = record {
    sound = s.sound;
    connected = s.connected;
    others = λ j f.
        s.others j f
        ∙ rw f at (get_cluster-remove_of r.next_cluster r.clusters_manager b cluster.name h q j);
  }

  pub refresh-Step :
      (r : ClusterReconciler) → IsSound r → Step r (refresh_remote_cluster e cluster kubeconfig r)
  unfolding refresh_remote_cluster
  refresh-Step r b = elim (Result-cases (get_cluster cluster.name r.clusters_manager)) [
    | inr (x, n) ↦ rw (n, refresh_remote_cluster) (connect-Step r b)
    | inl (h, n) ↦
        let c = r.clusters_manager.heap h in
        rw (n, refresh_remote_cluster)
          (if-cases (Step r) (not c.alive) (λ a. failed-Step r remote_not_alive b)
            (λ a.
              if-cases (Step r) (credentials_changed (secret_id cluster) kubeconfig c)
                (λ t. removed-Step r h b n (
                  connect-Step (remove_pointer h r)
                    (remove-IsRegistry r.next_cluster r.clusters_manager b cluster.name h n)))
                (λ f. record {
                  sound = b;
                  connected = λ k q.
                      subst (λ i. IsConnected i r) (ok_eq refl q)
                        (
                          n,
                          ground (arith, a),
                          credentials_changed-IsCurrent (secret_id cluster) kubeconfig c f,
                        );
                  others = λ j d. refl;
                })))
  ]
