-- ===== src/Clusters/Cluster/Steps.antt =====
-- The life of a cluster as steps: the calls of its methods, the ticks of the liveness loop, and the
-- ends of the goroutines that `Start`, `StartManager` and a controller leave behind.
use cluster_registry_control.Common.{
  ℕ, String, ◌≡◌, refl, inl, inr, Bool, true, false, none, some, [], arith, Bool-cases, get,
}
use cluster_registry_control.Api.Selector.{Selectors}
use cluster_registry_control.Clusters.Feature.{ClusterFeature}
use cluster_registry_control.Clusters.Controller.{ManagedController, set_running}
use cluster_registry_control.Clusters.Cluster.{
  Cluster, Context, is_done, mgr_ctx_is_done, new_cluster, start_cluster, start_manager, set_alive,
  cancel_manager, set_dead, Probe, no_clientset, no_namespace, found, liveness_check, stop_cluster,
  stop_manager, add_controller, remove_controller_by_name, add_feature, remove_feature,
  add_on_alive_func, add_on_dead_func, check_required_cluster_features,
}
use cluster_registry_control.Clusters.Cluster.Gate.{
  IsGated, add_controller-IsGated, remove_controller_by_name-IsGated, add_feature-IsGated,
  remove_feature-IsGated,
}
use cluster_registry_control.Clusters.Cluster.Liveness.{
  start_manager_lem, set_alive_lem, set_dead_lem,
}

module _ (s : Selectors) where
  pub data Step : Cluster → Cluster → Type 0 where
    starts : {c : Cluster} (p : Probe) (created : Bool) → Step c (start_cluster p created c).0
    ticks :
        {c : Cluster} (p : Probe) (created : Bool)
        → c.started ≡ true
        → Step c (liveness_check p created c).0
    ends :
        {c : Cluster}
        → c.started ≡ true
        → is_done c.ctx ≡ true
        → Step c (record (set_dead c) { started = false })
    manager_exits :
        {c : Cluster}
        → c.mgr ≡ true
        → mgr_ctx_is_done c.ctx c.mgr_ctx ≡ true
        → Step c (record c { mgr_ctx = none; mgr = false })
    controller_exits :
        {c : Cluster} (h : ℕ) → Step c (record c { running = set_running h false c.running })
    starts_manager : {c : Cluster} (created : Bool) → Step c (start_manager created c).0
    stops_manager : {c : Cluster} → Step c (stop_manager c)
    stops : {c : Cluster} → Step c (stop_cluster c)
    adds_on_alive_func : {c : Cluster} (f : ℕ) → Step c (add_on_alive_func f c)
    adds_on_dead_func : {c : Cluster} (f : ℕ) → Step c (add_on_dead_func f c)
    adds_controller : {c : Cluster} (k : ManagedController) → Step c (add_controller s k c).0
    removes_controller : {c : Cluster} (name : String) → Step c (remove_controller_by_name name c)
    adds_feature :
        {c : Cluster} (f : ClusterFeature)
        → get f.uid c.features ≡ none
        → Step c (add_feature s f c)
    removes_feature : {c : Cluster} (uid : String) → Step c (remove_feature s uid c)

  pub data Reach (c : Cluster) : Cluster → Type 0 where
    here : Reach c c
    next : {d e : Cluster} → Reach c d → Step d e → Reach c e

  -- Everything that the gate speaks of is the same in two states.
  abbrev Same : Cluster → Cluster → Type 0
  Same c d =
      (d.controllers ≡ c.controllers)
      × (d.pending_controllers ≡ c.pending_controllers)
      × (d.features ≡ c.features)

  Same-IsGated : {c d : Cluster} → Same c d → IsGated s c → IsGated s d
  Same-IsGated (a, b, f) g = record {
    keyed = rw a g.keyed;
    keyed_pending = rw b g.keyed_pending;
    met = rw (a, f) g.met;
  }

  start_manager-Same : (created : Bool) (c : Cluster) → Same c (start_manager created c).0
  start_manager-Same created c = ground (arith, start_manager_lem created c)

  cancel_manager-Same : (c : Cluster) → Same c (cancel_manager c)
  unfolding cancel_manager
  cancel_manager-Same c = ground arith

  set_alive-Same : (created : Bool) (c : Cluster) → Same c (set_alive created c)
  unfolding set_alive
  set_alive-Same created c = elim (Bool-cases c.alive) [
    | inl e ↦ ground arith
    | inr e ↦ rw (set_alive_lem created c e) (ground (arith, start_manager-Same created c))
  ]

  set_dead-Same : (c : Cluster) → Same c (set_dead c)
  unfolding set_dead
  set_dead-Same c = elim (Bool-cases c.alive) [
    | inl e ↦ rw (set_dead_lem c e) (cancel_manager-Same c)
    | inr e ↦ ground arith
  ]

  liveness_check-Same :
      (p : Probe) (created : Bool) (c : Cluster) → Same c (liveness_check p created c).0
  unfolding liveness_check
  liveness_check-Same no_clientset created c = set_dead-Same c
  liveness_check-Same no_namespace created c = set_dead-Same c
  liveness_check-Same (found uid) created c = set_alive-Same created c

  start_cluster-Same :
      (p : Probe) (created : Bool) (c : Cluster) → Same c (start_cluster p created c).0
  unfolding start_cluster
  start_cluster-Same p created c = ground (arith, liveness_check-Same p created c)

  add_on_alive_func-Same : (f : ℕ) (c : Cluster) → Same c (add_on_alive_func f c)
  unfolding add_on_alive_func
  add_on_alive_func-Same f c = ground arith

  Step-IsGated : {c d : Cluster} → Step c d → IsGated s c → IsGated s d
  unfolding stop_manager stop_cluster add_on_dead_func
  Step-IsGated (starts {c} p created) g = Same-IsGated (start_cluster-Same p created c) g
  Step-IsGated (ticks {c} p created h) g = Same-IsGated (liveness_check-Same p created c) g
  Step-IsGated (ends {c} h d) g = Same-IsGated (set_dead-Same c) g
  Step-IsGated (manager_exits m h) g = Same-IsGated (refl, refl, refl) g
  Step-IsGated (controller_exits h) g = Same-IsGated (refl, refl, refl) g
  Step-IsGated (starts_manager {c} created) g = Same-IsGated (start_manager-Same created c) g
  Step-IsGated (stops_manager {c}) g = Same-IsGated (cancel_manager-Same c) g
  Step-IsGated stops g = Same-IsGated (refl, refl, refl) g
  Step-IsGated (adds_on_alive_func {c} f) g = Same-IsGated (add_on_alive_func-Same f c) g
  Step-IsGated (adds_on_dead_func f) g = Same-IsGated (refl, refl, refl) g
  Step-IsGated (adds_controller {c} k) g = add_controller-IsGated s k c g
  Step-IsGated (removes_controller {c} name) g = remove_controller_by_name-IsGated s name c g
  Step-IsGated (adds_feature {c} f fresh) g = add_feature-IsGated s f c fresh g
  Step-IsGated (removes_feature {c} uid) g = remove_feature-IsGated s uid c g.keyed g.keyed_pending

  Reach-IsGated : {c d : Cluster} → IsGated s c → Reach c d → IsGated s d
  Reach-IsGated g here = g
  Reach-IsGated g (next r st) = Step-IsGated st (Reach-IsGated g r)

  new_cluster-IsGated : (parent : Context) (name : String) → IsGated s (new_cluster parent name [])
  unfolding new_cluster get
  new_cluster-IsGated parent name = record {
    keyed = λ j x e. cc;
    keyed_pending = λ j x e. cc;
    met = λ j x e. cc;
  }

  -- Whatever calls, probes and exits a new cluster goes through, as long as no feature is added
  -- under a uid that the cluster has: a controller is active only while all the features that it
  -- requires are there, and it stands under its own name.
  pub reachable_controllers_are_met :
      (parent : Context) (name : String) {d : Cluster}
      → Reach (new_cluster parent name []) d
      → (j : String) (x : ManagedController) → get j d.controllers ≡ some x
      → (check_required_cluster_features s x d.features ≡ true) × (x.name ≡ j)
  reachable_controllers_are_met parent name r j x e =
      let g = Reach-IsGated (new_cluster-IsGated parent name) r in (g.met j x e, g.keyed j x e)
