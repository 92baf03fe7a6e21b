-- ===== src/Clusters/Cluster/Identity.antt =====
-- What the life cycle of a cluster leaves alone: its name and the credentials that it was made from.
use cluster_registry_control.Common.{
  ℕ, String, ◌≡◌, refl, Bool, true, false, Option, none, some, List, [], ◌∷◌, arith, Map,
}
use cluster_registry_control.Api.Selector.{Selectors}
use cluster_registry_control.Clusters.Controller.{ManagedController, start}
use cluster_registry_control.Clusters.Cluster.{
  Cluster, Probe, live, no_clientset, no_namespace, found, run_cluster_func, run_cluster_funcs,
  cancel_manager, start_controllers, start_manager, set_alive, set_dead, liveness_check,
  start_cluster, activate_controller, add_controller,
}

-- The name, the id of the secret, and the kubeconfig.
abbrev pub identity : Cluster → String × Option String × String
identity c = (c.name, c.secret_id, c.kubeconfig)

run_cluster_funcs-identity :
    (fs : List ℕ) (c : Cluster) → identity (run_cluster_funcs fs c) ≡ identity c
unfolding run_cluster_funcs
run_cluster_funcs-identity [] c = refl
run_cluster_funcs-identity (f ∷ fs) c = run_cluster_funcs-identity fs (run_cluster_func f c)

start_controllers-identity :
    (ks : Map ManagedController) (c : Cluster) → identity (start_controllers ks c).0 ≡ identity c
unfolding start_controllers
start_controllers-identity [] c = refl
start_controllers-identity ((n, k) ∷ ks) c =
    let c' = record c { running = (start k c.running).0 } in
    ground (arith, start_controllers-identity ks c')

start_manager-identity :
    (created : Bool) (c : Cluster) → identity (start_manager created c).0 ≡ identity c
unfolding start_manager
start_manager-identity created c = ground (
  arith,
  start_controllers-identity c.controllers
      (record c { mgr_stopped = false; mgr_ctx = some live; mgr = created }),
)

set_alive-identity : (created : Bool) (c : Cluster) → identity (set_alive created c) ≡ identity c
unfolding set_alive
set_alive-identity created c =
    let c' = (start_manager created c).0 in
    ground (
      arith,
      start_manager-identity created c,
      run_cluster_funcs-identity c'.on_alive_funcs c',
      run_cluster_funcs-identity c.on_alive_funcs c,
    )

set_dead-identity : (c : Cluster) → identity (set_dead c) ≡ identity c
unfolding set_dead cancel_manager
set_dead-identity c =
    let c' = cancel_manager c in ground (arith, run_cluster_funcs-identity c'.on_dead_funcs c')

pub start_cluster-identity :
    (p : Probe) (created : Bool) (c : Cluster) → identity (start_cluster p created c).0 ≡ identity c
unfolding start_cluster liveness_check
start_cluster-identity no_clientset created c = set_dead-identity c
start_cluster-identity no_namespace created c = set_dead-identity c
start_cluster-identity (found uid) created c = set_alive-identity created c

pub add_controller-identity :
    (s : Selectors) (k : ManagedController) (c : Cluster)
    → identity (add_controller s k c).0 ≡ identity c
unfolding add_controller activate_controller
add_controller-identity s k c = ground arith

set_alive-alive : (created : Bool) (c : Cluster) → (set_alive created c).alive ≡ true
unfolding set_alive
set_alive-alive created c = ground arith

-- A cluster that starts is alive.
pub start_cluster-alive :
    (p : Probe) (created : Bool) (c : Cluster)
    → (start_cluster p created c).1 ≡ none
    → (start_cluster p created c).0.alive ≡ true
unfolding start_cluster liveness_check
start_cluster-alive no_clientset created c e = absurd (ground arith)
start_cluster-alive no_namespace created c e = absurd (ground arith)
start_cluster-alive (found uid) created c e = set_alive-alive created c
