-- ===== src/Clusters/Cluster.antt =====
-- pkg/clusters/cluster.go: one cluster, its liveness, its manager, its controllers and features. A
-- method that changes the receiver returns the new record. Of a context only whether it is done is
-- kept; of the callbacks only the order in which they are run.
pub mod Gate
pub mod Pending
pub mod Liveness
pub mod Steps
pub mod Restart
pub mod Identity
pub mod Access
use cluster_registry_control.Common.{
  ℕ, String, Bool, true, false, not, ◌&&◌, ◌||◌, ◌==◌, Option, none, some, List, [], ◌∷◌, ◌++◌, Map,
  get, put, delete, has, is_some, is_empty, if◌then◌else◌,
}
use cluster_registry_control.Api.Selector.{Selectors}
use cluster_registry_control.Clusters.Feature.{ClusterFeature, ClusterFeatureRequirement, match}
use cluster_registry_control.Clusters.Controller.{
  ManagedController, Error, no_cluster_id, could_not_create_manager, Running, set_running, start,
  stop,
}

pub data Context : Type 0 where
  live cancelled : Context

pub record Cluster : Type 0 where
  pub name : String
  pub ctx : Context
  pub mgr_ctx : Option Context  -- `none` for nil
  pub mgr : Bool  -- not nil
  pub alive : Bool
  pub started : Bool
  pub mgr_stopped : Bool
  pub secret_id : Option String
  pub cluster_id : String
  pub liveness_check_interval : ℕ  -- seconds
  pub on_alive_funcs : List ℕ
  pub on_dead_funcs : List ℕ
  pub features : Map ClusterFeature
  pub kubeconfig : String
  pub controllers : Map ManagedController
  pub pending_controllers : Map ManagedController
  pub running : Running
  pub ran : List ℕ  -- the callbacks that were run, in order

abbrev pub default_liveness_check_interval : ℕ
default_liveness_check_interval = 5

abbrev pub is_done : Context → Bool
is_done live = false
is_done cancelled = true

-- The manager's context is a child of the cluster's.
abbrev pub mgr_ctx_is_done : Context → Option Context → Bool
mgr_ctx_is_done ctx none = false
mgr_ctx_is_done ctx (some m) = is_done ctx || is_done m

unfoldable pub with_secret_id : String → Cluster → Cluster
with_secret_id id c = record c { secret_id = some id }

unfoldable pub with_kubeconfig : String → Cluster → Cluster
with_kubeconfig kubeconfig c = record c { kubeconfig = kubeconfig }

unfoldable pub with_liveness_check_interval : ℕ → Cluster → Cluster
with_liveness_check_interval interval c = record c { liveness_check_interval = interval }

-- `runClusterFunc`, as an entry of the log.
abbrev pub run_cluster_func : ℕ → Cluster → Cluster
run_cluster_func f c = record c { ran = c.ran ++ f ∷ [] }

unfoldable pub run_cluster_funcs : List ℕ → Cluster → Cluster
run_cluster_funcs [] c = c
run_cluster_funcs (f ∷ fs) c = run_cluster_funcs fs (run_cluster_func f c)

unfoldable pub add_on_alive_func : ℕ → Cluster → Cluster
add_on_alive_func f c =
    let c' = record c { on_alive_funcs = c.on_alive_funcs ++ f ∷ [] } in
    if c'.alive then run_cluster_func f c' else c'

unfoldable pub add_on_dead_func : ℕ → Cluster → Cluster
add_on_dead_func f c = record c { on_dead_funcs = c.on_dead_funcs ++ f ∷ [] }

abbrev pub apply_options : List (Cluster → Cluster) → Cluster → Cluster
apply_options [] c = c
apply_options (opt ∷ opts) c = apply_options opts (opt c)

-- The parent context is given, since the cluster's own is its child.
unfoldable pub new_cluster : Context → String → List (Cluster → Cluster) → Cluster
new_cluster parent name opts = apply_options opts (record {
  name = name;
  ctx = parent;
  mgr_ctx = none;
  mgr = false;
  alive = false;
  started = false;
  mgr_stopped = false;
  secret_id = none;
  cluster_id = "";
  liveness_check_interval = default_liveness_check_interval;
  on_alive_funcs = [];
  on_dead_funcs = [];
  features = [];
  kubeconfig = "";
  controllers = [];
  pending_controllers = [];
  running = λ h. false;
  ran = [];
})

abbrev pub is_manager_running : Cluster → Bool
is_manager_running c = not c.mgr_stopped && c.mgr

-- `Stop`: the context is cancelled, and the liveness loop sees that later.
unfoldable pub stop_cluster : Cluster → Cluster
stop_cluster c = record c { ctx = cancelled }

unfoldable pub cancel_manager : Cluster → Cluster
cancel_manager c = elim c.mgr_ctx [ none ↦ c | some m ↦ record c { mgr_ctx = some cancelled } ]

unfoldable pub stop_manager : Cluster → Cluster
unfolding cancel_manager
stop_manager c = record (cancel_manager c) { mgr_stopped = true }

unfoldable pub has_controller : String → Cluster → Bool
has_controller name c = has name c.controllers

abbrev pub add_pending_controller : ManagedController → Cluster → Cluster
add_pending_controller k c = record c { pending_controllers = put k.name k c.pending_controllers }

abbrev pub remove_pending_controller_by_name : String → Cluster → Cluster
remove_pending_controller_by_name name c = record c {
  pending_controllers = delete name c.pending_controllers;
}

unfoldable pub start_controllers : Map ManagedController → Cluster → Cluster × Option Error
unfolding start
start_controllers [] c = (c, none)
start_controllers ((k, mctrl) ∷ rest) c =
    let (run, failed) = start mctrl c.running in
    let c' = record c { running = run } in
    let after = start_controllers rest c' in elim failed [ none ↦ after | some e ↦ (c', some e) ]

-- `created` says whether `ctrl.NewManager` succeeds.
unfoldable pub start_manager : Bool → Cluster → Cluster × Option Error
unfolding start_controllers
start_manager created c =
    if is_some c.mgr_ctx
    then (c, none)
    else let c' = record c { mgr_stopped = false; mgr_ctx = some live; mgr = created } in
      if created then start_controllers c'.controllers c' else (c', some could_not_create_manager)

unfoldable pub set_alive : Bool → Cluster → Cluster
unfolding start_manager run_cluster_funcs
set_alive created c =
    if c.alive
    then c
    else let c' = if not c.mgr_stopped then (start_manager created c).0 else c in
      record (run_cluster_funcs c'.on_alive_funcs c') { alive = true }

unfoldable pub set_dead : Cluster → Cluster
unfolding cancel_manager run_cluster_funcs
set_dead c =
    if not c.alive
    then c
    else let c' = cancel_manager c in
      record (run_cluster_funcs c'.on_dead_funcs c') { alive = false }

-- What the cluster answers to a liveness check: no client could be made, the namespace could not be
-- read, or its uid.
pub data Probe : Type 0 where
  no_clientset no_namespace : Probe
  found : String → Probe

unfoldable pub liveness_check : Probe → Bool → Cluster → Cluster × Option Error
unfolding set_alive set_dead
liveness_check no_clientset created c = (set_dead c, some no_cluster_id)
liveness_check no_namespace created c = (set_dead c, some no_cluster_id)
liveness_check (found uid) created c = (record (set_alive created c) { cluster_id = uid }, none)

-- `Start`, up to the goroutine: its ticks and its end are the steps of `Cluster.Liveness`.
unfoldable pub start_cluster : Probe → Bool → Cluster → Cluster × Option Error
unfolding liveness_check
start_cluster p created c =
    let (c', failed) = liveness_check p created c in
    elim failed [ none ↦ (record c' { started = true }, none) | some e ↦ (c', some e) ]

unfoldable pub remove_controller_by_name : String → Cluster → Cluster
unfolding stop
remove_controller_by_name name c =
    let c' = remove_pending_controller_by_name name c in
    elim (get name c'.controllers) [
      | none ↦ c'
      | some k ↦ record c' { running = stop k c'.running; controllers = delete name c'.controllers }
    ]

abbrev pub remove_controller : ManagedController → Cluster → Cluster
unfolding remove_controller_by_name
remove_controller k c = remove_controller_by_name k.name c

-- `addController`.
unfoldable pub activate_controller : ManagedController → Cluster → Cluster × Option Error
unfolding start
activate_controller k c =
    if has k.name c.controllers
    then (c, none)
    else let c' = remove_pending_controller_by_name k.name c in
      let c'' = record c' { controllers = put k.name k c'.controllers } in
      if is_manager_running c''
      then (let (run, failed) = start k c''.running in (record c'' { running = run }, failed))
      else (c'', none)

module _ (s : Selectors) where
  unfoldable pub all_match : List ClusterFeatureRequirement → Map ClusterFeature → Bool
  unfolding match
  all_match [] fs = true
  all_match (rf ∷ rfs) fs =
      let rest = all_match rfs fs in if not (match s rf fs) then false else rest

  unfoldable pub check_required_cluster_features : ManagedController → Map ClusterFeature → Bool
  unfolding all_match
  check_required_cluster_features k fs =
      if is_empty k.required_cluster_features
      then true
      else all_match k.required_cluster_features fs

  unfoldable pub add_controller : ManagedController → Cluster → Cluster × Option Error
  unfolding activate_controller check_required_cluster_features
  add_controller k c =
      if check_required_cluster_features k c.features
      then activate_controller k c
      else (add_pending_controller k c, none)

  -- The loop of `AddFeature`: a failure is logged only.
  unfoldable pub retry_controllers : Map ManagedController → Cluster → Cluster
  unfolding add_controller
  retry_controllers [] c = c
  retry_controllers ((n, k) ∷ rest) c = retry_controllers rest (add_controller k c).0

  unfoldable pub add_feature : ClusterFeature → Cluster → Cluster
  unfolding retry_controllers
  add_feature f c =
      let c' = record c { features = put f.uid f c.features } in
      retry_controllers c'.pending_controllers c'

  -- The loop of `RemoveFeature`.
  unfoldable pub drop_unmet : Map ManagedController → Cluster → Cluster
  unfolding remove_controller_by_name check_required_cluster_features
  drop_unmet [] c = c
  drop_unmet ((n, k) ∷ rest) c = drop_unmet rest (
      if not (check_required_cluster_features k c.features)
      then add_pending_controller k (remove_controller k c)
      else c)

  unfoldable pub remove_feature : String → Cluster → Cluster
  unfolding drop_unmet
  remove_feature uid c =
      let c' = record c { features = delete uid c.features } in drop_unmet c'.controllers c'
