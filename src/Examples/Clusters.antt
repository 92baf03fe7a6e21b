-- ===== src/Examples/Clusters.antt =====
-- One cluster: features, controllers and liveness.
use cluster_registry_control.Common.{
  String, ◌≡◌, refl, Bool, true, false, not, eq_iff, none, some, List, [], ◌∷◌, ◌++◌, arith, get,
  put, delete, is_some,
}
use cluster_registry_control.Examples.Samples.{
  equality_selectors, gpu, plain_gpu, sink, fresh, busy,
}
use cluster_registry_control.Clusters.Controller.{ManagedController, could_not_create_manager}
use cluster_registry_control.Clusters.Cluster.{
  cancelled, retry_controllers, Cluster, live, new_cluster, start_manager, found, no_namespace,
  liveness_check, is_manager_running, check_required_cluster_features, add_controller, add_feature,
  remove_feature,
}
use cluster_registry_control.Clusters.Cluster.Gate.{IsKeyed}
use cluster_registry_control.Clusters.Cluster.Steps.{
  Reach, here, next, adds_controller, adds_feature, reachable_controllers_are_met,
}
use cluster_registry_control.Clusters.Cluster.Pending.{add_feature_takes_none_away}
use cluster_registry_control.Clusters.Cluster.Liveness.{answer, due, liveness_check-edges}
use cluster_registry_control.Clusters.Cluster.Restart.{
  checks, start_manager_failure_is_final, manager_is_lost,
}

-- The controller waits, then runs, then waits again.
gate_test :
    let c0 = new_cluster live "c1" [] in
    let c1 = (add_controller equality_selectors sink c0).0 in
    let c2 = add_feature equality_selectors gpu c1 in
    let c3 = remove_feature equality_selectors "/gpu" c2 in
    (get "sink" c1.pending_controllers ≡ some sink)
    × (get "sink" c2.controllers ≡ some sink)
    × (get "sink" c3.controllers ≡ none)
    × (get "sink" c3.pending_controllers ≡ some sink)
unfolding new_cluster add_controller add_feature remove_feature get put delete
gate_test = (refl, refl, refl, refl)

reachable_controllers_are_met_example :
    (check_required_cluster_features equality_selectors sink
        (add_feature equality_selectors gpu
          (add_controller equality_selectors sink (new_cluster live "c1" [])).0).features
      ≡ true)
    × (sink.name ≡ "sink")
unfolding new_cluster add_controller add_feature get put delete
reachable_controllers_are_met_example =
    reachable_controllers_are_met equality_selectors live "c1"
      (next (next here (adds_controller sink)) (adds_feature gpu refl)) "sink" sink refl

busy-IsKeyed : IsKeyed busy.controllers
unfolding get
busy-IsKeyed j x h = ground (arith, eq_iff "sink" j)

nothing-IsKeyed : IsKeyed []
unfolding get
nothing-IsKeyed j x h = cc

waits-IsKeyed : IsKeyed (("sink", sink) ∷ [])
unfolding get
waits-IsKeyed j x h = ground (arith, eq_iff "sink" j)

abbrev waiting : Cluster
waiting = record fresh { pending_controllers = ("sink", sink) ∷ [] }

add_feature_takes_none_away_example :
    let d = add_feature equality_selectors plain_gpu busy in
    (d.features ≡ put plain_gpu.uid plain_gpu busy.features)
    × ((j : String) (x : ManagedController)
        → get j busy.controllers ≡ some x
        → get j d.controllers ≡ some x)
add_feature_takes_none_away_example = add_feature_takes_none_away equality_selectors plain_gpu busy

-- The controller stays although the new feature is not the one that it asks for.
add_feature_test :
    let d = add_feature equality_selectors plain_gpu busy in
    (get "sink" d.controllers ≡ some sink)
    × (check_required_cluster_features equality_selectors sink d.features ≡ false)
unfolding get put check_required_cluster_features add_feature retry_controllers
add_feature_test = (refl, refl)

liveness_check-edges_example :
    let (d, failed) = liveness_check no_namespace true busy in
    (d.alive ≡ is_some (answer no_namespace))
    × (is_some failed ≡ not (is_some (answer no_namespace)))
    × (d.ran ≡ busy.ran ++ due busy (is_some (answer no_namespace)))
liveness_check-edges_example = liveness_check-edges no_namespace true busy

-- The callback for a dead cluster runs once, and not again at the next failure.
liveness_test :
    let c1 = (liveness_check no_namespace true busy).0 in
    let c2 = (liveness_check no_namespace true c1).0 in
    let c3 = (liveness_check (found "u1") true c2).0 in
    (c1.ran ≡ 8 ∷ []) × (c2.ran ≡ 8 ∷ []) × (c3.ran ≡ 8 ∷ 7 ∷ [])
unfolding liveness_check
liveness_test = (refl, refl, refl)

start_manager_failure_is_final_example :
    let (d, failed) = start_manager false fresh in
    (failed ≡ some could_not_create_manager)
    × (is_manager_running d ≡ false)
    × ((created : Bool) → start_manager created d ≡ (d, none))
start_manager_failure_is_final_example = start_manager_failure_is_final fresh refl

manager_is_lost_example :
    let missed = (liveness_check no_namespace true busy).0 in
    let passed = (liveness_check (found "u1") false missed).0 in
    let d = record passed { mgr_ctx = none; mgr = false } in
    (missed.alive ≡ false)
    × (passed.alive ≡ true)
    × (passed.mgr_ctx ≡ some cancelled)
    × Reach equality_selectors busy d
    × ((ps : List (String × Bool))
        → ((checks ps d).alive ≡ true) × (is_manager_running (checks ps d) ≡ false))
manager_is_lost_example =
    manager_is_lost equality_selectors busy "u1" true false refl refl refl refl
