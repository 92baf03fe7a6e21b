-- ===== src/Clusters/Cluster/Restart.antt =====
-- When a cluster's manager is started again, and when it is not.
use cluster_registry_control.Common.{
  String, ◌≡◌, refl, ◌∙◌, Bool, Option, true, false, none, some, List, [], ◌∷◌, arith,
}
use cluster_registry_control.Api.Selector.{Selectors}
use cluster_registry_control.Clusters.Controller.{could_not_create_manager}
use cluster_registry_control.Clusters.Cluster.{
  Cluster, Context, mgr_ctx_is_done, live, cancelled, start_manager, set_alive, cancel_manager,
  set_dead, no_namespace, found, liveness_check, is_manager_running,
}
use cluster_registry_control.Clusters.Cluster.Liveness.{
  start_manager_lem, set_alive_lem, set_dead_lem,
}
use cluster_registry_control.Clusters.Cluster.Steps.{Reach, here, next, ticks, manager_exits}

-- If the manager cannot be created, the error is returned, and every later call returns no error
-- and changes nothing: the manager never runs, since the context that the failed call made stays.
pub start_manager_failure_is_final :
    (c : Cluster)
    → c.mgr_ctx ≡ none
    → let (d, failed) = start_manager false c in
      (failed ≡ some could_not_create_manager)
      × (is_manager_running d ≡ false)
      × ((created : Bool) → start_manager created d ≡ (d, none))
unfolding start_manager
start_manager_failure_is_final c h = (ground arith, ground arith, λ created. ground arith)

-- Successful liveness checks, one after another.
pub checks : List (String × Bool) → Cluster → Cluster
unfolding liveness_check
checks [] c = c
checks ((uid, created) ∷ rest) c = checks rest (liveness_check (found uid) created c).0

checks-alive :
    (ps : List (String × Bool)) (c : Cluster)
    → c.alive ≡ true
    → ((checks ps c).alive ≡ true) × ((checks ps c).mgr ≡ c.mgr)
unfolding checks set_alive
checks-alive [] c a = (a, refl)
checks-alive ((uid, created) ∷ ps) c a =
    ground (arith, checks-alive ps (record c { cluster_id = uid }))

cancelled_is_done :
    (ctx : Context) (m : Option Context) → m ≡ some cancelled → mgr_ctx_is_done ctx m ≡ true
cancelled_is_done ctx m e = rw e (ground arith)

checks-lost :
    (ps : List (String × Bool)) (c : Cluster)
    → c.alive ≡ true
    → c.mgr ≡ false
    → ((checks ps c).alive ≡ true) × (is_manager_running (checks ps c) ≡ false)
checks-lost ps c a m =
    let (alive, same) = checks-alive ps c a in (alive, (let n = same ∙ m in rw n (ground arith)))

-- A dead cluster keeps the cancelled context of its manager until the manager's goroutine ends.
set_dead-mgr_ctx :
    (c : Cluster) (m : Context)
    → c.alive ≡ true
    → c.mgr_ctx ≡ some m
    → let d = set_dead c in
      (d.alive ≡ false)
      × (d.mgr_ctx ≡ some cancelled)
      × (d.mgr ≡ c.mgr)
      × (d.started ≡ c.started)
      × (d.ctx ≡ c.ctx)
unfolding cancel_manager
set_dead-mgr_ctx c m a e = rw (set_dead_lem c a) (ground arith)

set_alive-mgr_ctx :
    (created : Bool) (c : Cluster) (m : Context)
    → c.alive ≡ false
    → c.mgr_ctx ≡ some m
    → let d = set_alive created c in
      (d.alive ≡ true) × (d.mgr_ctx ≡ some m) × (d.mgr ≡ c.mgr) × (d.ctx ≡ c.ctx)
set_alive-mgr_ctx created c m a e =
    rw (set_alive_lem created c a) (ground (arith, start_manager_lem created c))

module _ (s : Selectors) where
  -- An alive cluster with a running manager misses one liveness check and passes the next before
  -- the manager's goroutine has ended. It is dead after the first and alive after the second, which
  -- leaves the manager's context cancelled. So the goroutine can end next, and then the cluster stays
  -- alive, and its manager does not run, however many successful checks follow.
  pub manager_is_lost :
      (c : Cluster) (uid : String) (created created' : Bool)
      → c.started ≡ true
      → c.alive ≡ true
      → c.mgr ≡ true
      → c.mgr_ctx ≡ some live
      → let missed = (liveness_check no_namespace created c).0 in
        let passed = (liveness_check (found uid) created' missed).0 in
        let d = record passed { mgr_ctx = none; mgr = false } in
        (missed.alive ≡ false)
        × (passed.alive ≡ true)
        × (passed.mgr_ctx ≡ some cancelled)
        × Reach s c d
        × ((ps : List (String × Bool))
            → ((checks ps d).alive ≡ true) × (is_manager_running (checks ps d) ≡ false))
  unfolding liveness_check
  manager_is_lost c uid created created' started a m e =
      let c1 : Cluster = set_dead c in
      let f1 = set_dead-mgr_ctx c live a e in
      let c2 : Cluster = record (set_alive created' c1) { cluster_id = uid } in
      let f2 = set_alive-mgr_ctx created' c1 cancelled f1.0 f1.1 in
      let d : Cluster = record c2 { mgr_ctx = none; mgr = false } in
      (
        f1.0,
        f2.0,
        f2.1,
        next
            (next (next here (ticks no_namespace created started))
              (ticks (found uid) created' (f1.3 ∙ started)))
            (manager_exits (f2.2 ∙ f1.2 ∙ m) (cancelled_is_done c2.ctx c2.mgr_ctx f2.1)),
        λ ps. checks-lost ps d f2.0 refl,
      )
