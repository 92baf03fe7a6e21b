-- ===== src/Clusters/Cluster/Liveness.antt =====
-- The liveness check: when a cluster is alive, which callbacks run, and when its manager runs.
use mathlib.Core.List.{append_assoc, append-nil}
use cluster_registry_control.Common.{
  ℕ, String, ◌≡◌, refl, sym, ap, ◌∙◌, inl, inr, Bool, true, false, not, Option, none, some, List,
  [], ◌∷◌, ◌++◌, arith, Map, is_some, if◌then◌else◌, Bool-cases,
}
use cluster_registry_control.Clusters.Controller.{ManagedController, Running, start}
use cluster_registry_control.Clusters.Cluster.{
  Cluster, live, run_cluster_funcs, start_controllers, start_manager, set_alive, cancel_manager,
  set_dead, Probe, no_clientset, no_namespace, found, liveness_check,
}

pub run_cluster_funcs_lem :
    (fs : List ℕ) (c : Cluster) → run_cluster_funcs fs c ≡ record c { ran = c.ran ++ fs }
unfolding run_cluster_funcs
run_cluster_funcs_lem [] c = ap (λ r. record c { ran = r }) (sym (append-nil c.ran))
run_cluster_funcs_lem (f ∷ fs) c =
    run_cluster_funcs_lem fs (record c { ran = c.ran ++ f ∷ [] })
    ∙ ap (λ r. record c { ran = r }) (append_assoc c.ran (f ∷ []) fs)

-- Starting controllers touches only which of them run.
pub started_by : Map ManagedController → Running → Running
unfolding start
started_by [] run = run
started_by ((k, m) ∷ ms) run = started_by ms (start m run).0

pub start_controllers_lem :
    (ms : Map ManagedController) (c : Cluster)
    → start_controllers ms c ≡ (record c { running = started_by ms c.running }, none)
unfolding start_controllers started_by
start_controllers_lem [] c = refl
start_controllers_lem ((k, m) ∷ ms) c =
    ground (arith, start_controllers_lem ms (record c { running = (start m c.running).0 }))

pub start_manager_lem :
    (created : Bool) (c : Cluster)
    → (start_manager created c).0 ≡ (
        if is_some c.mgr_ctx then c else record c {
          mgr_stopped = false;
          mgr_ctx = some live;
          mgr = created;
          running = if created then started_by c.controllers c.running else c.running;
        })
unfolding start_manager
start_manager_lem created c = ground (
  arith,
  start_controllers_lem c.controllers
      (record c { mgr_stopped = false; mgr_ctx = some live; mgr = created }),
)

pub set_alive_lem :
    (created : Bool) (c : Cluster)
    → c.alive ≡ false
    → set_alive created c ≡ (
        let d = if not c.mgr_stopped then (start_manager created c).0 else c in
        record d { ran = d.ran ++ d.on_alive_funcs; alive = true })
unfolding set_alive
set_alive_lem created c h = elim (Bool-cases c.mgr_stopped) [
  | inl e ↦ ground (arith, run_cluster_funcs_lem c.on_alive_funcs c)
  | inr e ↦ ground (
    arith,
    run_cluster_funcs_lem (start_manager created c).0.on_alive_funcs (start_manager created c).0,
  )
]

pub set_dead_lem :
    (c : Cluster)
    → c.alive ≡ true
    → set_dead c ≡ record (cancel_manager c) { ran = c.ran ++ c.on_dead_funcs; alive = false }
unfolding set_dead cancel_manager
set_dead_lem c h = ground (arith, run_cluster_funcs_lem c.on_dead_funcs (cancel_manager c))

-- The uid that a probe found.
abbrev pub answer : Probe → Option String
answer no_clientset = none
answer no_namespace = none
answer (found uid) = some uid

-- The callbacks that are due when a check turns `was` into `is`.
abbrev pub due : Cluster → Bool → List ℕ
due c is =
    if is
    then (if c.alive then [] else c.on_alive_funcs)
    else (if c.alive then c.on_dead_funcs else [])

start_manager-logs :
    (created : Bool) (c : Cluster)
    → ((start_manager created c).0.ran ≡ c.ran)
      × ((start_manager created c).0.on_alive_funcs ≡ c.on_alive_funcs)
start_manager-logs created c = ground (arith, start_manager_lem created c)

set_alive-ran :
    (created : Bool) (c : Cluster)
    → ((set_alive created c).alive ≡ true) × ((set_alive created c).ran ≡ c.ran ++ due c true)
unfolding set_alive
set_alive-ran created c = elim (Bool-cases c.alive) [
  | inl e ↦ ground (arith, append-nil c.ran)
  | inr e ↦ rw (set_alive_lem created c e) (ground (arith, start_manager-logs created c))
]

set_dead-ran :
    (c : Cluster) → ((set_dead c).alive ≡ false) × ((set_dead c).ran ≡ c.ran ++ due c false)
unfolding set_dead
set_dead-ran c = elim (Bool-cases c.alive) [
  | inl e ↦ rw (set_dead_lem c e) (ground arith)
  | inr e ↦ ground (arith, append-nil c.ran)
]

-- After a liveness check a cluster is alive exactly if the check found the namespace's uid, the
-- check fails otherwise, and the callbacks that were run are those of the edge that it took: the
-- callbacks for an alive cluster when a dead one answers, those for a dead cluster when an alive
-- one does not, and none when nothing changes.
pub liveness_check-edges :
    (p : Probe) (created : Bool) (c : Cluster)
    → let (d, failed) = liveness_check p created c in
      (d.alive ≡ is_some (answer p))
      × (is_some failed ≡ not (is_some (answer p)))
      × (d.ran ≡ c.ran ++ due c (is_some (answer p)))
unfolding liveness_check
liveness_check-edges no_clientset created c = (let (a, r) = set_dead-ran c in (a, refl, r))
liveness_check-edges no_namespace created c = (let (a, r) = set_dead-ran c in (a, refl, r))
liveness_check-edges (found uid) created c = (let (a, r) = set_alive-ran created c in (a, refl, r))
