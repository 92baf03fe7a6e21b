-- ===== src/Controllers/ClusterReconciler/Run.antt =====
-- `Reconcile` of controllers/cluster_reconciler.go.
pub mod Effects
pub mod Registered
pub mod Conflicts
pub mod Typed
pub mod Ready
use cluster_registry_control.Common.{
  ℕ, String, Bool, true, false, not, ◌||◌, ◌==◌, Option, none, some, List, [], ◌∷◌, ◌++◌, Map, has,
  is_some, if◌then◌else◌, Result, ok, err,
}
use cluster_registry_control.Api.Cluster.{
  ClusterCondition, ClusterResource, reset, local_type, disabled_state, missing_auth_info,
}
use cluster_registry_control.ClusterMeta.Metadata.{get_cluster_metadata}
use cluster_registry_control.Util.ReaderSecret.{ReaderSecret, get_reader_secret_for_cluster}
use cluster_registry_control.Controllers.CoreSyncers.{
  CoreObject, DesiredState, reconcile_core_syncers,
}
use cluster_registry_control.Controllers.Sync.{cluster_disabled_annotation}
use cluster_registry_control.Controllers.Conditions.{
  Event, local_conflict, set_condition, get_current_conditions, get_current_condition,
  local_cluster_condition, local_cluster_conflict_condition, cluster_metadata_condition,
  cluster_ready_condition, clusters_synced_condition,
}
use cluster_registry_control.Controllers.Status.{UpdateError, update_cluster}
use cluster_registry_control.Controllers.ClusterReconciler.{
  Failure, could_not_get, could_not_list, ClusterAnswer, local_cluster_conflict, no_cluster_id,
  could_not_provision, could_not_sync_core, no_metadata_found, cluster_found, cluster_not_found,
  cluster_failed, ClusterEnv, problem, ClusterReconciler, set_cluster_id, trigger_cluster_reconcile,
  trigger_local_cluster_reconciles, remove_remote_cluster,
}
use cluster_registry_control.Controllers.ClusterReconciler.Remote.{get_remote_cluster}
use cluster_registry_control.Controllers.ClusterReconciler.Steps.{
  Effect, Progress, note, reconcile_local_cluster, reconcile_remote_cluster,
}

-- What a run leaves: the reconciler, the accepted status updates in order, the events, the effects, the error,
-- and after how many seconds the request is queued again.
pub record Outcome : Type 0 where
  pub reconciler : ClusterReconciler
  pub writes : List ClusterResource
  pub events : List Event
  pub effects : List Effect
  pub failed : Option UpdateError
  pub requeue_after : ℕ

-- The last status update, for a local cluster or an error.
unfoldable pub write_status :
    ClusterEnv → Bool → List ClusterResource → Option Failure → Progress → Outcome
write_status e is_local before failure p =
    if is_local || is_some failure
    then (let (writes, cluster, failed) =
          update_cluster e.status (elim failure [ none ↦ none | some f ↦ some (problem e f) ])
            p.conditions p.cluster in
        record {
          reconciler = p.reconciler;
          writes = before ++ writes;
          events = p.events;
          effects = p.effects;
          failed = failed;
          requeue_after = if is_some failed then 0 else e.refresh_interval;
        })
    else record {
      reconciler = p.reconciler;
      writes = before;
      events = p.events;
      effects = p.effects;
      failed = none;
      requeue_after = e.refresh_interval;
    }

-- A resource with the annotation that disables it.
unfoldable pub disable_cluster : ClusterEnv → Bool → Progress → Outcome
disable_cluster e is_local p =
    let r = remove_remote_cluster p.cluster.name p.reconciler in
    let c = record p.cluster {
      status = record (reset p.cluster.status) { state = disabled_state };
    } in
    let (writes, cluster, failed) = update_cluster e.status none [] c in
    elim failed [
      | some x ↦ record {
        reconciler = r;
        writes = writes;
        events = p.events;
        effects = p.effects;
        failed = some x;
        requeue_after = 0;
      }
      | none ↦ write_status e is_local writes none (record {
        reconciler = r;
        cluster = cluster;
        conditions = [];
        events = p.events;
        effects = p.effects;
      })
    ]

-- The ready condition is made of the error of reading the resource, which is nil here, and not of
-- the failure of the steps before.
unfoldable pub enable_cluster : ClusterEnv → Bool → Progress → Outcome
enable_cluster e is_local p =
    let (q, failure) =
      if is_local then reconcile_local_cluster e p else reconcile_remote_cluster e p in
    write_status e is_local [] failure (note e (cluster_ready_condition none) q)

abbrev pub start_progress : ClusterReconciler → ClusterResource → Progress
start_progress r c = record {
  reconciler = r;
  cluster = c;
  conditions = get_current_conditions c;
  events = [];
  effects = [];
}

-- The state of the reconciler and of the resource before the annotation is looked at; `none` is an
-- error. The status has just been reset, so its type is never that of a local cluster.
unfoldable pub prepare_cluster : ClusterEnv → ClusterResource → ClusterReconciler → Option Progress
prepare_cluster e cluster r =
    let is_local = cluster.spec.cluster_id == r.cluster_id in
    let c = record cluster { status = reset cluster.status } in
    if is_local
    then some (
        start_progress (remove_remote_cluster cluster.name r)
          (record c { status = record c.status { type = local_type } }))
    else if c.status.type == local_type
    then elim (trigger_local_cluster_reconciles e r) [
      | none ↦ none
      | some r' ↦ some (start_progress r' c)
    ]
    else some (start_progress r c)

-- The rest of `Reconcile`, for what is read of the resource.
unfoldable pub reconcile_answer :
    ClusterEnv → String → ClusterAnswer → ClusterReconciler → Result Failure Outcome
reconcile_answer e name cluster_failed r = err could_not_get
reconcile_answer e name cluster_not_found r =
    elim (trigger_local_cluster_reconciles e (remove_remote_cluster name r)) [
      | none ↦ err could_not_list
      | some r1 ↦ ok (record {
        reconciler = r1;
        writes = [];
        events = [];
        effects = [];
        failed = none;
        requeue_after = 0;
      })
    ]
reconcile_answer e name (cluster_found cluster) r = elim (prepare_cluster e cluster r) [
  | none ↦ err could_not_list
  | some p ↦
      let is_local = cluster.spec.cluster_id == r.cluster_id in
      ok (
        if has cluster_disabled_annotation p.cluster.annotations
        then disable_cluster e is_local p
        else enable_cluster e is_local p)
]

-- `Reconcile`.
unfoldable pub reconcile_cluster : ClusterEnv → String → ClusterReconciler → Result Failure Outcome
reconcile_cluster e name r = elim (set_cluster_id e r) [
  | none ↦ err no_cluster_id
  | some r0 ↦ reconcile_answer e name (e.get_resource name) r0
]
