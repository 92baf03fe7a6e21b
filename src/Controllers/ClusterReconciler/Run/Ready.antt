-- ===== src/Controllers/ClusterReconciler/Run/Ready.antt =====
-- The ready condition that `Reconcile` of controllers/cluster_reconciler.go writes.
use mathlib.Core.Path.{subst}
use cluster_registry_control.Common.{
  ◌≡◌, refl, sym, inl, inr, Bool, true, false, ◌==◌, ◌&&◌, ◌||◌, Option, none, some, List, [],
  arith, get, In, In-of_get, is_some, if◌then◌else◌, Bool-cases, some_eq,
}
use cluster_registry_control.Api.Cluster.{
  ClusterCondition, ClusterResource, ready_state, local_type, reset,
}
use cluster_registry_control.Controllers.Conditions.{
  ready_condition, clusters_synced, set_condition, get_current_conditions, cluster_ready_condition,
}
use cluster_registry_control.Controllers.Status.{Problem}
use cluster_registry_control.Controllers.Status.Writes.{update_cluster_lem}
use cluster_registry_control.Controllers.ClusterReconciler.{
  Failure, ClusterEnv, ClusterReconciler, problem,
}
use cluster_registry_control.Controllers.ClusterReconciler.Steps.{
  Progress, note, reconcile_local_cluster, reconcile_remote_cluster,
}
use cluster_registry_control.Controllers.ClusterReconciler.Run.{
  write_status, enable_cluster, prepare_cluster,
}
use cluster_registry_control.Controllers.ClusterReconciler.Run.Typed.{
  IsTyped, set_condition-IsUnderType, collect_conditions-IsTyped, local-IsTyped, remote-IsTyped,
}

-- The steps of an enabled resource, and their failure.
abbrev pub steps : ClusterEnv → Bool → Progress → Progress × Option Failure
steps e is_local p = if is_local then reconcile_local_cluster e p else reconcile_remote_cluster e p

prepare-IsTyped :
    (e : ClusterEnv) (cluster : ClusterResource) (r : ClusterReconciler) (p : Progress)
    → prepare_cluster e cluster r ≡ some p
    → IsTyped p.conditions
unfolding prepare_cluster reset get_current_conditions get
prepare-IsTyped e cluster r p q =
    let typed =
      collect_conditions-IsTyped cluster.status.conditions []
        (λ t c h. absurd (ground (arith, h))) in
    elim (Bool-cases (cluster.spec.cluster_id == r.cluster_id)) [
      | inl t ↦
          subst (λ (x : Progress). IsTyped x.conditions)
            (some_eq (rw (t, prepare_cluster, reset) at q)) typed
      | inr f ↦
          subst (λ (x : Progress). IsTyped x.conditions)
            (some_eq (rw (f, prepare_cluster, reset) at q)) typed
    ]

steps-IsTyped :
    (e : ClusterEnv) (is_local : Bool) (p : Progress)
    → IsTyped p.conditions
    → IsTyped (steps e is_local p).0.conditions
steps-IsTyped e true p t = local-IsTyped e p t
steps-IsTyped e false p t = remote-IsTyped e p t

-- A ready condition that says yes.
abbrev pub SaysReady : List ClusterCondition → Type 0
SaysReady cs = (c : ClusterCondition) × In c cs × (c.type ≡ ready_condition) × (c.status ≡ "True")

-- The error as `UpdateCluster` gets it.
abbrev reported : ClusterEnv → Option Failure → Option Problem
reported e failure = elim failure [ none ↦ none | some f ↦ some (problem e f) ]

reported-is_some : (e : ClusterEnv) (f : Option Failure) → is_some (reported e f) ≡ is_some f
reported-is_some e none = refl
reported-is_some e (some f) = refl

-- Every status that is written for an enabled resource has a ready condition with status True, also
-- if the steps fail; but the state that is written is not Ready then.
pub ready_is_written :
    (e : ClusterEnv) (cluster s : ClusterResource) (r : ClusterReconciler) (is_local : Bool)
    (p : Progress)
    → prepare_cluster e cluster r ≡ some p
    → In s (enable_cluster e is_local p).writes
    → SaysReady s.status.conditions
      × ((is_some (steps e is_local p).1 && s.status.state == ready_state) ≡ false)
unfolding enable_cluster note write_status cluster_ready_condition
ready_is_written e cluster s r is_local p q i =
    let (after, failure) = steps e is_local p in
    let typed = steps-IsTyped e is_local p (prepare-IsTyped e cluster r p q) in
    let now = cluster_ready_condition none in
    let (typed', (new, found, status)) =
      set_condition-IsUnderType e.now e.now now after.conditions typed in
    let m = (set_condition e.now e.now now after.conditions).0 in
    elim (Bool-cases (is_local || is_some failure)) [
      | inr n ↦ absurd (rw (n, enable_cluster, note, write_status) at i)
      | inl n ↦
          let (conditions, state, message, returned) =
            update_cluster_lem e.status (reported e failure) m after.cluster s
              (rw (n, enable_cluster, note, write_status) at i) in
          let kind : new.type ≡ ready_condition = typed' ready_condition new found in
          let kept : (after.cluster.status.type == local_type && new.type == clusters_synced)
              ≡ false =
            subst (λ t. (after.cluster.status.type == local_type && t == clusters_synced) ≡ false)
              (sym kind) (ground arith) in
          (
            (
              new,
              (conditions new).1 (ready_condition, In-of_get ready_condition new m found, kept),
              kind,
              status,
            ),
            subst (λ b. (b && s.status.state == ready_state) ≡ false) (reported-is_some e failure)
                state,
          )
    ]
