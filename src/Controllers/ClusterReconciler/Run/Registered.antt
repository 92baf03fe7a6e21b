-- ===== src/Controllers/ClusterReconciler/Run/Registered.antt =====
-- What `Reconcile` of controllers/cluster_reconciler.go does to the registry.
use mathlib.Core.Path.{subst}
use cluster_registry_control.Common.{
  ℕ, String, ◌≡◌, refl, sym, ap, ◌∙◌, inl, inr, Bool, true, false, not, ◌==◌, ◌||◌, ◌&&◌, Option,
  none, some, List, [], arith, has, if◌then◌else◌, if-cases, Bool-cases, Option-cases, is_some,
  ok_eq, some_eq, not_both, ok,
}
use cluster_registry_control.Api.Cluster.{ClusterResource, reset, disabled_state}
use cluster_registry_control.Controllers.Conditions.{cluster_ready_condition}
use cluster_registry_control.Controllers.Status.{update_cluster}
use cluster_registry_control.Controllers.Sync.{cluster_disabled_annotation}
use cluster_registry_control.Clusters.Manager.{Manager, get_cluster}
use cluster_registry_control.Clusters.Manager.Registered.{IsRegistry}
use cluster_registry_control.Controllers.ClusterReconciler.{
  Failure, could_not_get, could_not_list, ClusterAnswer, cluster_found,
  cluster_not_found as resource_not_found, cluster_failed, ClusterEnv, ClusterReconciler,
  set_cluster_id, trigger_local_cluster_reconciles, remove_remote_cluster,
}
use cluster_registry_control.Controllers.ClusterReconciler.Registry.{IsSound}
use cluster_registry_control.Controllers.ClusterReconciler.Steps.{
  Progress, note, reconcile_local_cluster, reconcile_remote_cluster,
}
use cluster_registry_control.Controllers.ClusterReconciler.Run.{
  Outcome, write_status, disable_cluster, enable_cluster, prepare_cluster, reconcile_answer,
  reconcile_cluster,
}
use cluster_registry_control.Controllers.ClusterReconciler.Run.Effects.{
  registry, IsGone, Settles, same-Settles, Touches-trans, remove-Settles, local-registry,
  trigger_local-registry, remote-Touches,
}

-- A resource keeps its cluster if it is there, is not local, and is not disabled.
abbrev pub is_kept : String → ClusterAnswer → Bool
is_kept id (cluster_found c) =
    not (c.spec.cluster_id == id) && not (has cluster_disabled_annotation c.annotations)
is_kept id _ = false

-- The resource that the rest of the run works on.
abbrev Prepared : ClusterResource → Bool → ClusterReconciler → Progress → Type 0
Prepared cluster drops r p =
    Settles cluster.name drops r p.reconciler
    × (p.cluster.name ≡ cluster.name)
    × (p.cluster.annotations ≡ cluster.annotations)

prepare-Prepared :
    (e : ClusterEnv) (cluster : ClusterResource) (r : ClusterReconciler) (p : Progress)
    → IsSound r
    → prepare_cluster e cluster r ≡ some p
    → Prepared cluster (cluster.spec.cluster_id == r.cluster_id) r p
unfolding prepare_cluster reset
prepare-Prepared e cluster r p b q = elim (Bool-cases (cluster.spec.cluster_id == r.cluster_id)) [
  | inl t ↦ rw t (
      subst (Prepared cluster true r) (some_eq (rw (t, prepare_cluster, reset) at q))
        (remove-Settles cluster.name r b, refl, refl))
  | inr f ↦ rw f (
      subst (Prepared cluster false r) (some_eq (rw (f, prepare_cluster, reset) at q))
        (((b, λ j d. refl), λ t. absurd (ground arith)), refl, refl))
]

write_status-reconciler :
    (e : ClusterEnv) (is_local : Bool) (before : List ClusterResource) (f : Option Failure)
    (p : Progress)
    → (write_status e is_local before f p).reconciler ≡ p.reconciler
unfolding write_status
write_status-reconciler e is_local before f p =
    if-cases (λ (o : Outcome). o.reconciler ≡ p.reconciler) (is_local || is_some f) (λ t. refl)
      (λ t. refl)

disable-reconciler :
    (e : ClusterEnv) (is_local : Bool) (p : Progress)
    → (disable_cluster e is_local p).reconciler ≡ remove_remote_cluster p.cluster.name p.reconciler
unfolding disable_cluster
disable-reconciler e is_local p =
    let c = record p.cluster {
      status = record (reset p.cluster.status) { state = disabled_state };
    } in
    let (writes, cluster, failed) = update_cluster e.status none [] c in
    let r = remove_remote_cluster p.cluster.name p.reconciler in
    let q : Progress = record {
      reconciler = r;
      cluster = cluster;
      conditions = [];
      events = p.events;
      effects = p.effects;
    } in
    elim (Option-cases failed) [
      | inl n ↦ rw (n, disable_cluster) (write_status-reconciler e is_local writes none q)
      | inr (x, n) ↦ rw (n, disable_cluster) refl
    ]

enable-Settles :
    (e : ClusterEnv) (is_local : Bool) (p : Progress)
    → IsSound p.reconciler
    → (is_local ≡ true → IsGone p.cluster.name p.reconciler)
    → Settles p.cluster.name is_local p.reconciler (enable_cluster e is_local p).reconciler
unfolding enable_cluster note
enable-Settles e true p b g =
    let (q, f) = reconcile_local_cluster e p in
    same-Settles p.cluster.name true p.reconciler p.reconciler (enable_cluster e true p).reconciler
      (ap registry (write_status-reconciler e true [] f (note e (cluster_ready_condition none) q))
        ∙ local-registry e p)
      ((b, λ j f. refl), g)
enable-Settles e false p b g =
    let (q, f) = reconcile_remote_cluster e p in
    same-Settles p.cluster.name false p.reconciler q.reconciler
      (enable_cluster e false p).reconciler
      (ap registry (write_status-reconciler e false [] f (note e (cluster_ready_condition none) q)))
      (remote-Touches e p b, λ t. absurd (ground arith))

set_cluster_id-registry :
    (e : ClusterEnv) (r r' : ClusterReconciler)
    → set_cluster_id e r ≡ some r'
    → registry r' ≡ registry r
unfolding set_cluster_id
set_cluster_id-registry e r r' q = ground arith

found-Settles :
    (e : ClusterEnv) (cluster : ClusterResource) (r : ClusterReconciler) (p : Progress)
    → IsSound r
    → prepare_cluster e cluster r ≡ some p
    → Settles cluster.name
        (not (is_kept r.cluster_id (cluster_found cluster)))
        r
        (if has cluster_disabled_annotation p.cluster.annotations
          then disable_cluster e (cluster.spec.cluster_id == r.cluster_id) p
          else enable_cluster e (cluster.spec.cluster_id == r.cluster_id) p).reconciler
found-Settles e cluster r p b n =
    let ((before, gone), named, annotated) = prepare-Prepared e cluster r p b n in
    let is_local = cluster.spec.cluster_id == r.cluster_id in
    let then_settles : (x : ClusterReconciler) (drops : Bool)
        → Settles p.cluster.name drops p.reconciler x
        → Settles cluster.name drops r x =
      λ x drops t.
        let (after, ends) = subst (λ j. Settles j drops p.reconciler x) named t in
        (Touches-trans cluster.name r p.reconciler x before after, ends) in
    if-cases
      (λ (o : Outcome).
        Settles cluster.name (not (is_kept r.cluster_id (cluster_found cluster))) r o.reconciler)
      (has cluster_disabled_annotation p.cluster.annotations)
      (λ t.
        let after = disable_cluster e is_local p in
        let (touches, ends) = then_settles after.reconciler true (
          subst (λ x. Settles p.cluster.name true p.reconciler x)
            (sym (disable-reconciler e is_local p))
            (remove-Settles p.cluster.name p.reconciler before.0)) in
        (touches, λ d. ends refl))
      (λ f.
        let after = enable_cluster e is_local p in
        let (touches, ends) = then_settles after.reconciler is_local (
          enable-Settles e is_local p before.0
            (λ l. subst (λ j. IsGone j p.reconciler) (sym named) (gone l))) in
        let enabled : has cluster_disabled_annotation cluster.annotations ≡ false =
          sym (ap (λ m. has cluster_disabled_annotation m) annotated) ∙ f in
        (touches, λ d. ends (ground (arith, d, enabled))))

answer-Settles :
    (e : ClusterEnv) (name : String) (a : ClusterAnswer) (r : ClusterReconciler) (o : Outcome)
    → IsSound r
    → ((c : ClusterResource) → a ≡ cluster_found c → c.name ≡ name)
    → reconcile_answer e name a r ≡ ok o
    → Settles name (not (is_kept r.cluster_id a)) r o.reconciler
unfolding reconcile_answer
answer-Settles e name cluster_failed r o b named q = absurd (not_both {x = could_not_get} q refl)
answer-Settles e name resource_not_found r o b named q =
    elim (Option-cases (trigger_local_cluster_reconciles e (remove_remote_cluster name r))) [
      | inl n ↦ absurd (not_both {x = could_not_list} q (rw (n, reconcile_answer) refl))
      | inr (r1, n) ↦
          let is_last : r1 ≡ o.reconciler =
            ap (λ (x : Outcome). x.reconciler) (ok_eq refl (rw (n, reconcile_answer) at q)) in
          subst (λ x. Settles name true r x) is_last
            (same-Settles name true r (remove_remote_cluster name r) r1
              (trigger_local-registry e (remove_remote_cluster name r) r1 n)
              (remove-Settles name r b))
    ]
answer-Settles e name (cluster_found cluster) r o b named q =
    elim (Option-cases (prepare_cluster e cluster r)) [
      | inl n ↦ absurd (not_both {x = could_not_list} q (rw (n, reconcile_answer) refl))
      | inr (p, n) ↦
          let drops = not (is_kept r.cluster_id (cluster_found cluster)) in
          let is_last = ok_eq refl (rw (n, reconcile_answer) at q) in
          subst (λ j. Settles j drops r o.reconciler) (named cluster refl)
            (subst (λ (x : Outcome). Settles cluster.name drops r x.reconciler) is_last
              (found-Settles e cluster r p b n))
    ]

-- From a sound registry, if a read resource has the name of the request: a run that does not end in an
-- error of a first step leaves a sound registry, in which every other name is found as before. The
-- name of the request is not found in it if the resource is gone, is that of the local cluster, or
-- has the annotation that disables it.
pub reconcile_cluster-Settles :
    (e : ClusterEnv) (name : String) (r r0 : ClusterReconciler) (o : Outcome)
    → IsSound r
    → ((c : ClusterResource) → e.get_resource name ≡ cluster_found c → c.name ≡ name)
    → set_cluster_id e r ≡ some r0
    → reconcile_cluster e name r ≡ ok o
    → Settles name (not (is_kept r0.cluster_id (e.get_resource name))) r o.reconciler
unfolding reconcile_cluster
reconcile_cluster-Settles e name r r0 o b named i q =
    let same = set_cluster_id-registry e r r0 i in
    let b0 : IsSound r0 = subst (λ (x : ℕ × Manager). IsRegistry x.0 x.1) (sym same) b in
    let ((sound, others), gone) =
      answer-Settles e name (e.get_resource name) r0 o b0 named (rw (i, reconcile_cluster) at q) in
    ((sound, λ j f. others j f ∙ ap (λ (x : ℕ × Manager). get_cluster j x.1) same), gone)
