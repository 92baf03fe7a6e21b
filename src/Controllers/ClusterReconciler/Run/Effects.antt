-- ===== src/Controllers/ClusterReconciler/Run/Effects.antt =====
-- What the steps of `Reconcile` of controllers/cluster_reconciler.go do to the registry.
use mathlib.Core.Path.{subst}
use cluster_registry_control.Common.{
  not, ℕ, String, ◌≡◌, refl, sym, ap, ◌∙◌, inl, inr, Bool, true, false, ◌==◌, ◌||◌, Option, some,
  List, [], ◌∷◌, arith, eq_refl, if-cases, Option-cases, Result-cases, some_eq, err,
}
use cluster_registry_control.Api.Cluster.{ClusterCondition, ClusterResource}
use cluster_registry_control.ClusterMeta.Metadata.{get_cluster_metadata}
use cluster_registry_control.Controllers.Conditions.{local_cluster_condition}
use cluster_registry_control.Clusters.Controller.{cluster_not_found}
use cluster_registry_control.Clusters.Manager.{Manager, get_cluster}
use cluster_registry_control.Clusters.Manager.Registered.{
  IsRegistry, remove_named, get_cluster-remove_named, remove_named-IsRegistry,
}
use cluster_registry_control.Controllers.ClusterReconciler.{
  Failure, ClusterEnv, ClusterReconciler, trigger_cluster_reconcile, trigger_all,
  trigger_local_cluster_reconciles, remove_remote_cluster,
}
use cluster_registry_control.Controllers.ClusterReconciler.Remote.{get_remote_cluster}
use cluster_registry_control.Controllers.ClusterReconciler.Registry.{IsSound}
use cluster_registry_control.Controllers.ClusterReconciler.Connected.{
  Touches, get_remote_cluster_lem,
}
use cluster_registry_control.Controllers.ClusterReconciler.Steps.{
  Progress, note, find_conflicting, check_local_cluster_conflict, finish_local_cluster,
  provision_local_cluster_reader_secret, describe_local_cluster, reconcile_local_cluster,
  reconcile_remote_cluster,
}

-- The registry and the pointers in use.
abbrev pub registry : ClusterReconciler → ℕ × Manager
registry r = (r.next_cluster, r.clusters_manager)

trigger-registry :
    (c : ClusterResource) (r : ClusterReconciler)
    → registry (trigger_cluster_reconcile c r) ≡ registry r
unfolding trigger_cluster_reconcile
trigger-registry c r = ground arith

trigger_all-registry :
    (cs : List ClusterResource) (r : ClusterReconciler) → registry (trigger_all cs r) ≡ registry r
unfolding trigger_all
trigger_all-registry [] r = refl
trigger_all-registry (c ∷ cs) r = ground (
  arith,
  trigger_all-registry cs r,
  trigger_all-registry cs (trigger_cluster_reconcile c r),
  trigger-registry c r,
)

pub trigger_local-registry :
    (e : ClusterEnv) (r r' : ClusterReconciler)
    → trigger_local_cluster_reconciles e r ≡ some r'
    → registry r' ≡ registry r
unfolding trigger_local_cluster_reconciles
trigger_local-registry e r r' q = elim (Option-cases e.list_clusters) [
  | inl n ↦ absurd (ground arith)
  | inr (cs, n) ↦
      let same : trigger_all cs r ≡ r' = some_eq (rw n at q) in
      sym (ap registry same) ∙ trigger_all-registry cs r
]

note-registry :
    (e : ClusterEnv) (c : ClusterCondition) (p : Progress)
    → registry (note e c p).reconciler ≡ registry p.reconciler
unfolding note
note-registry e c p = refl

check-registry :
    (e : ClusterEnv) (p : Progress)
    → registry (check_local_cluster_conflict e p).0.reconciler ≡ registry p.reconciler
unfolding check_local_cluster_conflict note
check-registry e p = elim (Option-cases e.list_clusters) [
  | inl n ↦ ground arith
  | inr (cs, n) ↦ elim (Option-cases (find_conflicting p.cluster cs)) [
    | inl f ↦ ground arith
    | inr (c, f) ↦ ground (arith, trigger-registry c p.reconciler)
  ]
]

-- The last steps change neither the registry nor the conditions.
pub finish_keeps :
    (e : ClusterEnv) (p : Progress)
    → let q = (finish_local_cluster e p).0 in
      (q.reconciler ≡ p.reconciler) × (q.conditions ≡ p.conditions)
unfolding finish_local_cluster
finish_keeps e p =
    if-cases
      (λ (x : Progress × Option Failure).
        (x.0.reconciler ≡ p.reconciler) × (x.0.conditions ≡ p.conditions))
      (not (provision_local_cluster_reader_secret e p.cluster).1) (λ t. (refl, refl))
      (λ t. (refl, refl))

describe-registry :
    (e : ClusterEnv) (p : Progress)
    → registry (describe_local_cluster e p).0.reconciler ≡ registry p.reconciler
unfolding describe_local_cluster note
describe-registry e p = elim (Result-cases (get_cluster_metadata e.nodes)) [
  | inl (m, q) ↦ rw (q, describe_local_cluster) (ap registry (finish_keeps e _).0)
  | inr (m, q) ↦ rw (q, describe_local_cluster) refl
]

pub local-registry :
    (e : ClusterEnv) (p : Progress)
    → registry (reconcile_local_cluster e p).0.reconciler ≡ registry p.reconciler
unfolding reconcile_local_cluster
local-registry e p =
    let q = note e (local_cluster_condition true) p in
    let p' = (check_local_cluster_conflict e q).0 in
    let before = check-registry e q ∙ note-registry e (local_cluster_condition true) p in
    elim (Option-cases (check_local_cluster_conflict e q).1) [
      | inl n ↦ rw (n, reconcile_local_cluster) (describe-registry e p' ∙ before)
      | inr (f, n) ↦ rw (n, reconcile_local_cluster) before
    ]

-- No cluster of a name is registered.
abbrev pub IsGone : String → ClusterReconciler → Type 0
IsGone name r = get_cluster name r.clusters_manager ≡ err cluster_not_found

-- What a step does for the resource of a name: other names are left alone, and if the name is to be
-- dropped then it is not found afterwards.
abbrev pub Settles : String → Bool → ClusterReconciler → ClusterReconciler → Type 0
Settles name drops r r' = Touches name r r' × (drops ≡ true → IsGone name r')

-- Between two changes of the registry there may be others.
pub same-Settles :
    (name : String) (drops : Bool) (r r' r'' : ClusterReconciler)
    → registry r'' ≡ registry r'
    → Settles name drops r r'
    → Settles name drops r r''
same-Settles name drops r r' r'' q t =
    subst
      (λ (x : ℕ × Manager).
        (IsRegistry x.0 x.1
          × ((j : String)
              → (name == j) ≡ false
              → get_cluster j x.1 ≡ get_cluster j r.clusters_manager))
        × (drops ≡ true → get_cluster name x.1 ≡ err cluster_not_found))
      (sym q) t

pub Touches-trans :
    (name : String) (r r' r'' : ClusterReconciler)
    → Touches name r r'
    → Touches name r' r''
    → Touches name r r''
Touches-trans name r r' r'' (a, f) (b, g) = (b, λ j d. g j d ∙ f j d)

pub remove-Settles :
    (name : String) (r : ClusterReconciler)
    → IsSound r
    → Settles name true r (remove_remote_cluster name r)
unfolding remove_remote_cluster remove_named
remove-Settles name r b =
    let after = get_cluster-remove_named r.next_cluster r.clusters_manager b name in
    let sound = remove_named-IsRegistry r.next_cluster r.clusters_manager b name in
    elim (Result-cases (get_cluster name r.clusters_manager)) [
      | inl (h, n) ↦
          rw (n, remove_remote_cluster, remove_named)
            (
              (rw (n, remove_named) at sound, λ j f. rw (n, f, remove_named) at (after j)),
              λ t. rw (n, eq_refl name, remove_named) at (after name),
            )
      | inr (x, n) ↦
          rw (n, remove_remote_cluster)
            ((b, λ j f. refl), λ t. rw (n, eq_refl name, remove_named) at (after name))
    ]

pub remote-Touches :
    (e : ClusterEnv) (p : Progress)
    → IsSound p.reconciler
    → Touches p.cluster.name p.reconciler (reconcile_remote_cluster e p).0.reconciler
unfolding reconcile_remote_cluster note
remote-Touches e p b =
    let q = note e (local_cluster_condition false) p in
    let after = get_remote_cluster e p.cluster p.reconciler in
    let touches = (get_remote_cluster_lem e p.cluster p.reconciler b).0 in
    if-cases (λ (x : Progress × Option Failure). Touches p.cluster.name p.reconciler x.0.reconciler)
      (p.cluster.spec.secret_name == "" || p.cluster.spec.secret_namespace == "")
      (λ t. (b, λ j f. refl))
      (λ t. elim (Result-cases after.2) [ inl (h, n) ↦ rw n touches | inr (x, n) ↦ rw n touches ])
