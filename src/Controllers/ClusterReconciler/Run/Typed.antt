-- ===== src/Controllers/ClusterReconciler/Run/Typed.antt =====
-- The map of conditions during `Reconcile` of controllers/cluster_reconciler.go.
use mathlib.Core.Path.{subst}
use cluster_registry_control.Common.{
  ℕ, String, ◌≡◌, refl, sym, ap, ◌∙◌, inl, inr, true, false, ◌==◌, ◌||◌, Option, some, List, [],
  ◌∷◌, eq_iff, Map, get, put, get-put, get-put_self, if-cases, Bool-cases, Option-cases,
  Result-cases, some_eq,
}
use cluster_registry_control.Api.Cluster.{ClusterCondition}
use cluster_registry_control.ClusterMeta.Metadata.{get_cluster_metadata}
use cluster_registry_control.Controllers.Conditions.{
  renew, stamp, set_condition, collect_conditions, local_cluster_condition,
}
use cluster_registry_control.Controllers.ClusterReconciler.{Failure, ClusterEnv}
use cluster_registry_control.Controllers.ClusterReconciler.Remote.{get_remote_cluster}
use cluster_registry_control.Controllers.ClusterReconciler.Steps.{
  Progress, note, find_conflicting, check_local_cluster_conflict, describe_local_cluster,
  reconcile_local_cluster, reconcile_remote_cluster,
}
use cluster_registry_control.Controllers.ClusterReconciler.Run.Effects.{finish_keeps}

-- Conditions stand under their types.
abbrev pub IsTyped : Map ClusterCondition → Type 0
IsTyped m = (t : String) (c : ClusterCondition) → get t m ≡ some c → c.type ≡ t

put-IsTyped :
    (c : ClusterCondition) (t : String) (m : Map ClusterCondition)
    → c.type ≡ t
    → IsTyped m
    → IsTyped (put t c m)
put-IsTyped c t m h typed j x q = elim (Bool-cases (t == j)) [
  | inl e ↦
      let same : c ≡ x = some_eq (rw (get-put t j c m, e) at q) in
      ap (λ k. k.type) (sym same) ∙ h ∙ (eq_iff t j).0 e
  | inr e ↦ typed j x (rw (get-put t j c m, e) at q)
]

-- What stands under the type of a condition that was set.
module _ (now later : ℕ) (c : ClusterCondition) (m : Map ClusterCondition) (typed : IsTyped m) where
  abbrev pub IsUnderType : Map ClusterCondition → Type 0
  IsUnderType m' =
      IsTyped m' × ((new : ClusterCondition) × (get c.type m' ≡ some new) × (new.status ≡ c.status))

  pub set_condition-IsUnderType : IsUnderType (set_condition now later c m).0
  unfolding set_condition renew stamp
  set_condition-IsUnderType = elim (Option-cases (get c.type m)) [
    | inl e ↦
        let new = stamp now later c in
        rw (e, set_condition)
          (put-IsTyped new c.type m refl typed, (new, get-put_self c.type new m, refl))
    | inr (old, e) ↦
        let new = stamp now later (renew now c old).0 in
        rw (e, set_condition)
          (
            put-IsTyped new c.type m (typed c.type old e) typed,
            (new, get-put_self c.type new m, refl),
          )
  ]

note-IsTyped :
    (e : ClusterEnv) (c : ClusterCondition) (p : Progress)
    → IsTyped p.conditions
    → IsTyped (note e c p).conditions
unfolding note
note-IsTyped e c p t = (set_condition-IsUnderType e.now e.now c p.conditions t).0

pub collect_conditions-IsTyped :
    (cs : List ClusterCondition) (m : Map ClusterCondition)
    → IsTyped m
    → IsTyped (collect_conditions cs m)
unfolding collect_conditions
collect_conditions-IsTyped [] m t = t
collect_conditions-IsTyped (c ∷ cs) m t =
    collect_conditions-IsTyped cs (put c.type c m) (put-IsTyped c c.type m refl t)

check-IsTyped :
    (e : ClusterEnv) (p : Progress)
    → IsTyped p.conditions
    → IsTyped (check_local_cluster_conflict e p).0.conditions
unfolding check_local_cluster_conflict
check-IsTyped e p t = elim (Option-cases e.list_clusters) [
  | inl n ↦ rw (n, check_local_cluster_conflict) t
  | inr (cs, n) ↦ elim (Option-cases (find_conflicting p.cluster cs)) [
    | inl f ↦ rw (n, f, check_local_cluster_conflict) (note-IsTyped e _ p t)
    | inr (c, f) ↦ rw (n, f, check_local_cluster_conflict) (note-IsTyped e _ _ t)
  ]
]

describe-IsTyped :
    (e : ClusterEnv) (p : Progress)
    → IsTyped p.conditions
    → IsTyped (describe_local_cluster e p).0.conditions
unfolding describe_local_cluster
describe-IsTyped e p t = elim (Result-cases (get_cluster_metadata e.nodes)) [
  | inl (m, q) ↦
      rw (q, describe_local_cluster)
        (subst IsTyped (sym (finish_keeps e _).1) (note-IsTyped e _ p t))
  | inr (m, q) ↦ rw (q, describe_local_cluster) (note-IsTyped e _ p t)
]

pub local-IsTyped :
    (e : ClusterEnv) (p : Progress)
    → IsTyped p.conditions
    → IsTyped (reconcile_local_cluster e p).0.conditions
unfolding reconcile_local_cluster
local-IsTyped e p t =
    let q = note e (local_cluster_condition true) p in
    let before = check-IsTyped e q (note-IsTyped e (local_cluster_condition true) p t) in
    elim (Option-cases (check_local_cluster_conflict e q).1) [
      | inl n ↦
          rw (n, reconcile_local_cluster)
            (describe-IsTyped e (check_local_cluster_conflict e q).0 before)
      | inr (f, n) ↦ rw (n, reconcile_local_cluster) before
    ]

pub remote-IsTyped :
    (e : ClusterEnv) (p : Progress)
    → IsTyped p.conditions
    → IsTyped (reconcile_remote_cluster e p).0.conditions
unfolding reconcile_remote_cluster
remote-IsTyped e p t =
    let q = note e (local_cluster_condition false) p in
    let before = note-IsTyped e (local_cluster_condition false) p t in
    if-cases (λ (x : Progress × Option Failure). IsTyped x.0.conditions)
      (q.cluster.spec.secret_name == "" || q.cluster.spec.secret_namespace == "") (λ y. before)
      (λ y. elim (Result-cases (get_remote_cluster e q.cluster q.reconciler).2) [
        | inl (h, n) ↦ rw n before
        | inr (x, n) ↦ rw n (note-IsTyped e _ _ before)
      ])
