-- ===== src/Controllers/ClusterReconciler/Run/Conflicts.antt =====
-- Conflicts of local clusters, and the resources whose status is not written, in
-- controllers/cluster_reconciler.go.
use mathlib.Core.Path.{subst}
use cluster_registry_control.Common.{
  String, ◌≡◌, refl, sym, ◌∙◌, ap, some_eq, is_some, ◌≢◌, ◌↔◌, inl, inr, true, false, ◌==◌, ◌||◌,
  none, some, List, [], ◌∷◌, arith, eq_iff, get, has, In, if◌then◌else◌, Bool-cases, Option-cases,
  ok,
}
use cluster_registry_control.Api.Cluster.{ClusterCondition, ClusterResource, reset}
use cluster_registry_control.Controllers.Sync.{cluster_disabled_annotation}
use cluster_registry_control.Controllers.Conditions.{
  local_conflict, local_cluster_conflict_condition,
}
use cluster_registry_control.Controllers.ClusterReconciler.{
  cluster_found, ClusterEnv, ClusterReconciler, set_cluster_id,
}
use cluster_registry_control.Controllers.ClusterReconciler.Steps.{
  Progress, note, find_conflicting, check_local_cluster_conflict, reconcile_remote_cluster,
}
use cluster_registry_control.Controllers.ClusterReconciler.Run.{
  Outcome, start_progress, write_status, enable_cluster, prepare_cluster, reconcile_answer,
  reconcile_cluster,
}
use cluster_registry_control.Controllers.ClusterReconciler.Run.Typed.{
  IsTyped, set_condition-IsUnderType,
}

-- Another resource stands for the same cluster.
abbrev pub Conflicts : ClusterResource → ClusterResource → Type 0
Conflicts cluster c = (c.uid ≢ cluster.uid) × (c.spec.cluster_id ≡ cluster.spec.cluster_id)

find_conflicting-none :
    (cluster : ClusterResource) (cs : List ClusterResource)
    → find_conflicting cluster cs ≡ none
    → (c : ClusterResource) → In c cs
    → ¬ Conflicts cluster c
unfolding find_conflicting
find_conflicting-none cluster [] q c i w = i
find_conflicting-none cluster (d ∷ cs) q c i w = elim (Bool-cases (d.uid == cluster.uid)) [
  | inl u ↦ elim i [
    | inl same ↦ w.0 (ap (λ x. x.uid) same ∙ (eq_iff d.uid cluster.uid).0 u)
    | inr j ↦ find_conflicting-none cluster cs (rw (u, find_conflicting) at q) c j w
  ]
  | inr u ↦ elim (Bool-cases (d.spec.cluster_id == cluster.spec.cluster_id)) [
    | inl k ↦ (let no : some d ≡ none = rw (u, k, find_conflicting) at q in absurd (ground arith))
    | inr k ↦ elim i [
      | inl same ↦
          let equal : d.spec.cluster_id ≡ cluster.spec.cluster_id =
            ap (λ x. x.spec.cluster_id) (sym same) ∙ w.1 in
          absurd (ground (arith, eq_iff d.spec.cluster_id cluster.spec.cluster_id, k))
      | inr j ↦ find_conflicting-none cluster cs (rw (u, k, find_conflicting) at q) c j w
    ]
  ]
]

find_conflicting-some :
    (cluster c : ClusterResource) (cs : List ClusterResource)
    → find_conflicting cluster cs ≡ some c
    → In c cs × Conflicts cluster c
unfolding find_conflicting
find_conflicting-some cluster c [] q = absurd (ground arith)
find_conflicting-some cluster c (d ∷ cs) q = elim (Bool-cases (d.uid == cluster.uid)) [
  | inl u ↦
      let (i, w) = find_conflicting-some cluster c cs (rw (u, find_conflicting) at q) in (inr i, w)
  | inr u ↦ elim (Bool-cases (d.spec.cluster_id == cluster.spec.cluster_id)) [
    | inl k ↦
        let same : d ≡ c = some_eq (rw (u, k, find_conflicting) at q) in
        (
          inl (sym same),
          subst (Conflicts cluster) same (
            λ h. absurd (ground (arith, eq_iff d.uid cluster.uid, u)),
            (eq_iff d.spec.cluster_id cluster.spec.cluster_id).0 k,
          ),
        )
    | inr k ↦
        (let (i, w) = find_conflicting-some cluster c cs (rw (u, k, find_conflicting) at q) in
          (inr i, w))
  ]
]

-- For the resources that are listed: the check fails, and the condition of a conflict becomes True,
-- exactly if one of them with another uid has the same cluster id; else the condition becomes False.
pub check_local_cluster_conflict_lem :
    (e : ClusterEnv) (p : Progress) (cs : List ClusterResource)
    → IsTyped p.conditions
    → e.list_clusters ≡ some cs
    → let (q, failed) = check_local_cluster_conflict e p in
      ((failed ≡ none) ↔ ((c : ClusterResource) → In c cs → ¬ Conflicts p.cluster c))
      × ((new : ClusterCondition) × (get local_conflict q.conditions ≡ some new)
          × (new.status ≡ (if is_some failed then "True" else "False")))
unfolding check_local_cluster_conflict note local_cluster_conflict_condition
check_local_cluster_conflict_lem e p cs t l = elim (Option-cases (find_conflicting p.cluster cs)) [
  | inl n ↦
      let s =
        set_condition-IsUnderType e.now e.now (local_cluster_conflict_condition false) p.conditions
          t in
      rw (l, n, check_local_cluster_conflict)
        ((λ h. find_conflicting-none p.cluster cs n, λ h. refl), s.1)
  | inr (c, n) ↦
      let s =
        set_condition-IsUnderType e.now e.now (local_cluster_conflict_condition true) p.conditions
          t in
      let (i, w) = find_conflicting-some p.cluster c cs n in
      rw (l, n, check_local_cluster_conflict)
        ((λ h. absurd (ground (arith, h)), λ none_conflicts. absurd (none_conflicts c i w)), s.1)
]

enable_silent :
    (e : ClusterEnv) (p : Progress)
    → (p.cluster.spec.secret_name == "" || p.cluster.spec.secret_namespace == "") ≡ true
    → let o = enable_cluster e false p in
      (o.writes ≡ []) × (o.failed ≡ none) × (o.reconciler ≡ p.reconciler)
unfolding enable_cluster reconcile_remote_cluster write_status note
enable_silent e p m =
    rw (m, enable_cluster, reconcile_remote_cluster, write_status, note) (refl, refl, refl)

-- A peer resource that is not disabled and names no secret: nothing is written to its status, no
-- error is returned, and the reconciler stays as it is, its queue and its registry included.
pub missing_auth_info_is_lost :
    (e : ClusterEnv) (name : String) (r r0 : ClusterReconciler) (cluster : ClusterResource)
    → set_cluster_id e r ≡ some r0
    → e.get_resource name ≡ cluster_found cluster
    → (cluster.spec.cluster_id == r0.cluster_id) ≡ false
    → has cluster_disabled_annotation cluster.annotations ≡ false
    → (cluster.spec.secret_name == "" || cluster.spec.secret_namespace == "") ≡ true
    → (o : Outcome) × (reconcile_cluster e name r ≡ ok o)
      × (o.writes ≡ [])
      × (o.failed ≡ none)
      × (o.reconciler ≡ r0)
unfolding reconcile_cluster reconcile_answer prepare_cluster reset
missing_auth_info_is_lost e name r r0 cluster i f peer enabled missing =
    let c = record cluster { status = reset cluster.status } in
    let p = start_progress r0 c in
    let (writes, failed, reconciler) = enable_silent e p missing in
    (
      enable_cluster e false p,
      rw (i, f, peer, enabled, reconcile_cluster, reconcile_answer, prepare_cluster, reset)
          (ap (λ b. ok (enable_cluster e b p)) peer),
      writes,
      failed,
      reconciler,
    )
