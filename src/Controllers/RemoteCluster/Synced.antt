-- ===== src/Controllers/RemoteCluster/Synced.antt =====
-- When the clusters of two sides are in sync, in controllers/remote_cluster_reconciler.go.
use mathlib.Core.Path.{subst}
use cluster_registry_control.Common.{
  String, ◌≡◌, refl, sym, ap, ◌∙◌, ◌↔◌, inl, inr, ◌==◌, none, some, In-of_get, List, [], ◌∷◌, ◌++◌,
  arith, eq_iff, Map, get, In, Bool-cases, Option-cases, some_eq,
}
use cluster_registry_control.Api.Cluster.{ClusterResource, ready_state}
use cluster_registry_control.Controllers.Sync.Mutate.{clusters_by_id}
use cluster_registry_control.Controllers.RemoteCluster.Latest.{
  latest, get-clusters_by_id_of, latest-of_In,
}
use cluster_registry_control.Controllers.RemoteCluster.{
  RemoteEnv, faults_of, collect_faults, sync_clusters,
}

-- A cluster is known at the other side by its id, under the same name, and is ready there.
abbrev pub IsKnown : Map ClusterResource → ClusterResource → Type 0
IsKnown remote c =
    (rc : ClusterResource) × (get c.spec.cluster_id remote ≡ some rc)
    × (c.name ≡ rc.name)
    × (rc.status.state ≡ ready_state)

++-empty : {A : Type 0} (xs ys : List A) → xs ++ ys ≡ [] → (xs ≡ []) × (ys ≡ [])
++-empty [] ys h = (refl, h)
++-empty (x ∷ xs) ys h = absurd (ground arith)

faults_of-none :
    (remote : Map ClusterResource) (c : ClusterResource)
    → (faults_of remote c ≡ []) ↔ IsKnown remote c
unfolding faults_of
faults_of-none remote c = elim (Option-cases (get c.spec.cluster_id remote)) [
  | inl n ↦ (
    λ h. absurd (let z = rw (n, faults_of) at h in ground (arith, z)),
    λ w. absurd (let z = sym n ∙ w.1 in ground (arith, z)),
  )
  | inr (rc, n) ↦ elim (Bool-cases (c.name == rc.name)) [
    | inr d ↦ (
      λ h. absurd (let z = rw (n, d, faults_of) at h in ground (arith, z)),
      λ w.
          let same : w.0 ≡ rc = some_eq (sym w.1 ∙ n) in
          absurd (ground (arith, eq_iff c.name rc.name, w.2 ∙ ap (λ x. x.name) same)),
    )
    | inl d ↦ elim (Bool-cases (rc.status.state == ready_state)) [
      | inr s ↦ (
        λ h. absurd (let z = rw (n, d, s, faults_of) at h in ground (arith, z)),
        λ w.
            let same : w.0 ≡ rc = some_eq (sym w.1 ∙ n) in
            absurd (
              ground (
                arith,
                eq_iff rc.status.state ready_state,
                ap (λ x. x.status.state) (sym same) ∙ w.3,
              )),
      )
      | inl s ↦ (
        λ h. (rc, n, (eq_iff c.name rc.name).0 d, (eq_iff rc.status.state ready_state).0 s),
        λ w. rw (n, d, s, faults_of) refl,
      )
    ]
  ]
]

-- The clusters of a map.
abbrev pub AllKnown : Map ClusterResource → Map ClusterResource → Type 0
AllKnown remote ls = (id : String) (c : ClusterResource) → In (id, c) ls → IsKnown remote c

collect_faults-none :
    (remote ls : Map ClusterResource) → (collect_faults remote ls ≡ []) ↔ AllKnown remote ls
unfolding collect_faults
collect_faults-none remote [] = (λ h id c i. absurd i, λ k. refl)
collect_faults-none remote ((j, d) ∷ ls) = (
  λ h id c i.
      let (here, later) = ++-empty (faults_of remote d) (collect_faults remote ls) h in
      elim i [
        | inl q ↦
            let same : c ≡ d = ap (λ (p : String × ClusterResource). p.1) q in
            subst (IsKnown remote) (sym same) ((faults_of-none remote d).0 here)
        | inr k ↦ (collect_faults-none remote ls).0 later id c k
      ],
  λ k.
      let here = (faults_of-none remote d).1 (k j d (inl refl)) in
      let later = (collect_faults-none remote ls).1 (λ id c i. k id c (inr i)) in
      rw (here, later, collect_faults) refl,
)

-- The last resource of the remote side with the id of a cluster has its name and is ready.
abbrev pub IsInSync : List ClusterResource → ClusterResource → Type 0
IsInSync rs c =
    (rc : ClusterResource) × (latest c.spec.cluster_id none rs ≡ some rc)
    × (c.name ≡ rc.name)
    × (rc.status.state ≡ ready_state)

abbrev pub AllInSync : List ClusterResource → List ClusterResource → Type 0
AllInSync rs ls = (id : String) (c : ClusterResource) → latest id none ls ≡ some c → IsInSync rs c

IsKnown-IsInSync :
    (rs : List ClusterResource) (c : ClusterResource)
    → IsKnown (clusters_by_id rs []) c ↔ IsInSync rs c
IsKnown-IsInSync rs c =
    let same = get-clusters_by_id_of c.spec.cluster_id rs in
    (λ w. (w.0, sym same ∙ w.1, w.2, w.3), λ w. (w.0, same ∙ w.1, w.2, w.3))

collected-none :
    (rs ls : List ClusterResource)
    → (collect_faults (clusters_by_id rs []) (clusters_by_id ls []) ≡ []) ↔ AllInSync rs ls
collected-none rs ls =
    let m = clusters_by_id ls [] in
    let (sound, complete) = collect_faults-none (clusters_by_id rs []) m in
    (
      λ h id c q.
          (IsKnown-IsInSync rs c).0
            (sound h id c (In-of_get id c m (get-clusters_by_id_of id ls ∙ q))),
      λ k. complete (λ id c i. (IsKnown-IsInSync rs c).1 (k id c (latest-of_In id c ls i))),
    )

-- For the clusters that the two sides list: there is no error exactly if for each local cluster, the
-- last of its id, the last resource of this id at the remote side has the same name and is in the
-- state Ready. If one of the lists cannot be read there is an error.
pub sync_clusters-none :
    (e : RemoteEnv)
    → (sync_clusters e ≡ []) ↔ (
        (ls : List ClusterResource) × (rs : List ClusterResource) × (e.local_clusters ≡ some ls)
        × (e.remote_clusters ≡ some rs)
        × AllInSync rs ls)
unfolding sync_clusters
sync_clusters-none e = elim (Option-cases e.local_clusters) [
  | inl n ↦ (
    λ h. absurd (let z = rw (n, sync_clusters) at h in ground (arith, z)),
    λ w. absurd (let z = sym n ∙ w.2 in ground (arith, z)),
  )
  | inr (ls, n) ↦ elim (Option-cases e.remote_clusters) [
    | inl m ↦ (
      λ h. absurd (let z = rw (n, m, sync_clusters) at h in ground (arith, z)),
      λ w. absurd (let z = sym m ∙ w.3 in ground (arith, z)),
    )
    | inr (rs, m) ↦
        let (sound, complete) = collected-none rs ls in
        (
          λ h. (ls, rs, n, m, sound (rw (n, m, sync_clusters) at h)),
          λ w.
              let same_l : w.0 ≡ ls = some_eq (sym w.2 ∙ n) in
              let same_r : w.1 ≡ rs = some_eq (sym w.3 ∙ m) in
              rw (n, m, sync_clusters) (complete (rw (same_l, same_r) at w.4)),
        )
  ]
]
