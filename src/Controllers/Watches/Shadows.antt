-- ===== src/Controllers/Watches/Shadows.antt =====
-- Which clusters are requested by the watches of controllers/cluster_reconciler_watches.go.
use mathlib.Core.Path.{subst}
use cluster_registry_control.Common.{
  ℕ, suc, ◌≤◌, String, ◌≡◌, refl, sym, ap, ◌∙◌, inl, inr, some, List, [], ◌∷◌, arith, eq_iff, put,
  In,
}
use cluster_registry_control.Api.Cluster.{ClusterResource}
use cluster_registry_control.Controllers.Sync.Mutate.{clusters_by_id}
use cluster_registry_control.Controllers.Watches.{requests_of_map, is_local, conflict_requests}

-- The length of a list, over the native numbers.
abbrev pub length : {A : Type 0} → List A → ℕ
length [] = 0
length (x ∷ xs) = suc (length xs)

-- All clusters of a list stand for the cluster of an id.
abbrev pub AllOf : String → List ClusterResource → Type 0
AllOf id cs = (c : ClusterResource) → In c cs → c.spec.cluster_id ≡ id

put-single :
    (k id : String) (c d : ClusterResource) → k ≡ id → put k c ((id, d) ∷ []) ≡ (id, c) ∷ []
unfolding put
put-single k id c d same = ground (arith, eq_iff id k, same)

clusters_by_id-single :
    (id : String) (cs : List ClusterResource) (d : ClusterResource)
    → AllOf id cs
    → (c : ClusterResource) × (clusters_by_id cs ((id, d) ∷ []) ≡ (id, c) ∷ [])
unfolding clusters_by_id
clusters_by_id-single id [] d all = (d, refl)
clusters_by_id-single id (c ∷ cs) d all =
    let same : c.spec.cluster_id ≡ id = all c (inl refl) in
    let (last, later) = clusters_by_id-single id cs c (λ x i. all x (inr i)) in
    (last, ap (λ m. clusters_by_id cs m) (put-single c.spec.cluster_id id c d same) ∙ later)

requests-single :
    (id : String) (c : ClusterResource) → length (requests_of_map is_local ((id, c) ∷ [])) ≤ 1
unfolding requests_of_map
requests-single id c = ground arith

-- If all resources that are listed stand for one cluster, the watch for conflicts requests at most
-- one of them.
pub conflict_requests-single :
    (id : String) (cs : List ClusterResource)
    → AllOf id cs
    → length (conflict_requests (some cs)) ≤ 1
unfolding conflict_requests requests_of_map clusters_by_id put
conflict_requests-single id [] all = omega arith
conflict_requests-single id (c ∷ cs) all =
    let (last, single) =
      clusters_by_id-single c.spec.cluster_id cs c
        (λ x i. all x (inr i) ∙ sym (all c (inl refl))) in
    subst (λ m. length (requests_of_map is_local m) ≤ 1) (sym single)
      (requests-single c.spec.cluster_id last)
