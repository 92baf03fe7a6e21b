-- ===== src/Controllers/Sync/Ownership.antt =====
-- Who owns an object, and what that permits.
use cluster_registry_control.Common.{
  ℕ, String, ◌≡◌, ◌↔◌, ◌⊎◌, inl, inr, ◌≢◌, true, false, some, arith, eq_iff, get, has, In, index,
  Bool-cases, Option-cases,
}
use cluster_registry_control.Api.Object.{Object, Machinery}
use cluster_registry_control.Clusters.Manager.{get_alive_clusters_by_id}
use cluster_registry_control.Clusters.Manager.Laws.{get_alive_clusters_by_id_lem}
use cluster_registry_control.Controllers.Sync.{
  SyncReconciler, ownership_annotation, sync_disabled_annotation, is_owned_by_another_alive_cluster,
  should_create, should_update, lets_create, lets_update,
}

-- A registered cluster that is alive has the id, and it is not the reconciler's own source.
abbrev pub IsOther : SyncReconciler → String → Type 0
IsOther r owner =
    (owner ≢ "")
    × (owner ≢ r.cluster_id)
    × ((n : String) × (h : ℕ) × In (n, h) r.clusters_manager.clusters
        × ((r.clusters_manager.heap h).alive ≡ true)
        × ((r.clusters_manager.heap h).cluster_id ≡ owner))

-- The test for another alive owner says yes exactly if the owner is named, is not the source of
-- this reconciler, and is the id of a registered cluster that is alive.
pub is_owned_by_another_iff :
    (r : SyncReconciler) (owner : String)
    → (is_owned_by_another_alive_cluster r owner ≡ true) ↔ IsOther r owner
unfolding is_owned_by_another_alive_cluster
is_owned_by_another_iff r owner =
    let (sound, complete) = get_alive_clusters_by_id_lem r.clusters_manager in
    (
      λ h. elim (Option-cases (get owner (get_alive_clusters_by_id r.clusters_manager))) [
        | inl q ↦ absurd (ground arith)
        | inr (c, q) ↦
            let w = sound owner c q in
            (
              ground (arith, eq_iff owner ""),
              ground (arith, eq_iff owner r.cluster_id),
              (w.0, c, w.1, w.2, w.3),
            )
      ],
      λ w.
          let there = complete w.2.0 w.2.1 w.2.2 w.2.3 in
          let same = w.2.4 in
          let there' : has owner (get_alive_clusters_by_id r.clusters_manager) ≡ true =
            rw same at there in
          ground (arith, eq_iff owner "", eq_iff owner r.cluster_id, w.0, w.1),
    )

pub not-IsOther :
    (r : SyncReconciler) (owner : String)
    → (is_owned_by_another_alive_cluster r owner ≡ false) ↔ (¬ IsOther r owner)
not-IsOther r owner = (
  λ h w. cc ((is_owned_by_another_iff r owner).1 w),
  λ n. elim (Bool-cases (is_owned_by_another_alive_cluster r owner)) [
    | inl h ↦ absurd (n ((is_owned_by_another_iff r owner).0 h))
    | inr h ↦ h
  ],
)

abbrev pub owner_of : Object → String
owner_of obj = index ownership_annotation obj.annotations

module _ (k : Machinery) (r : SyncReconciler) (obj : Object) (access : k.accessor obj ≡ true) where
  should_update-test : (should_update k r obj ≡ some true) ↔ (
      (has sync_disabled_annotation obj.annotations ≡ false)
      × (owner_of obj ≢ "")
      × (is_owned_by_another_alive_cluster r (owner_of obj) ≡ false))
  unfolding should_update
  should_update-test = ground (arith, eq_iff (owner_of obj) "")

  should_create-test : (should_create k r obj ≡ some true) ↔ (
      (has sync_disabled_annotation obj.annotations ≡ false)
      × ((owner_of obj ≡ "") ⊎ (r.local_cluster_id ≢ owner_of obj))
      × (is_owned_by_another_alive_cluster r (owner_of obj) ≡ false))
  unfolding should_create
  should_create-test =
      ground (arith, eq_iff (owner_of obj) "", eq_iff r.local_cluster_id (owner_of obj))

-- A local object may be updated exactly if syncing is not disabled on it, it names an owner, which
-- an object of the local cluster does not, and that owner is not another cluster that is alive.
-- A new object may be created exactly if syncing is not disabled on it, its owner is not the local
-- cluster, and its owner is not another cluster that is alive.
pub desired_state_iff :
    (k : Machinery) (r : SyncReconciler) (obj : Object)
    → k.accessor obj ≡ true
    → ((should_update k r obj ≡ some true) ↔ (
        (has sync_disabled_annotation obj.annotations ≡ false)
        × (owner_of obj ≢ "")
        × (¬ IsOther r (owner_of obj))))
      × ((should_create k r obj ≡ some true) ↔ (
          (has sync_disabled_annotation obj.annotations ≡ false)
          × ((owner_of obj ≡ "") ⊎ (r.local_cluster_id ≢ owner_of obj))
          × (¬ IsOther r (owner_of obj))))
desired_state_iff k r obj access =
    let u = should_update-test k r obj access in
    let c = should_create-test k r obj access in
    let n = not-IsOther r (owner_of obj) in
    (
      (λ h. let (a, b, o) = u.0 h in (a, b, n.0 o), λ w. u.1 (w.0, w.1, n.1 w.2)),
      (λ h. let (a, b, o) = c.0 h in (a, b, n.0 o), λ w. c.1 (w.0, w.1, n.1 w.2)),
    )

-- Changes of objects that the local cluster owns are let through in no event of the source, so a
-- synced object is not synced back.
pub own_objects_are_not_synced_back :
    (k : Machinery) (r : SyncReconciler) (obj : Object)
    → owner_of obj ≡ r.local_cluster_id
    → (lets_create k r obj ≡ false) × (lets_update k r (some false) obj ≡ false)
unfolding lets_create lets_update
own_objects_are_not_synced_back k r obj h = ground (arith, eq_iff (owner_of obj) r.local_cluster_id)
