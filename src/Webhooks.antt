-- ===== src/Webhooks.antt =====
-- pkg/webhooks/cluster_validator.go: the admission of cluster resources. Decoding the request and
-- listing the clusters are done by libraries: arguments, which are `none` on an error.
use cluster_registry_control.Common.{
  ℕ, String, ◌≡◌, refl, ◌↔◌, ◌⊎◌, inl, inr, ◌≢◌, true, not, ◌&&◌, ◌==◌, Option, none, some, List,
  [], ◌∷◌, arith, eq_iff, In, if◌then◌else◌, Bool-cases, Option-cases,
}
use mathlib.Core.Path.{subst}
use cluster_registry_control.Api.Cluster.{ClusterResource, local_type, peer_type}

-- `admission.Response`: an error has an HTTP status.
pub data Response : Type 0 where
  allowed : Response
  errored : ℕ → Response

abbrev pub bad_request : ℕ
bad_request = 400

abbrev pub conflict_status : ℕ
conflict_status = 409

-- The loop of `validateUniqueLocalCluster`: the name of the cluster that is in the way.
unfoldable pub find_conflict : ClusterResource → List ClusterResource → Option String
find_conflict new [] = none
find_conflict new (old ∷ olds) =
    let later = find_conflict new olds in
    if old.status.type == local_type
      && old.spec.cluster_id == new.spec.cluster_id
      && not (old.name == new.name)
    then some old.name
    else later

unfoldable pub validate_unique_local_cluster :
    ClusterResource → List ClusterResource → Option String
unfolding find_conflict
validate_unique_local_cluster new olds =
    if new.status.type == peer_type then none else find_conflict new olds

unfoldable pub handle : Option ClusterResource → Option (List ClusterResource) → Response
unfolding validate_unique_local_cluster
handle none list = errored bad_request
handle (some new) none = errored conflict_status
handle (some new) (some olds) = elim (validate_unique_local_cluster new olds) [
  | some name ↦ errored conflict_status
  | none ↦ allowed
]

-- Another resource stands for the same local cluster.
abbrev pub Conflicts : ClusterResource → ClusterResource → Type 0
Conflicts new old =
    (old.status.type ≡ local_type)
    × (old.spec.cluster_id ≡ new.spec.cluster_id)
    × (old.name ≢ new.name)

conflict_test :
    (new old : ClusterResource)
    → ((old.status.type == local_type
          && old.spec.cluster_id == new.spec.cluster_id
          && not (old.name == new.name))
        ≡ true)
      ↔ Conflicts new old
conflict_test new old = (
  λ h. (
    (eq_iff old.status.type local_type).0 (ground arith),
    (eq_iff old.spec.cluster_id new.spec.cluster_id).0 (ground arith),
    λ q. (let same = (eq_iff old.name new.name).1 q in absurd (ground arith)),
  ),
  λ (t, c, n).
      let is_local = (eq_iff old.status.type local_type).1 t in
      let same_id = (eq_iff old.spec.cluster_id new.spec.cluster_id).1 c in
      elim (Bool-cases (old.name == new.name)) [
        | inl e ↦ absurd (n ((eq_iff old.name new.name).0 e))
        | inr e ↦ ground arith
      ],
)

find_conflict_lem :
    (new : ClusterResource) (olds : List ClusterResource)
    → (find_conflict new olds ≡ none)
      ↔ ((old : ClusterResource) → In old olds → ¬ Conflicts new old)
unfolding find_conflict
find_conflict_lem new [] = (λ e old i. absurd i, λ h. refl)
find_conflict_lem new (old ∷ olds) =
    let (sound, complete) = find_conflict_lem new olds in
    let (is_conflict, is_found) = conflict_test new old in
    elim (Bool-cases (
      old.status.type == local_type
      && old.spec.cluster_id == new.spec.cluster_id
      && not (old.name == new.name))) [
        | inl e ↦ rw e (λ h. absurd (ground arith), λ h. absurd (h old (inl refl) (is_conflict e)))
        | inr e ↦ rw e (
          λ h x i. elim i [
            | inl q ↦
                λ c. (let found = is_found (subst (Conflicts new) q c) in absurd (ground arith))
            | inr j ↦ sound h x j
          ],
          λ h. complete (λ x j. h x (inr j)),
        )
      ]

-- A request that is decoded while the clusters can be listed is allowed exactly if the new resource
-- is said to be a peer, or no other resource, of another name, is a local cluster of the same id.
-- It is refused as a conflict otherwise.
pub handle_lem :
    (new : ClusterResource) (olds : List ClusterResource)
    → ((handle (some new) (some olds) ≡ allowed) ↔ (
        (new.status.type ≡ peer_type)
        ⊎ ((old : ClusterResource) → In old olds → ¬ Conflicts new old)))
      × ((handle (some new) (some olds) ≡ allowed)
          ⊎ (handle (some new) (some olds) ≡ errored conflict_status))
unfolding handle
handle_lem new olds =
    let (sound, complete) = find_conflict_lem new olds in
    elim (Bool-cases (new.status.type == peer_type)) [
      | inl e ↦
          rw (e, handle) ((λ h. inl ((eq_iff new.status.type peer_type).0 e), λ w. refl), inl refl)
      | inr e ↦ elim (Option-cases (find_conflict new olds)) [
        | inl n ↦ rw (e, n, handle) ((λ h. inr (sound n), λ w. refl), inl refl)
        | inr (name, n) ↦
            rw (e, n, handle)
              (
                (
                  λ h. absurd (ground arith),
                  λ w. elim w [
                    | inl q ↦
                        (let is_peer = (eq_iff new.status.type peer_type).1 q in
                          absurd (ground arith))
                    | inr all ↦ (let none_found = complete all in absurd (ground arith))
                  ],
                ),
                inr refl,
              )
      ]
    ]
