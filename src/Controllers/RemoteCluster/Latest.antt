-- ===== src/Controllers/RemoteCluster/Latest.antt =====
-- The map of `GetClusters` in controllers/common.go, against the list that it is made from.
use cluster_registry_control.Common.{
  String, ◌≡◌, refl, sym, ap, ◌∙◌, inl, inr, ◌==◌, Option, none, some, List, [], ◌∷◌, arith, eq_iff,
  eq_refl, Map, get, put, get-put, In, Bool-cases, if◌then◌else◌,
}
use cluster_registry_control.Api.Cluster.{ClusterResource}
use cluster_registry_control.Controllers.Sync.Mutate.{clusters_by_id}

-- The last cluster of a list that has an id, or else the one that is given.
abbrev pub latest : String → Option ClusterResource → List ClusterResource → Option ClusterResource
latest id v [] = v
latest id v (c ∷ cs) = latest id (if c.spec.cluster_id == id then some c else v) cs

get-clusters_by_id :
    (id : String) (cs : List ClusterResource) (m : Map ClusterResource)
    → get id (clusters_by_id cs m) ≡ latest id (get id m) cs
unfolding clusters_by_id
get-clusters_by_id id [] m = refl
get-clusters_by_id id (c ∷ cs) m =
    get-clusters_by_id id cs (put c.spec.cluster_id c m)
    ∙ ap (λ v. latest id v cs) (get-put c.spec.cluster_id id c m)

pub get-clusters_by_id_of :
    (id : String) (cs : List ClusterResource) → get id (clusters_by_id cs []) ≡ latest id none cs
unfolding get
get-clusters_by_id_of id cs = get-clusters_by_id id cs []

-- No two entries have one key.
abbrev HasDistinctKeys : Map ClusterResource → Type 0
HasDistinctKeys [] = Unit
HasDistinctKeys ((k, v) ∷ m) = (get k m ≡ none) × HasDistinctKeys m

put-HasDistinctKeys :
    (k : String) (v : ClusterResource) (m : Map ClusterResource)
    → HasDistinctKeys m
    → HasDistinctKeys (put k v m)
unfolding get put
put-HasDistinctKeys k v [] d = (refl, tt)
put-HasDistinctKeys k v ((j, w) ∷ m) (n, d) = elim (Bool-cases (j == k)) [
  | inl e ↦ (let same : j ≡ k = (eq_iff j k).0 e in rw e ((rw same at n), d))
  | inr f ↦
      rw f (ground (arith, get-put k j v m, eq_iff k j, eq_iff j k), put-HasDistinctKeys k v m d)
]

clusters_by_id-HasDistinctKeys :
    (cs : List ClusterResource) (m : Map ClusterResource)
    → HasDistinctKeys m
    → HasDistinctKeys (clusters_by_id cs m)
unfolding clusters_by_id
clusters_by_id-HasDistinctKeys [] m d = d
clusters_by_id-HasDistinctKeys (c ∷ cs) m d =
    clusters_by_id-HasDistinctKeys cs (put c.spec.cluster_id c m)
      (put-HasDistinctKeys c.spec.cluster_id c m d)

get-of_In :
    (k : String) (v : ClusterResource) (m : Map ClusterResource)
    → HasDistinctKeys m
    → In (k, v) m
    → get k m ≡ some v
unfolding get
get-of_In k v [] d i = absurd i
get-of_In k v ((j, w) ∷ m) (n, d) (inl e) =
    let key : k ≡ j = ap (λ (p : String × ClusterResource). p.0) e in
    let value : v ≡ w = ap (λ (p : String × ClusterResource). p.1) e in
    rw (key, eq_refl j) (ap some (sym value))
get-of_In k v ((j, w) ∷ m) (n, d) (inr i) =
    let there = get-of_In k v m d i in
    elim (Bool-cases (j == k)) [
      | inl e ↦
          let same : j ≡ k = (eq_iff j k).0 e in
          absurd (let gone : get k m ≡ none = rw same at n in ground arith)
      | inr f ↦ rw f there
    ]

-- Each entry of the map is the last cluster of the list under its key.
pub latest-of_In :
    (id : String) (c : ClusterResource) (cs : List ClusterResource)
    → In (id, c) (clusters_by_id cs [])
    → latest id none cs ≡ some c
latest-of_In id c cs i =
    sym (get-clusters_by_id_of id cs)
    ∙ get-of_In id c (clusters_by_id cs []) (clusters_by_id-HasDistinctKeys cs [] tt) i
