-- ===== src/Controllers/Watches.antt =====
-- controllers/cluster_reconciler_watches.go and the watches that the reconcilers set up: which requests
-- an event gives, and which updates are let through.
pub mod Shadows
pub mod Setup
use cluster_registry_control.Common.{
  ℕ, String, Bool, true, false, not, ◌&&◌, ◌||◌, ◌==◌, Option, none, some, List, [], ◌∷◌, Map, get,
  nat_beq, if◌then◌else◌,
}
use cluster_registry_control.Api.Cluster.{ClusterResource, local_type, secret_type}
use cluster_registry_control.Controllers.CoreSyncers.{core_resource_label_name}
use cluster_registry_control.Controllers.RuleReconciler.{ResourceSyncRule}
use cluster_registry_control.Controllers.Sync.Mutate.{clusters_by_id}

-- A request is a name and a namespace.
abbrev pub Request : Type 0
Request = String × String

abbrev pub request_of : ClusterResource → Request
request_of c = (c.name, c.namespace)

-- The requests for the clusters of a list that pass a test.
unfoldable pub requests_if : (ClusterResource → Bool) → List ClusterResource → List Request
requests_if p [] = []
requests_if p (c ∷ cs) = let rest = requests_if p cs in if p c then request_of c ∷ rest else rest

-- The same for a map of clusters.
unfoldable pub requests_of_map : (ClusterResource → Bool) → Map ClusterResource → List Request
requests_of_map p [] = []
requests_of_map p ((id, c) ∷ m) =
    let rest = requests_of_map p m in if p c then request_of c ∷ rest else rest

abbrev pub is_local : ClusterResource → Bool
is_local c = c.status.type == local_type

-- `watchLocalClustersForConflict`: the requests of an event, for what `List` answers.
unfoldable pub conflict_requests : Option (List ClusterResource) → List Request
conflict_requests none = []
conflict_requests (some cs) = requests_of_map is_local (clusters_by_id cs [])

-- A secret: its type, name and namespace.
pub record WatchedSecret : Type 0 where
  pub type : String
  pub name : String
  pub namespace : String

abbrev pub refers_to : WatchedSecret → ClusterResource → Bool
refers_to s c = c.spec.secret_name == s.name && c.spec.secret_namespace == s.namespace

-- `watchClusterRegistrySecrets`.
unfoldable pub secret_requests : WatchedSecret → Option (List ClusterResource) → List Request
secret_requests s answer =
    if not (s.type == secret_type)
    then []
    else elim answer [ none ↦ [] | some cs ↦ requests_of_map (refers_to s) (clusters_by_id cs []) ]

-- `localClusterMapFunc` of `SetupWithController`, over the list itself.
unfoldable pub core_resource_requests : Option (List ClusterResource) → List Request
core_resource_requests none = []
core_resource_requests (some cs) = requests_if is_local cs

-- The `UpdateFunc` for the core resources, from the labels of the old object.
unfoldable pub lets_core_update : Map String → Bool
lets_core_update labels = elim (get core_resource_label_name labels) [
  | none ↦ false
  | some v ↦ v == "true"
]

-- The `UpdateFunc` of `SetupWithManager`: the generations, and whether the annotations are the same.
unfoldable pub lets_cluster_update : ℕ → ℕ → Bool → Bool
lets_cluster_update old new same_annotations =
    if not (nat_beq new old) then true else if not same_annotations then true else false

-- The `UpdateFunc` of the remote cluster reconciler; `none` is an object of another type.
unfoldable pub lets_remote_update : Option ClusterResource → Option ClusterResource → Bool
lets_remote_update none new = false
lets_remote_update (some old) none = false
lets_remote_update (some old) (some new) =
    if not (old.status.state == new.status.state) || not (old.status.message == new.status.message)
    then true
    else false

-- What the hook of the rule reconciler adds to its queue when a cluster is added; a failed list is
-- empty, and a nil queue gets nothing.
unfoldable pub rule_requests : Bool → Option (List ResourceSyncRule) → List String
rule_requests has_queue answer =
    if has_queue then names_of (elim answer [ none ↦ [] | some rules ↦ rules ]) else []
  where
    names_of : List ResourceSyncRule → List String
    names_of [] = []
    names_of (r ∷ rs) = r.name ∷ names_of rs
