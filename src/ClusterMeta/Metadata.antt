-- ===== src/ClusterMeta/Metadata.antt =====
-- pkg/clustermeta/metadata.go: the metadata of a cluster, from its nodes. A set of texts is a map to
-- the unit type.
use Prim.Native.String.{◌++◌ as text_append}
use cluster_registry_control.Common.{
  String, ◌&&◌, ◌==◌, Option, none, some, List, [], ◌∷◌, Map, put, index, is_empty, if◌then◌else◌,
  Result, ok, err, ◌>>=◌,
}
use cluster_registry_control.Api.Cluster.{ClusterMetadata, Locality, no_metadata}
use cluster_registry_control.ClusterMeta.{
  Node, MetaError, unknown_provider, unknown_distribution, could_not_list_nodes, Env,
  detect_provider,
}
use cluster_registry_control.ClusterMeta.Distributions.{detect_distribution}

unfoldable pub keys : Map (Unit {0}) → List String
keys [] = []
keys ((k, u) ∷ m) = k ∷ keys m

-- A loop over the nodes that collects one text of each, if it is there.
unfoldable pub collect_texts : (Node → Option String) → List Node → Map (Unit {0}) → Map (Unit {0})
collect_texts part [] m = m
collect_texts part (n ∷ ns) m =
    collect_texts part ns (elim (part n) [ none ↦ m | some v ↦ put v tt m ])

-- A label, if it is not empty.
abbrev pub label_of : String → Node → Option String
label_of key n = if index key n.labels == "" then none else some (index key n.labels)

-- `strings.Join`.
unfoldable pub join : String → List String → String
join sep [] = ""
join sep (s ∷ []) = s
join sep (s ∷ t ∷ rest) = text_append s (text_append sep (join sep (t ∷ rest)))

abbrev pub first_or_empty : List String → String
first_or_empty [] = ""
first_or_empty (s ∷ ss) = s

-- No locality if there is neither a region nor a zone.
unfoldable pub make_locality : List String → List String → Option Locality
unfolding join
make_locality regions zones =
    if is_empty regions && is_empty zones
    then none
    else some (record { region = join ", " regions; regions = regions; zones = zones })

unfoldable pub texts : (Node → Option String) → List Node → List String
unfolding keys collect_texts
texts part ns = keys (collect_texts part ns [])

-- The part of the metadata that all nodes decide.
unfoldable pub describe_nodes : Env → String → String → List Node → ClusterMetadata
unfolding texts make_locality
describe_nodes env provider distribution ns =
    let proxies = texts (λ n. some n.kube_proxy_version) ns in
    let regions = texts (λ n. label_of env.region_label n) ns in
    let zones = texts (λ n. label_of env.zone_label n) ns in
    record {
      provider = provider;
      distribution = distribution;
      kube_proxy_versions = proxies;
      kubelet_versions = texts (λ n. some n.kubelet_version) ns;
      version = first_or_empty proxies;
      locality = make_locality regions zones;
    }

-- An error of a detection is returned unless it says that nothing fits, which gives the empty text.
abbrev pub tolerate_provider : Result MetaError String → Result MetaError String
tolerate_provider (err unknown_provider) = ok ""
tolerate_provider r = r

abbrev pub tolerate_distribution : Result MetaError String → Result MetaError String
tolerate_distribution (err unknown_distribution) = ok ""
tolerate_distribution r = r

unfoldable pub get_cluster_metadata : Env → Result MetaError ClusterMetadata
unfolding detect_provider detect_distribution describe_nodes
get_cluster_metadata env = elim env.list_nodes [
  | none ↦ err could_not_list_nodes
  | some [] ↦ ok no_metadata
  | some (n ∷ ns) ↦ do
    provider ← tolerate_provider (detect_provider env (some n))
    distribution ← tolerate_distribution (detect_distribution env (some n))
    ok (describe_nodes env provider distribution (n ∷ ns))
]
