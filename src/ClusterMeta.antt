-- ===== src/ClusterMeta.antt =====
-- pkg/clustermeta/provider.go and providers.go: who provides the nodes of a cluster.
pub mod Distributions
pub mod Metadata
pub mod Detection
pub mod Contents
use cluster_registry_control.Common.{
  String, Bool, true, false, not, ◌==◌, Option, none, some, List, [], ◌∷◌, Map, index,
  if◌then◌else◌, Result, ok, err, ◌>>=◌,
}

-- What the code reads of a node.
pub record Node : Type 0 where
  pub labels : Map String
  pub annotations : Map String
  pub provider_id : String
  pub kube_proxy_version : String
  pub kubelet_version : String

-- `nil_node` is the panic on a nil node.
pub data MetaError : Type 0 where
  unknown_provider unknown_distribution could_not_list_nodes could_not_parse nil_node : MetaError

-- What the code is given: the list of the nodes, the scheme of a parsed URL, two label names of
-- Kubernetes, and whether the context is done, which does not change during a call.
pub record Env : Type 0 where
  pub list_nodes : Option (List Node)
  pub parse_scheme : String → Option String
  pub region_label : String
  pub zone_label : String
  pub is_done : Bool

abbrev pub iks_label : String
iks_label = "iks.intersight.cisco.com/version"

-- `value, ok := m[key]; ok && value != ""`.
abbrev pub has_value : String → Map String → Bool
has_value key m = not (index key m == "")

-- `getK8sNode`: the first node.
unfoldable pub get_k8s_node : Env → Result MetaError (Option Node)
get_k8s_node env = elim env.list_nodes [
  | none ↦ err could_not_list_nodes
  | some [] ↦ ok none
  | some (n ∷ ns) ↦ ok (some n)
]

-- The given node, or the first one if there is none.
unfoldable pub node_or_first : Env → Option Node → Result MetaError (Option Node)
unfolding get_k8s_node
node_or_first env none = get_k8s_node env
node_or_first env (some n) = ok (some n)

unfoldable pub detect_node_by_provider_id :
    Env → Option Node → String → Result MetaError (Bool × Option Node)
unfolding node_or_first
detect_node_by_provider_id env node scheme = elim (node_or_first env node) [
  | err e ↦ err e
  | ok none ↦ ok (false, none)
  | ok (some n) ↦
      if n.provider_id == "" then ok (false, some n) else elim (env.parse_scheme n.provider_id) [
        | none ↦ err could_not_parse
        | some s ↦ ok (s == scheme, some n)
      ]
]

-- Whether a node is of a kind, and the name of the kind.
abbrev pub Detector : Type 0
Detector = Option Node → Result MetaError (Bool × String)

-- `IsAmazon`, `IsAzure`, `IsGoogle` and `IsKind`.
unfoldable pub has_scheme : String → String → Env → Detector
unfolding detect_node_by_provider_id
has_scheme scheme name env node = do
  (found, n) ← detect_node_by_provider_id env node scheme
  ok (found, name)

abbrev pub is_amazon : Env → Detector
is_amazon = has_scheme "aws" "amazon"

abbrev pub is_azure : Env → Detector
is_azure = has_scheme "azure" "azure"

abbrev pub is_google : Env → Detector
is_google = has_scheme "gce" "google"

abbrev pub is_kind : Env → Detector
is_kind = has_scheme "kind" "kind"

unfoldable pub is_vsphere : Env → Detector
unfolding detect_node_by_provider_id
is_vsphere env node = do
  (found, n) ← detect_node_by_provider_id env node "vsphere"
  elim n [
    | none ↦ err nil_node
    | some x ↦ if has_value iks_label x.labels then ok (false, "") else ok (found, "vsphere")
  ]

unfoldable pub is_cisco : Env → Detector
unfolding detect_node_by_provider_id
is_cisco env node = do
  (found, n) ← detect_node_by_provider_id env node "vsphere"
  elim n [
    | none ↦ err nil_node
    | some x ↦ if not (has_value iks_label x.labels) then ok (false, "") else ok (found, "cisco")
  ]

-- The loops of `DetectProvider` and `DetectDistribution`.
unfoldable pub detect_first :
    Bool → MetaError → List Detector → Option Node → Result MetaError String
detect_first is_done unknown [] target = err unknown
detect_first is_done unknown (f ∷ fs) target =
    let later = detect_first is_done unknown fs target in
    if is_done
    then err unknown
    else elim (f target) [ err e ↦ err e | ok (found, name) ↦ if found then ok name else later ]

abbrev pub known_providers : Env → List Detector
known_providers env =
    is_amazon env ∷ is_azure env ∷ is_google env ∷ is_vsphere env ∷ is_kind env ∷ is_cisco env ∷ []

unfoldable pub detect_provider : Env → Option Node → Result MetaError String
unfolding detect_first
detect_provider env node = detect_first env.is_done unknown_provider (known_providers env) node
