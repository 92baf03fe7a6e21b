-- ===== src/ClusterMeta/Distributions.antt =====
-- pkg/clustermeta/distribution.go and distributions.go: which distribution a node runs.
use cluster_registry_control.Common.{
  String, Bool, false, not, ◌&&◌, ◌==◌, Option, none, some, List, [], ◌∷◌, has, if◌then◌else◌,
  Result, ok, err,
}
use cluster_registry_control.ClusterMeta.{
  Node, MetaError, unknown_provider, unknown_distribution, nil_node, Env, iks_label, has_value,
  node_or_first, Detector, detect_first, detect_provider,
}

abbrev pub nodepool_label : String
nodepool_label = "nodepool.banzaicloud.io/name"

abbrev pub cri_socket : String
cri_socket = "kubeadm.alpha.kubernetes.io/cri-socket"

abbrev pub os_id_label : String
os_id_label = "node.openshift.io/os_id"

abbrev pub gke_label : String
gke_label = "cloud.google.com/gke-nodepool"

abbrev pub agentpool_label : String
agentpool_label = "agentpool"

-- The last part of a test: the provider, where an unknown one is no match.
unfoldable pub has_provider : String → String → Env → Option Node → Result MetaError (Bool × String)
unfolding detect_provider
has_provider provider distribution env node = elim (detect_provider env node) [
  | err unknown_provider ↦ ok (false, distribution)
  | err e ↦ err e
  | ok p ↦ ok (p == provider, distribution)
]

-- The first part of a test: the node, which is dereferenced next.
unfoldable pub with_node : Env → (Node → Result MetaError (Bool × String)) → Detector
unfolding node_or_first
with_node env f node = elim (node_or_first env node) [
  | err e ↦ err e
  | ok none ↦ err nil_node
  | ok (some n) ↦ f n
]

unfoldable pub is_pke : Env → Detector
unfolding with_node
is_pke env =
    with_node env
      (λ n. ok (has_value nodepool_label n.labels && has_value cri_socket n.annotations, "PKE"))

unfoldable pub is_eks : Env → Detector
unfolding with_node has_provider
is_eks env = with_node env (λ n.
    if has cri_socket n.annotations
    then ok (false, "EKS")
    else if has os_id_label n.labels
    then ok (false, "EKS")
    else has_provider "amazon" "EKS" env (some n))

-- `IsGKE`, `IsAKS` and `IsIKS`: a label and a provider.
unfoldable pub has_label_and_provider : String → String → String → Env → Detector
unfolding with_node has_provider
has_label_and_provider label provider distribution env = with_node env (λ n.
    if not (has_value label n.labels)
    then ok (false, distribution)
    else has_provider provider distribution env (some n))

abbrev pub is_gke : Env → Detector
is_gke = has_label_and_provider gke_label "google" "GKE"

abbrev pub is_aks : Env → Detector
is_aks = has_label_and_provider agentpool_label "azure" "AKS"

abbrev pub is_iks : Env → Detector
is_iks = has_label_and_provider iks_label "cisco" "IKS"

-- `IsKIND`, which does not dereference the node itself.
unfoldable pub is_kind_distribution : Env → Detector
unfolding node_or_first has_provider
is_kind_distribution env node = elim (node_or_first env node) [
  | err e ↦ err e
  | ok n ↦ has_provider "kind" "KIND" env n
]

unfoldable pub is_openshift : Env → Detector
unfolding with_node
is_openshift env = with_node env (λ n. ok (has_value os_id_label n.labels, "OPENSHIFT"))

abbrev pub known_distributions : Env → List Detector
known_distributions env =
    is_eks env
    ∷ is_pke env
    ∷ is_gke env
    ∷ is_aks env
    ∷ is_kind_distribution env
    ∷ is_iks env
    ∷ is_openshift env
    ∷ []

unfoldable pub detect_distribution : Env → Option Node → Result MetaError String
unfolding detect_first
detect_distribution env node =
    detect_first env.is_done unknown_distribution (known_distributions env) node
