-- ===== src/Examples/Nodes.antt =====
-- Nodes, and what is detected of them.
use cluster_registry_control.Common.{◌≡◌, refl, false, some, [], ◌∷◌, ok, get}
use cluster_registry_control.Api.Cluster.{ClusterMetadata}
use cluster_registry_control.ClusterMeta.{Node, Env, detect_provider, iks_label}
use cluster_registry_control.ClusterMeta.Detection.{detect_provider_lem, openshift_on_amazon}
use cluster_registry_control.ClusterMeta.Metadata.{get_cluster_metadata, describe_nodes}

abbrev openshift_node : Node
openshift_node = record {
  labels = ("node.openshift.io/os_id", "rhcos") ∷ ("region", "eu") ∷ [];
  annotations = [];
  provider_id = "aws:///zone/i-1";
  kube_proxy_version = "v1";
  kubelet_version = "v2";
}

abbrev amazon_env : Env
amazon_env = record {
  list_nodes = some (openshift_node ∷ []);
  parse_scheme = λ id. some "aws";
  region_label = "region";
  zone_label = "zone";
  is_done = false;
}

-- A node of Cisco has the label of IKS and an id of vSphere.
abbrev cisco_node : Node
cisco_node = record openshift_node {
  labels = (iks_label, "pool") ∷ [];
  provider_id = "vsphere://1";
}

abbrev vsphere_env : Env
vsphere_env = record amazon_env { parse_scheme = λ id. some "vsphere" }

detect_provider_example : detect_provider vsphere_env (some cisco_node) ≡ ok "cisco"
unfolding get
detect_provider_example = detect_provider_lem vsphere_env refl cisco_node

abbrev amazon_metadata : ClusterMetadata
amazon_metadata = describe_nodes amazon_env "amazon" "OPENSHIFT" (openshift_node ∷ [])

metadata_is_found : get_cluster_metadata amazon_env ≡ ok amazon_metadata
unfolding get_cluster_metadata get
metadata_is_found =
    let provider : detect_provider amazon_env (some openshift_node) ≡ ok "amazon" =
      detect_provider_lem amazon_env refl openshift_node in
    rw (provider, openshift_on_amazon amazon_env refl openshift_node refl refl refl)
