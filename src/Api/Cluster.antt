-- ===== src/Api/Cluster.antt =====
-- api/v1alpha1/cluster_types.go and cluster_metadata.go: the resource that stands for a cluster.
-- The enumerations of the API are texts there and here.
use cluster_registry_control.Common.{ℕ, String, Bool, false, Option, none, List, [], Map}

pub record KubernetesApiEndpoint : Type 0 where
  pub client_network : String
  pub server_address : String
  pub ca_bundle : String

pub record ClusterSpec : Type 0 where
  pub cluster_id : String
  pub secret_name : String  -- `AuthInfo.SecretRef`
  pub secret_namespace : String
  pub endpoints : List KubernetesApiEndpoint

pub record Locality : Type 0 where
  pub region : String
  pub regions : List String
  pub zones : List String

pub record ClusterMetadata : Type 0 where
  pub provider : String
  pub distribution : String
  pub kube_proxy_versions : List String
  pub kubelet_versions : List String
  pub version : String
  pub locality : Option Locality

-- Times are seconds; 0 is the zero time.
pub record ClusterCondition : Type 0 where
  pub type : String
  pub status : String
  pub last_heartbeat_time : ℕ
  pub last_transition_time : ℕ
  pub reason : String
  pub message : String
  pub true_is_failure : Bool

pub record ClusterStatus : Type 0 where
  pub state : String
  pub message : String
  pub type : String
  pub leader : Bool
  pub metadata : ClusterMetadata
  pub conditions : List ClusterCondition

pub record ClusterResource : Type 0 where
  pub uid : String
  pub name : String
  pub namespace : String
  pub resource_version : String
  pub annotations : Map String
  pub spec : ClusterSpec
  pub status : ClusterStatus

abbrev pub local_type : String
local_type = "Local"

abbrev pub peer_type : String
peer_type = "Peer"

abbrev pub ready_state : String
ready_state = "Ready"

abbrev pub failed_state : String
failed_state = "Failed"

abbrev pub disabled_state : String
disabled_state = "Disabled"

abbrev pub missing_auth_info : String
missing_auth_info = "MissingAuthInfo"

abbrev pub invalid_auth_info : String
invalid_auth_info = "InvalidAuthInfo"

abbrev pub secret_type : String
secret_type = "k8s.cisco.com/cluster-registry-secret"

abbrev pub kubeconfig_key : String
kubeconfig_key = "kubeconfig"

abbrev pub no_metadata : ClusterMetadata
no_metadata = record {
  provider = "";
  distribution = "";
  kube_proxy_versions = [];
  kubelet_versions = [];
  version = "";
  locality = none;
}

-- `ClusterStatus.Reset`.
unfoldable pub reset : ClusterStatus → ClusterStatus
reset s = record {
  state = ready_state;
  message = "";
  type = peer_type;
  leader = false;
  metadata = no_metadata;
  conditions = s.conditions;
}
