-- ===== src/Util/Provision.antt =====
-- pkg/util/provision_local_cluster.go: the object that stands for the local cluster is made once.
use cluster_registry_control.Common.{
  String, Bool, true, false, not, Option, none, some, List, [], ◌∷◌, ◌++◌, if◌then◌else◌,
}
use cluster_registry_control.Api.Cluster.{ClusterResource, no_metadata}

-- What is asked of the API server, where it is accepted.
pub data Provision : Type 0 where
  ignore_failures : Provision  -- the policy of each webhook of the configuration
  create : ClusterResource → Provision

-- The configuration, and what the API server answers: whether the object can be read and the webhook
-- configuration read and updated, the uid of the system namespace, and whether the object is created.
pub record ProvisionEnv : Type 0 where
  pub name : String
  pub namespace : String
  pub api_server_endpoint_address : String
  pub webhook_enabled : Bool
  pub has_cluster : String → String → Bool  -- namespace, name
  pub has_webhook_configuration : Bool
  pub updates_webhook_configuration : Bool
  pub system_uid : Option String
  pub creates_cluster : ClusterResource → Bool

unfoldable pub new_local_cluster : Option String → String → String → String → Option ClusterResource
new_local_cluster none namespace name address = none
new_local_cluster (some uid) namespace name address = some (record {
  uid = "";
  name = name;
  namespace = "";
  resource_version = "";
  annotations = [];
  spec = record {
    cluster_id = uid;
    secret_name = name;
    secret_namespace = namespace;
    endpoints = record { client_network = ""; server_address = address; ca_bundle = "" } ∷ [];
  };
  status = record {
    state = "";
    message = "";
    type = "";
    leader = false;
    metadata = no_metadata;
    conditions = [];
  };
})

-- From `NewLocalCluster` on, after what was done already; whether there is no error.
unfoldable pub create_local_cluster : ProvisionEnv → List Provision → List Provision × Bool
unfolding new_local_cluster
create_local_cluster e before =
    elim (new_local_cluster e.system_uid e.namespace e.name e.api_server_endpoint_address) [
      | none ↦ (before, false)
      | some c ↦ if e.creates_cluster c then (before ++ create c ∷ [], true) else (before, false)
    ]

-- `ProvisionLocalClusterObject`.
unfoldable pub provision_local_cluster_object : ProvisionEnv → List Provision × Bool
unfolding create_local_cluster
provision_local_cluster_object e =
    if e.has_cluster e.namespace e.name
    then ([], true)
    else if not e.webhook_enabled
    then create_local_cluster e []
    else if not e.has_webhook_configuration
    then ([], false)
    else if not e.updates_webhook_configuration
    then ([], false)
    else create_local_cluster e (ignore_failures ∷ [])
