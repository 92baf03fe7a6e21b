-- ===== src/Examples/Admission.antt =====
-- The admission of clusters, and the endpoint that is used from a network.
use cluster_registry_control.Common.{◌≡◌, ◌↔◌, ◌⊎◌, false, some, [], ◌∷◌, In}
use cluster_registry_control.Api.Cluster.{
  KubernetesApiEndpoint, ClusterResource, no_metadata, peer_type,
}
use cluster_registry_control.Webhooks.{
  allowed, errored, conflict_status, handle, Conflicts, handle_lem,
}

abbrev inner : KubernetesApiEndpoint
inner = record { client_network = "n1"; server_address = "10.0.0.1"; ca_bundle = "" }

abbrev outer : KubernetesApiEndpoint
outer = record { client_network = ""; server_address = "api"; ca_bundle = "" }

abbrev local_resource : ClusterResource
local_resource = record {
  uid = "u1";
  name = "c1";
  namespace = "";
  resource_version = "5";
  annotations = [];
  spec = record {
    cluster_id = "id";
    secret_name = "";
    secret_namespace = "";
    endpoints = outer ∷ inner ∷ [];
  };
  status = record {
    state = "Ready";
    message = "";
    type = "Local";
    leader = false;
    metadata = no_metadata;
    conditions = [];
  };
}

-- The same cluster under another name.
abbrev second_resource : ClusterResource
second_resource = record local_resource { name = "c2" }

handle_example :
    ((handle (some second_resource) (some (local_resource ∷ [])) ≡ allowed) ↔ (
      (second_resource.status.type ≡ peer_type)
      ⊎ ((old : ClusterResource) → In old (local_resource ∷ []) → ¬ Conflicts second_resource old)))
    × ((handle (some second_resource) (some (local_resource ∷ [])) ≡ allowed)
        ⊎ (handle (some second_resource) (some (local_resource ∷ [])) ≡ errored conflict_status))
handle_example = handle_lem second_resource (local_resource ∷ [])
