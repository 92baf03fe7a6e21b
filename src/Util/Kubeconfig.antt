-- ===== src/Util/Kubeconfig.antt =====
-- `GetEndpointForClusterByNetwork` of pkg/util/kubeconfig.go: which API endpoint of a cluster is
-- used from a network.
pub mod Overrides
pub mod Token
use cluster_registry_control.Common.{
  String, ◌≡◌, refl, ◌==◌, Option, none, some, List, [], ◌∷◌, arith, or_else, if◌then◌else◌,
}
use cluster_registry_control.Api.Cluster.{KubernetesApiEndpoint, ClusterResource}

abbrev pub no_endpoint : KubernetesApiEndpoint
no_endpoint = record { client_network = ""; server_address = ""; ca_bundle = "" }

-- The loop, with the endpoint that was found so far.
unfoldable pub choose_endpoint :
    String → List KubernetesApiEndpoint → KubernetesApiEndpoint → KubernetesApiEndpoint
choose_endpoint network [] endpoint = endpoint
choose_endpoint network (e ∷ es) endpoint =
    let later = choose_endpoint network es (if e.client_network == "" then e else endpoint) in
    if e.client_network == network then e else later

unfoldable pub get_endpoint_for_cluster_by_network :
    ClusterResource → String → KubernetesApiEndpoint
unfolding choose_endpoint
get_endpoint_for_cluster_by_network cluster network =
    choose_endpoint network cluster.spec.endpoints no_endpoint

-- The first endpoint of a network.
abbrev pub first_of_network : String → List KubernetesApiEndpoint → Option KubernetesApiEndpoint
first_of_network network [] = none
first_of_network network (e ∷ es) =
    or_else (if e.client_network == network then some e else none) (first_of_network network es)

-- The last endpoint that is for every network.
abbrev pub last_of_all : List KubernetesApiEndpoint → Option KubernetesApiEndpoint
last_of_all [] = none
last_of_all (e ∷ es) = or_else (last_of_all es) (if e.client_network == "" then some e else none)

abbrev pub with_default :
    KubernetesApiEndpoint → Option KubernetesApiEndpoint → KubernetesApiEndpoint
with_default d none = d
with_default d (some e) = e

choose_endpoint_lem :
    (network : String) (es : List KubernetesApiEndpoint) (d : KubernetesApiEndpoint)
    → choose_endpoint network es d
      ≡ with_default d (or_else (first_of_network network es) (last_of_all es))
unfolding choose_endpoint
choose_endpoint_lem network [] d = refl
choose_endpoint_lem network (e ∷ es) d =
    ground (arith, choose_endpoint_lem network es (if e.client_network == "" then e else d))

-- The endpoint that is used is the first one of the network; if there is none, the last one that is
-- for every network; and if there is none of these either, the empty one.
pub get_endpoint_for_cluster_by_network_lem :
    (cluster : ClusterResource) (network : String)
    → get_endpoint_for_cluster_by_network cluster network
      ≡ with_default no_endpoint (
          or_else
            (first_of_network network cluster.spec.endpoints)
            (last_of_all cluster.spec.endpoints))
unfolding get_endpoint_for_cluster_by_network
get_endpoint_for_cluster_by_network_lem cluster network =
    choose_endpoint_lem network cluster.spec.endpoints no_endpoint
