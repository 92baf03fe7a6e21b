-- ===== src/Util/Kubeconfig/Overrides.antt =====
-- `GetKubeconfigOverridesForClusterByNetwork` and `getURLWithHTTPSScheme` of pkg/util/kubeconfig.go.
use Prim.Native.String.{◌++◌ as text_append}
use cluster_registry_control.Common.{
  String, Bool, ◌==◌, Option, none, some, is_empty, if◌then◌else◌,
}
use cluster_registry_control.Api.Cluster.{ClusterResource}
use cluster_registry_control.Util.Kubeconfig.{get_endpoint_for_cluster_by_network}

-- A parsed URL: its scheme, and the rest of it.
pub record Url : Type 0 where
  pub scheme : String
  pub rest : String

-- What the standard library does: the test for "//", and `url.Parse` and `String`.
pub record Urls : Type 0 where
  pub has_slashes : String → Bool
  pub parse : String → Option Url
  pub print : Url → String

-- `ConfigOverrides`: empty texts override nothing.
pub record Overrides : Type 0 where
  pub server : String
  pub ca_data : String

abbrev pub no_overrides : Overrides
no_overrides = record { server = ""; ca_data = "" }

module _ (u : Urls) where
  unfoldable pub get_url_with_https_scheme : String → Option String
  get_url_with_https_scheme address =
      elim (u.parse (if u.has_slashes address then address else text_append "//" address)) [
        | none ↦ none
        | some url ↦
            some (u.print (if url.scheme == "" then record url { scheme = "https" } else url))
      ]

  -- `none` is an error.
  unfoldable pub get_kubeconfig_overrides_for_cluster_by_network :
      ClusterResource → String → Option Overrides
  unfolding get_url_with_https_scheme get_endpoint_for_cluster_by_network
  get_kubeconfig_overrides_for_cluster_by_network cluster network =
      if is_empty cluster.spec.endpoints
      then some no_overrides
      else let endpoint = get_endpoint_for_cluster_by_network cluster network in
        if endpoint.server_address == ""
        then some (record no_overrides { ca_data = endpoint.ca_bundle })
        else elim (get_url_with_https_scheme endpoint.server_address) [
          | none ↦ none
          | some address ↦ some (record { server = address; ca_data = endpoint.ca_bundle })
        ]
