-- ===== src/Util/Kubeconfig/Token.antt =====
-- GetKubeconfigWithSAToken of pkg/util/kubeconfig.go, up to the text that is made of the configuration.
use cluster_registry_control.Common.{
  String, ◌≡◌, eq_refl, Option, none, some, [], ◌∷◌, arith, Map, get,
}

pub record NamedCluster : Type 0 where
  pub certificate_authority_data : String
  pub server : String

pub record NamedContext : Type 0 where
  pub cluster : String
  pub auth_info : String

-- A kubeconfig: its clusters, contexts and tokens by name.
pub record KubeConfig : Type 0 where
  pub clusters : Map NamedCluster
  pub contexts : Map NamedContext
  pub current_context : String
  pub auth_infos : Map String

unfoldable pub kubeconfig_with_token : String → String → String → String → String → KubeConfig
kubeconfig_with_token name username address ca_data token = record {
  clusters = (name, record { certificate_authority_data = ca_data; server = address }) ∷ [];
  contexts = (name, record { cluster = name; auth_info = username }) ∷ [];
  current_context = name;
  auth_infos = (username, token) ∷ [];
}

-- `none` is an error of the API server's address or of the text.
unfoldable pub get_kubeconfig_with_sa_token :
    (KubeConfig → Option String) → String → String → Option String → String → String → Option String
unfolding kubeconfig_with_token
get_kubeconfig_with_sa_token marshal name username none ca_data token = none
get_kubeconfig_with_sa_token marshal name username (some address) ca_data token =
    marshal (kubeconfig_with_token name username address ca_data token)

-- What a client reads: the server, the authority and the token of the current context.
abbrev pub credentials : KubeConfig → Option (NamedCluster × String)
credentials k = elim (get k.current_context k.contexts) [
  | none ↦ none
  | some context ↦ elim (get context.cluster k.clusters) [
    | none ↦ none
    | some cluster ↦ elim (get context.auth_info k.auth_infos) [
      | none ↦ none
      | some token ↦ some (cluster, token)
    ]
  ]
]

-- The current context of the configuration leads to the server, the authority and the token that it
-- was made of.
pub credentials_lem :
    (name username address ca_data token : String)
    → credentials (kubeconfig_with_token name username address ca_data token)
      ≡ some (record { certificate_authority_data = ca_data; server = address }, token)
unfolding kubeconfig_with_token get
credentials_lem name username address ca_data token = ground (arith, eq_refl name, eq_refl username)
