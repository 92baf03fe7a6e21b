-- ===== src/Util/ReaderSecret.antt =====
-- pkg/util/cluster_secret.go: the secret with a kubeconfig for the readers of a cluster. The texts of
-- certificates and tokens are not looked into.
pub mod Tokens
pub mod External
use Prim.Native.String.{◌++◌ as text_append}
use cluster_registry_control.Common.{
  ℕ, String, Bool, true, false, not, ◌==◌, Option, none, some, List, [], ◌∷◌, Map, get,
  if◌then◌else◌, Result, ok, err,
}
use cluster_registry_control.Api.Cluster.{ClusterResource, secret_type}
use cluster_registry_control.Util.Kubeconfig.{get_endpoint_for_cluster_by_network}

abbrev pub service_account_token : String
service_account_token = "kubernetes.io/service-account-token"

abbrev pub service_account_name : String
service_account_name = "kubernetes.io/service-account.name"

-- A secret; a key of its data that is missing is `none`.
pub record TokenSecret : Type 0 where
  pub name : String
  pub type : String
  pub annotations : Map String
  pub token : Option String
  pub ca_crt : Option String

pub data SecretError : Type 0 where
  no_service_account could_not_list could_not_create timed_out : SecretError
  could_not_get could_not_make_kubeconfig : SecretError

-- What `Get` finds of a secret.
pub data SecretAnswer : Type 0 where
  secret_found : TokenSecret → SecretAnswer
  secret_not_found secret_failed : SecretAnswer

-- What one look at the token gives: the two texts, or that it is not there yet.
unfoldable pub check_token : SecretAnswer → Result SecretError (Option (String × String))
check_token secret_not_found = ok none
check_token secret_failed = err could_not_get
check_token (secret_found s) = elim s.token [
  | none ↦ ok none
  | some token ↦ elim s.ca_crt [ none ↦ ok none | some ca ↦ ok (some (token, ca)) ]
]

-- What the code is given: the API server, whose answers to the looks at a secret come in order, the
-- wait of the library for a number of looks, and the texts that other libraries make.
pub record SecretEnv : Type 0 where
  pub has_service_account : Bool
  pub secrets : Option (List TokenSecret)
  pub creates : TokenSecret → Bool
  pub looks : String → ℕ → SecretAnswer
  pub wait :
      ℕ → (ℕ → Result SecretError (Option (String × String))) → Result SecretError (String × String)
  pub contains : String → String → Bool
  pub external_address : Option String
  pub host : String
  pub kubeconfig_ca : String
  pub make_kubeconfig : String → String → String → String → String → Option String

-- `Steps` of the back-off.
abbrev pub backoff_steps : ℕ
backoff_steps = 3

unfoldable pub wait_for_secret_token_generated :
    SecretEnv → String → Result SecretError (Option String × Option String)
unfolding check_token
wait_for_secret_token_generated e name =
    elim (e.wait backoff_steps (λ i. check_token (e.looks name i))) [
      | err x ↦ err x
      | ok (token, ca) ↦ ok (some token, some ca)
    ]

-- The loop over the secrets: the first token of the service account.
unfoldable pub find_token_secret : String → List TokenSecret → Option TokenSecret
find_token_secret account [] = none
find_token_secret account (s ∷ ss) =
    let later = find_token_secret account ss in
    if s.type == service_account_token
    then (elim (get service_account_name s.annotations) [
      | none ↦ later
      | some value ↦ if value == account then some s else later
    ])
    else later

abbrev pub new_token_secret : String → TokenSecret
new_token_secret account = record {
  name = text_append account "-token";
  type = service_account_token;
  annotations = (service_account_name, account) ∷ [];
  token = none;
  ca_crt = none;
}

-- `GetReaderSecretTokenAndCACert`, for the name of the service account.
unfoldable pub get_reader_secret_token_and_ca_cert :
    SecretEnv → String → Result SecretError (Option String × Option String)
get_reader_secret_token_and_ca_cert e account =
    if not e.has_service_account then err no_service_account else elim e.secrets [
      | none ↦ err could_not_list
      | some ss ↦ elim (find_token_secret account ss) [
        | some s ↦ ok (s.token, s.ca_crt)
        | none ↦
            if e.creates (new_token_secret account)
            then wait_for_secret_token_generated e (new_token_secret account).name
            else err could_not_create
      ]
    ]

-- A nil slice as a text.
abbrev pub or_empty : Option String → String
or_empty none = ""
or_empty (some s) = s

abbrev pub append_line : String → String → String
append_line s t = text_append s (text_append "\n" t)

-- The address of the API server: that of the resource, the configured one, the one that the server
-- tells, and that of the client configuration.
unfoldable pub choose_address : SecretEnv → ClusterResource → String → String
unfolding get_endpoint_for_cluster_by_network
choose_address e cluster configured =
    let endpoint = get_endpoint_for_cluster_by_network cluster "" in
    let address =
      if not (endpoint.server_address == "") then endpoint.server_address else configured in
    let external = if address == "" then or_empty e.external_address else address in
    if external == "" then e.host else external

unfoldable pub choose_ca_data : SecretEnv → ClusterResource → String → String
unfolding get_endpoint_for_cluster_by_network
choose_ca_data e cluster ca =
    let endpoint = get_endpoint_for_cluster_by_network cluster "" in
    let bundle =
      if not (e.contains ca e.kubeconfig_ca) then append_line ca e.kubeconfig_ca else ca in
    if not (endpoint.ca_bundle == "") then append_line bundle endpoint.ca_bundle else bundle

-- The secret that is made.
pub record ReaderSecret : Type 0 where
  pub name : String
  pub namespace : String
  pub type : String
  pub data_map : Map String

unfoldable pub get_reader_secret_for_cluster :
    SecretEnv → ClusterResource → String → String → Result SecretError ReaderSecret
unfolding get_reader_secret_token_and_ca_cert choose_address choose_ca_data
get_reader_secret_for_cluster e cluster account configured =
    elim (get_reader_secret_token_and_ca_cert e account) [
      | err x ↦ err x
      | ok (token, ca) ↦
          elim (e.make_kubeconfig cluster.name account (choose_address e cluster configured)
            (choose_ca_data e cluster (or_empty ca)) (or_empty token)) [
              | none ↦ err could_not_make_kubeconfig
              | some kubeconfig ↦ ok (record {
                name = cluster.spec.secret_name;
                namespace = cluster.spec.secret_namespace;
                type = secret_type;
                data_map = ("kubeconfig", kubeconfig) ∷ [];
              })
            ]
    ]
