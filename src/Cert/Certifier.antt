-- ===== src/Cert/Certifier.antt =====
-- pkg/cert/webhook_certifier.go: the certifier puts the authority's certificate into the configuration
-- of the webhook. The client, the patches and the informer are parameters.
pub mod Runs
pub mod Informer
pub mod Delivery
pub mod Readiness
use Prim.Native.String.{◌++◌ as text_append}
use cluster_registry_control.Common.{
  ℕ, String, Bool, true, false, not, ◌&&◌, ◌==◌, Option, none, some, List, [], ◌∷◌, ◌++◌, map,
  if◌then◌else◌,
}
use cluster_registry_control.Cert.Certificate.{Certificate, CertEnv}
use cluster_registry_control.Cert.Renewer.{
  AfterCheck, Renewer, with_dns_names, with_after_check_functions, check_certificate,
}

-- One webhook of a configuration.
pub record Hook : Type 0 where
  pub service_name : String
  pub service_namespace : String
  pub fails_closed : Bool
  pub ca_bundle : Option String

-- The certifier: nil configurations are `none`; `updates` are the accepted updates, in order.
pub record Certifier : Type 0 where
  pub webhook_name : String
  pub webhook_namespace : String
  pub mutating : Option (List Hook)
  pub validating : Option (List Hook)
  pub webhook_cert_bundle_readyz : Bool
  pub updates : List (List Hook)

-- What the API server and the patch library answer: the configurations by namespace and name, whether
-- the current one can be read, whether there is a difference to it, and whether an update is accepted.
pub record CertifierEnv : Type 0 where
  pub get_mutating : String → String → Option (List Hook)
  pub get_validating : String → String → Option (List Hook)
  pub reads_current : Bool
  pub is_up_to_date : List Hook → Option Bool  -- none for an error
  pub annotates : Bool
  pub accepts : List Hook → Bool

unfoldable pub new_webhook_certifier : String → String → Bool → Certifier
new_webhook_certifier name namespace readyz = record {
  webhook_name = name;
  webhook_namespace = namespace;
  mutating = none;
  validating = none;
  webhook_cert_bundle_readyz = readyz;
  updates = [];
}

-- `%s.%s.svc`.
abbrev pub service_host : Hook → String
service_host h =
    text_append h.service_name (text_append "." (text_append h.service_namespace ".svc"))

unfoldable pub dns_names : Certifier → List String
dns_names c = elim c.mutating [
  | some hooks ↦ map service_host hooks
  | none ↦ elim c.validating [ none ↦ [] | some hooks ↦ map service_host hooks ]
]

-- `loadWebhookConfiguration`, and whether it succeeds. The mutating configuration is asked for with
-- the name of the webhook as the namespace.
unfoldable pub load_webhook_configuration : CertifierEnv → Certifier → Certifier × Bool
load_webhook_configuration e c = elim (e.get_mutating c.webhook_name c.webhook_name) [
  | some hooks ↦ (record c { mutating = some hooks }, true)
  | none ↦ elim (e.get_validating c.webhook_namespace c.webhook_name) [
    | some hooks ↦ (record c { mutating = none; validating = some hooks }, true)
    | none ↦ (record c { mutating = none; validating = some [] }, false)
  ]
]

-- The loop over the webhooks; `none` is the panic on a nil certificate.
unfoldable pub set_bundles : Option Certificate → List Hook → Option (List Hook)
set_bundles c [] = some []
set_bundles c (h ∷ hs) =
    let later = set_bundles c hs in
    elim c [
      | none ↦ none
      | some certificate ↦ elim later [
        | none ↦ none
        | some rest ↦
            some (record h { fails_closed = true; ca_bundle = certificate.ca_certificate } ∷ rest)
      ]
    ]

-- The end of `updateCertificate`, for the configuration that is wanted; whether it succeeds.
unfoldable pub put_configuration : CertifierEnv → List Hook → Certifier → Certifier × Bool
put_configuration e hooks c =
    if not e.reads_current then (c, false) else elim (e.is_up_to_date hooks) [
      | none ↦ (c, false)
      | some up_to_date ↦
          if up_to_date
          then (c, true)
          else if not e.annotates
          then (c, false)
          else if e.accepts hooks
          then (record c { updates = c.updates ++ hooks ∷ [] }, true)
          else (c, false)
    ]

unfoldable pub update_certificate : CertifierEnv → Certifier → Certifier × Bool
unfolding put_configuration
update_certificate e c = elim c.mutating [
  | some hooks ↦ put_configuration e hooks c
  | none ↦ elim c.validating [ none ↦ (c, false) | some hooks ↦ put_configuration e hooks c ]
]

-- The end of the function that is run after a check; its error is only logged.
unfoldable pub update_if_needed : CertifierEnv → Bool → Certifier → Certifier
unfolding update_certificate
update_if_needed e needs_update c =
    if needs_update
    then (let (c', done) = update_certificate e c in
        if done then record c' { webhook_cert_bundle_readyz = true } else c')
    else c

-- The function that `Start` adds to the renewer; `none` is a panic.
unfoldable pub after_check : CertifierEnv → AfterCheck Certifier
unfolding update_if_needed
after_check e certificate needs_update c = elim c.mutating [
  | some hooks ↦ elim (set_bundles certificate hooks) [
    | none ↦ none
    | some hooks' ↦ some (update_if_needed e needs_update (record c { mutating = some hooks' }))
  ]
  | none ↦ elim c.validating [
    | none ↦ some c
    | some hooks ↦ elim (set_bundles certificate hooks) [
      | none ↦ none
      | some hooks' ↦ some (update_if_needed e needs_update (record c { validating = some hooks' }))
    ]
  ]
]

-- `Start`, up to the loop of the renewer: the certifier, and the renewer with its names and the
-- function; `none` is an error.
unfoldable pub prepare_start :
    CertifierEnv → Renewer Certifier → Certifier → Option (Certifier × Renewer Certifier)
unfolding load_webhook_configuration dns_names
prepare_start e r c =
    let (c', loaded) = load_webhook_configuration e c in
    if loaded
    then some
        (c', with_after_check_functions (after_check e ∷ []) (with_dns_names (dns_names c') r))
    else none

-- `WebhookCertBundleReadyzChecker`: whether there is no error.
unfoldable pub is_ready : Certifier → Bool
is_ready c = c.webhook_cert_bundle_readyz
