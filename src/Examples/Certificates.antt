-- ===== src/Examples/Certificates.antt =====
-- The certificates of the webhook, on a disk that takes every file.
use cluster_registry_control.Common.{
  ℕ, List, suc, put, String, ◌≡◌, refl, true, false, not, ◌||◌, Option, some, none, [], ◌∷◌, ◌++◌,
  Map, get,
}
use cluster_registry_control.Cert.Certificate.{
  write_files, or_nil, Certificate, CertEnv, new_certificate_from_directory, verify, write,
  new_certificate, or_failed,
}
use cluster_registry_control.Cert.Renewer.{
  ticked, start_renewer, run_loop, renew_certificate, Renewer, run_after_check, verify_certificate,
  verify_all, check_certificate, with_dns_names, with_after_check_functions,
}
use cluster_registry_control.Cert.Renewer.Checks.{check_certificate_lem}
use cluster_registry_control.Cert.Certifier.{
  set_bundles, update_if_needed, update_certificate, put_configuration, Hook, Certifier,
  CertifierEnv, new_webhook_certifier, after_check, is_ready, load_webhook_configuration,
  prepare_start, dns_names,
}
use cluster_registry_control.Cert.Certifier.Runs.{failed_renewal_panics, bundled, valid_check_lem}
use cluster_registry_control.Cert.Certifier.Delivery.{Delivered}
use cluster_registry_control.Cert.Certifier.Readiness.{readyz_needs_delivery}
use cluster_registry_control.Cert.Certifier.Informer.{
  start_certifier, starts_informer, check_now, validating_config, Runtime, updated, ticked, ended,
  run_events, update_after_end_panics,
}

-- Everything works, and every key pair is valid.
abbrev working : CertEnv
working = record {
  makes_directory = true;
  writes_file = λ name. true;
  reads_file = λ name. true;
  generate_key = λ n. some "key";
  encode_key = λ k. some k;
  create_certificate = λ t p a b. some t.common_name;
  encode_certificate = λ c. some c;
  is_key_pair = λ c k. true;
  is_pool = λ p. true;
  decode = λ s. some s;
  parses = λ s. true;
  is_signed_for = λ name block pool time. true;
  in_six_months = λ n. n;
}

abbrev no_entropy : CertEnv
no_entropy = record working { generate_key = λ n. none }

abbrev some_certificate : Certificate
some_certificate = record {
  ca_certificate = some "ca";
  ca_private_key = some "cakey";
  server_certificate = some "server";
  server_private_key = some "key";
}

abbrev hook : Hook
hook = record {
  service_name = "validator";
  service_namespace = "registry";
  fails_closed = false;
  ca_bundle = none;
}

abbrev validating : Certifier
validating = record {
  webhook_name = "hook";
  webhook_namespace = "registry";
  mutating = none;
  validating = some (hook ∷ []);
  webhook_cert_bundle_readyz = false;
  updates = [];
}

abbrev agreeable : CertifierEnv
agreeable = record {
  get_mutating = λ namespace name. none;
  get_validating = λ namespace name. some (hook ∷ []);
  reads_current = true;
  is_up_to_date = λ hooks. some false;
  annotates = true;
  accepts = λ hooks. true;
}

abbrev renewer_on : Map String → Renewer Certifier
renewer_on dir = record {
  dns_names = "validator.registry.svc" ∷ [];
  directory = dir;
  after_check_functions = after_check agreeable ∷ [];
}

check_certificate_example :
    let (r', s') = check_certificate working 5 false (renewer_on []) validating in
    (given : Option Certificate) × (s'
      ≡ run_after_check
          (after_check agreeable ∷ [])
          given
          (false || not (verify_certificate working 5 (renewer_on [])).0)
          validating)
    × ((c : Certificate)
        → given ≡ some c
        → new_certificate_from_directory working r'.directory ≡ some c)
check_certificate_example =
    check_certificate_lem working (renewer_on []) 5 false validating (refl, λ n. refl, λ n. refl)

failed_renewal_panics_example :
    (check_certificate no_entropy 5 true (renewer_on []) validating).1 ≡ none
unfolding verify_certificate new_certificate_from_directory new_certificate or_failed get
failed_renewal_panics_example =
    failed_renewal_panics no_entropy agreeable (renewer_on []) validating 5 true hook [] refl refl
      refl refl refl

abbrev full_directory : Map String
full_directory =
    ("ca.crt", "ca") ∷ ("ca.key", "cakey") ∷ ("tls.crt", "server") ∷ ("tls.key", "key") ∷ []

valid_check_example :
    ((c' : Certifier)
      → (check_certificate working 5 true (renewer_on full_directory) validating).1 ≡ some c'
      → true ≡ true
      → some false ≡ some false
      → true ≡ true
      → true ≡ true
      → (c'.updates ≡ [] ++ bundled some_certificate (hook ∷ []) ∷ []) × (is_ready c' ≡ true))
    × ((c' : Certifier)
        → (check_certificate working 5 false (renewer_on full_directory) validating).1 ≡ some c'
        → (c'.updates ≡ []) × (is_ready c' ≡ is_ready validating))
unfolding verify_certificate new_certificate_from_directory verify_all verify get
valid_check_example =
    valid_check_lem working agreeable (renewer_on full_directory) validating some_certificate
      (hook ∷ []) 5 refl refl refl refl

prepare_start_test :
    (load_webhook_configuration agreeable (new_webhook_certifier "hook" "registry" false)).0
    ≡ validating
unfolding load_webhook_configuration new_webhook_certifier
prepare_start_test = refl

abbrev count : List (List Hook) → ℕ
count [] = 0
count (x ∷ xs) = suc (count xs)

abbrev updates_of : Option Certifier → ℕ
updates_of none = 0
updates_of (some c) = count c.updates

-- From an empty directory: the first check makes a certificate and updates the configuration, the
-- tick finds it valid.
start_renewer_test :
    let (r, c) = start_renewer working 5 ((6, ticked) ∷ []) (renewer_on []) validating in
    (new_certificate_from_directory working r.directory
      ≡ some (record {
        ca_certificate = some "validator.registry.svc";
        ca_private_key = some "key";
        server_certificate = some "validator.registry.svc";
        server_private_key = some "key";
      }))
    × (updates_of c ≡ 1)
unfolding start_renewer run_loop check_certificate renew_certificate new_certificate or_failed
    or_nil write write_files verify_certificate new_certificate_from_directory verify_all verify
    run_after_check after_check set_bundles update_if_needed update_certificate put_configuration
    get put
start_renewer_test = (refl, refl)

abbrev served : Runtime
served = record { certifier = validating; renewer = renewer_on []; closed = false }

update_after_end_panics_example :
    (run_events working ((1, ended) ∷ (31, ticked) ∷ []) served
      ≡ some (record served { closed = true }))
    × (run_events working
          ((1, ended) ∷ (31, ticked) ∷ (32, updated (validating_config "hook") true) ∷ [])
          served
        ≡ none)
update_after_end_panics_example =
    update_after_end_panics working ((31, ticked) ∷ []) [] 1 32 (validating_config "hook") served
      (tt, tt) (refl, refl, refl)

abbrev unloaded : Certifier
unloaded = record validating { validating = none }

abbrev idle_renewer : Renewer Certifier
idle_renewer = record (renewer_on full_directory) { after_check_functions = [] }

abbrev delivered_hooks : List Hook
delivered_hooks = bundled some_certificate (hook ∷ [])

abbrev serving : Runtime
serving = record {
  certifier = record validating {
    validating = some delivered_hooks;
    webhook_cert_bundle_readyz = true;
    updates = delivered_hooks ∷ [];
  };
  renewer = renewer_on full_directory;
  closed = false;
}

start_certifier_test :
    start_certifier working agreeable true 5 [] idle_renewer unloaded ≡ some (some serving)
unfolding start_certifier prepare_start starts_informer check_now check_certificate run_events
    load_webhook_configuration dns_names with_dns_names with_after_check_functions after_check
    verify_certificate new_certificate_from_directory verify_all verify get set_bundles
start_certifier_test = refl

readyz_needs_delivery_example : Delivered agreeable serving.certifier
unfolding is_ready
readyz_needs_delivery_example =
    readyz_needs_delivery agreeable working true 5 [] idle_renewer unloaded serving refl refl
      start_certifier_test refl
