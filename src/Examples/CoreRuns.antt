-- ===== src/Examples/CoreRuns.antt =====
-- The core rules, the sync status of a remote cluster, and the secrets for readers.
use cluster_registry_control.Common.{
  String, Option, inr, ap, put, ℕ, zero, suc, ◌≡◌, ◌↔◌, refl, inl, true, false, some, none, List,
  [], ◌∷◌, get, In, ok,
}
use cluster_registry_control.Api.Cluster.{ClusterResource, secret_type}
use cluster_registry_control.Api.Object.{Object}
use cluster_registry_control.Controllers.Status.{accepted}
use cluster_registry_control.Controllers.Sync.Mutate.{clusters_by_id}
use cluster_registry_control.Controllers.RuleReconciler.{ResourceSyncRule}
use cluster_registry_control.Controllers.ClusterReconciler.{cluster_found, ClusterEnv}
use cluster_registry_control.Controllers.ClusterReconciler.Remote.{get_k8s_config_for_cluster}
use cluster_registry_control.Controllers.ClusterReconciler.Secrets.{reader_secret_is_accepted}
use cluster_registry_control.Controllers.CoreSyncers.{
  CoreConfig, clusters_sync_spec, core_objects, reconcile_core_syncers, reconcile_objects,
}
use cluster_registry_control.Controllers.RemoteCluster.{RemoteEnv, sync_clusters}
use cluster_registry_control.Controllers.RemoteCluster.Synced.{AllInSync, sync_clusters-none}
use cluster_registry_control.Util.ReaderSecret.{
  choose_address, choose_ca_data, or_empty, TokenSecret, SecretAnswer, secret_found,
  secret_not_found, SecretEnv, ReaderSecret, service_account_token, service_account_name,
  check_token, wait_for_secret_token_generated, get_reader_secret_token_and_ca_cert,
  find_token_secret, get_reader_secret_for_cluster,
}
use cluster_registry_control.Util.ReaderSecret.Tokens.{
  poll, FirstFound, wait_for_token_lem, IsTokenOf, existing_token_is_taken,
}
use cluster_registry_control.Controllers.Watches.{
  conflict_requests, core_resource_requests, secret_requests, requests_of_map, requests_if,
  lets_core_update, lets_cluster_update, lets_remote_update, rule_requests,
}
use cluster_registry_control.Controllers.Watches.Shadows.{AllOf}
use cluster_registry_control.Util.Provision.{
  ignore_failures, provision_local_cluster_object, create_local_cluster, new_local_cluster,
}
use cluster_registry_control.Examples.Samples.{secret}
use cluster_registry_control.Examples.ClusterRuns.{peer, serving, nodes}

abbrev core_config : CoreConfig
core_config = record { namespace = "registry"; core_resources_source_enabled = true }

-- A cluster at both sides, that is ready at the remote one.
abbrev both_sides : RemoteEnv
both_sides = record {
  cluster_id = some "id2";
  get_resource = λ name. cluster_found peer;
  local_clusters = some (peer ∷ []);
  remote_clusters = some (record peer { status = record peer.status { state = "Ready" } } ∷ []);
  nodes = nodes;
  status = record { update = λ d. accepted d; get_version = λ name. none };
  text_of = λ f. "failed";
  text_of_faults = λ fs. "not synced";
  now = 7;
}

sync_clusters-none_example : (sync_clusters both_sides ≡ []) ↔ (
    (ls : List ClusterResource) × (rs : List ClusterResource) × (both_sides.local_clusters
      ≡ some ls)
    × (both_sides.remote_clusters ≡ some rs)
    × AllInSync rs ls)
sync_clusters-none_example = sync_clusters-none both_sides

-- A token without a certificate, and one that is complete.
abbrev half_token : TokenSecret
half_token = record {
  name = "reader-token";
  type = service_account_token;
  annotations = (service_account_name, "reader") ∷ [];
  token = some "t";
  ca_crt = none;
}

abbrev full_token : TokenSecret
full_token = record half_token { ca_crt = some "ca" }

abbrev looks_at : ℕ → SecretAnswer
looks_at zero = secret_not_found
looks_at (suc zero) = secret_found half_token
looks_at _ = secret_found full_token

abbrev secret_env : List TokenSecret → SecretEnv
secret_env ss = record {
  has_service_account = true;
  secrets = some ss;
  creates = λ s. true;
  looks = λ name. looks_at;
  wait = poll;
  contains = λ a b. true;
  external_address = none;
  host = "https://host";
  kubeconfig_ca = "ca";
  make_kubeconfig = λ name account address ca token. some token;
}

wait_for_token_example :
    (wait_for_secret_token_generated (secret_env []) "reader-token" ≡ ok (some "t", some "ca"))
    ↔ FirstFound 3 looks_at "t" "ca"
wait_for_token_example = wait_for_token_lem (secret_env []) "reader-token" "t" "ca" (λ n f. refl)

wait_test :
    wait_for_secret_token_generated (secret_env []) "reader-token" ≡ ok (some "t", some "ca")
unfolding wait_for_secret_token_generated poll check_token
wait_test = refl

existing_token_is_taken_example :
    (t : TokenSecret) × In t (half_token ∷ [])
    × IsTokenOf "reader" t
    × (get_reader_secret_token_and_ca_cert (secret_env (half_token ∷ [])) "reader"
        ≡ ok (t.token, t.ca_crt))
unfolding get
existing_token_is_taken_example =
    existing_token_is_taken (secret_env (half_token ∷ [])) "reader" (half_token ∷ []) half_token
      refl refl (inl refl) (refl, refl)

abbrev made_secret : ReaderSecret
made_secret = record {
  name = "c2";
  namespace = "keys";
  type = secret_type;
  data_map = ("kubeconfig", "t") ∷ [];
}

abbrev with_made_secret : ClusterEnv
with_made_secret = record (serving peer) {
  get_secret =
      λ namespace name. some (record { type = secret_type; data_map = ("kubeconfig", "t") ∷ [] });
}

reader_secret_is_accepted_example :
    let se = secret_env (full_token ∷ []) in
    (token ca : Option String) × (kubeconfig : String) × (get_reader_secret_token_and_ca_cert se
        "reader"
      ≡ ok (token, ca))
    × (se.make_kubeconfig "c2" "reader"
          (choose_address se peer "")
          (choose_ca_data se peer (or_empty ca))
          (or_empty token)
        ≡ some kubeconfig)
    × (get_k8s_config_for_cluster with_made_secret "keys" "c2" ≡ ok kubeconfig)
unfolding get_reader_secret_for_cluster get_reader_secret_token_and_ca_cert find_token_secret get
reader_secret_is_accepted_example =
    reader_secret_is_accepted (secret_env (full_token ∷ [])) with_made_secret peer "reader" ""
      made_secret refl refl

abbrev registry_secret : Object
registry_secret = record secret { body = secret_type }

abbrev clusters_rule : ResourceSyncRule
clusters_rule = record { name = "clusters"; uid = "r"; spec = clusters_sync_spec }

-- An error ends the loop.
reconcile_core_syncers_test :
    reconcile_core_syncers
      (record { sets_owner = λ o. true; reconciles = λ o ds. false })
      core_config
    ≡ ([], false)
unfolding reconcile_core_syncers reconcile_objects core_objects
reconcile_core_syncers_test = refl

-- The watches, and the object of the local cluster.
abbrev twin : ClusterResource
twin = record peer { name = "c3"; status = record peer.status { type = "Local" } }

twins_are_one : AllOf "id2" (twin ∷ record twin { name = "c4" } ∷ [])
twins_are_one c (inl q) = ap (λ x. x.spec.cluster_id) q
twins_are_one c (inr (inl q)) = ap (λ x. x.spec.cluster_id) q
twins_are_one c (inr (inr i)) = absurd i

watches_test :
    (conflict_requests (some (twin ∷ record twin { name = "c4" } ∷ [])) ≡ ("c4", "") ∷ [])
    × (core_resource_requests (some (twin ∷ record twin { name = "c4" } ∷ []))
        ≡ ("c3", "") ∷ ("c4", "") ∷ [])
    × (secret_requests
          (record { type = secret_type; name = "c2"; namespace = "keys" })
          (some (peer ∷ record peer { name = "c5" } ∷ []))
        ≡ ("c5", "") ∷ [])
    × (lets_core_update
          (("cluster-registry-controller.k8s.cisco.com/core-sync-resource", "true") ∷ [])
        ≡ true)
    × (lets_cluster_update 1 1 false ≡ true)
    × (lets_remote_update (some peer) (some (record peer { name = "c6" })) ≡ false)
    × (rule_requests true (some (clusters_rule ∷ [])) ≡ "clusters" ∷ [])
unfolding conflict_requests core_resource_requests secret_requests requests_of_map requests_if
    clusters_by_id put get lets_core_update lets_cluster_update lets_remote_update rule_requests
watches_test = (refl, refl, refl, refl, refl, refl, refl)

provision_test :
    provision_local_cluster_object (record {
      name = "here";
      namespace = "registry";
      api_server_endpoint_address = "https://here";
      webhook_enabled = true;
      has_cluster = λ namespace name. false;
      has_webhook_configuration = true;
      updates_webhook_configuration = true;
      system_uid = none;
      creates_cluster = λ c. true;
    })
    ≡ (ignore_failures ∷ [], false)
unfolding provision_local_cluster_object create_local_cluster new_local_cluster
provision_test = refl
