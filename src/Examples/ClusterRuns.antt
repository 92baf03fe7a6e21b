-- ===== src/Examples/ClusterRuns.antt =====
-- Runs of the reconciler of the cluster resources, and calls of the registry.
use cluster_registry_control.Common.{
  err, arith, String, sym, ap, ◌≡◌, ◌↔◌, refl, inl, true, false, not, ◌==◌, ◌&&◌, some, none, List,
  [], ◌∷◌, get, In, ok, is_some, if◌then◌else◌, not_both,
}
use cluster_registry_control.Api.Cluster.{
  ClusterCondition, ClusterResource, no_metadata, secret_type, ready_state, reset,
}
use cluster_registry_control.Clusters.Controller.{cluster_not_found}
use cluster_registry_control.Clusters.Cluster.{found}
use cluster_registry_control.Clusters.Manager.{new_manager, get_cluster}
use cluster_registry_control.Clusters.Manager.Registered.{IsRegistry}
use cluster_registry_control.Clusters.Manager.Client.{
  register, unregister, run, replay, lookup, run-new_manager_refines,
}
use cluster_registry_control.ClusterMeta.{Env}
use cluster_registry_control.Util.ReaderSecret.{secret_not_found, timed_out}
use cluster_registry_control.Controllers.Conditions.{local_conflict}
use cluster_registry_control.ClusterMeta.Metadata.{get_cluster_metadata}
use cluster_registry_control.Controllers.Sync.{cluster_disabled_annotation}
use cluster_registry_control.Controllers.Status.{
  accepted, update_cluster, update_cluster_status, set_status,
}
use cluster_registry_control.Controllers.ClusterReconciler.{
  ClusterEnv, ClusterReconciler, ClusterAnswer, set_cluster_id, remove_remote_cluster,
  cluster_found, cluster_not_found as resource_not_found,
}
use cluster_registry_control.Controllers.ClusterReconciler.Remote.{
  get_remote_cluster, get_k8s_config_for_cluster,
}
use cluster_registry_control.Controllers.ClusterReconciler.Registry.{IsSound}
use cluster_registry_control.Controllers.ClusterReconciler.Connected.{
  Touches, Answers, get_remote_cluster_lem,
}
use cluster_registry_control.Controllers.ClusterReconciler.Steps.{
  Progress, reconcile_local_cluster, find_conflicting, note, describe_local_cluster,
  check_local_cluster_conflict,
}
use cluster_registry_control.Controllers.ClusterReconciler.Run.{
  Outcome, reconcile_cluster, enable_cluster, start_progress, reconcile_answer, prepare_cluster,
  write_status, disable_cluster,
}
use cluster_registry_control.Controllers.ClusterReconciler.Run.Effects.{Settles}
use cluster_registry_control.Controllers.ClusterReconciler.Run.Registered.{
  is_kept, reconcile_cluster-Settles,
}
use cluster_registry_control.Controllers.ClusterReconciler.Run.Ready.{
  SaysReady, steps, ready_is_written,
}
use cluster_registry_control.Controllers.ClusterReconciler.Run.Conflicts.{
  Conflicts, check_local_cluster_conflict_lem, missing_auth_info_is_lost,
}
use cluster_registry_control.Examples.Samples.{fresh, busy, equality_selectors}

run-new_manager_refines_example :
    let ops = register busy ∷ register (record fresh { name = "c2" }) ∷ unregister "c1" ∷ [] in
    let (next, m) = run ops 0 (new_manager (λ h. fresh) []) in
    IsRegistry next m × ((j : String) → lookup m j ≡ replay ops (λ name. none) j)
run-new_manager_refines_example =
    run-new_manager_refines
      (register busy ∷ register (record fresh { name = "c2" }) ∷ unregister "c1" ∷ []) (λ h. fresh)

-- A peer whose secret is "keys/c2".
abbrev pub peer : ClusterResource
peer = record {
  uid = "u2";
  name = "c2";
  namespace = "";
  resource_version = "1";
  annotations = [];
  spec = record {
    cluster_id = "id2";
    secret_name = "c2";
    secret_namespace = "keys";
    endpoints = [];
  };
  status = record {
    state = "";
    message = "";
    type = "";
    leader = false;
    metadata = no_metadata;
    conditions = [];
  };
}

abbrev homeless : ClusterResource
homeless = record peer { spec = record peer.spec { secret_name = "" } }

abbrev pub nodes : Env
nodes = record {
  list_nodes = none;
  parse_scheme = λ s. none;
  region_label = "region";
  zone_label = "zone";
  is_done = false;
}

-- A server that has one resource, one secret for all, and accepts every status.
abbrev pub serving : ClusterResource → ClusterEnv
serving c = record {
  selectors = equality_selectors;
  cluster_id = some "id1";
  get_resource = λ name. if name == c.name then cluster_found c else resource_not_found;
  list_clusters = some (c ∷ []);
  status = record { update = λ d. accepted d; get_version = λ name. none };
  nodes = nodes;
  get_secret = λ namespace name.
      some (record { type = secret_type; data_map = ("kubeconfig", "config") ∷ [] });
  urls = record {
    has_slashes = λ s. true;
    parse = λ s. some (record { scheme = "https"; rest = s });
    print = λ u. u.rest;
  };
  load_kubeconfig = λ s. true;
  creates_config = λ s o. true;
  network_name = "default";
  refresh_interval = 30;
  first_probe = found "id2";
  creates_manager = true;
  secrets = record {
    has_service_account = false;
    secrets = none;
    creates = λ s. false;
    looks = λ name i. secret_not_found;
    wait = λ n f. err timed_out;
    contains = λ a b. true;
    external_address = none;
    host = "";
    kubeconfig_ca = "";
    make_kubeconfig = λ name account address ca token. none;
  };
  manage_local_cluster_secret = false;
  reader_service_account_name = "reader";
  api_server_endpoint_address = "";
  stores_secret = λ s. true;
  core = record { sets_owner = λ o. true; reconciles = λ o ds. true };
  core_config = record { namespace = "registry"; core_resources_source_enabled = true };
  text_of = λ f. "failed";
  now = 7;
}

abbrev empty_registry : ClusterReconciler
empty_registry = record {
  clusters_manager = new_manager (λ h. fresh) [];
  cluster_id = "id1";
  queue = some [];
  next_cluster = 0;
  next_handle = 0;
}

empty_registry-IsSound : IsSound empty_registry
unfolding new_manager get_cluster get
empty_registry-IsSound name h e = absurd (not_both {x = cluster_not_found} e refl)

get_remote_cluster_example :
    Touches "c2" empty_registry (get_remote_cluster (serving peer) peer empty_registry).0
    × Answers
        (serving peer)
        peer
        (ok "config")
        (get_remote_cluster (serving peer) peer empty_registry)
unfolding get_k8s_config_for_cluster get
get_remote_cluster_example =
    get_remote_cluster_lem (serving peer) peer empty_registry empty_registry-IsSound

abbrev disabled : ClusterResource
disabled = record peer { annotations = (cluster_disabled_annotation, "") ∷ [] }

abbrev name_of : ClusterAnswer → String
name_of (cluster_found c) = c.name
name_of _ = "c2"

-- The disabled resource, as it is when the registry has been told.
abbrev switched_off : Outcome
switched_off =
    disable_cluster (serving disabled) false
      (start_progress empty_registry (record disabled { status = reset disabled.status }))

reconcile_cluster-Settles_example :
    Settles "c2"
      (not (is_kept "id1" (cluster_found disabled)))
      empty_registry
      switched_off.reconciler
unfolding set_cluster_id reconcile_cluster reconcile_answer prepare_cluster reset disable_cluster
    get
reconcile_cluster-Settles_example =
    reconcile_cluster-Settles (serving disabled) "c2" empty_registry empty_registry switched_off
      empty_registry-IsSound (λ c q. sym (ap name_of q)) refl refl

-- The resource of the local cluster, whose nodes cannot be listed.
abbrev local_one : ClusterResource
local_one = record peer { spec = record peer.spec { cluster_id = "id1" } }

abbrev local_progress : Progress
local_progress =
    start_progress (remove_remote_cluster "c2" empty_registry)
      (record local_one { status = record (reset local_one.status) { type = "Local" } })

abbrev first_or : ClusterResource → List ClusterResource → ClusterResource
first_or c [] = c
first_or c (d ∷ ds) = d

abbrev local_write : ClusterResource
local_write = first_or peer (enable_cluster (serving local_one) true local_progress).writes

ready_is_written_example :
    SaysReady local_write.status.conditions
    × ((is_some (steps (serving local_one) true local_progress).1
          && local_write.status.state == ready_state)
        ≡ false)
unfolding prepare_cluster reset enable_cluster write_status update_cluster update_cluster_status
    set_status
ready_is_written_example =
    ready_is_written (serving local_one) local_one local_write empty_registry true local_progress
      refl (inl refl)

local_write_test : local_write.status.state ≡ "Failed"
unfolding reset enable_cluster write_status update_cluster update_cluster_status set_status
    reconcile_local_cluster check_local_cluster_conflict find_conflicting note
    describe_local_cluster get_cluster_metadata
local_write_test = refl

abbrev peer_progress : Progress
peer_progress = record {
  reconciler = empty_registry;
  cluster = peer;
  conditions = [];
  events = [];
  effects = [];
}

check_local_cluster_conflict_example :
    let (q, failed) = check_local_cluster_conflict (serving peer) peer_progress in
    ((failed ≡ none) ↔ ((c : ClusterResource) → In c (peer ∷ []) → ¬ Conflicts peer c))
    × ((new : ClusterCondition) × (get local_conflict q.conditions ≡ some new)
        × (new.status ≡ (if is_some failed then "True" else "False")))
unfolding get
check_local_cluster_conflict_example =
    check_local_cluster_conflict_lem (serving peer) peer_progress (peer ∷ [])
      (λ t c h. absurd (ground (arith, h))) refl

missing_auth_info_is_lost_example :
    (o : Outcome) × (reconcile_cluster (serving homeless) "c2" empty_registry ≡ ok o)
    × (o.writes ≡ [])
    × (o.failed ≡ none)
    × (o.reconciler ≡ empty_registry)
unfolding set_cluster_id get
missing_auth_info_is_lost_example =
    missing_auth_info_is_lost (serving homeless) "c2" empty_registry empty_registry homeless refl
      refl refl refl refl
