-- ===== src/Examples/Sync.antt =====
-- Syncing the objects of a rule.
use cluster_registry_control.Common.{
  put, ◌≡◌, ◌≢◌, refl, ◌↔◌, ◌⊎◌, inl, true, false, eq_iff, none, some, [], ◌∷◌, arith, get, has,
  index, In, ok, ◌||◌, ◌==◌,
}
use cluster_registry_control.Examples.Samples.{
  simple, secret, secret_kind, secrets_rule, version_rule, secrets_spec, busy,
}
use cluster_registry_control.Api.Object.{Object, Machinery}
use cluster_registry_control.Api.Rules.{
  match_spec, match_rules, match_rule, match_first, match_object, get_mutation_overrides,
  get_mutation_sync_status, not_an_object,
}
use cluster_registry_control.Clusters.Manager.{Manager, get_alive_clusters_by_id}
use cluster_registry_control.Controllers.Sync.{
  SyncReconciler, ownership_annotation, sync_disabled_annotation, is_owned_by_another_alive_cluster,
  should_create, should_update,
}
use cluster_registry_control.Controllers.Sync.Ownership.{IsOther, owner_of, desired_state_iff}
use cluster_registry_control.Controllers.Sync.Mutate.{Patching, mutate_metadata, mutate_object}
use cluster_registry_control.Controllers.Sync.Mutate.Annotations.{
  expected_annotation, with_owner, label_of_rules, mutate_object_lem, mutate_object-owner,
}
use cluster_registry_control.Controllers.Sync.Reconcile.{
  Servers, found, deleted, reconciled, no_requeue, deletes, delete_resource, sync_object, reconcile,
  find_local, finish, write_object, limit_rate, check_namespace, sync_matched,
}
use cluster_registry_control.Controllers.Sync.PreCheck.{Review}
use cluster_registry_control.Controllers.Sync.Reconcile.Runs.{
  MayDelete, delete_resource_iff, match_error_is_swallowed, IsSynced, reconcile_writes_copies,
}

abbrev registry : Manager
registry = record {
  clusters = ("c1", 0) ∷ [];
  on_before_add_funcs = [];
  on_before_delete_funcs = [];
  on_after_add_funcs = [];
  on_after_delete_funcs = [];
  heap = λ h. busy;
  calls = [];
}

-- Syncs from the cluster "u2" to the cluster "u0"; the cluster "u1" is alive too.
abbrev syncer : SyncReconciler
syncer = record {
  gvk = secret_kind;
  local_gvk = secret_kind;
  local_cluster_id = "u0";
  clusters_manager = registry;
  cluster_id = "u2";
  rule = secrets_spec;
  rule_uid = "r";
  local_informers = [];
  resource_name_mutated = false;
  resource_namespace_mutated = false;
}

abbrev patching : Patching
patching = record {
  list_clusters = none;
  execute = λ obj synced here patch. ok patch;
  patch = λ gvk patches obj. ok obj;
  dropped_annotations = "last-applied" ∷ [];
}

abbrev copied : Object
copied = record secret { annotations = (ownership_annotation, "u2") ∷ [] }

abbrev servers : Servers
servers = record {
  get_remote = λ namespace name. found secret;
  get_local = λ gvk namespace name. found copied;
  list_local = λ gvk namespace name owner. some [];
  delete_local = λ obj. deleted;
  get_namespace = λ name. found tt;
  rate_limit = none;
  reconcile_resource = λ obj create update. reconciled;
  update_status = λ obj. true;
}

mutate_object-owner_example :
    let copy = mutate_metadata simple patching syncer secret (version_rule ∷ []) in
    (mutate_object simple patching syncer secret (version_rule ∷ []) ≡ ok (syncer, copy))
    × (copy.name ≡ secret.name)
    × (copy.namespace ≡ secret.namespace)
    × (copy.owner_references ≡ [])
    × (copy.finalizers ≡ [])
    × (copy.resource_version ≡ "")
    × (index ownership_annotation copy.annotations ≢ "")
    × (index ownership_annotation copy.labels ≢ "")
unfolding get_mutation_overrides
mutate_object-owner_example =
    mutate_object-owner simple patching syncer secret (version_rule ∷ []) refl
      (ground (arith, eq_iff "u2" "")) refl

mutate_object_example :
    let rules = version_rule ∷ [] in
    let copy = mutate_metadata simple patching syncer secret rules in
    (mutate_object simple patching syncer secret rules ≡ ok (syncer, copy))
    × (get "synced" copy.annotations
        ≡ expected_annotation simple patching syncer secret rules "synced")
    × (get "synced" copy.labels
        ≡ with_owner simple patching syncer secret rules "synced"
            (label_of_rules simple patching syncer secret rules "synced"))
unfolding get_mutation_overrides
mutate_object_example =
    mutate_object_lem simple patching syncer secret (version_rule ∷ []) "synced" refl

desired_state_example :
    ((should_update simple syncer copied ≡ some true) ↔ (
      (has sync_disabled_annotation copied.annotations ≡ false)
      × (owner_of copied ≢ "")
      × (¬ IsOther syncer (owner_of copied))))
    × ((should_create simple syncer copied ≡ some true) ↔ (
        (has sync_disabled_annotation copied.annotations ≡ false)
        × ((owner_of copied ≡ "") ⊎ ("u0" ≢ owner_of copied))
        × (¬ IsOther syncer (owner_of copied))))
desired_state_example = desired_state_iff simple syncer copied refl

abbrev ours : Object
ours = record secret { annotations = (ownership_annotation, "u0") ∷ [] }

delete_resource_example : In (deletes copied) (delete_resource servers syncer secret).0 ↔ (
    (current : Object) × (deletes copied ≡ deletes current)
    × MayDelete servers syncer secret current)
delete_resource_example = delete_resource_iff servers syncer secret (deletes copied)

delete_test : (delete_resource servers syncer secret).0 ≡ deletes copied ∷ []
unfolding delete_resource find_local get put is_owned_by_another_alive_cluster
    get_alive_clusters_by_id
delete_test = refl

-- A library in which no object gives access to its metadata.
abbrev blind : Machinery
blind = record simple { accessor = λ obj. false }

match_error_is_swallowed_example :
    sync_object blind patching servers "registry" "s" syncer secret ≡ (syncer, ([], ok no_requeue))
unfolding match_spec match_rules match_rule match_first match_object
match_error_is_swallowed_example =
    match_error_is_swallowed blind patching servers syncer "registry" "s" secret not_an_object refl

abbrev synced : Object
synced = mutate_metadata simple patching syncer secret (secrets_rule ∷ [])

reconcile_writes_copies_example : IsSynced simple patching servers syncer "registry" "s" synced
unfolding reconcile sync_object sync_matched check_namespace limit_rate write_object finish
    match_spec match_rules match_rule match_first match_object mutate_object get_mutation_overrides
    get_mutation_sync_status
reconcile_writes_copies_example =
    reconcile_writes_copies simple patching servers syncer secret "registry" "s" synced (inl refl)

-- Reading is allowed, and writing is not.
abbrev reader : Review
reader a = some (a.verb == "get" || a.verb == "list" || a.verb == "watch")
