-- ===== src/Controllers/Sync/Reconcile.antt =====
-- `deleteResource` and `reconcile` of controllers/sync_reconciler.go. What the API servers and the
-- generic reconciler of operator-tools answer is an argument; the writes and events that are asked
-- for are a list of actions, in order.
pub mod Runs
use cluster_registry_control.Common.{
  ℕ, String, Bool, true, false, not, ◌||◌, ◌==◌, Option, none, some, List, [], ◌∷◌, ◌++◌, Map, get,
  index, if◌then◌else◌, Result, ok, err,
}
use cluster_registry_control.Api.Object.{GroupVersionKind, Object, Machinery}
use cluster_registry_control.Api.Rules.{SyncRule, match_spec, gvk_eq, get_mutation_sync_status}
use cluster_registry_control.Controllers.Sync.{
  SyncReconciler, ownership_annotation, original_name_label, original_namespace_label,
  is_owned_by_another_alive_cluster, should_create, should_update,
}
use cluster_registry_control.Controllers.Sync.Mutate.{
  SyncError, could_not_get_object, could_not_rate_limit, could_not_reconcile,
  could_not_update_status, could_not_match, multiple_renamed_objects, could_not_delete,
  could_not_list, Patching, mutate_object,
}

pub data Found (A : Type 0) : Type 0 where
  found : A → Found A
  not_found failed : Found A

pub data Deletion : Type 0 where
  deleted gone refused : Deletion

pub data Outcome : Type 0 where
  reconciled already_exists not_reconciled : Outcome

pub data Requeue : Type 0 where
  no_requeue requeue : Requeue
  requeue_after : ℕ → Requeue  -- seconds

pub data Action : Type 0 where
  deletes reconciles updates_status : Object → Action
  warns : String → Action
  reports : Action

-- The two API servers, the rate limiter (if there is one), which answers `none` on an error and
-- else whether the object is limited, and the generic reconciler, which is given the tests for
-- creating and updating.
pub record Servers : Type 0 where
  pub get_remote : String → String → Found Object
  pub get_local : GroupVersionKind → String → String → Found Object
  pub list_local : GroupVersionKind → String → String → String → Option (List Object)
  pub delete_local : Object → Deletion
  pub get_namespace : String → Found (Unit {0})
  pub rate_limit : Option (String → String → Option Bool)
  pub reconcile_resource : Object → (Object → Option Bool) → (Object → Option Bool) → Outcome
  pub update_status : Object → Bool

abbrev pub label_or : String → String → Object → String
label_or key default obj = elim (get key obj.labels) [ none ↦ default | some v ↦ v ]

-- An action list and the result of a run.
abbrev pub Run : Type 0 → Type 0
Run A = List Action × Result SyncError A

module _ (a : Servers) (r : SyncReconciler) where
  -- `getObjectByOriginalNamespaceAndName`: at most one object may carry the labels.
  unfoldable pub get_object_by_original_namespace_and_name :
      Object → GroupVersionKind → Result SyncError (Option Object)
  get_object_by_original_namespace_and_name obj gvk =
      let name = label_or original_name_label obj.name obj in
      let namespace = label_or original_namespace_label obj.namespace obj in
      elim (a.list_local gvk namespace name r.cluster_id) [
        | none ↦ err could_not_list
        | some [] ↦ ok none
        | some (o ∷ []) ↦ ok (some o)
        | some (o ∷ p ∷ os) ↦ err multiple_renamed_objects
      ]

  -- The local object that stands for `obj`.
  unfoldable pub find_local : Object → Result SyncError (Option Object)
  find_local obj =
      let gvk = if not (gvk_eq r.gvk r.local_gvk) then r.local_gvk else obj.gvk in
      if r.resource_namespace_mutated || r.resource_name_mutated
      then get_object_by_original_namespace_and_name obj gvk
      else elim (a.get_local gvk obj.namespace obj.name) [
        | found o ↦ ok (some o)
        | not_found ↦ ok none
        | failed ↦ err could_not_get_object
      ]

  unfoldable pub delete_resource : Object → Run Requeue
  delete_resource obj = elim (find_local obj) [
    | err e ↦ ([], err e)
    | ok none ↦ ([], ok no_requeue)
    | ok (some current) ↦
        let owner = index ownership_annotation current.annotations in
        if owner == ""
        then ([], ok no_requeue)
        else if is_owned_by_another_alive_cluster r owner
        then ([], ok no_requeue)
        else elim (a.delete_local current) [
          | refused ↦ (deletes current ∷ [], err could_not_delete)
          | _ ↦ (deletes current ∷ [], ok no_requeue)
        ]
  ]

  -- From the second read of the object on.
  unfoldable pub finish : List SyncRule → Object → List Action → Run Requeue
  finish rules obj done = elim (a.get_local obj.gvk obj.namespace obj.name) [
    | not_found ↦ (done, ok no_requeue)
    | failed ↦ (done, err could_not_get_object)
    | found current ↦
        let desired = record obj { resource_version = current.resource_version } in
        let events = if not (r.rule_uid == "") then reports ∷ [] else [] in
        if get_mutation_sync_status rules
        then if a.update_status desired
          then (done ++ updates_status desired ∷ events, ok no_requeue)
          else (done ++ updates_status desired ∷ [], err could_not_update_status)
        else (done ++ events, ok no_requeue)
  ]

  unfoldable pub write_object : Machinery → List SyncRule → Object → Run Requeue
  write_object k rules obj =
      elim (a.reconcile_resource obj (should_create k r) (should_update k r)) [
        | reconciled ↦ finish rules obj (reconciles obj ∷ [])
        | already_exists ↦ (reconciles obj ∷ [], ok requeue)
        | not_reconciled ↦ (reconciles obj ∷ [], err could_not_reconcile)
      ]

  -- The rate limiter, asked for the request.
  unfoldable pub limit_rate : Machinery → String → String → List SyncRule → Object → Run Requeue
  limit_rate k namespace name rules obj = elim a.rate_limit [
    | none ↦ write_object k rules obj
    | some limiter ↦ elim (limiter namespace name) [
      | none ↦ ([], err could_not_rate_limit)
      | some limited ↦
          if limited
          then (warns "ObjectReconcileRateLimited" ∷ [], ok (requeue_after 30))
          else write_object k rules obj
    ]
  ]

  unfoldable pub check_namespace :
      Machinery → String → String → List SyncRule → Object → Run Requeue
  check_namespace k namespace name rules obj =
      if obj.namespace == ""
      then limit_rate k namespace name rules obj
      else elim (a.get_namespace obj.namespace) [
        | failed ↦ ([], err could_not_get_object)
        | not_found ↦ (warns "ObjectNotReconciledMissingNamespace" ∷ [], ok (requeue_after 30))
        | found u ↦ limit_rate k namespace name rules obj
      ]

module _ (k : Machinery) (e : Patching) (a : Servers) where
  unfoldable pub sync_matched :
      String → String → SyncReconciler → Object → List SyncRule → SyncReconciler × Run Requeue
  sync_matched namespace name r obj rules = elim (mutate_object k e r obj rules) [
    | err m ↦ (r, ([], err m))
    | ok (r', copy) ↦ (r', check_namespace a r' k namespace name rules copy)
  ]

  -- An object that is there and is not being deleted.
  unfoldable pub sync_object :
      String → String → SyncReconciler → Object → SyncReconciler × Run Requeue
  sync_object namespace name r obj =
      let (matched, rules, problem) = match_spec k r.rule obj in
      if not matched then (r, ([], ok no_requeue)) else elim problem [
        | some m ↦ (r, ([], err could_not_match))
        | none ↦ sync_matched namespace name r obj rules
      ]

  -- `blank` is the object that `initObjectFromGVK` makes, with the name of the request.
  unfoldable pub reconcile :
      Object → String → String → SyncReconciler → SyncReconciler × Run Requeue
  reconcile blank namespace name r = elim (a.get_remote namespace name) [
    | not_found ↦ (r, delete_resource a r blank)
    | failed ↦ (r, ([], err could_not_get_object))
    | found obj ↦
        if obj.deletion_timestamp_is_zero
        then sync_object namespace name r obj
        else (r, delete_resource a r obj)
  ]

-- `Reconcile`: an error is also reported as an event.
unfoldable pub report_error : Run Requeue → Run Requeue
report_error (done, ok q) = (done, ok q)
report_error (done, err e) = (done ++ warns "ObjectNotReconciled" ∷ [], err e)
