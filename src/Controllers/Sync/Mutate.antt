-- ===== src/Controllers/Sync/Mutate.antt =====
-- `mutateObject` of controllers/sync_reconciler.go: how an object is changed on its way.
pub mod Annotations
use Prim.Native.String.{◌++◌ as text_append}
use cluster_registry_control.Common.{
  ℕ, String, Bool, true, false, not, ◌==◌, Option, none, some, List, [], ◌∷◌, Map, get, put, delete,
  put_all, delete_all, index, is_empty, if◌then◌else◌, Result, ok, err, ◌>>=◌,
}
use cluster_registry_control.Api.Object.{GroupVersionKind, Object, Machinery}
use cluster_registry_control.Api.Cluster.{ClusterResource}
use cluster_registry_control.Api.Rules.{
  SyncRule, get_mutated_gvk, get_mutation_labels, get_mutation_annotations, get_mutation_overrides,
}
use cluster_registry_control.Util.Template.{execute_templates}
use cluster_registry_control.Controllers.Sync.{
  SyncReconciler, ownership_annotation, original_gvk_annotation, original_name_label,
  original_namespace_label,
}

pub data SyncError : Type 0 where
  could_not_get_clusters no_local_cluster no_synced_cluster : SyncError
  could_not_execute_templates could_not_patch could_not_get_object : SyncError
  could_not_rate_limit could_not_reconcile could_not_update_status : SyncError
  could_not_match multiple_renamed_objects could_not_delete could_not_list : SyncError

-- What the step uses of the API server and of the libraries for templates and patches, and the
-- names of the four annotations of other tools that are dropped.
pub record Patching : Type 0 where
  pub list_clusters : Option (List ClusterResource)
  pub execute : Object → ClusterResource → ClusterResource → String → Result SyncError String
  pub patch : GroupVersionKind → List String → Object → Result SyncError Object
  pub dropped_annotations : List String

-- `GVKToString`, on native texts.
abbrev pub gvk_text : GroupVersionKind → String
gvk_text g = text_append g.kind (text_append "." (text_append g.group (text_append "/" g.version)))

-- The loop of `GetClusters` in controllers/common.go.
unfoldable pub clusters_by_id : List ClusterResource → Map ClusterResource → Map ClusterResource
clusters_by_id [] m = m
clusters_by_id (c ∷ cs) m = clusters_by_id cs (put c.spec.cluster_id c m)

unfoldable pub set_if_empty : String → String → Map String → Map String
set_if_empty key value m = if index key m == "" then put key value m else m

module _ (k : Machinery) (e : Patching) (r : SyncReconciler) where
  -- The annotations and the kind of the copy.
  unfoldable pub mutate_annotations : Object → List SyncRule → Map String × GroupVersionKind
  unfolding set_if_empty
  mutate_annotations obj rules =
      let m = get_mutation_annotations rules in
      let added = delete_all m.remove (put_all m.add obj.annotations) in
      let owned = set_if_empty ownership_annotation r.cluster_id added in
      let (mutated, gvk) = get_mutated_gvk k rules false obj.gvk in
      (
        delete_all e.dropped_annotations
            (if mutated then put original_gvk_annotation (gvk_text obj.gvk) owned else owned),
        if mutated then gvk else obj.gvk,
      )

  unfoldable pub mutate_labels : Object → List SyncRule → Map String
  unfolding set_if_empty
  mutate_labels obj rules =
      let m = get_mutation_labels rules in
      set_if_empty ownership_annotation r.cluster_id
        (delete_all m.remove (put_all m.add obj.labels))

  -- The copy before the overrides: the changed metadata, and nothing that the API server had set.
  unfoldable pub mutate_metadata : Object → List SyncRule → Object
  mutate_metadata obj rules =
      let (annotations, gvk) = mutate_annotations obj rules in
      record obj {
        gvk = gvk;
        annotations = annotations;
        labels = mutate_labels obj rules;
        generation = 0;
        resource_version = "";
        uid = "";
        self_link = "";
        creation_timestamp = 0;
        finalizers = [];
        owner_references = [];
        managed_fields = [];
      }

  abbrev pub found_or : {A : Type 0} → SyncError → Option A → Result SyncError A
  found_or failed none = err failed
  found_or failed (some a) = ok a

  -- The id of the cluster that an object comes from.
  abbrev pub synced_cluster_id : Object → String
  synced_cluster_id current = elim (get ownership_annotation current.annotations) [
    | none ↦ r.cluster_id
    | some id ↦ id
  ]

  unfoldable pub apply_overrides : Object → List String → Object → Result SyncError Object
  unfolding clusters_by_id execute_templates
  apply_overrides current patches obj = do
    list ← found_or could_not_get_clusters e.list_clusters
    let clusters = clusters_by_id list []
    local_cluster ← found_or no_local_cluster (get r.local_cluster_id clusters)
    synced_cluster ← found_or no_synced_cluster (get (synced_cluster_id current) clusters)
    modified ← execute_templates (e.execute obj synced_cluster local_cluster) patches
    e.patch (k.convert_gvk obj.gvk) modified obj

  -- An object that was renamed is labelled with its original name, and one that was moved with its
  -- original namespace. The reconciler remembers that this has happened.
  unfoldable pub label_origin : Object → Object → SyncReconciler × Object
  label_origin current obj =
      let renamed = not (current.name == obj.name) in
      let moved = not (current.namespace == obj.namespace) in
      let obj1 =
        if renamed
        then record obj { labels = put original_name_label current.name obj.labels }
        else obj in
      let obj2 =
        if moved
        then record obj1 { labels = put original_namespace_label current.namespace obj1.labels }
        else obj1 in
      (
        record r {
          resource_name_mutated = if renamed then true else r.resource_name_mutated;
          resource_namespace_mutated = if moved then true else r.resource_namespace_mutated;
        },
        obj2,
      )

  unfoldable pub mutate_object : Object → List SyncRule → Result SyncError (SyncReconciler × Object)
  unfolding mutate_metadata apply_overrides label_origin
  mutate_object current rules = do
    let obj = mutate_metadata current rules
    let patches = get_mutation_overrides rules
    patched ← (if is_empty patches then ok obj else apply_overrides current patches obj)
    ok (label_origin current patched)
