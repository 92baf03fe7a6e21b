-- ===== src/Controllers/Sync/Mutate/Annotations.antt =====
-- What a synced object carries: every annotation and label of the copy, and its owner.
use cluster_registry_control.Common.{
  String, ◌≡◌, refl, ap, ◌∙◌, ◌≢◌, Bool, true, false, ◌&&◌, ◌||◌, ◌==◌, Option, none, some, List,
  [], ◌∷◌, ◌++◌, arith, eq_iff, eq_refl, Map, get, put, put_all, delete_all, get-put, get-put_all,
  get-delete_all, or_else, text_or_empty, index, any, is_empty, if◌then◌else◌, ok,
}
use cluster_registry_control.Api.Object.{Object, Machinery}
use cluster_registry_control.Api.Rules.{
  MapMutations, Mutations, no_mutations, get_annotations, get_labels, collect_mutations, SyncRule,
  get_mutated_gvk, get_mutation_labels, get_mutation_annotations, get_mutation_overrides,
}
use cluster_registry_control.Controllers.Sync.{
  SyncReconciler, ownership_annotation, original_gvk_annotation,
}
use cluster_registry_control.Controllers.Sync.Mutate.{
  Patching, gvk_text, set_if_empty, mutate_annotations, mutate_labels, mutate_metadata,
  mutate_object,
}

get-set_if_empty :
    (key value : String) (m : Map String) (j : String)
    → get j (set_if_empty key value m) ≡ (
        if key == j
        then (if text_or_empty (get j m) == "" then some value else get j m)
        else get j m)
unfolding set_if_empty
get-set_if_empty key value m j = ground (arith, eq_iff key j, get-put key j value m)

-- Whether one of the rules removes a key.
abbrev pub removes : (Mutations → MapMutations) → String → List SyncRule → Bool
removes part j [] = false
removes part j (r ∷ rs) = any (λ d. d == j) (part r.mutations).remove || removes part j rs

-- The value of a key that has a value at first, after each rule in turn has added its own.
abbrev pub added :
    (Mutations → MapMutations) → String → Option String → List SyncRule → Option String
added part j v [] = v
added part j v (r ∷ rs) = added part j (or_else (get j (part r.mutations).add) v) rs

any-append :
    (j : String) (xs ys : List String)
    → any (λ d. d == j) (xs ++ ys) ≡ (any (λ d. d == j) xs || any (λ d. d == j) ys)
any-append j [] ys = refl
any-append j (x ∷ xs) ys = ground (arith, any-append j xs ys)

collect-removes :
    (part : Mutations → MapMutations) (j : String) (rs : List SyncRule) (m : MapMutations)
    → any (λ d. d == j) (collect_mutations part rs m).remove
      ≡ (any (λ d. d == j) m.remove || removes part j rs)
unfolding collect_mutations
collect-removes part j [] m = ground arith
collect-removes part j (r ∷ rs) m =
    let m' : MapMutations = record {
      add = put_all (part r.mutations).add m.add;
      remove = m.remove ++ (part r.mutations).remove;
    } in
    ground (arith, collect-removes part j rs m', any-append j m.remove (part r.mutations).remove)

or_else_assoc : (a b c : Option String) → or_else (or_else a b) c ≡ or_else a (or_else b c)
or_else_assoc none b c = refl
or_else_assoc (some a) b c = refl

collect-added :
    (part : Mutations → MapMutations) (j : String) (v : Option String) (rs : List SyncRule)
    (m : MapMutations)
    → or_else (get j (collect_mutations part rs m).add) v
      ≡ added part j (or_else (get j m.add) v) rs
unfolding collect_mutations
collect-added part j v [] m = refl
collect-added part j v (r ∷ rs) m =
    let new = (part r.mutations).add in
    let m' : MapMutations = record {
      add = put_all new m.add;
      remove = m.remove ++ (part r.mutations).remove;
    } in
    collect-added part j v rs m'
    ∙ ap (λ o. added part j o rs)
        (ap (λ o. or_else o v) (get-put_all new m.add j)
          ∙ or_else_assoc (get j new) (get j m.add) v)

module _ (k : Machinery) (e : Patching) (r : SyncReconciler) (obj : Object)
    (rules : List SyncRule) where
  -- A key's value after the rules have added and removed.
  abbrev pub annotation_of_rules : String → Option String
  annotation_of_rules j =
      if removes (λ m. get_annotations m) j rules
      then none
      else added (λ m. get_annotations m) j (get j obj.annotations) rules

  abbrev pub label_of_rules : String → Option String
  label_of_rules j =
      if removes (λ m. get_labels m) j rules
      then none
      else added (λ m. get_labels m) j (get j obj.labels) rules

  -- The owner's key is given the id of the source cluster where it would be missing or empty.
  abbrev pub with_owner : String → Option String → Option String
  with_owner j v =
      if ownership_annotation == j
      then (if text_or_empty v == "" then some r.cluster_id else v)
      else v

  abbrev pub expected_annotation : String → Option String
  expected_annotation j =
      if any (λ d. d == j) e.dropped_annotations
      then none
      else if (get_mutated_gvk k rules false obj.gvk).0 && original_gvk_annotation == j
      then some (gvk_text obj.gvk)
      else with_owner j (annotation_of_rules j)

  added_annotations :
      (j : String)
      → get j (
          delete_all
            (get_mutation_annotations rules).remove
            (put_all (get_mutation_annotations rules).add obj.annotations))
        ≡ annotation_of_rules j
  unfolding get_mutation_annotations get
  added_annotations j =
      let m = get_mutation_annotations rules in
      get-delete_all m.remove (put_all m.add obj.annotations) j
      ∙ rw
          (
            get-put_all m.add obj.annotations j,
            collect-removes (λ x. get_annotations x) j rules no_mutations,
            collect-added (λ x. get_annotations x) j (get j obj.annotations) rules no_mutations,
          )
          refl

  added_labels :
      (j : String)
      → get j (
          delete_all
            (get_mutation_labels rules).remove
            (put_all (get_mutation_labels rules).add obj.labels))
        ≡ label_of_rules j
  unfolding get_mutation_labels get
  added_labels j =
      let m = get_mutation_labels rules in
      get-delete_all m.remove (put_all m.add obj.labels) j
      ∙ rw
          (
            get-put_all m.add obj.labels j,
            collect-removes (λ x. get_labels x) j rules no_mutations,
            collect-added (λ x. get_labels x) j (get j obj.labels) rules no_mutations,
          )
          refl

  -- The annotations and labels before the overrides.
  mutate_metadata_lem :
      (j : String)
      → (get j (mutate_metadata k e r obj rules).annotations ≡ expected_annotation j)
        × (get j (mutate_metadata k e r obj rules).labels ≡ with_owner j (label_of_rules j))
  unfolding mutate_metadata mutate_annotations mutate_labels
  mutate_metadata_lem j =
      let m = get_mutation_annotations rules in
      let with_added = delete_all m.remove (put_all m.add obj.annotations) in
      let owned = set_if_empty ownership_annotation r.cluster_id with_added in
      let noted = put original_gvk_annotation (gvk_text obj.gvk) owned in
      let n = get_mutation_labels rules in
      (
        ground (
          arith,
          get-delete_all e.dropped_annotations noted j,
          get-delete_all e.dropped_annotations owned j,
          get-put original_gvk_annotation j (gvk_text obj.gvk) owned,
          get-set_if_empty ownership_annotation r.cluster_id with_added j,
          added_annotations j,
        ),
        ground (
          arith,
          get-set_if_empty ownership_annotation r.cluster_id
              (delete_all n.remove (put_all n.add obj.labels)) j,
          added_labels j,
        ),
      )

  -- If there are no overrides, the step does not fail, and these are every annotation and every label
  -- of the copy: those of the object, as one rule after the other adds its own, without those that a
  -- rule removes, and with the owner filled in; the original kind is noted where the rules change it,
  -- and the annotations of other tools are dropped.
  pub mutate_object_lem :
      (j : String)
      → is_empty (get_mutation_overrides rules) ≡ true
      → let copy = mutate_metadata k e r obj rules in
        (mutate_object k e r obj rules ≡ ok (r, copy))
        × (get j copy.annotations ≡ expected_annotation j)
        × (get j copy.labels ≡ with_owner j (label_of_rules j))
  unfolding mutate_object mutate_metadata
  mutate_object_lem j h =
      let (a, l) = mutate_metadata_lem j in
      (ground (arith, eq_refl obj.name, eq_refl obj.namespace), a, l)

  with_owner-ne :
      (v : Option String)
      → r.cluster_id ≢ ""
      → text_or_empty (with_owner ownership_annotation v) ≢ ""
  with_owner-ne v h = ground (arith, eq_refl ownership_annotation, eq_iff (text_or_empty v) "")

  expected-owner :
      any (λ d. d == ownership_annotation) e.dropped_annotations ≡ false
      → expected_annotation ownership_annotation
        ≡ with_owner ownership_annotation (annotation_of_rules ownership_annotation)
  expected-owner d = ground arith

  -- If there are no overrides, the source cluster has an id, and the owner is none of the annotations
  -- of other tools that are dropped: then the step does not fail, the copy has the name and the
  -- namespace of the object and no owner references, finalizers or resource version, and it names an
  -- owner in its annotations and in its labels, whatever the rules remove.
  pub mutate_object-owner :
      is_empty (get_mutation_overrides rules) ≡ true
      → r.cluster_id ≢ ""
      → any (λ d. d == ownership_annotation) e.dropped_annotations ≡ false
      → let copy = mutate_metadata k e r obj rules in
        (mutate_object k e r obj rules ≡ ok (r, copy))
        × (copy.name ≡ obj.name)
        × (copy.namespace ≡ obj.namespace)
        × (copy.owner_references ≡ [])
        × (copy.finalizers ≡ [])
        × (copy.resource_version ≡ "")
        × (index ownership_annotation copy.annotations ≢ "")
        × (index ownership_annotation copy.labels ≢ "")
  unfolding mutate_object mutate_metadata
  mutate_object-owner h n d =
      let key = ownership_annotation in
      let (a, l) = mutate_metadata_lem key in
      (
        (mutate_object_lem key h).0,
        refl,
        refl,
        refl,
        refl,
        refl,
        rw (a ∙ expected-owner d) (with_owner-ne (annotation_of_rules key) n),
        rw l (with_owner-ne (label_of_rules key) n),
      )
