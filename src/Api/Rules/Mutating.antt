-- ===== src/Api/Rules/Mutating.antt =====
-- What the matched rules change together: the last rule that sets a thing wins.
use mathlib.Core.List.{append-nil, append_assoc}
use cluster_registry_control.Common.{
  String, ◌≡◌, refl, sym, ap, ◌∙◌, inl, inr, Bool, true, not, ◌||◌, ◌==◌, Option, none, List, [],
  ◌∷◌, ◌++◌, arith, eq_iff, eq_refl, get, put_all, get-put_all, or_else, any, if◌then◌else◌,
  Bool-cases,
}
use cluster_registry_control.Api.Object.{GroupVersionKind, Machinery, EmptyLaw}
use cluster_registry_control.Api.Rules.{
  Mutations, MapMutations, SyncRule, no_mutations, get_gvk, get_labels, get_annotations,
  override_text, get_mutated_gvk, collect_mutations, get_mutation_labels, get_mutation_annotations,
}

-- The text of the last rule that has one, or the old text.
unfoldable pub latest_text : (GroupVersionKind → String) → List SyncRule → String → String
latest_text part [] old = old
latest_text part (r ∷ rs) old =
    let later = latest_text part rs "" in
    if later == "" then override_text (part (get_gvk r.mutations)) old else later

latest_text-old :
    (part : GroupVersionKind → String) (rs : List SyncRule) (old : String)
    → latest_text part rs old
      ≡ (if latest_text part rs "" == "" then old else latest_text part rs "")
unfolding latest_text
latest_text-old part [] old = ground (arith, eq_refl "")
latest_text-old part (r ∷ rs) old =
    let new = part (get_gvk r.mutations) in
    ground (arith, eq_iff new "", eq_iff (latest_text part rs "") "")

-- The entry of the last rule that has one.
abbrev pub latest_entry : (Mutations → Option String) → List SyncRule → Option String
latest_entry part [] = none
latest_entry part (r ∷ rs) = or_else (latest_entry part rs) (part r.mutations)

-- The texts to remove, of all rules.
abbrev pub all_removed : (Mutations → MapMutations) → List SyncRule → List String
all_removed part [] = []
all_removed part (r ∷ rs) = (part r.mutations).remove ++ all_removed part rs

collect_mutations_lem :
    (part : Mutations → MapMutations) (rs : List SyncRule) (m : MapMutations)
    → ((j : String)
        → get j (collect_mutations part rs m).add
          ≡ or_else (latest_entry (λ n. get j (part n).add) rs) (get j m.add))
      × ((collect_mutations part rs m).remove ≡ m.remove ++ all_removed part rs)
unfolding collect_mutations
collect_mutations_lem part [] m = (λ j. refl, sym (append-nil m.remove))
collect_mutations_lem part (r ∷ rs) m =
    let m' : MapMutations = record {
      add = put_all (part r.mutations).add m.add;
      remove = m.remove ++ (part r.mutations).remove;
    } in
    let (adds, removes) = collect_mutations_lem part rs m' in
    (
      λ j. ground (arith, adds j, get-put_all (part r.mutations).add m.add j),
      removes ∙ append_assoc m.remove (part r.mutations).remove (all_removed part rs),
    )

-- A label is added with the value of the last matched rule that adds it, and is not added if no
-- rule does; the labels to remove are those of all rules, in order. The same holds of annotations.
pub get_mutations_lem :
    (rs : List SyncRule)
    → ((j : String)
        → (get j (get_mutation_labels rs).add ≡ latest_entry (λ n. get j (get_labels n).add) rs)
          × (get j (get_mutation_annotations rs).add
              ≡ latest_entry (λ n. get j (get_annotations n).add) rs))
      × ((get_mutation_labels rs).remove ≡ all_removed (λ n. get_labels n) rs)
      × ((get_mutation_annotations rs).remove ≡ all_removed (λ n. get_annotations n) rs)
unfolding get_mutation_labels get_mutation_annotations get
get_mutations_lem rs =
    let (labels, gone) = collect_mutations_lem (λ n. get_labels n) rs no_mutations in
    let (annotations, gone') = collect_mutations_lem (λ n. get_annotations n) rs no_mutations in
    (λ j. (ground (arith, labels j), ground (arith, annotations j)), gone, gone')

latest_text-cons :
    (part : GroupVersionKind → String) (r : SyncRule) (rs : List SyncRule) (old : String)
    → latest_text part rs (override_text (part (get_gvk r.mutations)) old)
      ≡ latest_text part (r ∷ rs) old
unfolding latest_text
latest_text-cons part r rs old =
    latest_text-old part rs (override_text (part (get_gvk r.mutations)) old)

-- One turn of the loop, the test for an empty kind left out.
abbrev overridden : GroupVersionKind → GroupVersionKind → GroupVersionKind
overridden g gvk = record {
  group = override_text g.group gvk.group;
  version = override_text g.version gvk.version;
  kind = override_text g.kind gvk.kind;
}

-- Some rule names a group, version or kind.
abbrev pub names_gvk : Machinery → List SyncRule → Bool
names_gvk k rs = any (λ r. not (k.gvk_empty (get_gvk r.mutations))) rs

module _ (k : Machinery) (law : EmptyLaw k) where
  overridden_if_set :
      (g gvk : GroupVersionKind)
      → (if not (k.gvk_empty g) then overridden g gvk else gvk) ≡ overridden g gvk
  overridden_if_set g gvk = elim (Bool-cases (k.gvk_empty g)) [
    | inl e ↦
        let (a, b, c) = (law g).0 e in
        ground (arith, eq_iff g.group "", eq_iff g.version "", eq_iff g.kind "")
    | inr e ↦ rw e
  ]

  get_mutated_gvk-cons :
      (r : SyncRule) (rs : List SyncRule) (mutated : Bool) (gvk : GroupVersionKind)
      → get_mutated_gvk k (r ∷ rs) mutated gvk
        ≡ get_mutated_gvk k rs
            (if not (k.gvk_empty (get_gvk r.mutations)) then true else mutated)
            (overridden (get_gvk r.mutations) gvk)
  unfolding get_mutated_gvk
  get_mutated_gvk-cons r rs mutated gvk =
      ap (get_mutated_gvk k rs (if not (k.gvk_empty (get_gvk r.mutations)) then true else mutated))
        (overridden_if_set (get_gvk r.mutations) gvk)

  -- The kind is reported as mutated if some matched rule names a group, a version or a kind; each
  -- of the three is that of the last matched rule that names it, or else the object's own.
  pub get_mutated_gvk_lem :
      (rs : List SyncRule) (mutated : Bool) (gvk : GroupVersionKind)
      → let (is_mutated, new) = get_mutated_gvk k rs mutated gvk in
        (is_mutated ≡ (mutated || names_gvk k rs))
        × (new.group ≡ latest_text (λ g. g.group) rs gvk.group)
        × (new.version ≡ latest_text (λ g. g.version) rs gvk.version)
        × (new.kind ≡ latest_text (λ g. g.kind) rs gvk.kind)
  get_mutated_gvk_lem [] mutated gvk = unfold get_mutated_gvk latest_text in ground arith
  get_mutated_gvk_lem (r ∷ rs) mutated gvk =
      let g : GroupVersionKind = get_gvk r.mutations in
      let (m, a, b, c) =
        get_mutated_gvk_lem rs (if not (k.gvk_empty g) then true else mutated) (overridden g gvk) in
      rw (get_mutated_gvk-cons r rs mutated gvk) (
        m ∙ ground arith,
        a ∙ latest_text-cons (λ g. g.group) r rs gvk.group,
        b ∙ latest_text-cons (λ g. g.version) r rs gvk.version,
        c ∙ latest_text-cons (λ g. g.kind) r rs gvk.kind,
      )
