-- ===== src/Examples/RuleRuns.antt =====
-- Runs of the reconciler of the sync rules.
use cluster_registry_control.Clusters.Controller.{
  with_required_cluster_features, new_managed_controller,
}
use cluster_registry_control.Clusters.Cluster.{check_required_cluster_features}
use cluster_registry_control.Api.Rules.{ResourceSyncRuleSpec}
use mathlib.Core.Path.{subst}
use cluster_registry_control.Common.{
  some_eq, ◌<◌, sym, ap, ◌∙◌, inr, eq_iff, Bool-cases, arith, String, ◌≡◌, refl, inl, true, false,
  ◌==◌, some, none, [], ◌∷◌, get,
}
use cluster_registry_control.Controllers.RuleReconciler.{
  requirements, rule_controller, ResourceSyncRule, World, RuleEnv, cluster_at, add_rule_controller,
  sync_cluster_controller, sync_clusters_with, init_new_resource_sync_controller,
  remove_from_clusters, rule_found, reconcile_rule,
}
use cluster_registry_control.Controllers.RuleReconciler.Coverage.{
  AreKnown, Runs, reconcile_rule-covers,
}
use cluster_registry_control.Controllers.RuleReconciler.Removal.{
  Lacks, reconcile_rule-removes, changed_rule_panics,
}
use cluster_registry_control.Examples.Samples.{busy, sink, equality_selectors}

-- The cluster 0 is registered as "c1", and runs the controller "sink".
abbrev one_busy : World
one_busy = record {
  manager = record {
    clusters = ("c1", 0) ∷ [];
    on_before_add_funcs = [];
    on_before_delete_funcs = [];
    on_after_add_funcs = [];
    on_after_delete_funcs = [];
    heap = λ h. busy;
    calls = [];
  };
  rule_of = λ h. none;
  next = 5;
}

abbrev rule_named : String → ResourceSyncRule
rule_named name = record {
  name = name;
  uid = "r";
  spec = record {
    cluster_feature_matches = [];
    gvk = record { group = ""; version = "v1"; kind = "Secret" };
    rules = [];
  };
}

-- Specs are compared by their kinds, and no context is left over.
abbrev same_kind : RuleEnv
same_kind = record {
  selectors = equality_selectors;
  deep_equal = λ a b. a.gvk.kind == b.gvk.kind;
  makes_rate_limiter = true;
  cleans_up_first = λ h. false;
  lingers = λ h. false;
}

one_busy-AreKnown : AreKnown one_busy
unfolding get
one_busy-AreKnown h j x e = elim (Bool-cases ("sink" == j)) [
  | inl t ↦
      let same : sink ≡ x = some_eq (rw t at e) in
      (
        subst (λ k. k.handle < 5) same (omega arith),
        ap (λ k. k.name) (sym same) ∙ (eq_iff "sink" j).0 t,
      )
  | inr f ↦ (let no : none ≡ some x = rw f at e in absurd (ground arith))
]

abbrev with_secrets : World
with_secrets = add_rule_controller equality_selectors (rule_named "secrets") 0 one_busy

reconcile_rule-covers_example : Runs same_kind (rule_named "secrets") 0 with_secrets
unfolding reconcile_rule sync_clusters_with sync_cluster_controller
    init_new_resource_sync_controller get
reconcile_rule-covers_example =
    reconcile_rule-covers same_kind (rule_named "secrets") "secrets" one_busy with_secrets refl refl
      one_busy-AreKnown refl "c1" 0 (inl refl)

reconcile_rule-removes_example :
    Lacks "sink" (cluster_at 0 (remove_from_clusters "sink" one_busy.manager.clusters one_busy))
unfolding reconcile_rule
reconcile_rule-removes_example =
    reconcile_rule-removes same_kind "sink" one_busy
      (remove_from_clusters "sink" one_busy.manager.clusters one_busy) refl "c1" 0 (inl refl)

abbrev one_idle : World
one_idle = record one_busy {
  manager = record one_busy.manager { heap = λ h. record busy { mgr = false; controllers = [] } };
}

abbrev config_maps : ResourceSyncRuleSpec
config_maps = record (rule_named "secrets").spec {
  gvk = record (rule_named "secrets").spec.gvk { kind = "ConfigMap" };
}

changed_rule_panics_example :
    let w' = add_rule_controller equality_selectors (rule_named "secrets") 0 one_idle in
    ((reconcile_rule same_kind "secrets" (rule_found (rule_named "secrets")) one_idle).0 ≡ some w')
    × ((reconcile_rule same_kind "secrets"
          (rule_found (record (rule_named "secrets") { spec = config_maps }))
          w').0
        ≡ none)
unfolding get rule_controller check_required_cluster_features requirements new_managed_controller
    with_required_cluster_features
changed_rule_panics_example =
    changed_rule_panics same_kind (rule_named "secrets") config_maps "c1" "secrets" 0 one_idle refl
      refl refl refl refl refl refl refl
