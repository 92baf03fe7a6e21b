-- ===== src/Controllers/RuleReconciler/Removal.antt =====
-- A rule that is gone, and a controller that never ran.
use mathlib.Core.Path.{subst}
use cluster_registry_control.Common.{
  some_eq, ℕ, String, ◌≡◌, sym, ap, inl, inr, false, none, some, [], ◌∷◌, arith, Map, get, In,
  nat_beq, Bool-cases, Option-cases, get-put_self, refl, ◌∙◌, true,
}
use cluster_registry_control.Clusters.Controller.{
  ManagedController, new_managed_controller, with_required_cluster_features,
}
use cluster_registry_control.Clusters.Cluster.{
  Cluster, remove_controller_by_name, add_controller, activate_controller, is_manager_running,
  check_required_cluster_features,
}
use cluster_registry_control.Api.Selector.{Selectors}
use cluster_registry_control.Api.Rules.{ResourceSyncRuleSpec}
use cluster_registry_control.Controllers.RuleReconciler.{
  init_new_resource_sync_controller, add_rule_controller, rule_controller, ResourceSyncRule, World,
  RuleEnv, cluster_at, set_cluster, spec_of, sync_cluster_controller, sync_clusters_with,
  remove_from_clusters, rule_found, rule_not_found, reconcile_rule,
}
use cluster_registry_control.Controllers.RuleReconciler.Coverage.{
  remove_controller-none, cluster_at-set_self,
}

-- A cluster has no controller of a name, active or pending.
abbrev pub Lacks : String → Cluster → Type 0
Lacks name c = (get name c.controllers ≡ none) × (get name c.pending_controllers ≡ none)

remove_from_clusters-Lacks :
    (name : String) (cs : Map ℕ) (w : World)
    → ((h : ℕ)
        → Lacks name (cluster_at h w)
        → Lacks name (cluster_at h (remove_from_clusters name cs w)))
      × ((n : String) (h : ℕ)
          → In (n, h) cs
          → Lacks name (cluster_at h (remove_from_clusters name cs w)))
unfolding remove_from_clusters
remove_from_clusters-Lacks name [] w = (λ h l. l, λ n h i. absurd i)
remove_from_clusters-Lacks name ((m, g) ∷ cs) w =
    let c : Cluster = remove_controller_by_name name (cluster_at g w) in
    let v : World = set_cluster g c w in
    let (keeps, all) = remove_from_clusters-Lacks name cs v in
    let at_g : Lacks name (cluster_at g v) =
      subst (Lacks name) (sym (cluster_at-set_self g c w))
        (remove_controller-none name (cluster_at g w)) in
    (
      λ h l. elim (Bool-cases (nat_beq g h)) [
        | inl t ↦
            let same : g ≡ h = ground arith in
            keeps h (subst (λ x. Lacks name (cluster_at x v)) same at_g)
        | inr t ↦ keeps h (rw t l)
      ],
      λ n h i. elim i [
        | inl y ↦
            let same : h ≡ g = ap (λ p. p.1) y in
            keeps h (subst (λ x. Lacks name (cluster_at x v)) (sym same) at_g)
        | inr j ↦ all n h j
      ],
    )

-- If the rule of a request is not found, then no registered cluster has a controller under its name
-- afterwards, active or pending: also not one that is no sync controller.
pub reconcile_rule-removes :
    (e : RuleEnv) (name : String) (w w' : World)
    → (reconcile_rule e name rule_not_found w).0 ≡ some w'
    → (n : String) (h : ℕ) → In (n, h) w.manager.clusters
    → Lacks name (cluster_at h w')
unfolding reconcile_rule
reconcile_rule-removes e name w w' q n h i =
    subst (λ v. Lacks name (cluster_at h v)) (some_eq q)
      ((remove_from_clusters-Lacks name w.manager.clusters w).1 n h i)

sync_cluster_controller-none :
    (e : RuleEnv) (rule : ResourceSyncRule) (h : ℕ) (w : World) (k : ManagedController)
    → get rule.name (cluster_at h w).controllers ≡ some k
    → e.deep_equal (spec_of (w.rule_of k.handle)) rule.spec ≡ false
    → (cluster_at h w).running k.handle ≡ false
    → e.lingers k.handle ≡ false
    → sync_cluster_controller e rule h w ≡ none
unfolding sync_cluster_controller
sync_cluster_controller-none e rule h w k g d x l = rw (g, d, x, l, sync_cluster_controller)

-- A controller that is added while the manager does not run is active and does not run.
add_controller-idle :
    (s : Selectors) (k : ManagedController) (c : Cluster)
    → is_manager_running c ≡ false
    → get k.name c.controllers ≡ none
    → check_required_cluster_features s k c.features ≡ true
    → let c' = (add_controller s k c).0 in
      (get k.name c'.controllers ≡ some k) × (c'.running ≡ c.running)
unfolding add_controller activate_controller
add_controller-idle s k c m g t = rw (t, g, m) (get-put_self k.name k c.controllers, refl)

sync_one :
    (e : RuleEnv) (rule : ResourceSyncRule) (n : String) (h : ℕ) (w : World)
    → sync_clusters_with e rule ((n, h) ∷ []) w ≡ sync_cluster_controller e rule h w
unfolding sync_clusters_with
sync_one e rule n h w = elim (Option-cases (sync_cluster_controller e rule h w)) [
  | inl q ↦ rw (q, sync_clusters_with) refl
  | inr (v, q) ↦ rw (q, sync_clusters_with) refl
]

-- One cluster is registered, its manager does not run, and it has the features that a rule asks for
-- and no controller of the rule; a rate limiter can be made, and nothing runs or is left over under
-- the next handle. The rule is reconciled, which adds its controller, and again after it has changed:
-- that controller has never run, and the wait for its end is a panic.
pub changed_rule_panics :
    (e : RuleEnv) (rule : ResourceSyncRule) (spec : ResourceSyncRuleSpec) (n name : String) (h : ℕ)
    (w : World)
    → w.manager.clusters ≡ (n, h) ∷ []
    → is_manager_running (cluster_at h w) ≡ false
    → get rule.name (cluster_at h w).controllers ≡ none
    → check_required_cluster_features e.selectors
        (rule_controller w.next rule)
        (cluster_at h w).features
      ≡ true
    → e.makes_rate_limiter ≡ true
    → (cluster_at h w).running w.next ≡ false
    → e.lingers w.next ≡ false
    → e.deep_equal rule.spec spec ≡ false
    → let w' = add_rule_controller e.selectors rule h w in
      ((reconcile_rule e name (rule_found rule) w).0 ≡ some w')
      × ((reconcile_rule e name (rule_found (record rule { spec = spec })) w').0 ≡ none)
unfolding reconcile_rule sync_cluster_controller init_new_resource_sync_controller
    add_rule_controller rule_controller new_managed_controller with_required_cluster_features
changed_rule_panics e rule spec n name h w cs m g t limits idle l d =
    let k = rule_controller w.next rule in
    let rule' : ResourceSyncRule = record rule { spec = spec } in
    let w' : World = add_rule_controller e.selectors rule h w in
    let (active, same) = add_controller-idle e.selectors k (cluster_at h w) m g t in
    let stored : cluster_at h w' ≡ (add_controller e.selectors k (cluster_at h w)).0 =
      cluster_at-set_self h (add_controller e.selectors k (cluster_at h w)).0 w in
    (
      subst (λ xs. sync_clusters_with e rule xs w ≡ some w') (sym cs)
          (sync_one e rule n h w ∙ rw (g, limits, sync_cluster_controller) refl),
      subst (λ xs. sync_clusters_with e rule' xs w' ≡ none) (sym cs)
          (sync_one e rule' n h w'
            ∙ sync_cluster_controller-none e rule' h w' k
                (ap (λ c. get rule.name c.controllers) stored ∙ active) (ground (arith, d))
                (ap (λ c. c.running w.next) stored ∙ ap (λ f. f w.next) same ∙ idle) l),
    )
