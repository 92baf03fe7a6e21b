-- ===== src/Controllers/RuleReconciler/Coverage.antt =====
-- After a rule is reconciled: the clusters that run it, and those that do not.
use cluster_registry_control.Common.{
  some_eq, ℕ, String, ◌≡◌, ◌<◌, refl, sym, ap, ◌∙◌, ◌⊎◌, inl, inr, true, false, ◌==◌, Option, none,
  some, [], ◌∷◌, arith, eq_iff, Map, get, has, get-put, get-delete, get-put_self, get-delete_self,
  In, nat_beq, Bool-cases, Option-cases,
}
use mathlib.Core.Path.{subst}
use cluster_registry_control.Api.Selector.{Selectors}
use cluster_registry_control.Clusters.Controller.{ManagedController, new_managed_controller}
use cluster_registry_control.Clusters.Cluster.{
  Cluster, activate_controller, remove_controller_by_name, remove_controller, add_controller,
  check_required_cluster_features,
}
use cluster_registry_control.Controllers.RuleReconciler.{
  has_context, ResourceSyncRule, World, RuleEnv, cluster_at, set_cluster, set_rule, rule_controller,
  add_rule_controller, spec_of, init_new_resource_sync_controller, sync_cluster_controller,
  sync_clusters_with, rule_found, reconcile_rule,
}

-- A controller stands under a name, active or pending.
abbrev pub Holds : String → ManagedController → Cluster → Type 0
Holds name k c = (get name c.controllers ≡ some k) ⊎ (get name c.pending_controllers ≡ some k)

add_controller-Holds :
    (s : Selectors) (k : ManagedController) (c : Cluster)
    → get k.name c.controllers ≡ none
    → Holds k.name k (add_controller s k c).0
unfolding add_controller activate_controller
add_controller-Holds s k c n = elim (Bool-cases (check_required_cluster_features s k c.features)) [
  | inl t ↦ inl (ground (arith, get-put_self k.name k c.controllers))
  | inr f ↦ inr (ground (arith, get-put_self k.name k c.pending_controllers))
]

-- The active controllers after an addition are the new one and those before.
add_controller-old :
    (s : Selectors) (k : ManagedController) (c : Cluster) (j : String) (x : ManagedController)
    → get j (add_controller s k c).0.controllers ≡ some x
    → ((x ≡ k) × (k.name ≡ j)) ⊎ (get j c.controllers ≡ some x)
unfolding add_controller activate_controller
add_controller-old s k c j x h = elim (Bool-cases (k.name == j)) [
  | inl e ↦ elim (Bool-cases (check_required_cluster_features s k c.features)) [
    | inl t ↦ elim (Bool-cases (has k.name c.controllers)) [
      | inl p ↦ inr (ground arith)
      | inr p ↦ inl (ground (arith, get-put k.name j k c.controllers), (eq_iff k.name j).0 e)
    ]
    | inr t ↦ inr (ground arith)
  ]
  | inr e ↦ inr (ground (arith, get-put k.name j k c.controllers))
]

pub remove_controller-none :
    (name : String) (c : Cluster)
    → (get name (remove_controller_by_name name c).controllers ≡ none)
      × (get name (remove_controller_by_name name c).pending_controllers ≡ none)
unfolding remove_controller_by_name
remove_controller-none name c = (
  ground (arith, get-delete_self name c.controllers),
  ground (arith, get-delete_self name c.pending_controllers),
)

remove_controller-old :
    (name : String) (c : Cluster) (j : String) (x : ManagedController)
    → get j (remove_controller_by_name name c).controllers ≡ some x
    → get j c.controllers ≡ some x
unfolding remove_controller_by_name
remove_controller-old name c j x h = ground (arith, get-delete name j c.controllers)

pub cluster_at-set_self : (h : ℕ) (c : Cluster) (w : World) → cluster_at h (set_cluster h c w) ≡ c
cluster_at-set_self h c w = ground arith

set_rule_self :
    (h : ℕ) (rule : ResourceSyncRule) (f : ℕ → Option ResourceSyncRule)
    → set_rule h rule f h ≡ some rule
set_rule_self h rule f = ground arith

set_rule_below :
    (h j : ℕ) (rule : ResourceSyncRule) (f : ℕ → Option ResourceSyncRule)
    → j < h
    → set_rule h rule f j ≡ f j
set_rule_below h j rule f l = ground arith

-- The active controllers of all clusters stand under their names and have handles in use.
abbrev pub AreKnown : World → Type 0
AreKnown w =
    (h : ℕ) (j : String) (x : ManagedController)
    → get j (cluster_at h w).controllers ≡ some x
    → (x.handle < w.next) × (x.name ≡ j)

module _ (e : RuleEnv) (rule : ResourceSyncRule) where
  -- A cluster holds a controller of the rule, as it is now.
  abbrev pub Runs : ℕ → World → Type 0
  Runs h w =
      (k : ManagedController) × Holds rule.name k (cluster_at h w)
      × (k.handle < w.next)
      × (e.deep_equal (spec_of (w.rule_of k.handle)) rule.spec ≡ true)

  rule_controller_lem :
      (n : ℕ) → ((rule_controller n rule).name ≡ rule.name) × ((rule_controller n rule).handle ≡ n)
  unfolding rule_controller new_managed_controller
  rule_controller_lem n = (refl, refl)

  module _ (same : e.deep_equal rule.spec rule.spec ≡ true) where
    add-Runs :
        (h : ℕ) (w : World)
        → get rule.name (cluster_at h w).controllers ≡ none
        → Runs h (add_rule_controller e.selectors rule h w)
    unfolding add_rule_controller rule_controller
    add-Runs h w n =
        let k : ManagedController = rule_controller w.next rule in
        let c : Cluster = (add_controller e.selectors k (cluster_at h w)).0 in
        let held : Holds rule.name k c = add_controller-Holds e.selectors k (cluster_at h w) n in
        (
          k,
          subst (Holds rule.name k) (sym (cluster_at-set_self h c w)) held,
          omega arith,
          rw (set_rule_self w.next rule w.rule_of) same,
        )

  add-AreKnown :
      (s : Selectors) (h : ℕ) (w : World) → AreKnown w → AreKnown (add_rule_controller s rule h w)
  unfolding add_rule_controller
  add-AreKnown s h w b i j x q =
      let k : ManagedController = rule_controller w.next rule in
      elim (Bool-cases (nat_beq h i)) [
        | inl t ↦ elim (add_controller-old s k (cluster_at h w) j x (rw t at q)) [
          | inl (y, same) ↦ (
            omega (arith, ap (λ z. z.handle) y, (rule_controller_lem w.next).1),
            ap (λ z. z.name) y ∙ same,
          )
          | inr y ↦ (let (below, named) = b h j x y in (omega arith, named))
        ]
        | inr t ↦
            (let old : get j (cluster_at i w).controllers ≡ some x = rw t at q in
              let (below, named) = b i j x old in (omega arith, named))
      ]

  -- A cluster that runs the rule still does when a controller is added to another cluster.
  add-keeps :
      (s : Selectors) (h i : ℕ) (w : World)
      → nat_beq h i ≡ false
      → Runs i w
      → Runs i (add_rule_controller s rule h w)
  unfolding add_rule_controller
  add-keeps s h i w t (k, held, below, equal) =
      (k, rw t held, omega arith, rw (set_rule_below w.next k.handle rule w.rule_of below) equal)

  remove-AreKnown :
      (name : String) (h : ℕ) (w : World)
      → AreKnown w
      → AreKnown (set_cluster h (remove_controller_by_name name (cluster_at h w)) w)
  remove-AreKnown name h w b i j x q = elim (Bool-cases (nat_beq h i)) [
    | inl t ↦ b h j x (remove_controller-old name (cluster_at h w) j x (rw t at q))
    | inr t ↦ b i j x (rw t at q)
  ]

  -- What a step for the cluster `h` leaves.
  record Synced (h : ℕ) (w w' : World) : Type 0 where
    known : AreKnown w'
    runs : Runs h w'
    keeps : (i : ℕ) → nat_beq h i ≡ false → Runs i w → Runs i w'

  module _ (limited : e.makes_rate_limiter ≡ true)
      (same : e.deep_equal rule.spec rule.spec ≡ true) where
    init-Synced :
        (h : ℕ) (w : World)
        → AreKnown w
        → get rule.name (cluster_at h w).controllers ≡ none
        → Synced h w (init_new_resource_sync_controller e rule h w)
    unfolding init_new_resource_sync_controller
    init-Synced h w b n = rw limited (record {
      known = add-AreKnown e.selectors h w b;
      runs = add-Runs same h w n;
      keeps = λ i t r. add-keeps e.selectors h i w t r;
    })

    -- The old controller is removed before the new one is added.
    replace-Synced :
        (h : ℕ) (w : World) (k : ManagedController)
        → AreKnown w
        → k.name ≡ rule.name
        → Synced h w (
            init_new_resource_sync_controller e rule h
              (set_cluster h (remove_controller k (cluster_at h w)) w))
    unfolding remove_controller_by_name
    replace-Synced h w k b named =
        let c : Cluster = remove_controller_by_name k.name (cluster_at h w) in
        let v : World = set_cluster h c w in
        let gone : get rule.name (cluster_at h v).controllers ≡ none =
          rw (cluster_at-set_self h c w, ← named)
            (remove_controller-none k.name (cluster_at h w)).0 in
        let s = init-Synced h v (remove-AreKnown k.name h w b) gone in
        record {
          known = s.known;
          runs = s.runs;
          keeps = λ i t r. s.keeps i t (r.0, rw t r.1, r.2, r.3);
        }

    sync-Synced :
        (h : ℕ) (w w' : World)
        → AreKnown w
        → sync_cluster_controller e rule h w ≡ some w'
        → Synced h w w'
    unfolding sync_cluster_controller
    sync-Synced h w w' b q = elim (Option-cases (get rule.name (cluster_at h w).controllers)) [
      | inl n ↦
          subst (Synced h w) (some_eq (rw (n, sync_cluster_controller) at q)) (init-Synced h w b n)
      | inr (k, n) ↦
          let (below, named) = b h rule.name k n in
          elim (Bool-cases (e.deep_equal (spec_of (w.rule_of k.handle)) rule.spec)) [
            | inl t ↦
                subst (Synced h w) (some_eq (rw (n, t, sync_cluster_controller) at q))
                  (record { known = b; runs = (k, inl n, below, t); keeps = λ i f r. r })
            | inr t ↦ elim (Bool-cases (has_context e (cluster_at h w) k)) [
              | inl c ↦
                  subst (Synced h w) (some_eq (rw (n, t, c, sync_cluster_controller) at q))
                    (replace-Synced h w k b named)
              | inr c ↦
                  (let no : none ≡ some w' = rw (n, t, c, sync_cluster_controller) at q in
                    absurd (ground arith))
            ]
          ]
    ]

    -- The loop: each cluster of it runs the rule afterwards, and no cluster ceases to.
    sync_all :
        (cs : Map ℕ) (w w' : World)
        → AreKnown w
        → sync_clusters_with e rule cs w ≡ some w'
        → ((h : ℕ) → Runs h w → Runs h w') × ((n : String) (h : ℕ) → In (n, h) cs → Runs h w')
    unfolding sync_clusters_with
    sync_all [] w w' b q = (λ h r. subst (Runs h) (some_eq q) r, λ n h i. absurd i)
    sync_all ((m, g) ∷ cs) w w' b q = elim (Option-cases (sync_cluster_controller e rule g w)) [
      | inl n ↦ (let no : none ≡ some w' = rw (n, sync_clusters_with) at q in absurd (ground arith))
      | inr (v, n) ↦
          let s = sync-Synced g w v b n in
          let (keeps, all) = sync_all cs v w' s.known (rw (n, sync_clusters_with) at q) in
          let stays : (h : ℕ) → Runs h w → Runs h v = λ h r. elim (Bool-cases (nat_beq g h)) [
            | inl t ↦ (let at_g : g ≡ h = ground arith in subst (λ x. Runs x v) at_g s.runs)
            | inr t ↦ s.keeps h t r
          ] in
          (
            λ h r. keeps h (stays h r),
            λ n h i. elim i [
              | inl y ↦
                  (let is_g : h ≡ g = ap (λ p. p.1) y in
                    subst (λ x. Runs x w') (sym is_g) (keeps g s.runs))
              | inr j ↦ all n h j
            ],
          )
    ]

  -- If the rule is found, a rate limiter can be made and there is no panic, then every registered
  -- cluster holds, active or pending, a controller under the rule's name whose rule has the spec of
  -- the rule that was read. The controllers before stand under their names and have handles in use,
  -- and the comparison of specs holds of a spec and itself.
  pub reconcile_rule-covers :
      (name : String) (w w' : World)
      → e.makes_rate_limiter ≡ true
      → e.deep_equal rule.spec rule.spec ≡ true
      → AreKnown w
      → (reconcile_rule e name (rule_found rule) w).0 ≡ some w'
      → (n : String) (h : ℕ) → In (n, h) w.manager.clusters
      → Runs h w'
  unfolding reconcile_rule
  reconcile_rule-covers name w w' limited same b q n h i =
      (sync_all limited same w.manager.clusters w w' b q).1 n h i
