-- ===== src/Clusters/Cluster/Pending.antt =====
-- Pending controllers: what `AddFeature` does with the controllers that wait for features.
use cluster_registry_control.Common.{
  String, ◌≡◌, refl, sym, ◌∙◌, ◌⊎◌, inl, inr, true, false, some, [], ◌∷◌, arith, eq_iff, eq_refl,
  Map, get, put, has, get-put, get-delete, In, In-of_get, Option-cases,
}
use mathlib.Core.Path.{subst}
use cluster_registry_control.Api.Selector.{Selectors}
use cluster_registry_control.Clusters.Feature.{ClusterFeature}
use cluster_registry_control.Clusters.Controller.{ManagedController}
use cluster_registry_control.Clusters.Cluster.{
  Cluster, activate_controller, check_required_cluster_features, add_controller, retry_controllers,
  add_feature,
}
use cluster_registry_control.Clusters.Cluster.Gate.{IsKeyed}

module _ (s : Selectors) where
  abbrev Unmet : Cluster → ManagedController → Type 0
  Unmet c x = check_required_cluster_features s x c.features ≡ false

  abbrev IsActive : String → Cluster → Type 0
  IsActive j c = has j c.controllers ≡ true

  -- Turns of the loop: the features stay, no controller is taken away, a pending controller was
  -- pending before or is not met, and those that had their turn are not met or have a namesake.
  record Retried (ks : Map ManagedController) (c d : Cluster) : Type 0 where
    features : d.features ≡ c.features
    stays :
        (j : String) (x : ManagedController)
        → get j c.controllers ≡ some x
        → get j d.controllers ≡ some x
    only :
        (j : String) (x : ManagedController)
        → get j d.pending_controllers ≡ some x
        → (get j c.pending_controllers ≡ some x) ⊎ Unmet c x
    own :
        (e : String × ManagedController) (x : ManagedController)
        → In e ks
        → get e.1.name d.pending_controllers ≡ some x
        → Unmet c x ⊎ IsActive e.1.name d

  add_controller-own :
      (k : ManagedController) (c : Cluster) (x : ManagedController)
      → get k.name (add_controller s k c).0.pending_controllers ≡ some x
      → Unmet c x ⊎ IsActive k.name (add_controller s k c).0
  unfolding add_controller activate_controller
  add_controller-own k c x h = ground (
    arith,
    eq_refl k.name,
    get-put k.name k.name k c.pending_controllers,
    get-delete k.name k.name c.pending_controllers,
  )

  add_controller-Retried :
      (n : String) (k : ManagedController) (c : Cluster)
      → Retried ((n, k) ∷ []) c (add_controller s k c).0
  unfolding add_controller activate_controller
  add_controller-Retried n k c = record {
    features = ground arith;
    stays = λ j x e. ground (arith, get-put k.name j k c.controllers, eq_iff k.name j);
    only = λ j x e. ground (
      arith,
      get-put k.name j k c.pending_controllers,
      get-delete k.name j c.pending_controllers,
    );
    own = λ e x i h. elim i [
      | inl q ↦ rw q (add_controller-own k c x (rw q at h))
      | inr r ↦ absurd r
    ];
  }

  IsActive-stays :
      (j : String) (c d : Cluster)
      → ((x : ManagedController) → get j c.controllers ≡ some x → get j d.controllers ≡ some x)
      → IsActive j c
      → IsActive j d
  IsActive-stays j c d h a = elim (Option-cases (get j c.controllers)) [
    | inl q ↦ absurd (ground arith)
    | inr (x, q) ↦ rw (h x q)
  ]

  Retried-cons :
      (e : String × ManagedController) (ks : Map ManagedController) (c d f : Cluster)
      → Retried (e ∷ []) c d
      → Retried ks d f
      → Retried (e ∷ ks) c f
  Retried-cons e ks c d f a b = record {
    features = b.features ∙ a.features;
    stays = λ j x h. b.stays j x (a.stays j x h);
    only = λ j x h. elim (b.only j x h) [ inl q ↦ a.only j x q | inr q ↦ inr (rw a.features at q) ];
    own = λ g x i h. elim i [
      | inl q ↦ elim (b.only g.1.name x h) [
        | inl p ↦ elim (a.own g x (inl q) p) [
          | inl u ↦ inl u
          | inr v ↦ inr (IsActive-stays g.1.name d f (b.stays g.1.name) v)
        ]
        | inr u ↦ inl (rw a.features at u)
      ]
      | inr r ↦ elim (b.own g x r h) [ inl u ↦ inl (rw a.features at u) | inr v ↦ inr v ]
    ];
  }

  retry_controllers-Retried :
      (ks : Map ManagedController) (c : Cluster) → Retried ks c (retry_controllers s ks c)
  unfolding retry_controllers
  retry_controllers-Retried [] c = record {
    features = refl;
    stays = λ j x e. e;
    only = λ j x e. inl e;
    own = λ e x i h. absurd i;
  }
  retry_controllers-Retried ((n, k) ∷ ks) c =
      Retried-cons (n, k) ks c (add_controller s k c).0
        (retry_controllers s ks (add_controller s k c).0) (add_controller-Retried n k c)
        (retry_controllers-Retried ks (add_controller s k c).0)

  -- After a feature is added, a controller still waits only if its requirements are not met, or if
  -- a controller of the same name is active. The feature is stored.
  pub add_feature_settles :
      (f : ClusterFeature) (c : Cluster)
      → IsKeyed c.pending_controllers
      → ((add_feature s f c).features ≡ put f.uid f c.features)
        × ((j : String) (x : ManagedController)
            → get j (add_feature s f c).pending_controllers ≡ some x
            → (check_required_cluster_features s x (add_feature s f c).features ≡ false)
              ⊎ (has x.name (add_feature s f c).controllers ≡ true))
  unfolding add_feature
  add_feature_settles f c keyed =
      let c' : Cluster = record c { features = put f.uid f c.features } in
      let b = retry_controllers-Retried c'.pending_controllers c' in
      (
        b.features,
        λ j x h. elim (b.only j x h) [
          | inl q ↦
              elim (b.own (j, x) x (In-of_get j x c.pending_controllers q)
                (subst (λ (n : String). get n (add_feature s f c).pending_controllers ≡ some x)
                  (sym (keyed j x q)) h)) [ inl u ↦ inl (rw b.features u) | inr v ↦ inr v ]
          | inr u ↦ inl (rw b.features u)
        ],
      )

  -- Adding a feature stores it under its uid, where it replaces the one that stood there, and takes no
  -- active controller away: each stays active whether or not it still matches the features.
  pub add_feature_takes_none_away :
      (f : ClusterFeature) (c : Cluster)
      → ((add_feature s f c).features ≡ put f.uid f c.features)
        × ((j : String) (x : ManagedController)
            → get j c.controllers ≡ some x
            → get j (add_feature s f c).controllers ≡ some x)
  unfolding add_feature
  add_feature_takes_none_away f c =
      let c' : Cluster = record c { features = put f.uid f c.features } in
      let b = retry_controllers-Retried c'.pending_controllers c' in (b.features, b.stays)
