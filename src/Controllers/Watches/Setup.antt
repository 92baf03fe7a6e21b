-- ===== src/Controllers/Watches/Setup.antt =====
-- The `SetupWithController` and `SetupWithManager` methods of the reconcilers other than the sync
-- reconciler: which watches they register, in which order, and where a failure leaves them.
use cluster_registry_control.Common.{
  ℕ, String, ◌≡◌, refl, ap, ◌∙◌, Bool, true, false, Option, none, some, List, [], ◌∷◌, ◌++◌, map,
  arith, if◌then◌else◌,
}
use cluster_registry_control.Common.Parts.{Part, ◌>>◌, >>-done, >>-done_after}
use cluster_registry_control.Clusters.Reconciler.{
  RuntimeManager, ManagedReconcilerBase, set_client, base_setup_with_controller,
  base_setup_with_manager,
}

-- What is watched: objects of a Go type with the kind that is declared for them, the informer of a
-- kind in the local cache, the source that gives the queue, or what the builder adds.
pub data WatchSource : Type 0 where
  objects : String → String → WatchSource
  informer : String → WatchSource
  memory : WatchSource
  built : String → WatchSource

-- A reconciler in its set-up: the base, the queue, whether the hook for added clusters is set, and
-- the watches with their controllers, in order.
pub record Registration : Type 0 where
  pub base : ManagedReconcilerBase
  pub queue : Option ℕ
  pub hooked : Bool
  pub watches : List (ℕ × WatchSource)

-- Which calls controller-runtime accepts: `built_ctrl` is the result of `Build`.
pub record WatchAnswers : Type 0 where
  pub accepts : WatchSource → Bool
  pub informs : Bool
  pub built_ctrl : Option ℕ
  pub manager_client : ℕ

-- `InMemorySource.Start` and `setQueue`, once the controller starts the source.
unfoldable pub set_reconciler_queue : ℕ → Registration → Registration
set_reconciler_queue q r = record r { queue = some q }

module _ (a : WatchAnswers) where
  unfoldable pub add_watch : ℕ → WatchSource → Part Registration
  add_watch ctrl w r =
      if a.accepts w then (record r { watches = r.watches ++ (ctrl, w) ∷ [] }, true) else (r, false)

  -- The loop over the watches of a method.
  unfoldable pub add_watches : ℕ → List WatchSource → Part Registration
  unfolding add_watch
  add_watches ctrl [] r = (r, true)
  add_watches ctrl (w ∷ ws) r = (add_watch ctrl w >> add_watches ctrl ws) r

  unfoldable pub begin_setup : Option ℕ → Part Registration
  begin_setup ctx r =
      let (base, done) = base_setup_with_controller ctx r.base in (record r { base = base }, done)

  -- remote_cluster_feature_reconciler.go.
  unfoldable pub setup_feature_reconciler : Option ℕ → ℕ → Part Registration
  setup_feature_reconciler ctx ctrl =
      begin_setup ctx >> add_watch ctrl (objects "ClusterFeature" "ClusterFeature")

  unfoldable pub find_informer : Part Registration
  find_informer r = (r, a.informs)

  -- remote_cluster_reconciler.go.
  unfoldable pub setup_remote_reconciler : Option ℕ → ℕ → Part Registration
  setup_remote_reconciler ctx ctrl =
      begin_setup ctx
      >> add_watch ctrl (objects "Cluster" "Cluster")
      >> find_informer
      >> add_watch ctrl (informer "Cluster")

  -- cluster_reconciler.go: both entries of the loop are objects of the type of the rules.
  abbrev pub core_watches : List WatchSource
  core_watches =
      objects "ResourceSyncRule" "ResourceSyncRule"
      ∷ objects "ResourceSyncRule" "ClusterFeature"
      ∷ []

  unfoldable pub setup_cluster_reconciler : Option ℕ → ℕ → Part Registration
  setup_cluster_reconciler ctx ctrl =
      begin_setup ctx >> add_watches ctrl core_watches >> add_watch ctrl memory

  unfoldable pub add_hook : Part Registration
  add_hook r = (record r { hooked = true }, true)

  -- resource_sync_rule_reconciler.go.
  unfoldable pub setup_rule_reconciler : Option ℕ → ℕ → Part Registration
  setup_rule_reconciler ctx ctrl = begin_setup ctx >> add_watch ctrl memory >> add_hook

  unfoldable pub begin_with_manager : RuntimeManager → Part Registration
  begin_with_manager mgr r =
      let (base, done) = base_setup_with_manager mgr r.base in (record r { base = base }, done)

  -- The builder: its watches and those of `For` belong to the controller that it makes.
  unfoldable pub build : List WatchSource → (ℕ → Part Registration) → Part Registration
  build ws rest r = elim a.built_ctrl [
    | none ↦ (r, false)
    | some ctrl ↦ rest ctrl (record r { watches = r.watches ++ map (λ w. (ctrl, w)) ws })
  ]

  unfoldable pub take_client : Part Registration
  take_client r = (record r { base = set_client a.manager_client r.base }, true)

  -- `SetupWithManager` of the cluster reconciler.
  unfoldable pub setup_clusters_with_manager : Option ℕ → RuntimeManager → Part Registration
  setup_clusters_with_manager ctx mgr =
      begin_with_manager mgr
      >> build (built "local clusters in conflict" ∷ built "secrets" ∷ built "Cluster" ∷ [])
          (setup_cluster_reconciler ctx)
      >> take_client

  -- `SetupWithManager` of the rule reconciler.
  unfoldable pub setup_rules_with_manager : Option ℕ → RuntimeManager → Part Registration
  setup_rules_with_manager ctx mgr =
      begin_with_manager mgr
      >> build (built "ResourceSyncRule" ∷ []) (setup_rule_reconciler ctx)
      >> take_client

  add_watch_done :
      (ctrl : ℕ) (w : WatchSource) (r : Registration)
      → (add_watch ctrl w r).1 ≡ true
      → (add_watch ctrl w r).0.watches ≡ r.watches ++ (ctrl, w) ∷ []
  unfolding add_watch
  add_watch_done ctrl w r h = ground arith

  begin_setup-watches :
      (ctx : Option ℕ) (r : Registration) → (begin_setup ctx r).0.watches ≡ r.watches
  unfolding begin_setup
  begin_setup-watches ctx r = refl

  -- A set-up of the remote cluster reconciler that succeeds registers both of its watches with the
  -- controller that it is given, whatever was registered with earlier ones.
  pub remote_watches_are_renewed :
      (ctx : Option ℕ) (ctrl : ℕ) (r : Registration)
      → (setup_remote_reconciler ctx ctrl r).1 ≡ true
      → (setup_remote_reconciler ctx ctrl r).0.watches
        ≡ (r.watches ++ (ctrl, objects "Cluster" "Cluster") ∷ []) ++ (ctrl, informer "Cluster") ∷ []
  unfolding setup_remote_reconciler find_informer
  remote_watches_are_renewed ctx ctrl r h =
      let first = add_watch ctrl (objects "Cluster" "Cluster") in
      let one = begin_setup ctx >> first in
      let two = one >> find_informer in
      let (e, last) = >>-done_after two (add_watch ctrl (informer "Cluster")) r h in
      let two_done = >>-done two (add_watch ctrl (informer "Cluster")) r h in
      let (e2, _) = >>-done_after one find_informer r two_done in
      let (e1, done) =
        >>-done_after (begin_setup ctx) first r (>>-done one find_informer r two_done) in
      let begun =
        ap (λ (ws : List (ℕ × WatchSource)). ws ++ (ctrl, objects "Cluster" "Cluster") ∷ [])
          (begin_setup-watches ctx r) in
      let watched =
        ap (λ (t : Registration × Bool). t.0.watches) e1
        ∙ add_watch_done ctrl (objects "Cluster" "Cluster") (begin_setup ctx r).0 done
        ∙ begun in
      ap (λ (t : Registration × Bool). t.0.watches) e
      ∙ add_watch_done ctrl (informer "Cluster") (two r).0 last
      ∙ ap (λ (ws : List (ℕ × WatchSource)). ws ++ (ctrl, informer "Cluster") ∷ [])
          (ap (λ (t : Registration × Bool). t.0.watches) e2 ∙ watched)
