-- ===== src/Controllers/Sync/Setup.antt =====
-- controllers/sync_reconciler.go: `SetupWithController` and `Start`, with the watches, caches and
-- clients that they make. What the watches let through stands in Controllers.Sync.
pub mod Local
pub mod Life
pub mod Fresh
use cluster_registry_control.Common.{
  ℕ, String, Bool, true, false, not, ◌==◌, Option, none, some, List, [], ◌∷◌, ◌++◌, put, has,
  is_some, if◌then◌else◌,
}
use cluster_registry_control.Common.Parts.{Part, ◌>>◌}
use cluster_registry_control.Api.Object.{GroupVersionKind, Machinery}
use cluster_registry_control.Api.Rules.{ResourceSyncRuleSpec, get_mutated_gvk}
use cluster_registry_control.Clusters.Reconciler.{
  RuntimeManager, ManagedReconciler, ManagedReconcilerBase, new_managed_reconciler, set_client,
  set_manager, do_cleanup, base_setup_with_controller,
}
use cluster_registry_control.Clusters.Manager.{Manager}
use cluster_registry_control.Controllers.Sync.{SyncReconciler, new_sync_reconciler}
use cluster_registry_control.Controllers.Sync.PreCheck.{Review, pre_check}

-- The source of a watch: a kind at the watched cluster, the source that gives the queue, or an
-- informer of the local cache for a kind.
pub data Source : Type 0 where
  of_kind : GroupVersionKind → Source
  in_memory : Source
  of_informer : GroupVersionKind → Source

-- The reconciler with its base and its handles; the watches with the controllers that they were
-- registered with, and the caches with the contexts that they were started in, in order.
pub record SyncSetup : Type 0 where
  pub sync : SyncReconciler
  pub base : ManagedReconcilerBase
  pub ctrl : Option ℕ
  pub queue : Option ℕ
  pub local_cache : Option ℕ
  pub local_client : Option ℕ
  pub watches : List (ℕ × Source)
  pub local_caches : List (ℕ × Option ℕ)

-- What the libraries give: the lower-case plural of a kind, the text of a kind, and the kind that a
-- new typed object of the scheme carries, or `none` where the scheme does not know the kind.
pub record Library : Type 0 where
  pub machinery : Machinery
  pub plural : String → String
  pub kind_text : GroupVersionKind → String
  pub typed : GroupVersionKind → Option GroupVersionKind

-- What the API servers and controller-runtime answer during a call: `none` or `false` for an error.
pub record SetupAnswers : Type 0 where
  pub review : Review
  pub local_review : Option Review
  pub new_cache : Option ℕ
  pub cache_synced : Bool
  pub new_client : Option ℕ
  pub new_delegating_client : Option ℕ
  pub watches_kind : Bool
  pub watches_memory : Bool
  pub cluster_id : Option String
  pub informs : Bool
  pub watches_informer : Bool

unfoldable pub set_queue : ℕ → SyncSetup → SyncSetup
set_queue q r = record r { queue = some q }

module _ (l : Library) where
  -- `NewSyncReconciler`, with the base that it embeds.
  unfoldable pub new_sync_setup :
      String → ResourceSyncRuleSpec → String → String → Manager → SyncSetup
  unfolding new_sync_reconciler new_managed_reconciler
  new_sync_setup name rule rule_uid cluster_id manager = record {
    sync = new_sync_reconciler l.machinery rule rule_uid cluster_id manager;
    base = new_managed_reconciler name;
    ctrl = none;
    queue = none;
    local_cache = none;
    local_client = none;
    watches = [];
    local_caches = [];
  }

  -- The kind that the object carries.
  unfoldable pub init_object_from_gvk : GroupVersionKind → GroupVersionKind
  init_object_from_gvk gvk = elim (l.typed gvk) [ none ↦ gvk | some carried ↦ carried ]

  -- The kind of the local objects that `Start` watches.
  unfoldable pub local_kind : ResourceSyncRuleSpec → GroupVersionKind
  unfolding init_object_from_gvk
  local_kind rule = init_object_from_gvk (get_mutated_gvk l.machinery rule.rules false rule.gvk).1

  -- The key under which the reconciler remembers the informer for a kind.
  abbrev pub informer_key : GroupVersionKind → String
  informer_key gvk = l.kind_text gvk

  module _ (a : SetupAnswers) where
    -- The cache runs in the context of the reconciler, which may be an older one than that of the
    -- call.
    unfoldable pub start_local_cache : Part SyncSetup
    start_local_cache r = elim a.new_cache [
      | none ↦ (r, false)
      | some cche ↦
          let r' = record r { local_caches = r.local_caches ++ (cche, r.base.ctx) ∷ [] } in
          if a.cache_synced then (record r' { local_cache = some cche }, true) else (r', false)
    ]

    unfoldable pub create_local_client : Option ℕ
    create_local_client = elim a.new_client [ none ↦ none | some cli ↦ a.new_delegating_client ]

    unfoldable pub use_local_client : Part SyncSetup
    unfolding create_local_client
    use_local_client r = elim create_local_client [
      | none ↦ (r, false)
      | some cli ↦ (record r { local_client = some cli }, true)
    ]

    -- `ctrl.Watch`.
    abbrev pub watch : ℕ → Source → Bool → Part SyncSetup
    watch ctrl source accepted r =
        if accepted
        then (record r { watches = r.watches ++ (ctrl, source) ∷ [] }, true)
        else (r, false)

    unfoldable pub watch_kind : ℕ → Part SyncSetup
    unfolding init_object_from_gvk
    watch_kind ctrl r = watch ctrl (of_kind (init_object_from_gvk r.sync.rule.gvk)) a.watches_kind r

    unfoldable pub watch_memory : ℕ → Part SyncSetup
    watch_memory ctrl r = watch ctrl in_memory a.watches_memory r

    unfoldable pub keep_ctrl : ℕ → Part SyncSetup
    keep_ctrl ctrl r = (record r { ctrl = some ctrl }, true)

    unfoldable pub set_up_base : Option ℕ → Part SyncSetup
    unfolding base_setup_with_controller
    set_up_base ctx r =
        let (base, done) = base_setup_with_controller ctx r.base in (record r { base = base }, done)

    unfoldable pub setup_with_controller : Option ℕ → ℕ → Part SyncSetup
    setup_with_controller ctx ctrl =
        set_up_base ctx
        >> start_local_cache
        >> use_local_client
        >> watch_kind ctrl
        >> watch_memory ctrl
        >> keep_ctrl ctrl

    -- The first part of `Start`: an ID that is known stays.
    unfoldable pub set_local_cluster_id : Part SyncSetup
    set_local_cluster_id r =
        if r.sync.local_cluster_id == ""
        then (elim a.cluster_id [
          | none ↦ (r, false)
          | some id ↦ (record r { sync = record r.sync { local_cluster_id = id } }, true)
        ])
        else (r, true)

    -- `Start` is called after a set-up that succeeded, so that the controller is there.
    unfoldable pub init_local_informer : GroupVersionKind → Part SyncSetup
    init_local_informer gvk r =
        if has (informer_key gvk) r.sync.local_informers
        then (r, true)
        else if not a.informs
        then (r, false)
        else elim r.ctrl [
          | none ↦ (r, false)
          | some ctrl ↦
              if a.watches_informer
              then (
                record r {
                  watches = r.watches ++ (ctrl, of_informer gvk) ∷ [];
                  sync = record r.sync {
                    local_informers = put (informer_key gvk) tt r.sync.local_informers;
                  };
                },
                true,
              )
              else (r, false)
        ]

    unfoldable pub watch_local : Part SyncSetup
    watch_local r = init_local_informer (local_kind r.sync.rule) r

    unfoldable pub start_sync : Part SyncSetup
    start_sync = set_local_cluster_id >> watch_local

  -- The reconciler as its controller sees it: of the methods, these three are not those of the base.
  unfoldable pub sync_reconciler : ManagedReconciler SyncSetup SetupAnswers
  unfolding set_manager set_client do_cleanup
  sync_reconciler = record {
    set_manager = λ mgr r. record r { base = set_manager mgr r.base };
    set_client = λ client r. record r { base = set_client client r.base };
    pre_check = λ a ctx r. not (is_some (pre_check l.plural r.sync a.review a.local_review));
    setup_with_controller = λ a ctx ctrl r. setup_with_controller a ctx ctrl r;
    start_reconciler = λ a ctx r. start_sync a r;
    do_cleanup = λ r. record r { base = do_cleanup r.base };
  }
