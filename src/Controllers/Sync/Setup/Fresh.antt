-- ===== src/Controllers/Sync/Setup/Fresh.antt =====
-- The first run of a sync controller, where every call succeeds.
use cluster_registry_control.Common.{ℕ, String, ◌≡◌, refl, true, false, none, some, [], ◌∷◌, get}
use cluster_registry_control.Api.Rules.{ResourceSyncRuleSpec}
use cluster_registry_control.Clusters.Reconciler.{
  RuntimeManager, new_managed_reconciler, set_client, set_manager, set_scheme, set_context,
  base_setup_with_controller,
}
use cluster_registry_control.Clusters.Manager.{Manager}
use cluster_registry_control.Clusters.Lifecycle.{
  running, System, Answers, new_system, start_controller, new_unmanaged, create_and_start_cache,
  create_client, use_client, inject, set_up, leave_running, start_parts, check, turn,
}
use cluster_registry_control.Clusters.Lifecycle.Ends.{run_turns}
use cluster_registry_control.Controllers.Sync.{new_sync_reconciler}
use cluster_registry_control.Controllers.Sync.PreCheck.{Review, pre_check}
use cluster_registry_control.Controllers.Sync.Setup.{
  of_kind, in_memory, of_informer, SyncSetup, Library, SetupAnswers, new_sync_setup,
  start_local_cache, create_local_client, use_local_client, watch_kind, watch_memory, keep_ctrl,
  set_up_base, setup_with_controller, set_local_cluster_id, init_local_informer, local_kind,
  init_object_from_gvk, watch_local, start_sync, sync_reconciler,
}

-- Every call succeeds, with these handles; the access reviews are given.
module _ (ctrl cache client local_cache local_client : ℕ) (id : String) where
  abbrev pub granted : Review → Review → SetupAnswers
  granted review local_review = record {
    review = review;
    local_review = some local_review;
    new_cache = some local_cache;
    cache_synced = true;
    new_client = some local_client;
    new_delegating_client = some local_client;
    watches_kind = true;
    watches_memory = true;
    cluster_id = some id;
    informs = true;
    watches_informer = true;
  }

  abbrev pub succeeding : Review → Review → Answers SetupAnswers
  succeeding review local_review = record {
    new_unmanaged = some ctrl;
    new_cache = some cache;
    cache_synced = true;
    new_client = some client;
    new_delegating_client = some client;
    injects = true;
    elected = true;
    manager_synced = true;
    ticks = false;
    reconciler_answers = granted review local_review;
  }

  module _ (l : Library) (rule : ResourceSyncRuleSpec) (name rule_uid cluster_id : String)
      (manager : Manager) (mgr : RuntimeManager) (review local_review : Review) where
    abbrev pub first_setup : SyncSetup
    first_setup = new_sync_setup l name rule rule_uid cluster_id manager

    abbrev pub three_turns : System SyncSetup
    three_turns =
        let a = succeeding review local_review in
        run_turns (sync_reconciler l) (a ∷ a ∷ a ∷ [])
          (start_controller (sync_reconciler l) mgr false (new_system first_setup))

    -- A new sync controller is started, the checks of access succeed, and so does every call to
    -- controller-runtime. Then it runs after three turns of its goroutine: its reconciler knows the
    -- manager, the ID of the local cluster and its client, and has watches on the kind of the rule,
    -- on the source of its queue and on the kind of the copies, in this order, and its local cache
    -- runs in the context of this run.
    pub fresh_controller_runs :
        pre_check l.plural first_setup.sync review (some local_review) ≡ none
        → let s = three_turns in
          (s.goroutines ≡ running ∷ [])
          × (s.panicked ≡ false)
          × (s.reconciler.watches
              ≡ (ctrl, of_kind (init_object_from_gvk l rule.gvk))
                ∷ (ctrl, in_memory)
                ∷ (ctrl, of_informer (local_kind l rule))
                ∷ [])
          × (s.reconciler.local_caches ≡ (local_cache, some 0) ∷ [])
          × (s.ctrl_context ≡ some 0)
          × (s.reconciler.base.mgr ≡ some mgr)
          × (s.reconciler.base.client ≡ some client)
          × (s.reconciler.local_client ≡ some local_client)
          × (s.reconciler.sync.local_cluster_id ≡ id)
    unfolding run_turns start_controller new_system new_sync_setup new_sync_reconciler
        new_managed_reconciler turn check start_parts new_unmanaged create_and_start_cache
        create_client use_client inject set_up leave_running sync_reconciler setup_with_controller
        set_up_base base_setup_with_controller set_context set_manager set_scheme set_client
        start_local_cache create_local_client use_local_client watch_kind watch_memory keep_ctrl
        start_sync set_local_cluster_id watch_local init_local_informer get
    fresh_controller_runs h = rw h (refl, refl, refl, refl, refl, refl, refl, refl, refl)
