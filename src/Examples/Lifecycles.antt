-- ===== src/Examples/Lifecycles.antt =====
-- Controllers that are started, stopped and started again.
use cluster_registry_control.Common.{
  ℕ, arith, ◌≤◌, ◌≡◌, refl, true, false, none, some, [], ◌∷◌, length, get, put, nat_beq,
}
use cluster_registry_control.Examples.Samples.{simple, secret_kind, secrets_spec, fresh}
use cluster_registry_control.Clusters.Reconciler.{
  RuntimeManager, ManagedReconcilerBase, base_reconciler, new_managed_reconciler,
  base_setup_with_controller, set_context, set_manager, set_scheme, set_client,
}
use cluster_registry_control.Clusters.Manager.{Manager}
use cluster_registry_control.Clusters.Lifecycle.{
  waiting, cancel, Goroutine, checking, retrying, electing, syncing, running, System, Answers,
  new_system, start_controller, stop_controller, check, start_parts, new_unmanaged,
  create_and_start_cache, create_client, use_client, inject, set_up, leave_running, turn,
  with_cache, inject_func,
}
use cluster_registry_control.Clusters.Lifecycle.Steps.{
  stops, Reach, here, next, starts, parent_ends, acts, Always, Never,
}
use cluster_registry_control.Clusters.Lifecycle.Calm.{calm_controllers_do_not_panic}
use cluster_registry_control.Clusters.Controller.{set_running, Running, ManagedController}
use cluster_registry_control.Clusters.Lifecycle.Abstract.{
  is_running, called_stop, flags_after, steps_refine_flag,
}
use cluster_registry_control.Clusters.Lifecycle.Ends.{run_turns, runner_ends}
use cluster_registry_control.Clusters.Lifecycle.Restart.{given_up_for_good}
use cluster_registry_control.Controllers.Sync.Setup.{
  of_kind, in_memory, of_informer, SyncSetup, Library, SetupAnswers, sync_reconciler,
  new_sync_setup, setup_with_controller, set_up_base, start_local_cache, create_local_client,
  use_local_client, watch_kind, watch_memory, keep_ctrl, start_sync, set_local_cluster_id,
  watch_local, local_kind, init_object_from_gvk, init_local_informer,
}
use cluster_registry_control.Controllers.Sync.{new_sync_reconciler}
use cluster_registry_control.Controllers.Sync.PreCheck.{pre_check, check_verbs, write_pre_check}
use cluster_registry_control.Api.Rules.{get_mutated_gvk}
use cluster_registry_control.Controllers.Sync.Setup.Fresh.{three_turns, fresh_controller_runs}
use cluster_registry_control.Controllers.Sync.Setup.Local.{local_watches}
use cluster_registry_control.Controllers.Sync.Setup.Life.{
  new_controller, local_watch_is_not_renewed,
}

abbrev remote : RuntimeManager
remote = record { handle = 7; scheme = 1 }

abbrev all_well : {E : Type 0} → E → Answers E
all_well e = record {
  new_unmanaged = some 20;
  new_cache = some 30;
  cache_synced = true;
  new_client = some 40;
  new_delegating_client = some 41;
  injects = true;
  elected = true;
  manager_synced = true;
  ticks = false;
  reconciler_answers = e;
}

abbrev well : Answers (Unit {0})
well = all_well tt

abbrev not_synced : Answers (Unit {0})
not_synced = record well { cache_synced = false }

abbrev base : ManagedReconcilerBase
base = record {
  name = "demo";
  ctx = none;
  mgr = none;
  recorder = none;
  scheme = none;
  client = none;
}

-- A start, a check that succeeds, and the turns up to the run.
abbrev started : System ManagedReconcilerBase
started = start_controller base_reconciler remote false (new_system base)

took : Answers (Unit {0}) → Goroutine → System ManagedReconcilerBase → System ManagedReconcilerBase
unfolding turn check start_parts new_unmanaged create_and_start_cache create_client use_client
    inject set_up leave_running base_reconciler start_controller new_system
took a g s = turn base_reconciler a g (record s { goroutines = [] })

abbrev checked : System ManagedReconcilerBase
checked = took well checking started

abbrev elected : System ManagedReconcilerBase
elected = took well electing checked

abbrev runs : System ManagedReconcilerBase
runs = took well syncing elected

abbrev tries_again : System ManagedReconcilerBase
tries_again = took not_synced checking started

life_test :
    (checked.goroutines ≡ electing ∷ [])
    × (runs.goroutines ≡ running ∷ [])
    × (runs.ctrl ≡ some 20)
    × (runs.reconciler.client ≡ some 41)
    × (tries_again.goroutines ≡ retrying 0 ∷ [])
    × (tries_again.caches ≡ 30 ∷ [])
unfolding took
life_test = (refl, refl, refl, refl, refl, refl)

-- An object that asks for both gets the cache.
inject_test :
    inject_func runs (record { wants_cache = true; wants_client = true; fails = false })
    ≡ some (with_cache (some 30))
unfolding inject_func took
inject_test = refl

calm_controllers_do_not_panic_example : (runs.panicked ≡ false) × (length runs.goroutines ≤ 1)
unfolding took
calm_controllers_do_not_panic_example =
    calm_controllers_do_not_panic base_reconciler base {s = runs} (
      next
        (next
          (next (next here (starts remote false refl (λ e. refl)))
            (acts {s = started} well [] [] checking refl refl))
          (acts {s = checked} well [] [] electing refl refl))
        (acts {s = elected} well [] [] syncing refl refl))

given_up_for_good_example :
    (t : System ManagedReconcilerBase) × Reach base_reconciler Never Never tries_again t
    × ((u : System ManagedReconcilerBase)
        → Reach base_reconciler Always Never t u
        → u.goroutines ≡ [])
unfolding took
given_up_for_good_example = given_up_for_good base_reconciler well tries_again 0 0 refl refl refl

-- Runs in a context that is done.
abbrev over : System ManagedReconcilerBase
over = record runs { done = λ n. nat_beq n 0 }

-- Typed objects of the scheme carry no kind, as those of a new object do.
abbrev library : Library
library = record {
  machinery = simple;
  plural = λ kind. kind;
  kind_text = λ g. g.kind;
  typed = λ g. none;
}

abbrev granted : SetupAnswers
granted = record {
  review = λ attributes. some true;
  local_review = some (λ attributes. some true);
  new_cache = some 31;
  cache_synced = true;
  new_client = some 42;
  new_delegating_client = some 43;
  watches_kind = true;
  watches_memory = true;
  cluster_id = some "u0";
  informs = true;
  watches_informer = true;
}

abbrev no_clusters : Manager
no_clusters = record {
  clusters = [];
  on_before_add_funcs = [];
  on_before_delete_funcs = [];
  on_after_add_funcs = [];
  on_after_delete_funcs = [];
  heap = λ h. fresh;
  calls = [];
}

abbrev new_syncer : System SyncSetup
new_syncer = new_controller library secrets_spec "secrets" "r" "u2" no_clusters

synced_by : ℕ → Goroutine → System SyncSetup → System SyncSetup
unfolding turn check start_parts new_unmanaged create_and_start_cache create_client use_client
    inject set_up leave_running start_controller new_system sync_reconciler new_sync_setup
    setup_with_controller set_up_base base_setup_with_controller set_context set_manager set_scheme
    set_client start_local_cache create_local_client use_local_client watch_kind watch_memory
    keep_ctrl start_sync set_local_cluster_id watch_local local_kind init_object_from_gvk
    init_local_informer pre_check check_verbs write_pre_check get_mutated_gvk new_sync_reconciler
    new_managed_reconciler
synced_by ctrl g s =
    turn (sync_reconciler library) (record (all_well granted) { new_unmanaged = some ctrl }) g
      (record s { goroutines = [] })

-- The first run has the controller 20.
abbrev synced : Goroutine → System SyncSetup → System SyncSetup
synced = synced_by 20

abbrev syncer_runs : System SyncSetup
syncer_runs = synced syncing (
    synced electing
      (synced checking (start_controller (sync_reconciler library) remote false new_syncer)))

syncer_test : local_watches syncer_runs.reconciler ≡ (20, of_informer secret_kind) ∷ []
unfolding synced_by get put
syncer_test = refl

abbrev answered : Answers SetupAnswers
answered = all_well granted

abbrev syncer_started : System SyncSetup
syncer_started = start_controller (sync_reconciler library) remote false new_syncer

syncer_reach :
    Reach
      (sync_reconciler library)
      Always
      Always
      (new_controller library secrets_spec "secrets" "r" "u2" no_clusters)
      syncer_runs
unfolding synced_by
syncer_reach =
    next
      (next
        (next (next here (starts remote false refl tt))
          (acts {s = syncer_started} answered [] [] checking refl refl))
        (acts {s = synced checking syncer_started} answered [] [] electing refl refl))
      (acts {s = synced electing (synced checking syncer_started)} answered [] [] syncing refl refl)

-- The context ends, the run cleans up, and the controller is started and runs again, as 21.
abbrev again : Answers SetupAnswers
again = record answered { new_unmanaged = some 21 }

abbrev lost : System SyncSetup
lost = record syncer_runs { done = cancel 0 syncer_runs.done }

abbrev returned : System SyncSetup
returned = synced_by 21 running lost

abbrev cleaned : System SyncSetup
cleaned = synced_by 21 (waiting 0) returned

abbrev restarted : System SyncSetup
restarted = start_controller (sync_reconciler library) remote false cleaned

abbrev rechecked : System SyncSetup
rechecked = synced_by 21 checking restarted

abbrev reelected : System SyncSetup
reelected = synced_by 21 electing rechecked

abbrev runs_again : System SyncSetup
runs_again = synced_by 21 syncing reelected

restart_test : (runs_again.reconciler.ctrl ≡ some 21) × (runs_again.goroutines ≡ running ∷ [])
unfolding synced_by get put
restart_test = (refl, refl)

restart_reach : Reach (sync_reconciler library) Always Always syncer_runs runs_again
unfolding synced_by get put
restart_reach =
    next
      (next
        (next
          (next
            (next
              (next (next here (parent_ends 0 refl))
                (acts {s = lost} again [] [] running refl refl))
              (acts {s = returned} again [] [] (waiting 0) refl refl))
            (starts {s = cleaned} remote false refl tt))
          (acts {s = restarted} again [] [] checking refl refl))
        (acts {s = rechecked} again [] [] electing refl refl))
      (acts {s = reelected} again [] [] syncing refl refl)

-- The only local watch is that of the controller 20.
local_watch_is_not_renewed_example :
    local_watches runs_again.reconciler ≡ (20, of_informer secret_kind) ∷ []
local_watch_is_not_renewed_example =
    local_watch_is_not_renewed library secrets_spec "secrets" "r" "u2" no_clusters {s = syncer_runs}
      syncer_reach (20, of_informer secret_kind) syncer_test restart_reach

abbrev not_elected : Answers (Unit {0})
not_elected = record well { elected = false }

runner_ends_example :
    ((run_turns base_reconciler (well ∷ not_synced ∷ []) over).goroutines ≡ [])
    × ((run_turns base_reconciler
          (not_elected ∷ not_elected ∷ [])
          (record over { goroutines = electing ∷ [] })).goroutines
        ≡ electing ∷ [])
unfolding took
runner_ends_example =
    runner_ends base_reconciler (well ∷ not_synced ∷ []) (not_elected ∷ not_elected ∷ []) 0 running
      over refl refl refl tt (refl, (refl, tt)) (omega arith) (refl, (refl, tt))

abbrev demo : ManagedController
demo = record { handle = 3; name = "demo"; required_cluster_features = [] }

abbrev demo_runs : Running
demo_runs = set_running 3 true (λ h. false)

steps_refine_flag_example :
    flags_after called_stop demo demo_runs 3 ≡ is_running (stop_controller started)
unfolding took
steps_refine_flag_example =
    steps_refine_flag base_reconciler demo demo_runs (stops {s = started} refl tt) refl

abbrev first_three : System SyncSetup
first_three =
    three_turns 20 30 41 31 43 "u0" library secrets_spec "secrets" "r" "u2" no_clusters remote
      (λ attributes. some true) (λ attributes. some true)

fresh_controller_runs_example :
    (first_three.goroutines ≡ running ∷ [])
    × (first_three.panicked ≡ false)
    × (first_three.reconciler.watches
        ≡ (20, of_kind (init_object_from_gvk library secrets_spec.gvk))
          ∷ (20, in_memory)
          ∷ (20, of_informer (local_kind library secrets_spec))
          ∷ [])
    × (first_three.reconciler.local_caches ≡ (31, some 0) ∷ [])
    × (first_three.ctrl_context ≡ some 0)
    × (first_three.reconciler.base.mgr ≡ some remote)
    × (first_three.reconciler.base.client ≡ some 41)
    × (first_three.reconciler.local_client ≡ some 43)
    × (first_three.reconciler.sync.local_cluster_id ≡ "u0")
unfolding pre_check check_verbs write_pre_check
fresh_controller_runs_example =
    fresh_controller_runs 20 30 41 31 43 "u0" library secrets_spec "secrets" "r" "u2" no_clusters
      remote (λ attributes. some true) (λ attributes. some true) refl
