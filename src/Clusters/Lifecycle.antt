-- ===== src/Clusters/Lifecycle.antt =====
-- pkg/clusters/managed_controller.go: the life of a controller with the goroutines that `Start` and
-- `start` leave behind. A turn of a goroutine goes from one call that blocks to the next. Clusters.
-- Controller has what a cluster sees of this.
pub mod Parts
pub mod Steps
pub mod Calm
pub mod Kept
pub mod Ends
pub mod Abstract
pub mod Restart
use cluster_registry_control.Common.{
  ℕ, ◌+◌, Bool, true, false, not, ◌||◌, Option, none, some, List, [], ◌∷◌, ◌++◌, is_some, nat_beq,
  if◌then◌else◌,
}
use cluster_registry_control.Common.Parts.{Part, ◌>>◌}
use cluster_registry_control.Clusters.Reconciler.{RuntimeManager, ManagedReconciler}

-- Where a goroutine stands. The channel of a context is read when the call that blocks on it begins,
-- so the context is kept: `c.ctrlContext` may be another one by the time that the call ends.
pub data Goroutine : Type 0 where
  checking : Goroutine  -- before the first check
  retrying : ℕ → Goroutine  -- at the select, with the channel of this context
  electing : Goroutine  -- at `<-c.mgr.Elected()`
  syncing : Goroutine  -- at `WaitForCacheSync`
  running : Goroutine  -- in `c.ctrl.Start`
  waiting : ℕ → Goroutine  -- at `<-c.ctrlContext.Done()`, with the channel of this context

-- The controller, its reconciler and its goroutines. Contexts are numbered as they are made, and a
-- context is done once it or its parent is cancelled.
pub record System (R : Type 0) : Type 0 where
  pub ctrl_context : Option ℕ
  pub ctrl_context_cancel : Option ℕ
  pub mgr : Option RuntimeManager
  pub ctrl : Option ℕ
  pub cache : Option ℕ
  pub client : Option ℕ
  pub reconciler : R
  pub contexts : ℕ
  pub done : ℕ → Bool
  pub caches : List ℕ  -- the caches that were started, in order
  pub goroutines : List Goroutine
  pub panicked : Bool

-- What controller-runtime and the API servers answer in one turn: `none` for an error.
pub record Answers (E : Type 0) : Type 0 where
  pub new_unmanaged : Option ℕ
  pub new_cache : Option ℕ
  pub cache_synced : Bool
  pub new_client : Option ℕ
  pub new_delegating_client : Option ℕ
  pub injects : Bool
  pub elected : Bool  -- the channel `Elected()` of the manager is closed
  pub manager_synced : Bool
  pub ticks : Bool  -- the select takes the ticker although the context is done
  pub reconciler_answers : E

-- `NewManagedController`; the options only add requirements, see Clusters.Controller.
unfoldable pub new_system : {R : Type 0} → R → System R
new_system r = record {
  ctrl_context = none;
  ctrl_context_cancel = none;
  mgr = none;
  ctrl = none;
  cache = none;
  client = none;
  reconciler = r;
  contexts = 0;
  done = λ n. false;
  caches = [];
  goroutines = [];
  panicked = false;
}

abbrev pub cancel : ℕ → (ℕ → Bool) → ℕ → Bool
cancel n done j = if nat_beq n j then true else done j

module _ {R : Type 0} where
  abbrev pub go : Goroutine → System R → System R
  go g s = record s { goroutines = s.goroutines ++ g ∷ [] }

  -- `Stop`.
  unfoldable pub stop_controller : System R → System R
  stop_controller s = elim s.ctrl_context_cancel [
    | none ↦ s
    | some n ↦ record s { ctrl_context_cancel = none; done = cancel n s.done }
  ]

  -- The evaluation of `c.ctrlContext.Done()`: a nil context is a panic.
  abbrev pub block : (ℕ → Goroutine) → System R → System R
  block at s = elim s.ctrl_context [ none ↦ record s { panicked = true } | some n ↦ go (at n) s ]

module _ {R E : Type 0} (ops : ManagedReconciler R E) where
  -- `Start`, with the manager and whether the parent of the new context is done: the error is
  -- always nil.
  unfoldable pub start_controller : RuntimeManager → Bool → System R → System R
  start_controller mgr parent_done s = elim s.ctrl_context_cancel [
    | some n ↦ s
    | none ↦
        let n = s.contexts in
        go checking (record s {
          ctrl_context = some n;
          ctrl_context_cancel = some n;
          mgr = some mgr;
          contexts = n + 1;
          done = if parent_done then cancel n s.done else s.done;
          reconciler = ops.set_manager mgr s.reconciler;
        })
  ]

  module _ (a : Answers E) where
    unfoldable pub new_unmanaged : Part (System R)
    new_unmanaged s = (record s { ctrl = a.new_unmanaged }, is_some a.new_unmanaged)

    -- A cache that was started stays, also when it does not synchronize.
    unfoldable pub create_and_start_cache : Part (System R)
    create_and_start_cache s = elim s.ctrl_context [
      | none ↦ (s, false)
      | some ctx ↦ elim a.new_cache [
        | none ↦ (s, false)
        | some cche ↦
            let s' = record s { caches = s.caches ++ cche ∷ [] } in
            if a.cache_synced then (record s' { cache = some cche }, true) else (s', false)
      ]
    ]

    unfoldable pub create_client : Option ℕ
    create_client = elim a.new_client [ none ↦ none | some cli ↦ a.new_delegating_client ]

    unfoldable pub use_client : Part (System R)
    unfolding create_client
    use_client s = elim create_client [
      | none ↦ (s, false)
      | some cli ↦ (record s { client = some cli }, true)
    ]

    -- `InjectFunc`, and the client for the reconciler.
    unfoldable pub inject : Part (System R)
    inject s =
        if a.injects
        then (
          elim s.client [
            | none ↦ s
            | some cli ↦ record s { reconciler = ops.set_client cli s.reconciler }
          ],
          true,
        )
        else (s, false)

    unfoldable pub set_up : Part (System R)
    set_up s = elim s.ctrl [
      | none ↦ (s, false)
      | some ctrl ↦
          let (r, done) =
            ops.setup_with_controller a.reconciler_answers s.ctrl_context ctrl s.reconciler in
          (record s { reconciler = r }, done)
    ]

    unfoldable pub leave_running : Part (System R)
    leave_running s = (go electing s, true)

    -- `start`: the parts up to the goroutine that it leaves behind.
    unfoldable pub start_parts : Part (System R)
    start_parts =
        new_unmanaged >> create_and_start_cache >> use_client >> inject >> set_up >> leave_running

    -- The closure `check` of `Start`.
    unfoldable pub check : Part (System R)
    check s =
        if ops.pre_check a.reconciler_answers s.ctrl_context s.reconciler
        then start_parts s
        else (s, false)

    -- A check, and the select after one that fails.
    unfoldable pub try_check : System R → System R
    try_check s = let (s', done) = check s in if done then s' else block retrying s'

    -- From the cache of the manager to `c.ctrl.Start`.
    unfoldable pub run : System R → System R
    run s =
        if a.manager_synced
        then (let (r, done) =
              ops.start_reconciler a.reconciler_answers s.ctrl_context s.reconciler in
            let s' = record s { reconciler = r } in
            if done
            then elim s'.ctrl [ none ↦ record s' { panicked = true } | some ctrl ↦ go running s' ]
            else s')
        else s

    unfoldable pub clean_up : System R → System R
    clean_up s = record s {
      reconciler = ops.do_cleanup s.reconciler;
      ctrl_context_cancel = none;
      ctrl_context = none;
      ctrl = none;
    }

    -- A turn of a goroutine that is taken off the list before: it is put back if it goes on.
    unfoldable pub turn : Goroutine → System R → System R
    unfolding try_check run clean_up
    turn checking s = try_check s
    turn (retrying n) s = if a.ticks || not (s.done n) then try_check s else s
    turn electing s = if a.elected then go syncing s else go electing s
    turn syncing s = run s
    turn running s = block waiting s
    turn (waiting n) s = if s.done n then clean_up s else go (waiting n) s

-- What an object that is injected into asks for, in the order of the tests of `getInjectFunc`.
pub record Injectable : Type 0 where
  pub wants_cache : Bool
  pub wants_client : Bool
  pub fails : Bool

pub data Injected : Type 0 where
  with_cache : Option ℕ → Injected
  with_client : Option ℕ → Injected
  by_manager : Injected

-- `getInjectFunc`: `none` for an error. An object that asks for both gets the cache only.
unfoldable pub inject_func : {R : Type 0} → System R → Injectable → Option Injected
inject_func s i =
    if i.fails
    then none
    else if i.wants_cache
    then some (with_cache s.cache)
    else if i.wants_client
    then some (with_client s.client)
    else some by_manager
