-- ===== src/Clusters/Lifecycle/Steps.antt =====
-- The steps of a controller: the calls of `Start` and `Stop`, the turns of its goroutines in any
-- order, and the ends of contexts whose parents are cancelled. After a panic there is no step.
use cluster_registry_control.Common.{ℕ, ◌≡◌, Bool, false, none, some, List, [], ◌∷◌, ◌++◌, arith}
use cluster_registry_control.Clusters.Reconciler.{RuntimeManager, ManagedReconciler}
use cluster_registry_control.Clusters.Lifecycle.{
  Goroutine, System, Answers, cancel, stop_controller, start_controller, turn,
}

module _ {R E : Type 0} (ops : ManagedReconciler R E) where
  -- The two predicates say in which states the caller calls `Start` and `Stop`.
  pub data Step (may_start may_stop : System R → Type 0) : System R → System R → Type 0 where
    starts :
        {s : System R} (mgr : RuntimeManager) (parent_done : Bool)
        → s.panicked ≡ false
        → may_start s
        → Step may_start may_stop s (start_controller ops mgr parent_done s)
    stops :
        {s : System R}
        → s.panicked ≡ false
        → may_stop s
        → Step may_start may_stop s (stop_controller s)
    parent_ends :
        {s : System R} (n : ℕ)
        → s.panicked ≡ false
        → Step may_start may_stop s (record s { done = cancel n s.done })
    acts :
        {s : System R} (a : Answers E) (before after : List Goroutine) (g : Goroutine)
        → s.panicked ≡ false
        → s.goroutines ≡ before ++ g ∷ after
        → Step may_start may_stop s (turn ops a g (record s { goroutines = before ++ after }))

  pub data Reach (may_start may_stop : System R → Type 0) (s : System R) : System R → Type 0 where
    here : Reach may_start may_stop s s
    next :
        {t u : System R}
        → Reach may_start may_stop s t
        → Step may_start may_stop t u
        → Reach may_start may_stop s u

-- `Start` and `Stop` at any time.
abbrev pub Always : {R : Type 0} → System R → Type 0
Always s = Unit

-- `Start` either finds a cancel function set, and does nothing, or no goroutine is left.
abbrev pub NoneLeft : {R : Type 0} → System R → Type 0
NoneLeft s = s.ctrl_context_cancel ≡ none → s.goroutines ≡ []

abbrev pub Never : {R : Type 0} → System R → Type 0
Never s = ⊥

pub start_controller_again :
    {R E : Type 0} (ops : ManagedReconciler R E) (mgr : RuntimeManager) (parent_done : Bool)
    (s : System R) (n : ℕ)
    → s.ctrl_context_cancel ≡ some n
    → start_controller ops mgr parent_done s ≡ s
unfolding start_controller
start_controller_again ops mgr parent_done s n e = ground arith

pub stop_controller_again :
    {R : Type 0} (s : System R) → s.ctrl_context_cancel ≡ none → stop_controller s ≡ s
unfolding stop_controller
stop_controller_again s e = ground arith
