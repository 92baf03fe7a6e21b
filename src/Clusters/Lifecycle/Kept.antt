-- ===== src/Clusters/Lifecycle/Kept.antt =====
-- What every method of a reconciler keeps is kept by the controller that calls them.
use cluster_registry_control.Common.{
  ℕ, ◌≡◌, inl, inr, Bool, not, ◌||◌, Option, ◌++◌, arith, Bool-cases, Option-cases,
}
use cluster_registry_control.Common.Parts.{◌>>◌, >>-keeps}
use cluster_registry_control.Clusters.Reconciler.{RuntimeManager, ManagedReconciler}
use cluster_registry_control.Clusters.Lifecycle.{
  Goroutine, checking, retrying, electing, syncing, running, waiting, System, Answers, block,
  stop_controller, start_controller, new_unmanaged, create_and_start_cache, use_client, inject,
  set_up, leave_running, start_parts, check, try_check, run, clean_up, turn,
}
use cluster_registry_control.Clusters.Lifecycle.Steps.{
  Step, starts, stops, parent_ends, acts, Reach, here, next,
}

module _ {R E : Type 0} (ops : ManagedReconciler R E) (P : R → Type 0) where
  -- Every method keeps the predicate.
  pub record IsKept : Type 0 where
    pub by_set_manager : (mgr : RuntimeManager) (r : R) → P r → P (ops.set_manager mgr r)
    pub by_set_client : (client : ℕ) (r : R) → P r → P (ops.set_client client r)
    pub by_set_up :
        (e : E) (ctx : Option ℕ) (ctrl : ℕ) (r : R)
        → P r
        → P (ops.setup_with_controller e ctx ctrl r).0
    pub by_start : (e : E) (ctx : Option ℕ) (r : R) → P r → P (ops.start_reconciler e ctx r).0
    pub by_cleanup : (r : R) → P r → P (ops.do_cleanup r)

  abbrev Holds : System R → Type 0
  Holds s = P s.reconciler

  module _ (k : IsKept) (a : Answers E) where
    inject-Holds : (s : System R) → Holds s → Holds (inject ops a s).0
    unfolding inject
    inject-Holds s h = elim (Bool-cases a.injects) [
      | inl e ↦ elim (Option-cases s.client) [
        | inl n ↦ rw (e, n) h
        | inr (c, n) ↦ rw (e, n) (k.by_set_client c s.reconciler h)
      ]
      | inr e ↦ rw e h
    ]

    set_up-Holds : (s : System R) → Holds s → Holds (set_up ops a s).0
    unfolding set_up
    set_up-Holds s h = elim (Option-cases s.ctrl) [
      | inl n ↦ rw n h
      | inr (c, n) ↦ rw n (k.by_set_up a.reconciler_answers s.ctrl_context c s.reconciler h)
    ]

    new_unmanaged-Holds : (s : System R) → Holds s → Holds (new_unmanaged ops a s).0
    unfolding new_unmanaged
    new_unmanaged-Holds s h = h

    leave_running-Holds : (s : System R) → Holds s → Holds (leave_running ops a s).0
    unfolding leave_running
    leave_running-Holds s h = h

    create_and_start_cache-same :
        (s : System R) → (create_and_start_cache ops a s).0.reconciler ≡ s.reconciler
    unfolding create_and_start_cache
    create_and_start_cache-same s = ground arith

    use_client-same : (s : System R) → (use_client ops a s).0.reconciler ≡ s.reconciler
    unfolding use_client
    use_client-same s = ground arith

    start_parts-Holds : (s : System R) → Holds s → Holds (start_parts ops a s).0
    unfolding start_parts
    start_parts-Holds s h =
        >>-keeps Holds
          (new_unmanaged ops a
            >> create_and_start_cache ops a
            >> use_client ops a
            >> inject ops a
            >> set_up ops a)
          (leave_running ops a) s
          (>>-keeps Holds
            (new_unmanaged ops a
              >> create_and_start_cache ops a
              >> use_client ops a
              >> inject ops a)
            (set_up ops a) s
            (>>-keeps Holds
              (new_unmanaged ops a >> create_and_start_cache ops a >> use_client ops a)
              (inject ops a) s
              (>>-keeps Holds (new_unmanaged ops a >> create_and_start_cache ops a)
                (use_client ops a) s
                (>>-keeps Holds (new_unmanaged ops a) (create_and_start_cache ops a) s
                  (new_unmanaged-Holds s h) (λ t g. rw (create_and_start_cache-same t) g))
                (λ t g. rw (use_client-same t) g))
              inject-Holds)
            set_up-Holds)
          leave_running-Holds

    block-same : (at : ℕ → Goroutine) (s : System R) → (block at s).reconciler ≡ s.reconciler
    block-same at s = ground arith

    try_check-Holds : (s : System R) → Holds s → Holds (try_check ops a s)
    unfolding try_check check
    try_check-Holds s h =
        elim (Bool-cases (ops.pre_check a.reconciler_answers s.ctrl_context s.reconciler)) [
          | inl e ↦ elim (Bool-cases (start_parts ops a s).1) [
            | inl d ↦ rw (e, d) (start_parts-Holds s h)
            | inr d ↦
                rw (e, d) (rw (block-same retrying (start_parts ops a s).0) (start_parts-Holds s h))
          ]
          | inr e ↦ rw e (rw (block-same retrying s) h)
        ]

    run-Holds : (s : System R) → Holds s → Holds (run ops a s)
    unfolding run
    run-Holds s h =
        let kept = k.by_start a.reconciler_answers s.ctrl_context s.reconciler h in
        let done = (ops.start_reconciler a.reconciler_answers s.ctrl_context s.reconciler).1 in
        elim (Bool-cases a.manager_synced) [
          | inl m ↦ elim (Bool-cases done) [
            | inl d ↦ elim (Option-cases s.ctrl) [
              | inl n ↦ rw (m, d, n) kept
              | inr (c, n) ↦ rw (m, d, n) kept
            ]
            | inr d ↦ rw (m, d) kept
          ]
          | inr m ↦ rw m h
        ]

    turn-Holds : (g : Goroutine) (s : System R) → Holds s → Holds (turn ops a g s)
    unfolding turn clean_up
    turn-Holds checking s h = try_check-Holds s h
    turn-Holds (retrying n) s h = elim (Bool-cases (a.ticks || not (s.done n))) [
      | inl t ↦ rw t (try_check-Holds s h)
      | inr t ↦ rw t h
    ]
    turn-Holds electing s h = elim (Bool-cases a.elected) [ inl d ↦ rw d h | inr d ↦ rw d h ]
    turn-Holds syncing s h = run-Holds s h
    turn-Holds running s h = rw (block-same waiting s) h
    turn-Holds (waiting n) s h = elim (Bool-cases (s.done n)) [
      | inl d ↦ rw d (k.by_cleanup s.reconciler h)
      | inr d ↦ rw d h
    ]

  start_controller-Holds :
      IsKept
      → (mgr : RuntimeManager) (parent_done : Bool) (s : System R) → Holds s
      → Holds (start_controller ops mgr parent_done s)
  unfolding start_controller
  start_controller-Holds k mgr parent_done s h = elim (Option-cases s.ctrl_context_cancel) [
    | inl n ↦ rw n (k.by_set_manager mgr s.reconciler h)
    | inr (c, n) ↦ rw n h
  ]

  stop_controller-same : (s : System R) → (stop_controller s).reconciler ≡ s.reconciler
  unfolding stop_controller
  stop_controller-same s = ground arith

  module _ {may_start may_stop : System R → Type 0} (k : IsKept) where
    Step-Holds : {s t : System R} → Step ops may_start may_stop s t → Holds s → Holds t
    Step-Holds (starts {s} mgr parent_done p may) h = start_controller-Holds k mgr parent_done s h
    Step-Holds (stops {s} p may) h = rw (stop_controller-same s) h
    Step-Holds (parent_ends n p) h = h
    Step-Holds (acts {s} a before after g p e) h =
        turn-Holds k a g (record s { goroutines = before ++ after }) h

    -- What every method of the reconciler keeps holds after any steps of its controller.
    pub Reach-Holds : {s t : System R} → Reach ops may_start may_stop s t → Holds s → Holds t
    Reach-Holds here h = h
    Reach-Holds (next r st) h = Step-Holds st (Reach-Holds r h)
