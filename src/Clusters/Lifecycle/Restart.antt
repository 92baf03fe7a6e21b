-- ===== src/Clusters/Lifecycle/Restart.antt =====
-- A controller that is started a second time: after its goroutine has ended, before, and after one
-- that ended without cleaning up.
use cluster_registry_control.Common.{
  ℕ, ◌≡◌, refl, Bool, true, false, some, List, [], ◌∷◌, ◌++◌, arith,
}
use cluster_registry_control.Clusters.Reconciler.{RuntimeManager, ManagedReconciler}
use cluster_registry_control.Clusters.Lifecycle.{
  Goroutine, checking, retrying, running, waiting, System, Answers, cancel, start_controller,
  clean_up, turn,
}
use cluster_registry_control.Clusters.Lifecycle.Steps.{
  Step, starts, stops, parent_ends, acts, Reach, here, next, Always, Never, start_controller_again,
}

cancel_self : (n : ℕ) (done : ℕ → Bool) → cancel n done n ≡ true
cancel_self n done = ground arith

module _ {R E : Type 0} (ops : ManagedReconciler R E) where
  -- No goroutine, and a cancel function that stands.
  abbrev IsStuck : System R → Type 0
  IsStuck s = (n : ℕ) × (s.ctrl_context_cancel ≡ some n) × (s.goroutines ≡ [])

  no_place :
      (gs before after : List Goroutine) (g : Goroutine) → gs ≡ [] → gs ≡ before ++ g ∷ after → ⊥
  no_place gs [] after g e h = cc
  no_place gs (b ∷ bs) after g e h = cc

  Step-IsStuck : {s t : System R} → Step ops Always Never s t → IsStuck s → IsStuck t
  Step-IsStuck (starts {s} mgr parent_done p may) (n, e, h) =
      rw (start_controller_again ops mgr parent_done s n e) (n, e, h)
  Step-IsStuck (stops p may) stuck = absurd may
  Step-IsStuck (parent_ends n p) stuck = stuck
  Step-IsStuck (acts {s} a before after g p e) (n, _, h) =
      absurd (no_place s.goroutines before after g h e)

  Reach-IsStuck : {s t : System R} → IsStuck s → Reach ops Always Never s t → IsStuck t
  Reach-IsStuck h here = h
  Reach-IsStuck h (next r st) = Step-IsStuck st (Reach-IsStuck h r)

  -- A controller whose checks have failed so far, and that waits to try again, can reach a state by
  -- the end of its context and one turn from which it never runs again: however often `Start` is
  -- called there, no goroutine is started, as long as `Stop` is not called.
  pub given_up_for_good :
      (a : Answers E) (s : System R) (n c : ℕ)
      → s.panicked ≡ false
      → s.ctrl_context_cancel ≡ some c
      → s.goroutines ≡ retrying n ∷ []
      → (t : System R) × Reach ops Never Never s t
        × ((u : System R) → Reach ops Always Never t u → u.goroutines ≡ [])
  unfolding turn
  given_up_for_good a s n c p e g =
      let quits : Answers E = record a { ticks = false } in
      let s1 : System R = record s { done = cancel n s.done } in
      let t : System R = record s1 { goroutines = [] } in
      let gives_up : turn ops quits (retrying n) (record s1 { goroutines = [] }) ≡ t =
        rw (cancel_self n s.done) in
      let last : Step ops Never Never s1 t =
        rw (← gives_up) (acts {s = s1} quits [] [] (retrying n) p g) in
      (t, next (next here (parent_ends n p)) last, λ u r. (Reach-IsStuck (c, e, refl) r).2)

  -- The turns of a goroutine whose run is over: it waits for the end of the context that the
  -- controller has now, and cleans up once that is done.
  returned : System R → ℕ → System R
  returned s n = record s { goroutines = waiting n ∷ [] }

  returns :
      (a : Answers E) (s : System R) (n : ℕ)
      → s.panicked ≡ false
      → s.ctrl_context ≡ some n
      → s.goroutines ≡ running ∷ []
      → Step ops Never Never s (returned s n)
  unfolding turn returned
  returns a s n p c g =
      let blocks : turn ops a running (record s { goroutines = [] }) ≡ returned s n =
        ground arith in
      rw (← blocks) (acts {s = s} a [] [] running p g)

  -- A run that is over once its context is done ends with a clean-up, after which `Start` begins
  -- with a new context, which is not done, and with the manager that it is given.
  pub ended_run_starts_afresh :
      (a : Answers E) (s : System R) (n : ℕ) (mgr : RuntimeManager)
      → s.panicked ≡ false
      → s.ctrl_context ≡ some n
      → s.done n ≡ true
      → s.done s.contexts ≡ false
      → s.goroutines ≡ running ∷ []
      → (t : System R) × Reach ops Never Never s t
        × (t.goroutines ≡ [])
        × (t.reconciler ≡ ops.do_cleanup s.reconciler)
        × (let u = start_controller ops mgr false t in
            (u.goroutines ≡ checking ∷ [])
            × (u.ctrl_context ≡ some s.contexts)
            × (u.done s.contexts ≡ false)
            × (u.reconciler ≡ ops.set_manager mgr (ops.do_cleanup s.reconciler)))
  unfolding returned turn clean_up start_controller
  ended_run_starts_afresh a s n mgr p c d fresh g =
      let t : System R = clean_up ops a (record s { goroutines = [] }) in
      let cleans : turn ops a (waiting n) (record s { goroutines = [] }) ≡ t = rw d in
      let last : Step ops Never Never (returned s n) t =
        rw (← cleans) (acts {s = returned s n} a [] [] (waiting n) p refl) in
      (t, next (next here (returns a s n p c g)) last, refl, refl, (refl, refl, fresh, refl))
