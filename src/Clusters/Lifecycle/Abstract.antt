-- ===== src/Clusters/Lifecycle/Abstract.antt =====
-- What a cluster sees of a controller: whether its cancel function is set. The flag of
-- Clusters.Controller is this view of the whole life of Clusters.Lifecycle.
use cluster_registry_control.Common.{
  ℕ, ◌≡◌, refl, sym, ap, ◌∙◌, inl, inr, Bool, true, false, not, ◌||◌, ◌++◌, arith, is_some,
  if◌then◌else◌, Bool-cases, Option-cases,
}
use cluster_registry_control.Clusters.Reconciler.{RuntimeManager, ManagedReconciler}
use cluster_registry_control.Clusters.Controller.{
  ManagedController, Running, set_running, start, stop,
}
use cluster_registry_control.Clusters.Lifecycle.{
  Goroutine, checking, retrying, electing, syncing, running, waiting, System, Answers, block,
  stop_controller, start_controller, check, try_check, run, clean_up, turn,
}
use cluster_registry_control.Clusters.Lifecycle.Parts.{check-Checked}
use cluster_registry_control.Clusters.Lifecycle.Steps.{
  Step, starts, stops, parent_ends, acts, Always,
}

abbrev pub is_running : {R : Type 0} → System R → Bool
is_running s = is_some s.ctrl_context_cancel

-- What a step is to the flag: one of the two calls, the end of a run, or nothing.
pub data Label : Type 0 where
  called_start called_stop run_ended unseen : Label

-- Only the turn of a goroutine that waits for a context that is done ends a run.
abbrev pub label_of_turn : {R : Type 0} → Goroutine → System R → Label
label_of_turn checking s = unseen
label_of_turn (retrying n) s = unseen
label_of_turn electing s = unseen
label_of_turn syncing s = unseen
label_of_turn running s = unseen
label_of_turn (waiting n) s = if s.done n then run_ended else unseen

-- What the step of a cluster for a label makes of the flags.
abbrev pub flags_after : Label → ManagedController → Running → Running
flags_after called_start c run = (start c run).0
flags_after called_stop c run = stop c run
flags_after run_ended c run = set_running c.handle false run
flags_after unseen c run = run

abbrev pub label :
    {R E : Type 0} {ops : ManagedReconciler R E} {s t : System R}
    → Step ops Always Always s t
    → Label
label (starts mgr parent_done p may) = called_start
label (stops p may) = called_stop
label (parent_ends n p) = unseen
label (acts {s} a before after g p e) = label_of_turn g s

module _ {R E : Type 0} (ops : ManagedReconciler R E) (c : ManagedController) where
  started_flag : (run : Running) → (start c run).0 c.handle ≡ true
  unfolding start
  started_flag run = ground arith

  stopped_flag : (run : Running) → stop c run c.handle ≡ false
  unfolding stop
  stopped_flag run = ground arith

  ended_flag : (run : Running) → set_running c.handle false run c.handle ≡ false
  ended_flag run = ground arith

  is_running-start :
      (mgr : RuntimeManager) (parent_done : Bool) (s : System R)
      → is_running (start_controller ops mgr parent_done s) ≡ true
  unfolding start_controller
  is_running-start mgr parent_done s = ground arith

  is_running-stop : (s : System R) → is_running (stop_controller s) ≡ false
  unfolding stop_controller
  is_running-stop s = ground arith

  block-same : (at : ℕ → Goroutine) (s : System R) → is_running (block at s) ≡ is_running s
  block-same at s = ground arith

  try_check-same : (a : Answers E) (s : System R) → is_running (try_check ops a s) ≡ is_running s
  unfolding try_check
  try_check-same a s =
      let same = ap is_some (check-Checked ops a s).same_cancel in
      elim (Bool-cases (check ops a s).1) [
        | inl d ↦ rw d same
        | inr d ↦ rw d (block-same retrying (check ops a s).0 ∙ same)
      ]

  run-same : (a : Answers E) (s : System R) → is_running (run ops a s) ≡ is_running s
  unfolding run
  run-same a s =
      let started = ops.start_reconciler a.reconciler_answers s.ctrl_context s.reconciler in
      elim (Bool-cases a.manager_synced) [
        | inl m ↦ elim (Bool-cases started.1) [
          | inl d ↦ elim (Option-cases s.ctrl) [ inl n ↦ rw (m, d, n) | inr (k, n) ↦ rw (m, d, n) ]
          | inr d ↦ rw (m, d)
        ]
        | inr m ↦ rw m
      ]

  turn-flag :
      (a : Answers E) (g : Goroutine) (s s' : System R) (flags : Running)
      → flags c.handle ≡ is_running s
      → is_running s' ≡ is_running s
      → s'.done ≡ s.done
      → flags_after (label_of_turn g s) c flags c.handle ≡ is_running (turn ops a g s')
  unfolding turn clean_up
  turn-flag a checking s s' flags h same d = h ∙ sym same ∙ sym (try_check-same a s')
  turn-flag a (retrying n) s s' flags h same d = elim (Bool-cases (a.ticks || not (s'.done n))) [
    | inl t ↦ rw t (h ∙ sym same ∙ sym (try_check-same a s'))
    | inr t ↦ rw t (h ∙ sym same)
  ]
  turn-flag a electing s s' flags h same d = elim (Bool-cases a.elected) [
    | inl w ↦ rw w (h ∙ sym same)
    | inr w ↦ rw w (h ∙ sym same)
  ]
  turn-flag a syncing s s' flags h same d = h ∙ sym same ∙ sym (run-same a s')
  turn-flag a running s s' flags h same d = h ∙ sym same ∙ sym (block-same waiting s')
  turn-flag a (waiting n) s s' flags h same d = elim (Bool-cases (s.done n)) [
    | inl o ↦ rw (d, o) (ended_flag flags)
    | inr o ↦ rw (d, o) (h ∙ sym same)
  ]

  -- The flags of a cluster that say of a controller whether its cancel function is set say so again
  -- after each step of the controller and its goroutines, if the cluster makes the step of the same
  -- label: `Start` for `Start`, `Stop` for `Stop`, the end of a run for the turn of a goroutine that
  -- waits for a context that is done, and none for every other turn and the end of a context.
  pub steps_refine_flag :
      {s t : System R} (flags : Running) (st : Step ops Always Always s t)
      → flags c.handle ≡ is_running s
      → flags_after (label st) c flags c.handle ≡ is_running t
  steps_refine_flag flags (starts {s} mgr parent_done p may) h =
      started_flag flags ∙ sym (is_running-start mgr parent_done s)
  steps_refine_flag flags (stops {s} p may) h = stopped_flag flags ∙ sym (is_running-stop s)
  steps_refine_flag flags (parent_ends n p) h = h
  steps_refine_flag flags (acts {s} a before after g p e) h =
      turn-flag a g s (record s { goroutines = before ++ after }) flags h refl refl
