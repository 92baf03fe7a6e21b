-- ===== src/Clusters/Lifecycle/Calm.antt =====
-- A controller that is started again only after its goroutine has ended.
use cluster_registry_control.Common.{
  ℕ, ◌≤◌, ◌≡◌, refl, ap, ◌∙◌, inl, inr, Bool, true, false, not, ◌||◌, List, [], ◌∷◌, ◌++◌, arith,
  length, is_some, Bool-cases, Option-cases,
}
use cluster_registry_control.Clusters.Reconciler.{RuntimeManager, ManagedReconciler}
use cluster_registry_control.Clusters.Lifecycle.{
  Goroutine, checking, retrying, electing, syncing, running, waiting, System, Answers, block,
  new_system, stop_controller, start_controller, check, try_check, run, clean_up, turn,
}
use cluster_registry_control.Clusters.Lifecycle.Parts.{check-Checked}
use cluster_registry_control.Clusters.Lifecycle.Steps.{
  Step, starts, stops, parent_ends, acts, Reach, here, next, NoneLeft, Always,
  start_controller_again, stop_controller_again,
}

-- What a goroutine needs of the controller, so that it does not panic.
abbrev Fits : {R : Type 0} → Goroutine → System R → Type 0
Fits checking s = is_some s.ctrl_context ≡ true
Fits (retrying n) s = is_some s.ctrl_context ≡ true
Fits electing s = (is_some s.ctrl_context ≡ true) × (is_some s.ctrl ≡ true)
Fits syncing s = (is_some s.ctrl_context ≡ true) × (is_some s.ctrl ≡ true)
Fits running s = (is_some s.ctrl_context ≡ true) × (is_some s.ctrl ≡ true)
Fits (waiting n) s = is_some s.ctrl_context ≡ true

-- There is at most one goroutine, and it has what it needs.
abbrev OneFits : {R : Type 0} → List Goroutine → System R → Type 0
OneFits [] s = Unit
OneFits (g ∷ []) s = Fits g s
OneFits (g ∷ h ∷ rest) s = ⊥

record IsCalm {R : Type 0} (s : System R) : Type 0 where
  calm : s.panicked ≡ false
  one : OneFits s.goroutines s

-- A list with one element, seen from a place in it.
alone :
    {R : Type 0} (s : System R) (gs before after : List Goroutine) (g : Goroutine)
    → gs ≡ before ++ g ∷ after
    → OneFits gs s
    → (before ≡ []) × (after ≡ []) × Fits g s
alone s gs [] [] g e h = (refl, refl, rw e at h)
alone s gs [] (k ∷ ks) g e h = absurd (rw e at h)
alone s gs (b ∷ []) after g e h = absurd (rw e at h)
alone s gs (b ∷ c ∷ bs) after g e h = absurd (rw e at h)

-- What a goroutine needs lies in two fields.
Fits-same :
    {R : Type 0} (g : Goroutine) (s t : System R)
    → t.ctrl_context ≡ s.ctrl_context
    → t.ctrl ≡ s.ctrl
    → Fits g s
    → Fits g t
Fits-same checking s t e f h = rw e h
Fits-same (retrying n) s t e f h = rw e h
Fits-same electing s t e f h = (rw e h.0, rw f h.1)
Fits-same syncing s t e f h = (rw e h.0, rw f h.1)
Fits-same running s t e f h = (rw e h.0, rw f h.1)
Fits-same (waiting n) s t e f h = rw e h

OneFits-same :
    {R : Type 0} (gs : List Goroutine) (s t : System R)
    → t.ctrl_context ≡ s.ctrl_context
    → t.ctrl ≡ s.ctrl
    → OneFits gs s
    → OneFits gs t
OneFits-same [] s t e f h = tt
OneFits-same (g ∷ []) s t e f h = Fits-same g s t e f h
OneFits-same (g ∷ k ∷ gs) s t e f h = absurd h

block-IsCalm :
    {R : Type 0} (at : ℕ → Goroutine) (s : System R)
    → ((n : ℕ) (t : System R) → is_some t.ctrl_context ≡ true → Fits (at n) t)
    → s.panicked ≡ false
    → s.goroutines ≡ []
    → is_some s.ctrl_context ≡ true
    → IsCalm (block at s)
block-IsCalm at s fits p e c = elim (Option-cases s.ctrl_context) [
  | inl n ↦ absurd (ground arith)
  | inr (n, some_n) ↦ rw some_n (record { calm = p; one = rw e (fits n _ refl) })
]

module _ {R E : Type 0} (ops : ManagedReconciler R E) (a : Answers E) where
  try_check-IsCalm :
      (s : System R)
      → s.panicked ≡ false
      → s.goroutines ≡ []
      → is_some s.ctrl_context ≡ true
      → IsCalm (try_check ops a s)
  unfolding try_check
  try_check-IsCalm s p e c =
      let k = check-Checked ops a s in
      elim (Bool-cases (check ops a s).1) [
        | inl d ↦
            let gs : (check ops a s).0.goroutines ≡ electing ∷ [] = k.spawned ∙ rw (d, e) in
            rw d (record {
              calm = k.same_panicked ∙ p;
              one = rw gs (ap is_some k.same_context ∙ c, k.has_ctrl d);
            })
        | inr d ↦ rw d (
            block-IsCalm retrying (check ops a s).0 (λ n t h. h) (k.same_panicked ∙ p)
              (k.spawned ∙ rw (d, e)) (ap is_some k.same_context ∙ c))
      ]

  run-IsCalm :
      (s : System R)
      → s.panicked ≡ false
      → s.goroutines ≡ []
      → Fits syncing s
      → IsCalm (run ops a s)
  unfolding run
  run-IsCalm s p e f = elim (Bool-cases a.manager_synced) [
    | inl m ↦
        let (r, done) = ops.start_reconciler a.reconciler_answers s.ctrl_context s.reconciler in
        elim (Bool-cases done) [
          | inl d ↦ elim (Option-cases s.ctrl) [
            | inl n ↦ absurd (ground arith)
            | inr (k, n) ↦ rw (m, d, n) (record { calm = p; one = rw e f })
          ]
          | inr d ↦ rw (m, d) (record { calm = p; one = rw e tt })
        ]
    | inr m ↦ rw m (record { calm = p; one = rw e tt })
  ]

  turn-IsCalm :
      (g : Goroutine) (s : System R)
      → s.panicked ≡ false
      → s.goroutines ≡ []
      → Fits g s
      → IsCalm (turn ops a g s)
  unfolding turn clean_up
  turn-IsCalm checking s p e f = try_check-IsCalm s p e f
  turn-IsCalm (retrying n) s p e f = elim (Bool-cases (a.ticks || not (s.done n))) [
    | inl t ↦ rw t (try_check-IsCalm s p e f)
    | inr t ↦ rw t (record { calm = p; one = rw e tt })
  ]
  turn-IsCalm electing s p e f = elim (Bool-cases a.elected) [
    | inl d ↦ rw d (record { calm = p; one = rw e f })
    | inr d ↦ rw d (record { calm = p; one = rw e f })
  ]
  turn-IsCalm syncing s p e f = run-IsCalm s p e f
  turn-IsCalm running s p e f = block-IsCalm waiting s (λ n t h. h) p e f.0
  turn-IsCalm (waiting n) s p e f = elim (Bool-cases (s.done n)) [
    | inl d ↦ rw d (record { calm = p; one = rw e tt })
    | inr d ↦ rw d (record { calm = p; one = rw e f })
  ]

module _ {R E : Type 0} (ops : ManagedReconciler R E) where
  start_controller-IsCalm :
      (mgr : RuntimeManager) (parent_done : Bool) (s : System R)
      → NoneLeft s
      → IsCalm s
      → IsCalm (start_controller ops mgr parent_done s)
  unfolding start_controller
  start_controller-IsCalm mgr parent_done s none_left c =
      elim (Option-cases s.ctrl_context_cancel) [
        | inl n ↦ rw n (record { calm = c.calm; one = rw (none_left n) refl })
        | inr (k, n) ↦ rw (start_controller_again ops mgr parent_done s k n) c
      ]

  stop_controller-IsCalm : (s : System R) → IsCalm s → IsCalm (stop_controller s)
  unfolding stop_controller
  stop_controller-IsCalm s c = elim (Option-cases s.ctrl_context_cancel) [
    | inl n ↦ rw (stop_controller_again s n) c
    | inr (k, n) ↦
        rw n (record { calm = c.calm; one = OneFits-same s.goroutines s _ refl refl c.one })
  ]

  Step-IsCalm : {s t : System R} → Step ops NoneLeft Always s t → IsCalm s → IsCalm t
  Step-IsCalm (starts {s} mgr parent_done p may) c = start_controller-IsCalm mgr parent_done s may c
  Step-IsCalm (stops {s} p may) c = stop_controller-IsCalm s c
  Step-IsCalm (parent_ends {s} n p) c = record {
    calm = c.calm;
    one = OneFits-same s.goroutines s _ refl refl c.one;
  }
  Step-IsCalm (acts {s} a before after g p e) c =
      let (b, f, fits) = alone s s.goroutines before after g e c.one in
      let s' : System R = record s { goroutines = before ++ after } in
      turn-IsCalm ops a g s' p (rw (b, f)) (Fits-same g s s' refl refl fits)

  Reach-IsCalm : {s t : System R} → IsCalm s → Reach ops NoneLeft Always s t → IsCalm t
  Reach-IsCalm c here = c
  Reach-IsCalm c (next r st) = Step-IsCalm st (Reach-IsCalm c r)

  new_system-IsCalm : (r : R) → IsCalm (new_system r)
  unfolding new_system
  new_system-IsCalm r = record { calm = refl; one = tt }

  OneFits-length : (gs : List Goroutine) (s : System R) → OneFits gs s → length gs ≤ 1
  OneFits-length [] s h = omega arith
  OneFits-length (g ∷ []) s h = omega arith
  OneFits-length (g ∷ k ∷ gs) s h = absurd h

  -- A controller that is started again only once its goroutine has ended, and otherwise called,
  -- scheduled and answered in any way, never reads a nil context or runs a nil controller: no
  -- sequence of steps panics, and there is at most one goroutine at a time.
  pub calm_controllers_do_not_panic :
      (r : R) {s : System R}
      → Reach ops NoneLeft Always (new_system r) s
      → (s.panicked ≡ false) × (length s.goroutines ≤ 1)
  calm_controllers_do_not_panic r {s} reach =
      let c = Reach-IsCalm (new_system-IsCalm r) reach in
      (c.calm, OneFits-length s.goroutines s c.one)
