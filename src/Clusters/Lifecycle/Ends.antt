-- ===== src/Clusters/Lifecycle/Ends.antt =====
-- The end of a goroutine once the context of its controller is done.
use cluster_registry_control.Common.{
  ℕ, suc, ◌≤◌, ◌≡◌, refl, ap, ◌∙◌, ◌⊎◌, inl, inr, true, false, some, List, [], ◌∷◌, arith, length,
  Bool-cases, Option-cases,
}
use cluster_registry_control.Clusters.Reconciler.{ManagedReconciler}
use cluster_registry_control.Clusters.Lifecycle.{
  Goroutine, checking, retrying, electing, syncing, running, waiting, System, Answers, block, run,
  clean_up, turn,
}

-- How many turns a goroutine has at most before it ends, once the context is done.
abbrev pub turns_left : Goroutine → ℕ
turns_left checking = 0
turns_left (retrying n) = 0
turns_left electing = 4
turns_left syncing = 3
turns_left running = 2
turns_left (waiting n) = 1

-- The goroutine of `start`; where it waits, it waits for this context.
abbrev pub IsRunner : ℕ → Goroutine → Type 0
IsRunner n checking = ⊥
IsRunner n (retrying m) = ⊥
IsRunner n electing = Unit
IsRunner n syncing = Unit
IsRunner n running = Unit
IsRunner n (waiting m) = m ≡ n

turns_left_pos : (n : ℕ) (g : Goroutine) → IsRunner n g → 1 ≤ turns_left g
turns_left_pos n checking r = absurd r
turns_left_pos n (retrying m) r = absurd r
turns_left_pos n electing r = omega arith
turns_left_pos n syncing r = omega arith
turns_left_pos n running r = omega arith
turns_left_pos n (waiting m) r = omega arith

module _ {R E : Type 0} (ops : ManagedReconciler R E) where
  -- A turn of the goroutine that comes first.
  abbrev pub advance : Answers E → List Goroutine → System R → System R
  advance a [] s = s
  advance a (g ∷ gs) s = turn ops a g (record s { goroutines = gs })

  unfoldable pub run_turns : List (Answers E) → System R → System R
  run_turns [] s = s
  run_turns (a ∷ as') s = run_turns as' (advance a s.goroutines s)

  advance_idle : (a : Answers E) (gs : List Goroutine) (s : System R) → gs ≡ [] → advance a gs s ≡ s
  advance_idle a [] s e = refl
  advance_idle a (g ∷ gs) s e = absurd (ground arith)

  idle :
      (as' : List (Answers E)) (s : System R)
      → s.goroutines ≡ []
      → (run_turns as' s).goroutines ≡ []
  unfolding run_turns
  idle [] s e = e
  idle (a ∷ as') s e = rw (run_turns, advance_idle a s.goroutines s e) (idle as' s e)

  -- The context is set and done, and the controller is there.
  record IsEnding (n : ℕ) (s : System R) : Type 0 where
    context : s.ctrl_context ≡ some n
    over : s.done n ≡ true

  -- What one turn of a runner leaves: nothing, or a runner with fewer turns.
  record Fewer (n : ℕ) (g : Goroutine) (t : System R) : Type 0 where
    ending : IsEnding n t
    follower : Goroutine
    follows : t.goroutines ≡ follower ∷ []
    runs : IsRunner n follower
    fewer : suc (turns_left follower) ≤ turns_left g

  turn-Fewer :
      (a : Answers E) (n : ℕ) (g : Goroutine) (s : System R)
      → a.elected ≡ true
      → IsEnding n s
      → IsRunner n g
      → s.goroutines ≡ []
      → ((turn ops a g s).goroutines ≡ []) ⊎ Fewer n g (turn ops a g s)
  unfolding turn run clean_up
  turn-Fewer a n checking s w h r e = absurd r
  turn-Fewer a n (retrying m) s w h r e = absurd r
  turn-Fewer a n electing s w h r e = inr (
      rw w (record {
        ending = record { context = h.context; over = h.over };
        follower = syncing;
        follows = rw e;
        runs = tt;
        fewer = omega arith;
      }))
  turn-Fewer a n syncing s w h r e =
      let started = ops.start_reconciler a.reconciler_answers s.ctrl_context s.reconciler in
      elim (Bool-cases a.manager_synced) [
        | inl m ↦ elim (Bool-cases started.1) [
          | inl d ↦ elim (Option-cases s.ctrl) [
            | inl c ↦ inl (rw (m, d, c) e)
            | inr (c, some_c) ↦ inr (
                rw (m, d, some_c)
                  (record {
                    ending = record { context = h.context; over = h.over };
                    follower = running;
                    follows = rw e;
                    runs = tt;
                    fewer = omega arith;
                  }))
          ]
          | inr d ↦ inl (rw (m, d) e)
        ]
        | inr m ↦ inl (rw m e)
      ]
  turn-Fewer a n running s w h r e = inr (
      rw (block, h.context)
        (record {
          ending = record { context = h.context; over = h.over };
          follower = waiting n;
          follows = rw e;
          runs = refl;
          fewer = omega arith;
        }))
  turn-Fewer a n (waiting m) s w h r e = inl (let d = ap s.done r ∙ h.over in rw d e)

  -- In each of these turns the manager is elected: once closed, its channel stays closed.
  abbrev pub AllElected : List (Answers E) → Type 0
  AllElected [] = Unit
  AllElected (a ∷ as') = (a.elected ≡ true) × AllElected as'

  abbrev pub NoneElected : List (Answers E) → Type 0
  NoneElected [] = Unit
  NoneElected (a ∷ as') = (a.elected ≡ false) × NoneElected as'

  electing_stays :
      (as' : List (Answers E)) (s : System R)
      → s.goroutines ≡ electing ∷ []
      → NoneElected as'
      → (run_turns as' s).goroutines ≡ electing ∷ []
  unfolding run_turns turn
  electing_stays [] s e w = e
  electing_stays (a ∷ as') s e (w, ws) =
      rw e (rw w (electing_stays as' (record s { goroutines = electing ∷ [] }) refl ws))

  runner_stops :
      (as' : List (Answers E)) (n : ℕ) (g : Goroutine) (s : System R)
      → s.ctrl_context ≡ some n
      → s.done n ≡ true
      → s.goroutines ≡ g ∷ []
      → IsRunner n g
      → AllElected as'
      → turns_left g ≤ length as'
      → (run_turns as' s).goroutines ≡ []
  unfolding run_turns
  runner_stops [] n g s c d e r w l = absurd (omega (arith, turns_left_pos n g r))
  runner_stops (a ∷ as') n g s c d e r (w, ws) l =
      let s' : System R = record s { goroutines = [] } in
      let h : IsEnding n s' = record { context = c; over = d } in
      rw e (elim (turn-Fewer a n g s' w h r refl) [
        | inl none_left ↦ idle as' (turn ops a g s') none_left
        | inr f ↦
            runner_stops as' n f.follower (turn ops a g s') f.ending.context f.ending.over f.follows
              f.runs ws (omega (arith, f.fewer))
      ])

  -- Once the context of a controller is done: the goroutine that runs it, if it is the only one and
  -- waits for no other context, ends after four turns at most while the manager is elected, whatever
  -- else controller-runtime and the API servers answer. A goroutine that still waits for the election
  -- does not see the end of its context: while the manager is not elected it never ends.
  pub runner_ends :
      (as' bs : List (Answers E)) (n : ℕ) (g : Goroutine) (s : System R)
      → s.ctrl_context ≡ some n
      → s.done n ≡ true
      → s.goroutines ≡ g ∷ []
      → IsRunner n g
      → AllElected as'
      → turns_left g ≤ length as'
      → NoneElected bs
      → ((run_turns as' s).goroutines ≡ [])
        × (let s' = record s { goroutines = electing ∷ [] } in
            (run_turns bs s').goroutines ≡ electing ∷ [])
  runner_ends as' bs n g s c d e r w l ws = (
    runner_stops as' n g s c d e r w l,
    electing_stays bs (record s { goroutines = electing ∷ [] }) refl ws,
  )
