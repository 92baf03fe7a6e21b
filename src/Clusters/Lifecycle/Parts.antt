-- ===== src/Clusters/Lifecycle/Parts.antt =====
-- What the parts of `start`, and with them `check`, change and what they leave alone.
use cluster_registry_control.Common.{
  ◌≡◌, refl, ◌∙◌, inl, inr, Bool, true, [], ◌∷◌, ◌++◌, arith, is_some, if◌then◌else◌, Bool-cases,
}
use cluster_registry_control.Common.Parts.{Part, ◌>>◌, >>-keeps, >>-done, >>-done_after}
use cluster_registry_control.Clusters.Reconciler.{ManagedReconciler}
use cluster_registry_control.Clusters.Lifecycle.{
  electing, System, Answers, new_unmanaged, create_and_start_cache, use_client, inject, set_up,
  leave_running, start_parts, check,
}

module _ {R : Type 0} where
  -- Only the controller's client, cache and controller, the caches and the reconciler differ.
  pub record Frame (s t : System R) : Type 0 where
    pub same_context : t.ctrl_context ≡ s.ctrl_context
    pub same_cancel : t.ctrl_context_cancel ≡ s.ctrl_context_cancel
    pub same_contexts : t.contexts ≡ s.contexts
    pub same_done : t.done ≡ s.done
    pub same_panicked : t.panicked ≡ s.panicked
    pub same_goroutines : t.goroutines ≡ s.goroutines

  Frame-refl : (s : System R) → Frame s s
  Frame-refl s = record {
    same_context = refl;
    same_cancel = refl;
    same_contexts = refl;
    same_done = refl;
    same_panicked = refl;
    same_goroutines = refl;
  }

  Frame-trans : {s t u : System R} → Frame s t → Frame t u → Frame s u
  Frame-trans f g = record {
    same_context = g.same_context ∙ f.same_context;
    same_cancel = g.same_cancel ∙ f.same_cancel;
    same_contexts = g.same_contexts ∙ f.same_contexts;
    same_done = g.same_done ∙ f.same_done;
    same_panicked = g.same_panicked ∙ f.same_panicked;
    same_goroutines = g.same_goroutines ∙ f.same_goroutines;
  }

  abbrev IsQuiet : Part (System R) → Type 0
  IsQuiet m = (s : System R) → Frame s (m s).0

  >>-IsQuiet : (m k : Part (System R)) → IsQuiet m → IsQuiet k → IsQuiet (m >> k)
  >>-IsQuiet m k f g s = >>-keeps (Frame s) m k s (f s) (λ t h. Frame-trans h (g t))

module _ {R E : Type 0} (ops : ManagedReconciler R E) (a : Answers E) where
  abbrev cached : Part (System R)
  cached = new_unmanaged ops a >> create_and_start_cache ops a

  abbrev connected : Part (System R)
  connected = cached >> use_client ops a

  abbrev injected : Part (System R)
  injected = connected >> inject ops a

  abbrev prepared : Part (System R)
  prepared = injected >> set_up ops a

  new_unmanaged-IsQuiet : IsQuiet (new_unmanaged ops a)
  unfolding new_unmanaged
  new_unmanaged-IsQuiet s = ground arith

  create_and_start_cache-IsQuiet : IsQuiet (create_and_start_cache ops a)
  unfolding create_and_start_cache
  create_and_start_cache-IsQuiet s = ground arith

  use_client-IsQuiet : IsQuiet (use_client ops a)
  unfolding use_client
  use_client-IsQuiet s = ground arith

  inject-IsQuiet : IsQuiet (inject ops a)
  unfolding inject
  inject-IsQuiet s = ground arith

  set_up-IsQuiet : IsQuiet (set_up ops a)
  unfolding set_up
  set_up-IsQuiet s = ground arith

  cached-IsQuiet : IsQuiet cached
  cached-IsQuiet =
      >>-IsQuiet (new_unmanaged ops a) (create_and_start_cache ops a) new_unmanaged-IsQuiet
        create_and_start_cache-IsQuiet

  injected-IsQuiet : IsQuiet injected
  injected-IsQuiet =
      >>-IsQuiet connected (inject ops a)
        (>>-IsQuiet cached (use_client ops a) cached-IsQuiet use_client-IsQuiet) inject-IsQuiet

  prepared-IsQuiet : IsQuiet prepared
  prepared-IsQuiet = >>-IsQuiet injected (set_up ops a) injected-IsQuiet set_up-IsQuiet

  create_and_start_cache-context :
      (s : System R) → (create_and_start_cache ops a s).1 ≡ true → is_some s.ctrl_context ≡ true
  unfolding create_and_start_cache
  create_and_start_cache-context s h = ground arith

  set_up-ctrl : (s : System R) → (set_up ops a s).1 ≡ true → is_some (set_up ops a s).0.ctrl ≡ true
  unfolding set_up
  set_up-ctrl s h = ground arith

  prepared_lem :
      (s : System R)
      → (prepared s).1 ≡ true
      → (is_some (prepared s).0.ctrl ≡ true) × (is_some s.ctrl_context ≡ true)
  prepared_lem s h =
      let after = >>-done_after injected (set_up ops a) s h in
      let early =
        >>-done cached (use_client ops a) s
          (>>-done connected (inject ops a) s (>>-done injected (set_up ops a) s h)) in
      let cache = >>-done_after (new_unmanaged ops a) (create_and_start_cache ops a) s early in
      let context = create_and_start_cache-context (new_unmanaged ops a s).0 cache.1 in
      (
        rw (after.0) (set_up-ctrl (injected s).0 after.1),
        rw (new_unmanaged-IsQuiet s).same_context at context,
      )

  -- What a check keeps, and what one that succeeds has: a goroutine more, a controller and a context.
  pub record Checked (s : System R) (t : System R) (done : Bool) : Type 0 where
    pub same_context : t.ctrl_context ≡ s.ctrl_context
    pub same_cancel : t.ctrl_context_cancel ≡ s.ctrl_context_cancel
    pub same_contexts : t.contexts ≡ s.contexts
    pub same_done : t.done ≡ s.done
    pub same_panicked : t.panicked ≡ s.panicked
    pub spawned : t.goroutines ≡ (if done then s.goroutines ++ electing ∷ [] else s.goroutines)
    pub has_ctrl : done ≡ true → is_some t.ctrl ≡ true
    pub has_context : done ≡ true → is_some s.ctrl_context ≡ true

  pub start_parts-Checked :
      (s : System R) → Checked s (start_parts ops a s).0 (start_parts ops a s).1
  unfolding start_parts leave_running
  start_parts-Checked s = elim (Bool-cases (prepared s).1) [
    | inl e ↦
        let f = prepared-IsQuiet s in
        let (ctrl, context) = prepared_lem s e in
        rw e (record {
          same_context = f.same_context;
          same_cancel = f.same_cancel;
          same_contexts = f.same_contexts;
          same_done = f.same_done;
          same_panicked = f.same_panicked;
          spawned = rw (f.same_goroutines);
          has_ctrl = λ _. ctrl;
          has_context = λ _. context;
        })
    | inr e ↦
        let f = prepared-IsQuiet s in
        rw e (record {
          same_context = f.same_context;
          same_cancel = f.same_cancel;
          same_contexts = f.same_contexts;
          same_done = f.same_done;
          same_panicked = f.same_panicked;
          spawned = f.same_goroutines;
          has_ctrl = λ h. absurd (ground arith);
          has_context = λ h. absurd (ground arith);
        })
  ]

  pub check-Checked : (s : System R) → Checked s (check ops a s).0 (check ops a s).1
  unfolding check
  check-Checked s =
      elim (Bool-cases (ops.pre_check a.reconciler_answers s.ctrl_context s.reconciler)) [
        | inl e ↦ rw e (start_parts-Checked s)
        | inr e ↦ rw e (record {
          same_context = refl;
          same_cancel = refl;
          same_contexts = refl;
          same_done = refl;
          same_panicked = refl;
          spawned = refl;
          has_ctrl = λ h. absurd (ground arith);
          has_context = λ h. absurd (ground arith);
        })
      ]
