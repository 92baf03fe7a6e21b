-- ===== src/Controllers/Sync/Setup/Local.antt =====
-- The watch on the local copies, over the whole life of a reconciler.
use cluster_registry_control.Common.{
  ℕ, ◌+◌, ◌≡◌, refl, ap, ◌∙◌, ◌⊎◌, inl, inr, Bool, true, false, Option, List, [], ◌∷◌, ◌++◌, arith,
  length, keep, has, get-put_self, Bool-cases, Option-cases,
}
use cluster_registry_control.Common.Parts.{◌>>◌, >>-keeps}
use cluster_registry_control.Api.Object.{GroupVersionKind}
use cluster_registry_control.Controllers.Sync.Setup.{
  Source, of_kind, in_memory, of_informer, SyncSetup, Library, SetupAnswers, start_local_cache,
  use_local_client, watch_kind, watch_memory, keep_ctrl, set_up_base, setup_with_controller,
  set_local_cluster_id, informer_key, init_local_informer,
}

abbrev is_local : ℕ × Source → Bool
is_local (c, of_kind g) = false
is_local (c, in_memory) = false
is_local (c, of_informer g) = true

-- The watches on local objects, with the controllers that they were registered with.
abbrev pub local_watches : SyncSetup → List (ℕ × Source)
local_watches r = keep is_local r.watches

keep-append_other :
    (ws : List (ℕ × Source)) (w : ℕ × Source)
    → is_local w ≡ false
    → keep is_local (ws ++ w ∷ []) ≡ keep is_local ws
keep-append_other [] w e = rw (e, keep)
keep-append_other (v ∷ ws) w e = ground (arith, keep-append_other ws w e)

length-keep_other :
    (ws : List (ℕ × Source)) (c : ℕ) (g : GroupVersionKind)
    → length (keep is_local (ws ++ (c, of_informer g) ∷ [])) ≡ length (keep is_local ws) + 1
length-keep_other [] c g = refl
length-keep_other (v ∷ ws) c g = ground (arith, length-keep_other ws c g)

-- The reconciler proper and the local watches are the same.
abbrev pub SameLocal : SyncSetup → SyncSetup → Type 0
SameLocal r t = (t.sync ≡ r.sync) × (local_watches t ≡ local_watches r)

module _ (l : Library) (a : SetupAnswers) where
  start_local_cache-same :
      (r : SyncSetup)
      → ((start_local_cache l a r).0.sync ≡ r.sync)
        × ((start_local_cache l a r).0.watches ≡ r.watches)
  unfolding start_local_cache
  start_local_cache-same r = ground arith

  use_local_client-same :
      (r : SyncSetup)
      → ((use_local_client l a r).0.sync ≡ r.sync)
        × ((use_local_client l a r).0.watches ≡ r.watches)
  unfolding use_local_client
  use_local_client-same r = ground arith

  watch_kind-same : (ctrl : ℕ) (r : SyncSetup) → SameLocal r (watch_kind l a ctrl r).0
  unfolding watch_kind
  watch_kind-same ctrl r = elim (Bool-cases a.watches_kind) [
    | inl e ↦ rw e (refl, keep-append_other r.watches _ refl)
    | inr e ↦ rw e (refl, refl)
  ]

  watch_memory-same : (ctrl : ℕ) (r : SyncSetup) → SameLocal r (watch_memory l a ctrl r).0
  unfolding watch_memory
  watch_memory-same ctrl r = elim (Bool-cases a.watches_memory) [
    | inl e ↦ rw e (refl, keep-append_other r.watches _ refl)
    | inr e ↦ rw e (refl, refl)
  ]

  -- A set-up registers no local watch.
  pub setup_with_controller-same :
      (ctx : Option ℕ) (ctrl : ℕ) (r : SyncSetup)
      → SameLocal r (setup_with_controller l a ctx ctrl r).0
  unfolding setup_with_controller set_up_base keep_ctrl
  setup_with_controller-same ctx ctrl r =
      let base = set_up_base l a ctx in
      let cached = base >> start_local_cache l a in
      let connected = cached >> use_local_client l a in
      let watching = connected >> watch_kind l a ctrl in
      let watched = watching >> watch_memory l a ctrl in
      >>-keeps (SameLocal r) watched (keep_ctrl l a ctrl) r
        (>>-keeps (SameLocal r) watching (watch_memory l a ctrl) r
          (>>-keeps (SameLocal r) connected (watch_kind l a ctrl) r
            (>>-keeps (SameLocal r) cached (use_local_client l a) r
              (>>-keeps (SameLocal r) base (start_local_cache l a) r (refl, refl)
                (λ t (p, q). (
                  (start_local_cache-same t).0 ∙ p,
                  ap (keep is_local) (start_local_cache-same t).1 ∙ q,
                )))
              (λ t (p, q). (
                (use_local_client-same t).0 ∙ p,
                ap (keep is_local) (use_local_client-same t).1 ∙ q,
              )))
            (λ t (p, q). ((watch_kind-same ctrl t).0 ∙ p, (watch_kind-same ctrl t).1 ∙ q)))
          (λ t (p, q). ((watch_memory-same ctrl t).0 ∙ p, (watch_memory-same ctrl t).1 ∙ q)))
        (λ t h. h)

module _ (l : Library) where
  pub set_local_cluster_id-same :
      (a : SetupAnswers) (r : SyncSetup)
      → let t = (set_local_cluster_id l a r).0 in
        (t.sync.rule ≡ r.sync.rule)
        × (t.sync.local_informers ≡ r.sync.local_informers)
        × (t.watches ≡ r.watches)
  unfolding set_local_cluster_id
  set_local_cluster_id-same a r = ground arith

  pub init_local_informer_again :
      (a : SetupAnswers) (gvk : GroupVersionKind) (r : SyncSetup)
      → has (informer_key l gvk) r.sync.local_informers ≡ true
      → (init_local_informer l a gvk r).0 ≡ r
  unfolding init_local_informer
  init_local_informer_again a gvk r h = ground arith

  -- One call adds a watch and remembers it, or changes nothing.
  pub init_local_informer_first :
      (a : SetupAnswers) (gvk : GroupVersionKind) (r : SyncSetup)
      → has (informer_key l gvk) r.sync.local_informers ≡ false
      → let t = (init_local_informer l a gvk r).0 in
        (t ≡ r)
        ⊎ ((t.sync.rule ≡ r.sync.rule)
            × (has (informer_key l gvk) t.sync.local_informers ≡ true)
            × (length (local_watches t) ≡ length (local_watches r) + 1))
  unfolding init_local_informer
  init_local_informer_first a gvk r h = elim (Bool-cases a.informs) [
    | inl i ↦ elim (Option-cases r.ctrl) [
      | inl n ↦ inl (ground arith)
      | inr (c, n) ↦ elim (Bool-cases a.watches_informer) [
        | inl w ↦ inr (
            rw (h, i, n, w)
              (
                refl,
                rw (get-put_self (informer_key l gvk) tt r.sync.local_informers),
                length-keep_other r.watches c gvk,
              ))
        | inr w ↦ inl (ground arith)
      ]
    ]
    | inr i ↦ inl (ground arith)
  ]
