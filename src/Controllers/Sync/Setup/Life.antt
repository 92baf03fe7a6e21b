-- ===== src/Controllers/Sync/Setup/Life.antt =====
-- One reconciler over the whole life of its controller: what it remembers of its local watch.
use cluster_registry_control.Common.{
  ℕ, ◌≤◌, String, ◌≡◌, refl, ap, ◌∙◌, inl, inr, Bool, true, List, [], ◌∷◌, arith, length, has,
  if◌then◌else◌, Bool-cases,
}
use cluster_registry_control.Common.Parts.{>>-keeps}
use cluster_registry_control.Api.Rules.{ResourceSyncRuleSpec}
use cluster_registry_control.Clusters.Manager.{Manager}
use cluster_registry_control.Clusters.Lifecycle.{System, new_system}
use cluster_registry_control.Clusters.Lifecycle.Steps.{Reach, Always}
use cluster_registry_control.Clusters.Lifecycle.Kept.{IsKept, Reach-Holds}
use cluster_registry_control.Controllers.Sync.{SyncReconciler}
use cluster_registry_control.Controllers.Sync.Setup.{
  Source, SyncSetup, Library, SetupAnswers, new_sync_setup, set_local_cluster_id, informer_key,
  local_kind, watch_local, start_sync, sync_reconciler,
}
use cluster_registry_control.Controllers.Sync.Setup.Local.{
  local_watches, SameLocal, setup_with_controller-same, set_local_cluster_id-same,
  init_local_informer_again, init_local_informer_first,
}

module _ (l : Library) (rule : ResourceSyncRuleSpec) where
  -- Whether the reconciler remembers an informer for the kind that its rule copies to.
  abbrev pub remembers : SyncSetup → Bool
  remembers r = has (informer_key l (local_kind l rule)) r.sync.local_informers

  -- The local watches are no more than what the reconciler remembers.
  record AtMostOne (r : SyncSetup) : Type 0 where
    its_rule : r.sync.rule ≡ rule
    bounded : length (local_watches r) ≤ (if remembers r then 1 else 0)

  -- The reconciler remembers its informer, and has these local watches.
  record Frozen (ws : List (ℕ × Source)) (r : SyncSetup) : Type 0 where
    frozen_rule : r.sync.rule ≡ rule
    remembered : remembers r ≡ true
    fixed : local_watches r ≡ ws

  local_kind-same :
      (r : SyncSetup) → r.sync.rule ≡ rule → local_kind l r.sync.rule ≡ local_kind l rule
  local_kind-same r e = ap (local_kind l) e

  watch_local-AtMostOne :
      (a : SetupAnswers) (r : SyncSetup) → AtMostOne r → AtMostOne (watch_local l a r).0
  unfolding watch_local
  watch_local-AtMostOne a r h = rw (local_kind-same r h.its_rule) (elim (Bool-cases (remembers r)) [
    | inl e ↦ rw (init_local_informer_again l a (local_kind l rule) r e) h
    | inr e ↦ elim (init_local_informer_first l a (local_kind l rule) r e) [
      | inl same ↦ rw same h
      | inr (kept, known, more) ↦ record {
        its_rule = kept ∙ h.its_rule;
        bounded = let b = h.bounded in rw known (rw more (ground arith));
      }
    ]
  ])

  watch_local-Frozen :
      (ws : List (ℕ × Source)) (a : SetupAnswers) (r : SyncSetup)
      → Frozen ws r
      → Frozen ws (watch_local l a r).0
  unfolding watch_local
  watch_local-Frozen ws a r h =
      rw (local_kind-same r h.frozen_rule)
        (rw (init_local_informer_again l a (local_kind l rule) r h.remembered) h)

  SameLocal-AtMostOne : (r t : SyncSetup) → SameLocal r t → AtMostOne r → AtMostOne t
  SameLocal-AtMostOne r t (p, q) h = record {
    its_rule = ap (λ (s : SyncReconciler). s.rule) p ∙ h.its_rule;
    bounded = rw (p, q) h.bounded;
  }

  start_sync-AtMostOne :
      (a : SetupAnswers) (r : SyncSetup) → AtMostOne r → AtMostOne (start_sync l a r).0
  unfolding start_sync
  start_sync-AtMostOne a r h =
      let (p, q, w) = set_local_cluster_id-same l a r in
      >>-keeps AtMostOne (set_local_cluster_id l a) (watch_local l a) r
        (record { its_rule = p ∙ h.its_rule; bounded = rw (q, w) h.bounded })
        (watch_local-AtMostOne a)

  start_sync-Frozen :
      (ws : List (ℕ × Source)) (a : SetupAnswers) (r : SyncSetup)
      → Frozen ws r
      → Frozen ws (start_sync l a r).0
  unfolding start_sync
  start_sync-Frozen ws a r h =
      let (p, q, w) = set_local_cluster_id-same l a r in
      >>-keeps (Frozen ws) (set_local_cluster_id l a) (watch_local l a) r
        (record {
          frozen_rule = p ∙ h.frozen_rule;
          remembered = rw q h.remembered;
          fixed = rw w h.fixed;
        })
        (watch_local-Frozen ws a)

  SameLocal-Frozen :
      (ws : List (ℕ × Source)) (r t : SyncSetup) → SameLocal r t → Frozen ws r → Frozen ws t
  SameLocal-Frozen ws r t (p, q) h = record {
    frozen_rule = ap (λ (s : SyncReconciler). s.rule) p ∙ h.frozen_rule;
    remembered = rw p h.remembered;
    fixed = q ∙ h.fixed;
  }

  AtMostOne-IsKept : IsKept (sync_reconciler l) AtMostOne
  unfolding sync_reconciler
  AtMostOne-IsKept = record {
    by_set_manager = λ mgr r h. SameLocal-AtMostOne r _ (refl, refl) h;
    by_set_client = λ client r h. SameLocal-AtMostOne r _ (refl, refl) h;
    by_set_up =
        λ a ctx ctrl r h. SameLocal-AtMostOne r _ (setup_with_controller-same l a ctx ctrl r) h;
    by_start = λ a ctx r h. start_sync-AtMostOne a r h;
    by_cleanup = λ r h. SameLocal-AtMostOne r _ (refl, refl) h;
  }

  Frozen-IsKept : (ws : List (ℕ × Source)) → IsKept (sync_reconciler l) (Frozen ws)
  unfolding sync_reconciler
  Frozen-IsKept ws = record {
    by_set_manager = λ mgr r h. SameLocal-Frozen ws r _ (refl, refl) h;
    by_set_client = λ client r h. SameLocal-Frozen ws r _ (refl, refl) h;
    by_set_up =
        λ a ctx ctrl r h. SameLocal-Frozen ws r _ (setup_with_controller-same l a ctx ctrl r) h;
    by_start = λ a ctx r h. start_sync-Frozen ws a r h;
    by_cleanup = λ r h. SameLocal-Frozen ws r _ (refl, refl) h;
  }

  new_sync_setup-AtMostOne :
      (name rule_uid cluster_id : String) (manager : Manager)
      → AtMostOne (new_sync_setup l name rule rule_uid cluster_id manager)
  unfolding new_sync_setup
  new_sync_setup-AtMostOne name rule_uid cluster_id manager = record {
    its_rule = refl;
    bounded = omega arith;
  }

  module _ (name rule_uid cluster_id : String) (manager : Manager) where
    abbrev pub new_controller : System SyncSetup
    unfolding new_system
    new_controller = new_system (new_sync_setup l name rule rule_uid cluster_id manager)

    reached-AtMostOne :
        {s : System SyncSetup}
        → Reach (sync_reconciler l) Always Always new_controller s
        → AtMostOne s.reconciler
    unfolding new_controller
    reached-AtMostOne reach =
        let fresh = new_sync_setup-AtMostOne name rule_uid cluster_id manager in
        Reach-Holds (sync_reconciler l) AtMostOne AtMostOne-IsKept reach fresh

    -- A sync controller never registers more than one watch on the local copies, whatever calls,
    -- turns and answers it goes through.
    pub local_watches_bounded :
        {s : System SyncSetup}
        → Reach (sync_reconciler l) Always Always new_controller s
        → length (local_watches s.reconciler) ≤ 1
    local_watches_bounded reach = let h = reached-AtMostOne reach in ground (arith, h.bounded)

    reached-remembers :
        {s : System SyncSetup}
        → Reach (sync_reconciler l) Always Always new_controller s
        → (w : ℕ × Source) → local_watches s.reconciler ≡ w ∷ []
        → remembers s.reconciler ≡ true
    reached-remembers {s} reach w e = elim (Bool-cases (remembers s.reconciler)) [
      | inl k ↦ k
      | inr k ↦ absurd (let b = (reached-AtMostOne reach).bounded in ground arith)
    ]

    -- Once a sync controller has registered its watch on the local copies, it does not register
    -- another one in any further steps, also where it is started again and runs with another
    -- controller of controller-runtime.
    pub local_watch_is_not_renewed :
        {s t : System SyncSetup}
        → Reach (sync_reconciler l) Always Always new_controller s
        → (w : ℕ × Source) → local_watches s.reconciler ≡ w ∷ []
        → Reach (sync_reconciler l) Always Always s t
        → local_watches t.reconciler ≡ w ∷ []
    local_watch_is_not_renewed {s} {t} reach w e more =
        let now : Frozen (w ∷ []) s.reconciler = record {
          frozen_rule = (reached-AtMostOne reach).its_rule;
          remembered = reached-remembers reach w e;
          fixed = e;
        } in
        (Reach-Holds (sync_reconciler l) (Frozen (w ∷ [])) (Frozen-IsKept (w ∷ [])) more now).fixed
