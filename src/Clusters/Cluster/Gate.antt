-- ===== src/Clusters/Cluster/Gate.antt =====
-- Feature gating: a controller runs on a cluster only while the features that it requires are there.
use cluster_registry_control.Common.{
  String, ◌≡◌, refl, ◌∙◌, inl, inr, true, false, not, none, some, List, [], ◌∷◌, arith, eq_iff,
  eq_refl, Map, get, put, delete, get-put, get-delete, In, In-of_get, if◌then◌else◌, Bool-cases,
  Option-cases,
}
use cluster_registry_control.Api.Selector.{Selectors}
use cluster_registry_control.Clusters.Feature.{ClusterFeature, ClusterFeatureRequirement}
use cluster_registry_control.Clusters.Feature.Matching.{match-put}
use cluster_registry_control.Clusters.Controller.{ManagedController}
use cluster_registry_control.Clusters.Cluster.{
  Cluster, activate_controller, add_pending_controller, remove_controller_by_name,
  remove_controller, all_match, check_required_cluster_features, add_controller, retry_controllers,
  add_feature, drop_unmet, remove_feature,
}

-- Every controller stands under its own name.
abbrev pub IsKeyed : Map ManagedController → Type 0
IsKeyed m = (j : String) (x : ManagedController) → get j m ≡ some x → x.name ≡ j

-- Every active controller has its required features.
abbrev pub IsMet : Selectors → Cluster → Type 0
IsMet s c =
    (j : String) (x : ManagedController)
    → get j c.controllers ≡ some x
    → check_required_cluster_features s x c.features ≡ true

pub record IsGated (s : Selectors) (c : Cluster) : Type 0 where
  pub keyed : IsKeyed c.controllers
  pub keyed_pending : IsKeyed c.pending_controllers
  pub met : IsMet s c

module _ (s : Selectors) where
  IsKeyed-put :
      (k : ManagedController) (m : Map ManagedController) → IsKeyed m → IsKeyed (put k.name k m)
  IsKeyed-put k m h j x e = ground (arith, get-put k.name j k m, eq_iff k.name j, h j x)

  IsKeyed-delete : (k : String) (m : Map ManagedController) → IsKeyed m → IsKeyed (delete k m)
  IsKeyed-delete k m h j x e = ground (arith, get-delete k j m, h j x)

  pub activate_controller-IsGated :
      (k : ManagedController) (c : Cluster)
      → IsGated s c
      → check_required_cluster_features s k c.features ≡ true
      → IsGated s (activate_controller k c).0
  unfolding activate_controller
  activate_controller-IsGated k c g h = record {
    keyed = λ j x e. ground (arith, get-put k.name j k c.controllers, eq_iff k.name j, g.keyed j x);
    keyed_pending =
        λ j x e. ground (arith, get-delete k.name j c.pending_controllers, g.keyed_pending j x);
    met = λ j x e. ground (arith, get-put k.name j k c.controllers, eq_iff k.name j, g.met j x);
  }

  pub remove_controller_by_name-IsGated :
      (name : String) (c : Cluster) → IsGated s c → IsGated s (remove_controller_by_name name c)
  unfolding remove_controller_by_name
  remove_controller_by_name-IsGated name c g = record {
    keyed = λ j x e. ground (arith, get-delete name j c.controllers, g.keyed j x);
    keyed_pending =
        λ j x e. ground (arith, get-delete name j c.pending_controllers, g.keyed_pending j x);
    met = λ j x e. ground (arith, get-delete name j c.controllers, g.met j x);
  }

  pub add_controller-IsGated :
      (k : ManagedController) (c : Cluster) → IsGated s c → IsGated s (add_controller s k c).0
  unfolding add_controller
  add_controller-IsGated k c g =
      elim (Bool-cases (check_required_cluster_features s k c.features)) [
        | inl e ↦ rw e (activate_controller-IsGated k c g e)
        | inr e ↦ rw e (record {
          keyed = g.keyed;
          keyed_pending = IsKeyed-put k c.pending_controllers g.keyed_pending;
          met = g.met;
        })
      ]

  retry_controllers-IsGated :
      (ks : Map ManagedController) (c : Cluster)
      → IsGated s c
      → IsGated s (retry_controllers s ks c)
  unfolding retry_controllers
  retry_controllers-IsGated [] c g = g
  retry_controllers-IsGated ((n, k) ∷ ks) c g =
      retry_controllers-IsGated ks (add_controller s k c).0 (add_controller-IsGated k c g)

  -- More features meet more requirements.
  all_match-put :
      (rfs : List ClusterFeatureRequirement) (u : String) (f : ClusterFeature)
      (fs : Map ClusterFeature)
      → get u fs ≡ none
      → all_match s rfs fs ≡ true
      → all_match s rfs (put u f fs) ≡ true
  unfolding all_match
  all_match-put [] u f fs e h = refl
  all_match-put (rf ∷ rfs) u f fs e h =
      ground (arith, match-put s rf u f fs, all_match-put rfs u f fs)

  check-put :
      (k : ManagedController) (u : String) (f : ClusterFeature) (fs : Map ClusterFeature)
      → get u fs ≡ none
      → check_required_cluster_features s k fs ≡ true
      → check_required_cluster_features s k (put u f fs) ≡ true
  unfolding check_required_cluster_features
  check-put k u f fs e h = ground (arith, all_match-put k.required_cluster_features u f fs)

  pub add_feature-IsGated :
      (f : ClusterFeature) (c : Cluster)
      → get f.uid c.features ≡ none
      → IsGated s c
      → IsGated s (add_feature s f c)
  unfolding add_feature
  add_feature-IsGated f c fresh g =
      retry_controllers-IsGated c.pending_controllers
        (record c { features = put f.uid f c.features })
        (record {
          keyed = g.keyed;
          keyed_pending = g.keyed_pending;
          met = λ j x e. check-put x f.uid f c.features fresh (g.met j x e);
        })

  -- The step of the loop of `RemoveFeature`.
  abbrev drop_step : ManagedController → Cluster → Cluster
  drop_step k c =
      if not (check_required_cluster_features s k c.features)
      then add_pending_controller k (remove_controller k c)
      else c

  -- The step keeps the features, keeps the keys, and only takes controllers away: its own, if its
  -- requirements are not met.
  pub record Drops (k : ManagedController) (c d : Cluster) : Type 0 where
    features : d.features ≡ c.features
    keyed : IsKeyed c.controllers → IsKeyed d.controllers
    keyed_pending : IsKeyed c.pending_controllers → IsKeyed d.pending_controllers
    fewer :
        (j : String) (x : ManagedController)
        → get j d.controllers ≡ some x
        → get j c.controllers ≡ some x
    own : check_required_cluster_features s k c.features ≡ false → get k.name d.controllers ≡ none

  drop_step-Drops : (k : ManagedController) (c : Cluster) → Drops k c (drop_step k c)
  unfolding remove_controller_by_name
  drop_step-Drops k c = record {
    features = ground arith;
    keyed = λ h j x e. ground (arith, h j x, get-delete k.name j c.controllers);
    keyed_pending = λ h j x e. ground (
      arith,
      h j x,
      eq_iff k.name j,
      get-delete k.name j c.pending_controllers,
      get-put k.name j k (delete k.name c.pending_controllers),
    );
    fewer = λ j x e. ground (arith, get-delete k.name j c.controllers);
    own = λ h. ground (arith, get-delete k.name k.name c.controllers, eq_refl k.name);
  }

  -- The same of the whole loop over a snapshot of the controllers.
  pub record Dropped (ks : Map ManagedController) (c d : Cluster) : Type 0 where
    features : d.features ≡ c.features
    keyed : IsKeyed c.controllers → IsKeyed d.controllers
    keyed_pending : IsKeyed c.pending_controllers → IsKeyed d.pending_controllers
    fewer :
        (j : String) (x : ManagedController)
        → get j d.controllers ≡ some x
        → get j c.controllers ≡ some x
    own :
        (e : String × ManagedController)
        → In e ks
        → check_required_cluster_features s e.1 c.features ≡ false
        → get e.1.name d.controllers ≡ none

  stays_none :
      (j : String) (c d : Map ManagedController)
      → ((x : ManagedController) → get j d ≡ some x → get j c ≡ some x)
      → get j c ≡ none
      → get j d ≡ none
  stays_none j c d h e = elim (Option-cases (get j d)) [ inl q ↦ q | inr (x, q) ↦ cc (h x q) ]

  pub drop_unmet-Dropped :
      (ks : Map ManagedController) (c : Cluster) → Dropped ks c (drop_unmet s ks c)
  unfolding drop_unmet
  drop_unmet-Dropped [] c = record {
    features = refl;
    keyed = λ h. h;
    keyed_pending = λ h. h;
    fewer = λ j x e. e;
    own = λ e i h. absurd i;
  }
  drop_unmet-Dropped ((n, k) ∷ ks) c =
      let d : Cluster = drop_step k c in
      let a : Drops k c d = drop_step-Drops k c in
      let b : Dropped ks d (drop_unmet s ks d) = drop_unmet-Dropped ks d in
      record {
        features = b.features ∙ a.features;
        keyed = λ h. b.keyed (a.keyed h);
        keyed_pending = λ h. b.keyed_pending (a.keyed_pending h);
        fewer = λ j x e. a.fewer j x (b.fewer j x e);
        own = λ e i h. elim i [
          | inl q ↦
              stays_none e.1.name d.controllers (drop_unmet s ks d).controllers (b.fewer e.1.name)
                (rw q (a.own (rw q at h)))
          | inr r ↦ b.own e r (rw a.features h)
        ];
      }

  -- If all controllers of a cluster, active or pending, stand under their own names, then after a
  -- feature is removed every active controller still has its required features, and all controllers
  -- still stand under their own names.
  pub remove_feature-IsGated :
      (uid : String) (c : Cluster)
      → IsKeyed c.controllers
      → IsKeyed c.pending_controllers
      → IsGated s (remove_feature s uid c)
  unfolding remove_feature
  remove_feature-IsGated uid c keyed keyed_pending =
      let c' : Cluster = record c { features = delete uid c.features } in
      let d : Cluster = drop_unmet s c'.controllers c' in
      let b : Dropped c'.controllers c' d = drop_unmet-Dropped c'.controllers c' in
      record {
        keyed = b.keyed keyed;
        keyed_pending = b.keyed_pending keyed_pending;
        met = λ j x e. elim (Bool-cases (check_required_cluster_features s x c'.features)) [
          | inl yes_met ↦ rw b.features yes_met
          | inr unmet ↦
              let same : x.name ≡ j = keyed j x (b.fewer j x e) in
              cc (b.own (j, x) (In-of_get j x c.controllers (b.fewer j x e)) unmet)
        ];
      }
