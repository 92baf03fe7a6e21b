-- ===== src/Clusters/Feature/Matching.antt =====
-- A requirement is met exactly when some feature satisfies it, whatever the order of the features.
use cluster_registry_control.Common.{
  String, ◌≡◌, refl, sym, ◌∙◌, ◌↔◌, Bool, true, false, ◌&&◌, ◌||◌, ◌==◌, none, some, [], ◌∷◌, ◌++◌,
  arith, Map, get, put, In, any, any-append, any_witness, any_of_In, is_empty,
}
use cluster_registry_control.Api.Selector.{Selectors}
use cluster_registry_control.Clusters.Feature.{
  ClusterFeature, ClusterFeatureRequirement, selector, match,
}

-- One feature satisfies a requirement: its name is the required one, if a name is required, and
-- its labels match the selector, if there is one.
abbrev pub satisfies : Selectors → ClusterFeatureRequirement → ClusterFeature → Bool
satisfies s r f =
    (r.name == "" || r.name == f.name)
    && (is_empty r.match_labels && is_empty r.match_expressions
        || elim (s.as_selector (selector r)) [ none ↦ false | some matches ↦ matches f.labels ])

-- The code gives up at the first feature with a fitting name if the selector is not valid. No
-- later feature could have met the requirement then.
any-invalid :
    (s : Selectors) (r : ClusterFeatureRequirement) (fs : Map ClusterFeature)
    → (is_empty r.match_labels && is_empty r.match_expressions) ≡ false
    → s.as_selector (selector r) ≡ none
    → any (λ e. satisfies s r e.1) fs ≡ false
any-invalid s r [] h e = refl
any-invalid s r ((k, f) ∷ fs) h e = ground (arith, any-invalid s r fs h e)

pub match-eq-any :
    (s : Selectors) (r : ClusterFeatureRequirement) (fs : Map ClusterFeature)
    → match s r fs ≡ any (λ e. satisfies s r e.1) fs
unfolding match
match-eq-any s r [] = refl
match-eq-any s r ((k, f) ∷ fs) = ground (arith, match-eq-any s r fs, any-invalid s r fs)

-- A requirement is met exactly when one of the features has the required name, if a name is
-- required, and labels that the selector matches, if there is a selector.
pub match_iff :
    (s : Selectors) (r : ClusterFeatureRequirement) (fs : Map ClusterFeature)
    → (match s r fs ≡ true) ↔ ((e : String × ClusterFeature) × In e fs × (satisfies s r e.1 ≡ true))
match_iff s r fs = (
  λ h. any_witness (λ e. satisfies s r e.1) fs (sym (match-eq-any s r fs) ∙ h),
  λ w. match-eq-any s r fs ∙ any_of_In (λ e. satisfies s r e.1) fs w.0 w.1 w.2,
)

-- The order in which the loop meets two groups of features makes no difference.
pub match-append_comm :
    (s : Selectors) (r : ClusterFeatureRequirement) (fs gs : Map ClusterFeature)
    → match s r (fs ++ gs) ≡ match s r (gs ++ fs)
match-append_comm s r fs gs =
    let p = λ (e : String × ClusterFeature). satisfies s r e.1 in
    ground (
      arith,
      match-eq-any s r (fs ++ gs),
      match-eq-any s r (gs ++ fs),
      any-append p fs gs,
      any-append p gs fs,
    )

-- A feature under a new uid keeps every requirement met that was met before.
any-put :
    (p : String × ClusterFeature → Bool) (k : String) (f : ClusterFeature) (fs : Map ClusterFeature)
    → get k fs ≡ none
    → any p fs ≡ true
    → any p (put k f fs) ≡ true
unfolding get put
any-put p k f [] e h = absurd (ground arith)
any-put p k f ((j, g) ∷ fs) e h = ground (arith, any-put p k f fs)

pub match-put :
    (s : Selectors) (r : ClusterFeatureRequirement) (k : String) (f : ClusterFeature)
    (fs : Map ClusterFeature)
    → get k fs ≡ none
    → match s r fs ≡ true
    → match s r (put k f fs) ≡ true
match-put s r k f fs e h =
    match-eq-any s r (put k f fs)
    ∙ any-put (λ e. satisfies s r e.1) k f fs e (sym (match-eq-any s r fs) ∙ h)
