-- ===== src/Controllers/Sync/PreCheck.antt =====
-- `PreCheck` and `writePreCheck` of controllers/sync_reconciler.go: whether the reconciler has the
-- access that it needs.
use cluster_registry_control.Common.{
  String, ◌≡◌, refl, ◌↔◌, inl, inr, Bool, true, Option, none, some, List, [], ◌∷◌, arith, In,
  if◌then◌else◌, Option-cases, Bool-cases, ◌∙◌,
}
use cluster_registry_control.Api.Object.{GroupVersionKind}
use cluster_registry_control.Controllers.Sync.{SyncReconciler}

pub record ResourceAttributes : Type 0 where
  pub verb : String
  pub group : String
  pub version : String
  pub resource : String

-- An access review: `none` if it cannot be created, else whether access is allowed.
abbrev pub Review : Type 0
Review = ResourceAttributes → Option Bool

pub data PreCheckError : Type 0 where
  review_failed : ResourceAttributes → PreCheckError
  no_access : String → GroupVersionKind → PreCheckError
  no_local_client : PreCheckError

-- The lower-case plural of a kind is given by a library.
abbrev pub attributes : (String → String) → GroupVersionKind → String → ResourceAttributes
attributes plural g verb = record {
  verb = verb;
  group = g.group;
  version = g.version;
  resource = plural g.kind;
}

-- The loops over the verbs: `reported` is the kind that the error names.
unfoldable pub check_verbs :
    (String → String)
    → Review
    → GroupVersionKind
    → GroupVersionKind
    → List String
    → Option PreCheckError
check_verbs plural review g reported [] = none
check_verbs plural review g reported (verb ∷ verbs) =
    let later = check_verbs plural review g reported verbs in
    elim (review (attributes plural g verb)) [
      | none ↦ some (review_failed (attributes plural g verb))
      | some is_allowed ↦ if is_allowed then later else some (no_access verb reported)
    ]

abbrev pub read_verbs : List String
read_verbs = "get" ∷ "list" ∷ "watch" ∷ []

abbrev pub write_verbs : List String
write_verbs = "create" ∷ "patch" ∷ "update" ∷ "delete" ∷ []

module _ (plural : String → String) (r : SyncReconciler) where
  -- The client of the local cluster may not be there.
  unfoldable pub write_pre_check : Option Review → Option PreCheckError
  unfolding check_verbs
  write_pre_check none = some no_local_client
  write_pre_check (some review) = check_verbs plural review r.local_gvk r.gvk write_verbs

  unfoldable pub pre_check : Review → Option Review → Option PreCheckError
  unfolding check_verbs write_pre_check
  pre_check review local_review = elim (check_verbs plural review r.gvk r.gvk read_verbs) [
    | some e ↦ some e
    | none ↦ write_pre_check local_review
  ]

-- All the verbs are allowed.
abbrev pub IsAllowed : (String → String) → Review → GroupVersionKind → List String → Type 0
IsAllowed plural review g verbs =
    (verb : String) → In verb verbs → review (attributes plural g verb) ≡ some true

check_verbs_lem :
    (plural : String → String) (review : Review) (g reported : GroupVersionKind)
    (verbs : List String)
    → (check_verbs plural review g reported verbs ≡ none) ↔ IsAllowed plural review g verbs
unfolding check_verbs
check_verbs_lem plural review g reported [] = (λ e v i. absurd i, λ h. refl)
check_verbs_lem plural review g reported (verb ∷ verbs) =
    let (sound, complete) = check_verbs_lem plural review g reported verbs in
    elim (Option-cases (review (attributes plural g verb))) [
      | inl n ↦
          rw (n, check_verbs)
            (
              λ h. absurd (ground arith),
              λ h. (let given = h verb (inl refl) in absurd (ground arith)),
            )
      | inr (b, n) ↦ elim (Bool-cases b) [
        | inl t ↦
            rw (n, t, check_verbs)
              (
                λ h v i. elim i [ inl q ↦ rw q (n ∙ rw t) | inr j ↦ sound h v j ],
                λ h. complete (λ v j. h v (inr j)),
              )
        | inr f ↦
            rw (n, f, check_verbs)
              (
                λ h. absurd (ground arith),
                λ h. (let given = h verb (inl refl) in absurd (ground arith)),
              )
      ]
    ]

-- The check succeeds exactly if getting, listing and watching the kind of the rule is allowed at
-- the source, there is a client of the local cluster, and creating, patching, updating and deleting
-- the kind of the copies is allowed there.
pub pre_check_lem :
    (plural : String → String) (r : SyncReconciler) (review : Review) (local_review : Option Review)
    → (pre_check plural r review local_review ≡ none) ↔ (
        IsAllowed plural review r.gvk read_verbs
        × ((l : Review) × (local_review ≡ some l) × IsAllowed plural l r.local_gvk write_verbs))
unfolding pre_check write_pre_check
pre_check_lem plural r review none = (
  λ h. elim (Option-cases (check_verbs plural review r.gvk r.gvk read_verbs)) [
    | inl n ↦ absurd (ground arith)
    | inr (e, n) ↦ absurd (ground arith)
  ],
  λ (a, (l, e, b)). absurd (ground arith),
)
pre_check_lem plural r review (some l) =
    let (sound, complete) = check_verbs_lem plural review r.gvk r.gvk read_verbs in
    let (sound', complete') = check_verbs_lem plural l r.local_gvk r.gvk write_verbs in
    (
      λ h. elim (Option-cases (check_verbs plural review r.gvk r.gvk read_verbs)) [
        | inl n ↦ (sound n, (l, refl, sound' (rw n at h)))
        | inr (e, n) ↦ absurd (ground arith)
      ],
      λ (a, (m, e, b)). let same : l ≡ m = ground arith in rw (complete a) (complete' (rw same b)),
    )
