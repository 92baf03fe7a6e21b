-- ===== src/Controllers/Sync/Reconcile/Runs.antt =====
-- Runs of the reconciler: what it deletes and what it writes.
use cluster_registry_control.Common.{
  String, ◌≡◌, refl, ap, ◌∙◌, ◌↔◌, ◌⊎◌, inl, inr, ◌≢◌, true, false, ◌||◌, ◌==◌, none, some, List,
  [], ◌∷◌, arith, eq_iff, In, if◌then◌else◌, Bool-cases, Option-cases, ok, Result-cases,
}
use cluster_registry_control.Api.Object.{Object, Machinery}
use cluster_registry_control.Api.Rules.{SyncRule, MatchError, match_spec}
use cluster_registry_control.Api.Rules.Matching.{match_spec-error}
use cluster_registry_control.Controllers.Sync.{SyncReconciler, is_owned_by_another_alive_cluster}
use cluster_registry_control.Controllers.Sync.Ownership.{IsOther, not-IsOther, owner_of}
use cluster_registry_control.Controllers.Sync.Mutate.{Patching, mutate_object}
use cluster_registry_control.Controllers.Sync.Reconcile.{
  Found, found, not_found, failed, no_requeue, Action, deletes, reconciles, Servers, find_local,
  delete_resource, finish, write_object, limit_rate, check_namespace, sync_matched, sync_object,
  reconcile,
}

Found-cases :
    {A : Type 0} (f : Found A) → (f ≡ not_found) ⊎ ((f ≡ failed) ⊎ ((a : A) × (f ≡ found a)))
Found-cases (found a) = inr (inr (a, refl))
Found-cases not_found = inl refl
Found-cases failed = inr (inl refl)

module _ (a : Servers) (r : SyncReconciler) (obj : Object) where
  delete_resource-actions :
      (current : Object)
      → find_local a r obj ≡ ok (some current)
      → (delete_resource a r obj).0 ≡ (
          if owner_of current == "" || is_owned_by_another_alive_cluster r (owner_of current)
          then []
          else deletes current ∷ [])
  unfolding delete_resource
  delete_resource-actions current h = ground arith

  delete_resource-nothing :
      (act : Action)
      → ((current : Object) → find_local a r obj ≢ ok (some current))
      → ¬ In act (delete_resource a r obj).0
  unfolding delete_resource
  delete_resource-nothing act h i = elim (Result-cases (find_local a r obj)) [
    | inr (e, q) ↦ absurd (rw (q, delete_resource) at i)
    | inl (o, q) ↦ elim (Option-cases o) [
      | inl n ↦ absurd (ground arith)
      | inr (current, n) ↦ absurd (h current (q ∙ ap ok n))
    ]
  ]

  -- The local object that a deletion may remove.
  abbrev pub MayDelete : Object → Type 0
  MayDelete current =
      (find_local a r obj ≡ ok (some current))
      × (owner_of current ≢ "")
      × (¬ IsOther r (owner_of current))

  delete_resource_sound :
      (act : Action)
      → In act (delete_resource a r obj).0
      → (current : Object) × (act ≡ deletes current) × MayDelete current
  delete_resource_sound act i = elim (Result-cases (find_local a r obj)) [
    | inr (e, q) ↦ absurd (delete_resource-nothing act (λ c p. cc) i)
    | inl (o, q) ↦ elim (Option-cases o) [
      | inl n ↦ absurd (delete_resource-nothing act (λ c p. cc) i)
      | inr (current, n) ↦
          let here : find_local a r obj ≡ ok (some current) = q ∙ ap ok n in
          let j = rw (delete_resource-actions current here) at i in
          let test = is_owned_by_another_alive_cluster r (owner_of current) in
          elim (Bool-cases (owner_of current == "" || test)) [
            | inl no_delete ↦ absurd (rw no_delete at j)
            | inr do_delete ↦ (
              current,
              elim (rw do_delete at j) [ inl e ↦ e | inr f ↦ absurd f ],
              (
                here,
                ground (arith, eq_iff (owner_of current) ""),
                (not-IsOther r (owner_of current)).0 (ground arith),
              ),
            )
          ]
    ]
  ]

  -- A deletion is asked for exactly when the local object that stands for the removed one is found,
  -- names an owner, and that owner is not another cluster that is alive. Nothing else is asked for.
  pub delete_resource_iff :
      (act : Action)
      → In act (delete_resource a r obj).0
        ↔ ((current : Object) × (act ≡ deletes current) × MayDelete current)
  delete_resource_iff act = (
    delete_resource_sound act,
    λ w.
        let other = (not-IsOther r (owner_of w.0)).1 w.2.2 in
        let named : (owner_of w.0 == "") ≡ false =
          ground (arith, eq_iff (owner_of w.0) "", w.2.1) in
        rw (delete_resource-actions w.0 w.2.0, named, other) (inl w.1),
  )

module _ (k : Machinery) (a : Servers) (r : SyncReconciler) where
  write_object-writes :
      (rules : List SyncRule) (copy o : Object)
      → In (reconciles o) (write_object a r k rules copy).0
      → o ≡ copy
  unfolding write_object finish
  write_object-writes rules copy o i = ground arith

  limit_rate-writes :
      (namespace name : String) (rules : List SyncRule) (copy o : Object)
      → In (reconciles o) (limit_rate a r k namespace name rules copy).0
      → o ≡ copy
  unfolding limit_rate
  limit_rate-writes namespace name rules copy o i = ground (arith, write_object-writes rules copy o)

  check_namespace-writes :
      (namespace name : String) (rules : List SyncRule) (copy o : Object)
      → In (reconciles o) (check_namespace a r k namespace name rules copy).0
      → (o ≡ copy) × ((copy.namespace ≡ "") ⊎ (a.get_namespace copy.namespace ≡ found tt))
  unfolding check_namespace
  check_namespace-writes namespace name rules copy o i =
      ground (arith, limit_rate-writes namespace name rules copy o, eq_iff copy.namespace "")

module _ (k : Machinery) (e : Patching) (a : Servers) (r : SyncReconciler) where
  -- An object that cannot be matched because of an error is passed over: nothing is asked for, no
  -- error is returned, and the request is not queued again.
  pub match_error_is_swallowed :
      (namespace name : String) (obj : Object) (m : MatchError)
      → (match_spec k r.rule obj).2 ≡ some m
      → sync_object k e a namespace name r obj ≡ (r, ([], ok no_requeue))
  unfolding sync_object
  match_error_is_swallowed namespace name obj m h = ground (arith, match_spec-error k r.rule obj m)

  -- Why an object is written: the object at the source, the rules that matched it, and the state
  -- and copy that the rules make of it.
  pub record IsSynced (namespace name : String) (o : Object) : Type 0 where
    pub source : Object
    pub rules : List SyncRule
    pub state : SyncReconciler
    pub is_found : a.get_remote namespace name ≡ found source
    pub is_live : source.deletion_timestamp_is_zero ≡ true
    pub is_matched : match_spec k r.rule source ≡ (true, rules, none)
    pub is_copy : mutate_object k e r source rules ≡ ok (state, o)
    pub has_namespace : (o.namespace ≡ "") ⊎ (a.get_namespace o.namespace ≡ found tt)

  -- The three ways out of a sync.
  sync_object-unmatched :
      (namespace name : String) (obj : Object)
      → (match_spec k r.rule obj).0 ≡ false
      → (sync_object k e a namespace name r obj).1.0 ≡ []
  unfolding sync_object
  sync_object-unmatched namespace name obj h = ground arith

  sync_object-matched :
      (namespace name : String) (obj : Object)
      → (match_spec k r.rule obj).0 ≡ true
      → (match_spec k r.rule obj).2 ≡ none
      → sync_object k e a namespace name r obj
        ≡ sync_matched k e a namespace name r obj (match_spec k r.rule obj).1
  unfolding sync_object
  sync_object-matched namespace name obj t n = ground arith

  sync_matched-writes :
      (namespace name : String) (obj : Object) (rules : List SyncRule) (o : Object)
      → In (reconciles o) (sync_matched k e a namespace name r obj rules).1.0
      → (state : SyncReconciler) × (mutate_object k e r obj rules ≡ ok (state, o))
        × ((o.namespace ≡ "") ⊎ (a.get_namespace o.namespace ≡ found tt))
  unfolding sync_matched
  sync_matched-writes namespace name obj rules o i =
      elim (Result-cases (mutate_object k e r obj rules)) [
        | inr (f, m) ↦ absurd (rw (m, sync_matched) at i)
        | inl ((state, copy), m) ↦
            let j = rw (m, sync_matched) at i in
            let (same, there) = check_namespace-writes k a state namespace name rules copy o j in
            (state, rw same m, rw same there)
      ]

  -- What a match answers: with `true` there is no error.
  match_spec-cases :
      (obj : Object)
      → ((match_spec k r.rule obj).0 ≡ false)
        ⊎ (((match_spec k r.rule obj).0 ≡ true) × ((match_spec k r.rule obj).2 ≡ none))
  match_spec-cases obj = elim (Option-cases (match_spec k r.rule obj).2) [
    | inr (m, q) ↦ inl (match_spec-error k r.rule obj m q)
    | inl q ↦ elim (Bool-cases (match_spec k r.rule obj).0) [ inr f ↦ inl f | inl t ↦ inr (t, q) ]
  ]

  sync_object-writes :
      (namespace name : String) (obj o : Object)
      → a.get_remote namespace name ≡ found obj
      → obj.deletion_timestamp_is_zero ≡ true
      → In (reconciles o) (sync_object k e a namespace name r obj).1.0
      → IsSynced namespace name o
  sync_object-writes namespace name obj o there live i = elim (match_spec-cases obj) [
    | inl h ↦ absurd (rw (sync_object-unmatched namespace name obj h) at i)
    | inr (t, n) ↦
        let rules = (match_spec k r.rule obj).1 in
        let j = rw (sync_object-matched namespace name obj t n) at i in
        let (state, m, there') = sync_matched-writes namespace name obj rules o j in
        record {
          source = obj;
          rules = rules;
          state = state;
          is_found = there;
          is_live = live;
          is_matched = λ i. (t i, rules, n i);
          is_copy = m;
          has_namespace = there';
        }
  ]

  delete_resource-writes : (obj o : Object) → ¬ In (reconciles o) (delete_resource a r obj).0
  delete_resource-writes obj o i =
      let w = (delete_resource_iff a r obj (reconciles o)).0 i in cc (w.1)

  reconcile-live :
      (blank : Object) (namespace name : String) (obj : Object)
      → a.get_remote namespace name ≡ found obj
      → obj.deletion_timestamp_is_zero ≡ true
      → reconcile k e a blank namespace name r ≡ sync_object k e a namespace name r obj
  unfolding reconcile
  reconcile-live blank namespace name obj h live = ground arith

  reconcile-deleting :
      (blank : Object) (namespace name : String)
      → ((a.get_remote namespace name ≡ not_found)
          ⊎ ((obj : Object) × (a.get_remote namespace name ≡ found obj)
              × (obj.deletion_timestamp_is_zero ≡ false)))
      → (obj : Object) × (reconcile k e a blank namespace name r ≡ (r, delete_resource a r obj))
  unfolding reconcile
  reconcile-deleting blank namespace name (inl h) = (blank, ground arith)
  reconcile-deleting blank namespace name (inr (obj, h, dying)) = (obj, ground arith)

  -- An object is written to the local cluster only as the copy that the matched rules make of an
  -- object that was just read at the source, is not being deleted there and is matched by the rule,
  -- and only if the copy is cluster-wide or its namespace exists in the local cluster.
  pub reconcile_writes_copies :
      (blank : Object) (namespace name : String) (o : Object)
      → In (reconciles o) (reconcile k e a blank namespace name r).1.0
      → IsSynced namespace name o
  unfolding reconcile
  reconcile_writes_copies blank namespace name o i =
      elim (Found-cases (a.get_remote namespace name)) [
        | inl h ↦ deleting (inl h)
        | inr (inl h) ↦ absurd (rw (h, reconcile) at i)
        | inr (inr (obj, h)) ↦ elim (Bool-cases obj.deletion_timestamp_is_zero) [
          | inl live ↦
              sync_object-writes namespace name obj o h live
                (rw (reconcile-live blank namespace name obj h live) at i)
          | inr dying ↦ deleting (inr (obj, h, dying))
        ]
      ]
    where
      deleting :
          (a.get_remote namespace name ≡ not_found)
            ⊎ ((obj : Object) × (a.get_remote namespace name ≡ found obj)
                × (obj.deletion_timestamp_is_zero ≡ false))
          → IsSynced namespace name o
      deleting w =
          let (obj, q) = reconcile-deleting blank namespace name w in
          absurd (delete_resource-writes obj o (rw q at i))
