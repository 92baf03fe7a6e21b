-- ===== src/Clusters/Manager/Registered.antt =====
-- The invariant of the registry: clusters stand under their own names, each behind a pointer of its
-- own.
use mathlib.Core.Path.{subst}
use cluster_registry_control.Common.{
  ℕ, suc, String, ◌≡◌, refl, sym, ap, ◌∙◌, ◌<◌, inl, inr, false, ◌==◌, some, arith, eq_iff, get,
  get-put, get-delete, nat_beq, if◌then◌else◌, Bool-cases, Option-cases, Result-cases, ok_eq,
  not_both, ok, err,
}
use cluster_registry_control.Clusters.Controller.{Error, cluster_not_found}
use cluster_registry_control.Clusters.Cluster.{Cluster, stop_cluster}
use cluster_registry_control.Clusters.Manager.{Manager, get_cluster, add, store, remove}

-- A cluster that is found has the name under which it is found, and its pointer is in use.
abbrev pub IsRegistry : ℕ → Manager → Type 0
IsRegistry next m =
    (name : String) (h : ℕ) → get_cluster name m ≡ ok h → ((m.heap h).name ≡ name) × (h < next)

-- A cluster behind a new pointer is added.
unfoldable pub add_new : ℕ → Cluster → Manager → Manager
add_new next c m = add next (record m { heap = store next c m.heap })

-- The cluster of a name is removed, if there is one.
unfoldable pub remove_named : String → Manager → Manager
remove_named name m = elim (get_cluster name m) [ err x ↦ m | ok h ↦ remove (some h) m ]

pub get_cluster-add_new :
    (next : ℕ) (c : Cluster) (m : Manager) (name : String)
    → get_cluster name (add_new next c m) ≡ (if c.name == name then ok next else get_cluster name m)
unfolding add_new get_cluster add
get_cluster-add_new next c m name = ground (arith, get-put c.name name next m.clusters)

pub heap-add_new :
    (next : ℕ) (c : Cluster) (m : Manager) (h : ℕ)
    → (add_new next c m).heap h ≡ (if nat_beq next h then c else m.heap h)
unfolding add_new add
heap-add_new next c m h = refl

get_cluster-remove_found :
    (h : ℕ) (m : Manager) (name : String)
    → get_cluster (m.heap h).name m ≡ ok h
    → get_cluster name (remove (some h) m)
      ≡ (if (m.heap h).name == name then err cluster_not_found else get_cluster name m)
unfolding get_cluster remove
get_cluster-remove_found h m name e = ground (arith, get-delete (m.heap h).name name m.clusters)

heap-remove : (h : ℕ) (m : Manager) (j : ℕ) → ((remove (some h) m).heap j).name ≡ (m.heap j).name
unfolding remove stop_cluster
heap-remove h m j = ground arith

heap-remove_other :
    (h : ℕ) (m : Manager) (j : ℕ) → nat_beq h j ≡ false → (remove (some h) m).heap j ≡ m.heap j
unfolding remove
heap-remove_other h m j e = ground arith

pub get_cluster-missing :
    (name : String) (m : Manager) {x : Error}
    → get_cluster name m ≡ err x
    → get_cluster name m ≡ err cluster_not_found
unfolding get_cluster
get_cluster-missing name m e = elim (Option-cases (get name m.clusters)) [
  | inl n ↦ rw (n, get_cluster) refl
  | inr (h, n) ↦ absurd (not_both {a = h} (rw (n, get_cluster) refl) e)
]

pub add_new-IsRegistry :
    (next : ℕ) (c : Cluster) (m : Manager)
    → IsRegistry next m
    → IsRegistry (suc next) (add_new next c m)
add_new-IsRegistry next c m r name h e =
    let read = sym (get_cluster-add_new next c m name) ∙ e in
    elim (Bool-cases (c.name == name)) [
      | inl t ↦
          let is_new : next ≡ h = ok_eq refl (rw t at read) in
          rw (heap-add_new next c m h) (ground (arith, (eq_iff c.name name).0 t))
      | inr f ↦
          let (named, below) = r name h (rw f at read) in
          rw (heap-add_new next c m h) (ground (arith, named))
    ]

-- What removing a cluster that is found leaves.
module _ (next : ℕ) (m : Manager) (r : IsRegistry next m) (name : String) (h : ℕ)
    (e : get_cluster name m ≡ ok h) where
  pub get_cluster-remove_of :
      (j : String)
      → get_cluster j (remove (some h) m)
        ≡ (if name == j then err cluster_not_found else get_cluster j m)
  get_cluster-remove_of j =
      let named : (m.heap h).name ≡ name = (r name h e).0 in
      rw named at (get_cluster-remove_found h m j (rw named e))

  pub remove-IsRegistry : IsRegistry next (remove (some h) m)
  remove-IsRegistry j k q = elim (Bool-cases (name == j)) [
    | inl t ↦ absurd (not_both {x = cluster_not_found} q (get_cluster-remove_of j ∙ rw t refl))
    | inr f ↦
        let (named, below) = r j k (sym (rw f at (get_cluster-remove_of j)) ∙ q) in
        (heap-remove h m k ∙ named, below)
  ]

module _ (next : ℕ) (m : Manager) (r : IsRegistry next m) (name : String) where
  pub get_cluster-remove_named :
      (j : String)
      → get_cluster j (remove_named name m)
        ≡ (if name == j then err cluster_not_found else get_cluster j m)
  unfolding remove_named
  get_cluster-remove_named j = elim (Result-cases (get_cluster name m)) [
    | inl (h, e) ↦ rw (e, remove_named) (get_cluster-remove_of next m r name h e j)
    | inr (x, e) ↦ elim (Bool-cases (name == j)) [
      | inl t ↦
          rw (e, t, remove_named)
            (subst (λ k. get_cluster k m ≡ err cluster_not_found) ((eq_iff name j).0 t)
              (get_cluster-missing name m e))
      | inr f ↦ rw (e, f, remove_named) refl
    ]
  ]

  -- Another cluster is behind another pointer, so that it is left alone.
  pub heap-remove_named :
      (j : String) (h : ℕ)
      → (name == j) ≡ false
      → get_cluster j m ≡ ok h
      → (remove_named name m).heap h ≡ m.heap h
  unfolding remove_named
  heap-remove_named j h f e = elim (Result-cases (get_cluster name m)) [
    | inl (g, q) ↦
        rw (q, remove_named)
          (elim (Bool-cases (nat_beq g h)) [
            | inl t ↦
                let same : g ≡ h = ground arith in
                let names : name ≡ j =
                  sym (r name g q).0 ∙ ap (λ k. (m.heap k).name) same ∙ (r j h e).0 in
                absurd (ground (arith, eq_iff name j))
            | inr d ↦ heap-remove_other g m h d
          ])
    | inr (x, q) ↦ rw (q, remove_named) refl
  ]

  pub remove_named-IsRegistry : IsRegistry next (remove_named name m)
  unfolding remove_named
  remove_named-IsRegistry = elim (Result-cases (get_cluster name m)) [
    | inl (h, e) ↦ rw (e, remove_named) (remove-IsRegistry next m r name h e)
    | inr (x, e) ↦ rw (e, remove_named) r
  ]
