-- ===== src/Clusters/Manager/Client.antt =====
-- A sequence of calls of pkg/clusters/manager.go, beside a map from names to clusters.
use cluster_registry_control.Common.{
  ℕ, suc, String, ◌≡◌, refl, ap, ◌∙◌, inl, inr, ◌==◌, Option, none, some, List, [], ◌∷◌, arith, get,
  if◌then◌else◌, Bool-cases, Result, Result-cases, not_both, ok, err,
}
use cluster_registry_control.Clusters.Controller.{Error, cluster_not_found}
use cluster_registry_control.Clusters.Cluster.{Cluster}
use cluster_registry_control.Clusters.Manager.{Manager, get_cluster, new_manager}
use cluster_registry_control.Clusters.Manager.Registered.{
  IsRegistry, add_new, remove_named, get_cluster-add_new, heap-add_new, add_new-IsRegistry,
  get_cluster-remove_named, heap-remove_named, remove_named-IsRegistry,
}

-- The cluster that stands under a name.
abbrev cluster_behind : (ℕ → Cluster) → Result Error ℕ → Option Cluster
cluster_behind heap (ok h) = some (heap h)
cluster_behind heap (err x) = none

abbrev pub lookup : Manager → String → Option Cluster
lookup m name = cluster_behind m.heap (get_cluster name m)

-- A call of a client.
pub data Op : Type 0 where
  register : Cluster → Op
  unregister : String → Op

-- The calls, with the next pointer that is not in use.
unfoldable pub run : List Op → ℕ → Manager → ℕ × Manager
unfolding add_new remove_named
run [] next m = (next, m)
run (register c ∷ ops) next m = run ops (suc next) (add_new next c m)
run (unregister name ∷ ops) next m = run ops next (remove_named name m)

abbrev pub update : String → Option Cluster → (String → Option Cluster) → String → Option Cluster
update name o f j = if name == j then o else f j

-- The same calls, on a function.
pub replay : List Op → (String → Option Cluster) → String → Option Cluster
replay [] f = f
replay (register c ∷ ops) f = replay ops (update c.name (some c) f)
replay (unregister name ∷ ops) f = replay ops (update name none f)

lookup-found :
    (m : Manager) (name : String) {h : ℕ}
    → get_cluster name m ≡ ok h
    → lookup m name ≡ some (m.heap h)
lookup-found m name e = ap (cluster_behind m.heap) e

lookup-missing :
    (m : Manager) (name : String) {x : Error} → get_cluster name m ≡ err x → lookup m name ≡ none
lookup-missing m name e = ap (cluster_behind m.heap) e

lookup-add_new :
    (next : ℕ) (c : Cluster) (m : Manager)
    → IsRegistry next m
    → (j : String) → lookup (add_new next c m) j ≡ update c.name (some c) (lookup m) j
lookup-add_new next c m r j =
    let added = get_cluster-add_new next c m j in
    elim (Bool-cases (c.name == j)) [
      | inl t ↦
          lookup-found (add_new next c m) j (rw t at added)
          ∙ rw (t, heap-add_new next c m next) (ground arith)
      | inr f ↦ elim (Result-cases (get_cluster j m)) [
        | inl (h, e) ↦
            let below = (r j h e).1 in
            lookup-found (add_new next c m) j (rw f at added ∙ e)
            ∙ rw (heap-add_new next c m h, f, lookup-found m j e) (ground arith)
        | inr (x, e) ↦
            lookup-missing (add_new next c m) j (rw f at added ∙ e)
            ∙ rw (f, lookup-missing m j e) refl
      ]
    ]

lookup-remove_named :
    (next : ℕ) (name : String) (m : Manager)
    → IsRegistry next m
    → (j : String) → lookup (remove_named name m) j ≡ update name none (lookup m) j
lookup-remove_named next name m r j =
    let removed = get_cluster-remove_named next m r name j in
    elim (Bool-cases (name == j)) [
      | inl t ↦ lookup-missing (remove_named name m) j (rw t at removed) ∙ rw t refl
      | inr f ↦ elim (Result-cases (get_cluster j m)) [
        | inl (h, e) ↦
            lookup-found (remove_named name m) j (rw f at removed ∙ e)
            ∙ ap some (heap-remove_named next m r name j h f e)
            ∙ rw (f, lookup-found m j e) refl
        | inr (x, e) ↦
            lookup-missing (remove_named name m) j (rw f at removed ∙ e)
            ∙ rw (f, lookup-missing m j e) refl
      ]
    ]

run_refines :
    (ops : List Op) (next : ℕ) (m : Manager) (f : String → Option Cluster)
    → IsRegistry next m
    → ((j : String) → lookup m j ≡ f j)
    → let (next', m') = run ops next m in
      IsRegistry next' m' × ((j : String) → lookup m' j ≡ replay ops f j)
unfolding run replay
run_refines [] next m f r same = (r, same)
run_refines (register c ∷ ops) next m f r same =
    run_refines ops (suc next) (add_new next c m) (update c.name (some c) f)
      (add_new-IsRegistry next c m r)
      (λ j. lookup-add_new next c m r j ∙ ap (λ o. if c.name == j then some c else o) (same j))
run_refines (unregister name ∷ ops) next m f r same =
    run_refines ops next (remove_named name m) (update name none f)
      (remove_named-IsRegistry next m r name)
      (λ j. lookup-remove_named next name m r j ∙ ap (λ o. if name == j then none else o) (same j))

-- After any sequence of calls on a new registry, each of which adds a cluster behind a new pointer or
-- removes the cluster of a name, the registry reads as the same calls on a function from names to
-- clusters: a cluster is found under its name as it was added, whatever else was added or removed.
-- Every cluster that is found has the name under which it is found, and its pointer is in use.
pub run-new_manager_refines :
    (ops : List Op) (heap : ℕ → Cluster)
    → let (next, m) = run ops 0 (new_manager heap []) in
      IsRegistry next m × ((j : String) → lookup m j ≡ replay ops (λ name. none) j)
unfolding new_manager get_cluster get
run-new_manager_refines ops heap =
    run_refines ops 0 (new_manager heap []) (λ name. none)
      (λ name h e. absurd (not_both {x = cluster_not_found} e refl)) (λ j. refl)
