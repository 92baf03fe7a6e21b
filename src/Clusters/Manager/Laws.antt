-- ===== src/Clusters/Manager/Laws.antt =====
-- The registry: what is found in it after it has changed, and which clusters are stopped.
use cluster_registry_control.Common.{
  ℕ, String, ◌≡◌, refl, sym, ap, ◌∙◌, ◌⊎◌, inl, inr, ◌≢◌, true, ◌==◌, some, [], ◌∷◌, ◌++◌, arith,
  eq_iff, Map, get, put, has, get-put, get-put_self, get-delete, In, if◌then◌else◌, Bool-cases, ok,
  err,
}
use cluster_registry_control.Clusters.Controller.{cluster_not_found}
use cluster_registry_control.Clusters.Cluster.{Cluster, cancelled, stop_cluster}
use cluster_registry_control.Clusters.Manager.{
  Manager, before_add, after_add, before_delete, after_delete, get_cluster, collect_alive,
  get_alive_clusters_by_id, run_hooks, add, store, remove, stop_all, wait_for_stop,
}

-- Looking a name up after a cluster was added gives that cluster under its own name, and what was
-- there before under any other name.
pub get_cluster-add :
    (cluster : ℕ) (m : Manager) (name : String)
    → get_cluster name (add cluster m)
      ≡ (if (m.heap cluster).name == name then ok cluster else get_cluster name m)
unfolding get_cluster add
get_cluster-add cluster m name =
    ground (arith, get-put (m.heap cluster).name name cluster m.clusters)

-- After the cluster that stands under its name is removed, its name is not found, every other name
-- is found as before, and the cluster's context is cancelled.
pub get_cluster-remove :
    (cluster : ℕ) (m : Manager) (name : String)
    → get_cluster (m.heap cluster).name m ≡ ok cluster
    → (get_cluster name (remove (some cluster) m)
        ≡ (if (m.heap cluster).name == name then err cluster_not_found else get_cluster name m))
      × (((remove (some cluster) m).heap cluster).ctx ≡ cancelled)
unfolding get_cluster remove
get_cluster-remove cluster m name h =
    (ground (arith, get-delete (m.heap cluster).name name m.clusters), ground arith)

-- A cluster whose name is not registered is left alone: no hook is called and it is not stopped.
pub remove_unknown :
    (cluster : ℕ) (m : Manager)
    → get_cluster (m.heap cluster).name m ≡ err cluster_not_found
    → remove (some cluster) m ≡ m
unfolding get_cluster remove
remove_unknown cluster m h = ground arith

-- When a cluster is added and then removed, the hooks are called once each, in the order of their
-- maps: those for before and after the addition, then those for before and after the deletion.
pub hooks_are_called :
    (cluster : ℕ) (m : Manager)
    → (remove (some cluster) (add cluster m)).calls
      ≡ (((m.calls ++ run_hooks (λ f. before_add f cluster) m.on_before_add_funcs)
            ++ run_hooks (λ f. after_add f cluster) m.on_after_add_funcs)
          ++ run_hooks (λ f. before_delete f cluster) m.on_before_delete_funcs)
        ++ run_hooks after_delete m.on_after_delete_funcs
unfolding add remove
hooks_are_called cluster m = ground (arith, get-put_self (m.heap cluster).name cluster m.clusters)

module _ (heap : ℕ → Cluster) where
  -- An alive cluster of the list, with the id under which it is collected.
  abbrev IsAliveIn : String → ℕ → Map ℕ → Type 0
  IsAliveIn id h cs =
      (n : String) × In (n, h) cs × ((heap h).alive ≡ true) × ((heap h).cluster_id ≡ id)

  collect_alive_sound :
      (cs acc : Map ℕ) (id : String) (h : ℕ)
      → get id (collect_alive heap cs acc) ≡ some h
      → IsAliveIn id h cs ⊎ (get id acc ≡ some h)
  unfolding collect_alive
  collect_alive_sound [] acc id h e = inr e
  collect_alive_sound ((n, k) ∷ cs) acc id h e = elim (Bool-cases (heap k).alive) [
    | inl a ↦ elim (collect_alive_sound cs (put (heap k).cluster_id k acc) id h (rw a at e)) [
      | inl w ↦ inl (w.0, inr w.1, w.2, w.3)
      | inr q ↦ elim (Bool-cases ((heap k).cluster_id == id)) [
        | inl same ↦
            let eq : k ≡ h = ground (arith, get-put (heap k).cluster_id id k acc) in
            inl (n, inl (rw eq), rw (← eq) a, (eq_iff _ _).0 (rw (← eq) same))
        | inr other ↦ inr (ground (arith, get-put (heap k).cluster_id id k acc))
      ]
    ]
    | inr a ↦ elim (collect_alive_sound cs acc id h (rw a at e)) [
      | inl w ↦ inl (w.0, inr w.1, w.2, w.3)
      | inr q ↦ inr q
    ]
  ]

  collect_alive-grows :
      (cs acc : Map ℕ) (id : String) → has id acc ≡ true → has id (collect_alive heap cs acc) ≡ true
  unfolding collect_alive
  collect_alive-grows [] acc id e = e
  collect_alive-grows ((n, k) ∷ cs) acc id e = ground (
    arith,
    collect_alive-grows cs acc id,
    collect_alive-grows cs (put (heap k).cluster_id k acc) id,
    get-put (heap k).cluster_id id k acc,
  )

  collect_alive_complete :
      (cs acc : Map ℕ) (n : String) (h : ℕ)
      → In (n, h) cs
      → (heap h).alive ≡ true
      → has (heap h).cluster_id (collect_alive heap cs acc) ≡ true
  unfolding collect_alive
  collect_alive_complete [] acc n h i a = absurd i
  collect_alive_complete ((m, k) ∷ cs) acc n h (inl e) a =
      let q : h ≡ k = ap (λ (p : String × ℕ). p.1) e in
      let ak : (heap k).alive ≡ true = rw q at a in
      let id = (heap k).cluster_id in
      rw (q, ak) (collect_alive-grows cs (put id k acc) id (rw (get-put_self id k acc) refl))
  collect_alive_complete ((m, k) ∷ cs) acc n h (inr i) a =
      collect_alive_complete cs (if (heap k).alive then put (heap k).cluster_id k acc else acc) n h
        i a

-- The map of alive clusters holds under an id only a registered cluster that is alive and has that
-- id, and it holds some cluster under the id of each registered cluster that is alive.
pub get_alive_clusters_by_id_lem :
    (m : Manager)
    → ((id : String) (h : ℕ)
        → get id (get_alive_clusters_by_id m) ≡ some h
        → (n : String) × In (n, h) m.clusters
          × ((m.heap h).alive ≡ true)
          × ((m.heap h).cluster_id ≡ id))
      × ((n : String) (h : ℕ)
          → In (n, h) m.clusters
          → (m.heap h).alive ≡ true
          → has (m.heap h).cluster_id (get_alive_clusters_by_id m) ≡ true)
unfolding get_alive_clusters_by_id get
get_alive_clusters_by_id_lem m = (
  λ id h e. elim (collect_alive_sound m.heap m.clusters [] id h e) [ inl w ↦ w | inr q ↦ cc ],
  λ n h i a. collect_alive_complete m.heap m.clusters [] n h i a,
)

store-ctx :
    (k : ℕ) (heap : ℕ → Cluster) (h : ℕ)
    → (heap h).ctx ≡ cancelled
    → (store k (stop_cluster (heap k)) heap h).ctx ≡ cancelled
unfolding stop_cluster
store-ctx k heap h e = ground arith

stop_all-keeps :
    (cs : Map ℕ) (heap : ℕ → Cluster) (h : ℕ)
    → (heap h).ctx ≡ cancelled
    → (stop_all cs heap h).ctx ≡ cancelled
unfolding stop_all
stop_all-keeps [] heap h e = e
stop_all-keeps ((n, k) ∷ cs) heap h e =
    stop_all-keeps cs (store k (stop_cluster (heap k)) heap) h (store-ctx k heap h e)

stop_all-stops :
    (cs : Map ℕ) (heap : ℕ → Cluster) (n : String) (h : ℕ)
    → In (n, h) cs
    → (stop_all cs heap h).ctx ≡ cancelled
unfolding stop_all stop_cluster
stop_all-stops [] heap n h i = absurd i
stop_all-stops ((m, k) ∷ cs) heap n h (inl e) =
    let q : k ≡ h = sym (ap (λ (p : String × ℕ). p.1) e) in
    stop_all-keeps cs (store k (stop_cluster (heap k)) heap) h (ground arith)
stop_all-stops ((m, k) ∷ cs) heap n h (inr i) =
    stop_all-stops cs (store k (stop_cluster (heap k)) heap) n h i

stop_all-others :
    (cs : Map ℕ) (heap : ℕ → Cluster) (h : ℕ)
    → ((n : String) → ¬ In (n, h) cs)
    → stop_all cs heap h ≡ heap h
unfolding stop_all
stop_all-others [] heap h out = refl
stop_all-others ((m, k) ∷ cs) heap h out =
    let differ : k ≢ h = λ q. out m (inl (ap {B = String × ℕ} (λ j. (m, j)) (sym q))) in
    stop_all-others cs (store k (stop_cluster (heap k)) heap) h (λ n i. out n (inr i))
    ∙ ground arith

-- When the manager's context is done, every registered cluster is stopped, and no other cluster is
-- touched.
pub wait_for_stop_lem :
    (m : Manager)
    → ((n : String) (h : ℕ) → In (n, h) m.clusters → ((wait_for_stop m).heap h).ctx ≡ cancelled)
      × ((h : ℕ) → ((n : String) → ¬ In (n, h) m.clusters) → (wait_for_stop m).heap h ≡ m.heap h)
unfolding wait_for_stop
wait_for_stop_lem m = (stop_all-stops m.clusters m.heap, stop_all-others m.clusters m.heap)
