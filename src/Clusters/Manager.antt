-- ===== src/Clusters/Manager.antt =====
-- pkg/clusters/manager.go: the registry of the clusters. A pointer to a cluster is a number, and
-- `heap` is what it points to; the calls of the registered hooks are kept in a log. The lock makes
-- each method one step.
pub mod Laws
pub mod Registered
pub mod Client
use cluster_registry_control.Common.{
  ℕ, String, Bool, true, false, ◌==◌, Option, none, some, List, [], ◌∷◌, ◌++◌, Map, get, put,
  delete, has, Result, ok, err, nat_beq, if◌then◌else◌,
}
use cluster_registry_control.Clusters.Controller.{Error, cluster_not_found}
use cluster_registry_control.Clusters.Cluster.{Cluster, stop_cluster}

pub data Call : Type 0 where
  before_add after_add before_delete : ℕ → ℕ → Call  -- the hook, the cluster
  after_delete : ℕ → Call

pub record Manager : Type 0 where
  pub clusters : Map ℕ
  pub on_before_add_funcs : Map ℕ
  pub on_before_delete_funcs : Map ℕ
  pub on_after_add_funcs : Map ℕ
  pub on_after_delete_funcs : Map ℕ
  pub heap : ℕ → Cluster
  pub calls : List Call

-- `ids[0]` if there is one, else the time of the call.
abbrev pub hook_id : String → List String → String
hook_id now [] = now
hook_id now (id ∷ ids) = id

unfoldable pub add_on_before_add_func : String → ℕ → List String → Manager → Manager
add_on_before_add_func now f ids m = record m {
  on_before_add_funcs = put (hook_id now ids) f m.on_before_add_funcs;
}

unfoldable pub delete_on_before_add_func : String → Manager → Manager
delete_on_before_add_func id m = record m { on_before_add_funcs = delete id m.on_before_add_funcs }

unfoldable pub add_on_after_add_func : String → ℕ → List String → Manager → Manager
add_on_after_add_func now f ids m = record m {
  on_after_add_funcs = put (hook_id now ids) f m.on_after_add_funcs;
}

unfoldable pub delete_on_after_add_func : String → Manager → Manager
delete_on_after_add_func id m = record m { on_after_add_funcs = delete id m.on_after_add_funcs }

unfoldable pub add_on_before_delete_func : String → ℕ → List String → Manager → Manager
add_on_before_delete_func now f ids m = record m {
  on_before_delete_funcs = put (hook_id now ids) f m.on_before_delete_funcs;
}

unfoldable pub delete_on_before_delete_func : String → Manager → Manager
delete_on_before_delete_func id m = record m {
  on_before_delete_funcs = delete id m.on_before_delete_funcs;
}

unfoldable pub add_on_after_delete_func : String → ℕ → List String → Manager → Manager
add_on_after_delete_func now f ids m = record m {
  on_after_delete_funcs = put (hook_id now ids) f m.on_after_delete_funcs;
}

unfoldable pub delete_on_after_delete_func : String → Manager → Manager
delete_on_after_delete_func id m = record m {
  on_after_delete_funcs = delete id m.on_after_delete_funcs;
}

abbrev pub apply_options : List (Manager → Manager) → Manager → Manager
apply_options [] m = m
apply_options (opt ∷ options) m = apply_options options (opt m)

-- `NewManager`; the goroutine that it starts is `wait_for_stop`.
unfoldable pub new_manager : (ℕ → Cluster) → List (Manager → Manager) → Manager
new_manager heap options = apply_options options (record {
  clusters = [];
  on_before_add_funcs = [];
  on_before_delete_funcs = [];
  on_after_add_funcs = [];
  on_after_delete_funcs = [];
  heap = heap;
  calls = [];
})

unfoldable pub exists : String → Manager → Bool
exists name m = has name m.clusters

unfoldable pub get_cluster : String → Manager → Result Error ℕ
get_cluster name m = elim (get name m.clusters) [
  | none ↦ err cluster_not_found
  | some cluster ↦ ok cluster
]

-- The loop of `GetAliveClustersByID`.
unfoldable pub collect_alive : (ℕ → Cluster) → Map ℕ → Map ℕ → Map ℕ
collect_alive heap [] clusters = clusters
collect_alive heap ((name, h) ∷ rest) clusters =
    collect_alive heap rest
      (if (heap h).alive then put (heap h).cluster_id h clusters else clusters)

unfoldable pub get_alive_clusters_by_id : Manager → Map ℕ
unfolding collect_alive
get_alive_clusters_by_id m = collect_alive m.heap m.clusters []

-- The hooks of a map, called in turn.
abbrev pub run_hooks : (ℕ → Call) → Map ℕ → List Call
run_hooks call [] = []
run_hooks call ((id, f) ∷ rest) = call f ∷ run_hooks call rest

unfoldable pub add : ℕ → Manager → Manager
add cluster m =
    let m1 = record m {
      calls = m.calls ++ run_hooks (λ f. before_add f cluster) m.on_before_add_funcs;
    } in
    let m2 = record m1 { clusters = put (m1.heap cluster).name cluster m1.clusters } in
    record m2 { calls = m2.calls ++ run_hooks (λ f. after_add f cluster) m2.on_after_add_funcs }

-- A write through a pointer.
abbrev pub store : ℕ → Cluster → (ℕ → Cluster) → ℕ → Cluster
store h c heap j = if nat_beq h j then c else heap j

-- `none` is the nil pointer.
unfoldable pub remove : Option ℕ → Manager → Manager
unfolding stop_cluster
remove none m = m
remove (some cluster) m =
    if has (m.heap cluster).name m.clusters
    then (let name = (m.heap cluster).name in
        let m1 = record m {
          calls = m.calls ++ run_hooks (λ f. before_delete f cluster) m.on_before_delete_funcs;
        } in
        let m2 = record m1 { heap = store cluster (stop_cluster (m1.heap cluster)) m1.heap } in
        let m3 = record m2 { clusters = delete name m2.clusters } in
        record m3 { calls = m3.calls ++ run_hooks after_delete m3.on_after_delete_funcs })
    else m

unfoldable pub stop_all : Map ℕ → (ℕ → Cluster) → ℕ → Cluster
unfolding stop_cluster
stop_all [] heap = heap
stop_all ((name, h) ∷ rest) heap = stop_all rest (store h (stop_cluster (heap h)) heap)

-- What the goroutine does once the manager's context is done.
unfoldable pub wait_for_stop : Manager → Manager
unfolding stop_all
wait_for_stop m = record m { heap = stop_all m.clusters m.heap }
