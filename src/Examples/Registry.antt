-- ===== src/Examples/Registry.antt =====
-- The registry of clusters, and kinds as texts.
use cluster_registry_control.Common.{ℕ, zero, suc, ◌≡◌, refl, [], ◌∷◌, put}
use cluster_registry_control.Examples.Samples.{fresh, busy, codes}
use cluster_registry_control.Clusters.Cluster.{Cluster}
use cluster_registry_control.Clusters.Manager.{
  Manager, before_add, after_add, get_alive_clusters_by_id, add,
}
use cluster_registry_control.Util.Gvk.{TextGvk, gvk_to_string}

abbrev two : ℕ → Cluster
two zero = busy
two (suc h) = record fresh { name = "c2" }

-- The cluster 0 is registered as "c1".
abbrev one_cluster : Manager
one_cluster = record {
  clusters = ("c1", 0) ∷ [];
  on_before_add_funcs = ("a", 1) ∷ [];
  on_before_delete_funcs = [];
  on_after_add_funcs = ("b", 2) ∷ [];
  on_after_delete_funcs = ("d", 3) ∷ [];
  heap = two;
  calls = [];
}

registry_test :
    (get_alive_clusters_by_id (add 1 one_cluster) ≡ ("u1", 0) ∷ [])
    × ((add 1 one_cluster).calls ≡ before_add 1 1 ∷ after_add 2 1 ∷ [])
unfolding get_alive_clusters_by_id add put
registry_test = (refl, refl)

abbrev deployment : TextGvk
deployment = record { group = codes "apps"; version = codes "v1"; kind = codes "Deployment" }

deployment_text : gvk_to_string deployment ≡ codes "Deployment.apps/v1"
unfolding gvk_to_string
deployment_text = refl
