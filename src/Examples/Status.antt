-- ===== src/Examples/Status.antt =====
-- The conditions of a cluster, and its status.
use cluster_registry_control.Common.{
  String, ◌≡◌, refl, inl, ◌↔◌, true, false, ◌&&◌, ◌==◌, none, some, [], ◌∷◌, Map, In,
}
use cluster_registry_control.Api.Cluster.{
  ClusterCondition, ClusterResource, no_metadata, local_type, ready_state,
}
use cluster_registry_control.Controllers.Conditions.{no_condition, clusters_synced}
use cluster_registry_control.Controllers.Status.{
  Problem, reconciling, StatusApi, accepted, update_cluster, update_cluster_status, set_status,
  conditions_to_write,
}
use cluster_registry_control.Controllers.Status.Writes.{update_cluster_lem}

abbrev is_ready : ClusterCondition
is_ready = record no_condition { type = "Ready"; status = "True"; last_transition_time = 3 }

abbrev is_not_ready : ClusterCondition
is_not_ready = record no_condition {
  type = "Ready";
  status = "False";
  reason = "ClusterIsNotReady";
}

abbrev synced : ClusterCondition
synced = record no_condition { type = "ClustersSynced"; status = "True" }

abbrev was_ready : Map ClusterCondition
was_ready = ("Ready", is_ready) ∷ ("ClustersSynced", synced) ∷ []

abbrev here : ClusterResource
here = record {
  uid = "u1";
  name = "here";
  namespace = "";
  resource_version = "5";
  annotations = [];
  spec = record { cluster_id = "id"; secret_name = ""; secret_namespace = ""; endpoints = [] };
  status = record {
    state = "Ready";
    message = "";
    type = "Local";
    leader = false;
    metadata = no_metadata;
    conditions = is_ready ∷ synced ∷ [];
  };
}

-- A server that accepts every status.
abbrev accepting : StatusApi
accepting = record { update = λ c. accepted c; get_version = λ name. none }

abbrev lost : Problem
lost = record { text = "lost"; permanent = false }

-- What is written of `here`.
abbrev written : ClusterResource
written = record here {
  status = record here.status { state = "Failed"; message = "lost"; conditions = is_ready ∷ [] };
}

update_cluster_example :
    ((c : ClusterCondition)
      → In c (is_ready ∷ []) ↔ (
          (t : String) × In (t, c) was_ready
          × ((here.status.type == local_type && c.type == clusters_synced) ≡ false)))
    × ((true && written.status.state == ready_state) ≡ false)
    × (written.status.message ≡ "lost")
    × ((update_cluster accepting (some lost) was_ready here).2 ≡ some (reconciling lost))
unfolding update_cluster update_cluster_status set_status conditions_to_write
update_cluster_example = update_cluster_lem accepting (some lost) was_ready here written (inl refl)
