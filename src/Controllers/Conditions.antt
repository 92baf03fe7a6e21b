-- ===== src/Controllers/Conditions.antt =====
-- controllers/cluster_conditions.go: the conditions in the status of a cluster. The events that are
-- recorded are returned in a list.
pub mod Transitions
use cluster_registry_control.Common.{
  ℕ, String, Bool, true, false, not, ◌&&◌, ◌||◌, ◌==◌, Option, none, some, List, [], ◌∷◌, Map, get,
  put, nat_beq, if◌then◌else◌,
}
use cluster_registry_control.Api.Cluster.{ClusterCondition, ClusterResource}

abbrev pub local_cluster : String
local_cluster = "LocalCluster"

abbrev pub local_conflict : String
local_conflict = "LocalConflict"

abbrev pub cluster_metadata_set : String
cluster_metadata_set = "ClusterMetadataSet"

abbrev pub ready_condition : String
ready_condition = "Ready"

abbrev pub clusters_synced : String
clusters_synced = "ClustersSynced"

-- An event of the recorder; `warning` is its type.
pub record Event : Type 0 where
  pub warning : Bool
  pub reason : String
  pub message : String

abbrev pub is_failure : ClusterCondition → Bool
is_failure c =
    (c.true_is_failure && c.status == "True") || (not c.true_is_failure && c.status == "False")

-- The condition that stands already, brought up to date, and the event of a change of its status.
unfoldable pub renew : ℕ → ClusterCondition → ClusterCondition → ClusterCondition × List Event
renew now condition current =
    let changed = not (current.status == condition.status) in
    (
      record current {
        last_transition_time = if changed then now else current.last_transition_time;
        message = condition.message;
        reason = condition.reason;
        status = condition.status;
      },
      if changed
          then record {
            warning = is_failure condition;
            reason = condition.reason;
            message = condition.message;
          }
            ∷ []
          else [],
    )

-- The two times that are set at the end.
unfoldable pub stamp : ℕ → ℕ → ClusterCondition → ClusterCondition
stamp now later c = record c {
  last_transition_time = if nat_beq c.last_transition_time 0 then now else c.last_transition_time;
  last_heartbeat_time = later;
}

-- `SetCondition`: `now` is read for the transition, and `later` for the heartbeat.
unfoldable pub set_condition :
    ℕ → ℕ → ClusterCondition → Map ClusterCondition → Map ClusterCondition × List Event
unfolding renew stamp
set_condition now later condition m = elim (get condition.type m) [
  | none ↦ (put condition.type (stamp now later condition) m, [])
  | some current ↦
      let (renewed, events) = renew now condition current in
      (put condition.type (stamp now later renewed) m, events)
]

-- The loop of `GetCurrentConditions`.
unfoldable pub collect_conditions :
    List ClusterCondition → Map ClusterCondition → Map ClusterCondition
collect_conditions [] m = m
collect_conditions (c ∷ cs) m = collect_conditions cs (put c.type c m)

unfoldable pub get_current_conditions : ClusterResource → Map ClusterCondition
unfolding collect_conditions
get_current_conditions cluster = collect_conditions cluster.status.conditions []

abbrev pub no_condition : ClusterCondition
no_condition = record {
  type = "";
  status = "";
  last_heartbeat_time = 0;
  last_transition_time = 0;
  reason = "";
  message = "";
  true_is_failure = false;
}

-- The loop of `GetCurrentCondition`.
unfoldable pub first_condition : String → List ClusterCondition → ClusterCondition
first_condition t [] = no_condition
first_condition t (c ∷ cs) = let later = first_condition t cs in if c.type == t then c else later

unfoldable pub get_current_condition : ClusterResource → String → ClusterCondition
unfolding first_condition
get_current_condition cluster t = first_condition t cluster.status.conditions

unfoldable pub local_cluster_condition : Bool → ClusterCondition
local_cluster_condition is_cluster_local =
    if is_cluster_local
    then record no_condition {
      type = local_cluster;
      reason = "ClusterIsLocal";
      message = "cluster is local";
      status = "True";
    }
    else record no_condition {
      type = local_cluster;
      reason = "ClusterIsNotLocal";
      message = "cluster is not local";
      status = "False";
    }

unfoldable pub local_cluster_conflict_condition : Bool → ClusterCondition
local_cluster_conflict_condition conflict =
    if conflict
    then record no_condition {
      type = local_conflict;
      true_is_failure = true;
      reason = "LocalClusterIsConflicting";
      message = "multiple local clusters are defined";
      status = "True";
    }
    else record no_condition {
      type = local_conflict;
      true_is_failure = true;
      reason = "LocalClusterIsNotConflicting";
      message = "only one local cluster is defined";
      status = "False";
    }

-- An error is its text.
unfoldable pub cluster_metadata_condition : Option String → ClusterCondition
cluster_metadata_condition none = record no_condition {
  type = cluster_metadata_set;
  reason = "ClusterMetadataSet";
  message = "cluster metadata is set";
  status = "True";
}
cluster_metadata_condition (some error) = record no_condition {
  type = cluster_metadata_set;
  reason = "ClusterMetadataIsNotSet";
  message = error;
  status = "False";
}

unfoldable pub cluster_ready_condition : Option String → ClusterCondition
cluster_ready_condition none = record no_condition {
  type = ready_condition;
  reason = "ClusterIsReady";
  message = "cluster is ready";
  status = "True";
}
cluster_ready_condition (some error) = record no_condition {
  type = ready_condition;
  reason = "ClusterIsNotReady";
  message = error;
  status = "False";
}

unfoldable pub clusters_synced_condition : Option String → ClusterCondition
clusters_synced_condition none = record no_condition {
  type = clusters_synced;
  reason = "ClustersAreSynced";
  message = "all participating clusters are in sync";
  status = "True";
}
clusters_synced_condition (some error) = record no_condition {
  type = clusters_synced;
  reason = "ClustersAreNotSynced";
  message = error;
  status = "False";
}
