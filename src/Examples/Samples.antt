-- ===== src/Examples/Samples.antt =====
-- Data that the tests share.
use Prim.Native.Char.{code}
use cluster_registry_control.Common.{
  ℕ, String, ◌≡◌, ◌↔◌, eq_iff, arith, Bool, true, false, ◌==◌, ◌&&◌, Option, none, some, List, [],
  ◌∷◌, Map, index, is_empty, if◌then◌else◌,
}
use cluster_registry_control.Api.Selector.{LabelSelector, Selectors}
use cluster_registry_control.Api.Object.{GroupVersionKind, Object, Value, pos, Machinery}
use cluster_registry_control.Api.Rules.{
  str_val, SyncRuleMatch, Mutations, SyncRule, ResourceSyncRuleSpec,
}
use cluster_registry_control.Clusters.Feature.{ClusterFeature, ClusterFeatureRequirement}
use cluster_registry_control.Clusters.Controller.{ManagedController}
use cluster_registry_control.Clusters.Cluster.{Cluster, live}

-- The code points of a text.
abbrev pub codes : String → List ℕ
codes String.[] = []
codes (String.◌∷◌ c s) = code c ∷ codes s

-- A selector that asks for equal labels, and is not valid if it has expressions.
abbrev pub equal_labels : Map String → Map String → Bool
equal_labels [] labels = true
equal_labels ((k, v) ∷ wanted) labels = index k labels == v && equal_labels wanted labels

abbrev pub select_equal : LabelSelector → Option (Map String → Bool)
select_equal s = if is_empty s.match_expressions then some (equal_labels s.match_labels) else none

abbrev pub equality_selectors : Selectors
equality_selectors = record { as_selector = select_equal }

abbrev pub gpu : ClusterFeature
gpu = record { uid = "/gpu"; name = "gpu"; labels = ("tier", "gold") ∷ [] }

abbrev pub plain_gpu : ClusterFeature
plain_gpu = record { uid = "/gpu"; name = "gpu"; labels = [] }

abbrev pub needs_gold : ClusterFeatureRequirement
needs_gold = record { name = "gpu"; match_labels = ("tier", "gold") ∷ []; match_expressions = [] }

abbrev pub sink : ManagedController
sink = record { handle = 1; name = "sink"; required_cluster_features = needs_gold ∷ [] }

abbrev pub free : ManagedController
free = record { handle = 2; name = "free"; required_cluster_features = [] }

abbrev pub fresh : Cluster
fresh = record {
  name = "c1";
  ctx = live;
  mgr_ctx = none;
  mgr = false;
  alive = false;
  started = false;
  mgr_stopped = false;
  secret_id = none;
  cluster_id = "";
  liveness_check_interval = 5;
  on_alive_funcs = 7 ∷ [];
  on_dead_funcs = 8 ∷ [];
  features = [];
  kubeconfig = "";
  controllers = [];
  pending_controllers = [];
  running = λ h. false;
  ran = [];
}

-- A cluster whose manager and one controller run.
abbrev pub busy : Cluster
busy = record fresh {
  started = true;
  alive = true;
  mgr = true;
  mgr_ctx = some live;
  cluster_id = "u1";
  features = ("/gpu", gpu) ∷ [];
  controllers = ("sink", sink) ∷ [];
}

abbrev pub secret_kind : GroupVersionKind
secret_kind = record { group = ""; version = "v1"; kind = "Secret" }

abbrev pub all_empty : GroupVersionKind → Bool
all_empty g = g.group == "" && g.version == "" && g.kind == ""

pub all_empty-EmptyLaw :
    (g : GroupVersionKind)
    → (all_empty g ≡ true) ↔ ((g.group ≡ "") × (g.version ≡ "") × (g.kind ≡ ""))
all_empty-EmptyLaw g = ground (arith, eq_iff g.group "", eq_iff g.version "", eq_iff g.kind "")

-- Every object can be read, and the only path of its JSON is "type".
abbrev pub read_type : Object → String → Option Value
read_type obj path =
    if path == "type" then some (record { int = pos 0; string = obj.body }) else none

abbrev pub simple : Machinery
simple = record {
  as_selector = select_equal;
  accessor = λ obj. true;
  convert_gvk = λ g. g;
  gvk_empty = all_empty;
  marshal = λ obj. some (read_type obj);
}

abbrev pub secret : Object
secret = record {
  gvk = secret_kind;
  name = "s";
  namespace = "registry";
  labels = [];
  annotations = [];
  generation = 3;
  resource_version = "12";
  uid = "abc";
  self_link = "";
  creation_timestamp = 5;
  deletion_timestamp_is_zero = true;
  finalizers = [];
  owner_references = [];
  managed_fields = [];
  body = "cluster-registry-secret";
}

abbrev pub registry_secrets : SyncRuleMatch
registry_secrets = record {
  annotations = [];
  content = record { key = "type"; value = str_val "cluster-registry-secret" } ∷ [];
  labels = [];
  namespaces = "registry" ∷ [];
  object_key = record { name = ""; namespace = "" };
}

abbrev pub no_change : Mutations
no_change = record {
  annotations = none;
  gvk = none;
  labels = none;
  overrides = [];
  sync_status = false;
}

abbrev pub secrets_rule : SyncRule
secrets_rule = record { matches = registry_secrets ∷ []; mutations = no_change }

-- Notes a label, and changes the version.
abbrev pub version_rule : SyncRule
version_rule = record {
  matches = [];
  mutations = record no_change {
    gvk = some (record { group = ""; version = "v2"; kind = "" });
    labels = some (record { add = ("synced", "yes") ∷ []; remove = "old" ∷ [] });
  };
}

abbrev pub secrets_spec : ResourceSyncRuleSpec
secrets_spec = record { cluster_feature_matches = []; gvk = secret_kind; rules = secrets_rule ∷ [] }
