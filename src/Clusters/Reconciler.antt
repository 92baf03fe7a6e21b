-- ===== src/Clusters/Reconciler.antt =====
-- pkg/clusters/managed_reconciler.go: what a controller asks of its reconciler, and the base that the
-- reconcilers embed. A context, a client and a controller of controller-runtime are handles.
use cluster_registry_control.Common.{ℕ, String, Bool, true, Option, none, some}

-- A manager of controller-runtime, with the scheme that it gives.
pub record RuntimeManager : Type 0 where
  pub handle : ℕ
  pub scheme : ℕ

-- `GetEventRecorderFor`: the recorder of a manager for a component.
pub record EventRecorder : Type 0 where
  pub manager : ℕ
  pub component : String

-- The methods that a controller calls. `E` is what the API servers answer during a call; a context is
-- `none` where it is nil, and the Boolean says whether a call returns no error.
pub record ManagedReconciler (R : Type 0) (E : Type 0) : Type 0 where
  pub set_manager : RuntimeManager → R → R
  pub set_client : ℕ → R → R
  pub pre_check : E → Option ℕ → R → Bool
  pub setup_with_controller : E → Option ℕ → ℕ → R → R × Bool
  pub start_reconciler : E → Option ℕ → R → R × Bool
  pub do_cleanup : R → R

pub record ManagedReconcilerBase : Type 0 where
  pub name : String
  pub ctx : Option ℕ
  pub mgr : Option RuntimeManager
  pub recorder : Option EventRecorder
  pub scheme : Option ℕ
  pub client : Option ℕ

unfoldable pub new_managed_reconciler : String → ManagedReconcilerBase
new_managed_reconciler name = record {
  name = name;
  ctx = none;
  mgr = none;
  recorder = none;
  scheme = none;
  client = none;
}

unfoldable pub set_client : ℕ → ManagedReconcilerBase → ManagedReconcilerBase
set_client client r = record r { client = some client }

-- The client stays.
unfoldable pub do_cleanup : ManagedReconcilerBase → ManagedReconcilerBase
do_cleanup r = record r { ctx = none; mgr = none; recorder = none; scheme = none }

-- The first context stays.
unfoldable pub set_context : Option ℕ → ManagedReconcilerBase → ManagedReconcilerBase
set_context ctx r = elim r.ctx [ some old ↦ r | none ↦ record r { ctx = ctx } ]

unfoldable pub set_scheme : ℕ → ManagedReconcilerBase → ManagedReconcilerBase
set_scheme scheme r = record r { scheme = some scheme }

-- The first manager stays.
unfoldable pub set_manager : RuntimeManager → ManagedReconcilerBase → ManagedReconcilerBase
unfolding set_scheme
set_manager mgr r = elim r.mgr [
  | some old ↦ r
  | none ↦
      let r' = set_scheme mgr.scheme (record r { mgr = some mgr }) in
      record r' { recorder = some (record { manager = mgr.handle; component = r.name }) }
]

-- These three of the base return no error.
unfoldable pub base_setup_with_controller :
    Option ℕ → ManagedReconcilerBase → ManagedReconcilerBase × Bool
unfolding set_context
base_setup_with_controller ctx r = (set_context ctx r, true)

unfoldable pub base_setup_with_manager :
    RuntimeManager → ManagedReconcilerBase → ManagedReconcilerBase × Bool
unfolding set_manager
base_setup_with_manager mgr r = (set_manager mgr r, true)

unfoldable pub base_start : ManagedReconcilerBase → ManagedReconcilerBase × Bool
base_start r = (r, true)

-- The base as a reconciler of its own, as it is used where nothing is overridden.
unfoldable pub base_reconciler : ManagedReconciler ManagedReconcilerBase (Unit {0})
unfolding set_manager set_client base_setup_with_controller base_start do_cleanup
base_reconciler = record {
  set_manager = set_manager;
  set_client = set_client;
  pre_check = λ answers ctx r. true;
  setup_with_controller = λ answers ctx ctrl r. base_setup_with_controller ctx r;
  start_reconciler = λ answers ctx r. base_start r;
  do_cleanup = do_cleanup;
}
