-- ===== src/Cmd/Start.antt =====
-- cmd/manager/main.go and pkg/signals/signals.go: what is done before the manager runs, and when the
-- program ends.
use cluster_registry_control.Common.{
  ℕ, String, ◌≡◌, inl, inr, Bool, true, false, ◌==◌, Option, none, some, List, [], ◌∷◌, ◌++◌, arith,
  if◌then◌else◌, Bool-cases,
}
use cluster_registry_control.Common.Parts.{Part, ◌>>◌}

-- The part of the configuration that `main` reads.
pub record StartConfiguration : Type 0 where
  pub metrics_addr : String
  pub health_addr : String
  pub leader_election : Bool
  pub leader_election_name : String
  pub leader_election_namespace : String
  pub provision_local_cluster : String
  pub namespace : String
  pub webhook_enabled : Bool
  pub webhook_name : String
  pub certificate_directory : String
  pub port : ℕ

-- The options of the manager; `none` where the default of controller-runtime stays.
pub record ManagerOptions : Type 0 where
  pub metrics_bind_address : String
  pub health_probe_bind_address : String
  pub leader_elected : Bool
  pub leader_election_id : String
  pub election_namespace : String
  pub cert_dir : Option String
  pub webhook_port : Option ℕ

-- The ready check: the ping, or whether the certificate of the webhook was put in place.
pub data ReadyCheck : Type 0 where
  ping cert_bundle : ReadyCheck

pub data Action : Type 0 where
  connected provisioned set_up_rules set_up_clusters ran_manager : Action
  made_manager : ManagerOptions → Action
  registered_webhook : String → Action
  made_renewer : String → Action
  added_certifier : String → String → Action
  added_ready_check : ReadyCheck → Action

-- Whether each call succeeds.
abbrev pub Outcomes : Type 0
Outcomes = Action → Bool

unfoldable pub options_of : StartConfiguration → ManagerOptions
options_of c = record {
  metrics_bind_address = c.metrics_addr;
  health_probe_bind_address = c.health_addr;
  leader_elected = c.leader_election;
  leader_election_id = c.leader_election_name;
  election_namespace = c.leader_election_namespace;
  cert_dir = if c.webhook_enabled then some c.certificate_directory else none;
  webhook_port = if c.webhook_enabled then some c.port else none;
}

module _ (c : StartConfiguration) (succeeds : Outcomes) where
  -- A call: what was done before stays also where it fails, and a failure is `os.Exit(1)`.
  abbrev pub attempt : Action → Part (List Action)
  attempt a done = if succeeds a then (done ++ a ∷ [], true) else (done, false)

  unfoldable pub provision_if_named : Part (List Action)
  provision_if_named done =
      if c.provision_local_cluster == ""
      then (done, true)
      else (attempt connected >> attempt provisioned) done

  unfoldable pub set_up_webhook : Part (List Action)
  set_up_webhook done =
      if c.webhook_enabled
      then ((attempt (made_renewer c.certificate_directory)
            >> attempt (added_certifier c.webhook_name c.namespace))
          (done ++ registered_webhook "/validate-cluster" ∷ []))
      else (done, true)

  unfoldable pub readyz_check : ReadyCheck
  readyz_check = if c.webhook_enabled then cert_bundle else ping

  -- `main`: the calls that were made, and whether the exit status is 0.
  unfoldable pub main : Part (List Action)
  unfolding options_of provision_if_named set_up_webhook readyz_check
  main =
      provision_if_named
      >> attempt (made_manager (options_of c))
      >> set_up_webhook
      >> attempt set_up_rules
      >> attempt set_up_clusters
      >> attempt (added_ready_check readyz_check)
      >> attempt ran_manager

  -- What is done on the way to a manager that runs, by the configuration alone.
  abbrev pub whole_start : List Action
  whole_start =
      (if c.provision_local_cluster == "" then [] else connected ∷ provisioned ∷ [])
      ++ (made_manager (options_of c)
          ∷ ((if c.webhook_enabled
                then registered_webhook "/validate-cluster"
                  ∷ made_renewer c.certificate_directory
                  ∷ added_certifier c.webhook_name c.namespace
                  ∷ []
                else [])
              ++ (set_up_rules
                  ∷ set_up_clusters
                  ∷ added_ready_check (if c.webhook_enabled then cert_bundle else ping)
                  ∷ ran_manager
                  ∷ [])))

  -- The program ends with status 0 only after the whole start in this order: the local cluster first,
  -- if it is named, and the webhook, if it is enabled, before the reconcilers. It is ready by the
  -- certificate bundle exactly if the webhook is enabled.
  pub main_lem : (main []).1 ≡ true → (main []).0 ≡ whole_start
  unfolding main
  main_lem h = elim (Bool-cases (c.provision_local_cluster == "")) [
    | inl p ↦ elim (Bool-cases c.webhook_enabled) [ inl w ↦ ground arith | inr w ↦ ground arith ]
    | inr p ↦ elim (Bool-cases c.webhook_enabled) [ inl w ↦ ground arith | inr w ↦ ground arith ]
  ]

-- `NotifyContext`: the goroutine that waits for signals. A first signal cancels the context, a second
-- one ends the program; if the context ends first, the goroutine does.
pub data Notified : Type 0 where
  listening cancelling exited stopped : Notified

unfoldable pub on_signal : Notified → Notified
on_signal listening = cancelling
on_signal cancelling = exited
on_signal exited = exited
on_signal stopped = stopped

unfoldable pub on_context_done : Notified → Notified
on_context_done listening = stopped
on_context_done other = other
