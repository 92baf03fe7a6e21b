-- ===== src/Examples/Starts.antt =====
-- The start of the program and its settings.
use cluster_registry_control.Common.{◌≡◌, refl, Bool, true, false, ◌||◌, ◌==◌, [], all}
use cluster_registry_control.Cmd.Config.{
  Flag, bind_envs, configuration_settings, flags, has_value, is_read,
}
use cluster_registry_control.Cmd.Start.{StartConfiguration, Action, main, whole_start}

-- Each setting of the configuration has a flag or a default.
settings_test : all has_value (bind_envs [] configuration_settings) ≡ true
unfolding has_value bind_envs configuration_settings
settings_test = refl

-- Of the flags, `devel-mode` sets nothing; `version` and `dump-config` are read by `configure`.
unread_test :
    all
      (λ (f : Flag).
        is_read f || f.name == "devel-mode" || f.name == "version" || f.name == "dump-config")
      flags
    ≡ true
unfolding is_read flags
unread_test = refl

abbrev default_start : StartConfiguration
default_start = record {
  metrics_addr = ":8080";
  health_addr = ":8090";
  leader_election = false;
  leader_election_name = "cluster-registry-leader-election";
  leader_election_namespace = "";
  provision_local_cluster = "demo";
  namespace = "cluster-registry";
  webhook_enabled = true;
  webhook_name = "cluster-validator-webhook";
  certificate_directory = "/tmp/webhooks";
  port = 9443;
}

abbrev every_call : Action → Bool
every_call a = true

start_test : (main default_start every_call []).0 ≡ whole_start default_start every_call
unfolding main
start_test = refl
