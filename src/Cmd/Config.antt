-- ===== src/Cmd/Config.antt =====
-- cmd/manager/config.go and internal/config/config.go: the settings, their flags and defaults, and the
-- keys that are bound to environment variables.
pub mod Keys
use Prim.Native.String.{◌++◌ as text_append}
use cluster_registry_control.Common.{
  ℕ, String, ◌≡◌, refl, ◌∙◌, ◌↔◌, ◌⊎◌, inl, inr, Bool, true, false, ◌||◌, ◌==◌, Option, none, some,
  List, [], ◌∷◌, ◌++◌, map, arith, any, all, In, if◌then◌else◌,
}

-- A struct type: its fields with their `mapstructure` tags, `none` for a field without one.
mutual
  pub data Setting : Type 0 where
    value : Setting
    struct : Settings → Setting

  pub data Settings : Type 0 where
    end : Settings
    setting : Option String → Setting → Settings → Settings

-- `strings.Join(parts, ".")`.
abbrev pub join : List String → String
join [] = ""
join (p ∷ []) = p
join (p ∷ q ∷ ps) = text_append p (text_append "." (join (q ∷ ps)))

-- `bindEnvs`: the keys that are bound, in order.
unfoldable mutual
  pub bind_envs : List String → Settings → List String
  bind_envs parts end = []
  bind_envs parts (setting none s rest) = bind_envs parts rest
  bind_envs parts (setting (some tag) s rest) =
      bind_env (parts ++ tag ∷ []) s ++ bind_envs parts rest

  pub bind_env : List String → Setting → List String
  bind_env parts value = join parts ∷ []
  bind_env parts (struct fields) = bind_envs parts fields

abbrev plain : String → Settings → Settings
plain tag rest = setting (some tag) value rest

abbrev pub cluster_validator_webhook : Settings
cluster_validator_webhook =
    plain "enabled" (plain "certificate-directory" (plain "name" (plain "port" end)))

abbrev pub cluster_controller : Settings
cluster_controller = plain "workerCount" (plain "refreshIntervalSeconds" end)

abbrev pub rate_limit : Settings
rate_limit = plain "maxKeys" (plain "maxRatePerSecond" (plain "maxBurst" end))

abbrev pub sync_controller : Settings
sync_controller = plain "workerCount" (setting (some "rateLimit") (struct rate_limit) end)

abbrev pub leader_election : Settings
leader_election = plain "enabled" (plain "name" (plain "namespace" end))

abbrev pub logging : Settings
logging = plain "verbosity" (plain "format" end)

unfoldable pub configuration_settings : Settings
configuration_settings = plain "metrics-addr" (
    plain "health-addr" (
      setting (some "leader-election") (struct leader_election) (
        setting (some "log") (struct logging) (
          setting (some "clusterController") (struct cluster_controller) (
            setting (some "syncController") (struct sync_controller) (
              plain "namespace" (
                plain "provision-local-cluster" (
                  plain "manage-local-cluster-secret" (
                    plain "reader-service-account-name" (
                      plain "network-name" (
                        plain "apiserver-endpoint-address" (
                          plain "core-resources-source-enabled" (
                            setting (some "cluster-validator-webhook")
                              (struct cluster_validator_webhook) end)))))))))))))

-- A flag, its default, and the key that it is bound to. `BindPFlags` binds each to its own name too.
pub data Default : Type 0 where
  text : String → Default
  switch : Bool → Default
  number : ℕ → Default

pub record Flag : Type 0 where
  pub name : String
  pub default : Default
  pub key : Option String

abbrev flag : String → Default → Flag
flag name default = record { name = name; default = default; key = none }

abbrev bound : String → Default → String → Flag
bound name default key = record { name = name; default = default; key = some key }

-- `initConfiguration`.
unfoldable pub flags : List Flag
flags =
    flag "metrics-addr" (text ":8080")
    ∷ flag "health-addr" (text ":8090")
    ∷ flag "devel-mode" (switch false)
    ∷ flag "version" (switch false)
    ∷ flag "dump-config" (switch false)
    ∷ bound "enable-leader-election" (switch false) "leader-election.enabled"
    ∷ bound "leader-election-name" (text "cluster-registry-leader-election") "leader-election.name"
    ∷ bound "leader-election-namespace" (text "") "leader-election.namespace"
    ∷ bound "log-verbosity" (number 0) "log.verbosity"
    ∷ bound "log-format" (text "json") "log.format"
    ∷ bound "namespace" (text "cluster-registry") "namespace"
    ∷ bound "provision-local-cluster" (text "") "provision-local-cluster"
    ∷ bound "manage-local-cluster-secret" (switch true) "manage-local-cluster-secret"
    ∷ bound "reader-service-account-name" (text "cluster-registry-controller-reader")
        "reader-service-account-name"
    ∷ bound "network-name" (text "default") "network-name"
    ∷ bound "apiserver-endpoint-address" (text "") "apiserver-endpoint-address"
    ∷ bound "core-resources-source-enabled" (switch true) "core-resources-source-enabled"
    ∷ bound "cluster-validator-webhook-enabled" (switch true) "cluster-validator-webhook.enabled"
    ∷ bound "cluster-validator-webhook-name" (text "cluster-validator-webhook")
        "cluster-validator-webhook.name"
    ∷ bound "cluster-validator-webhook-port" (number 9443) "cluster-validator-webhook.port"
    ∷ bound "cluster-validator-webhook-certificate-directory"
        (text "/tmp/webhooks/clusterValidator/certificates")
        "cluster-validator-webhook.certificate-directory"
    ∷ []

-- The keys with a default and no flag.
unfoldable pub defaults : List (String × ℕ)
defaults =
    ("syncController.workerCount", 1)
    ∷ ("syncController.rateLimit.maxKeys", 1024)
    ∷ ("syncController.rateLimit.maxRatePerSecond", 5)
    ∷ ("syncController.rateLimit.maxBurst", 10)
    ∷ ("clusterController.workerCount", 2)
    ∷ ("clusterController.refreshIntervalSeconds", 0)
    ∷ []

-- Whether a key has a value when nothing is given.
unfoldable pub has_value : String → Bool
unfolding flags defaults
has_value key =
    any (λ (f : Flag). f.name == key || elim f.key [ none ↦ false | some k ↦ k == key ]) flags
    || any (λ (d : String × ℕ). d.0 == key) defaults

-- Whether a setting is read from a flag.
unfoldable pub is_read : Flag → Bool
unfolding bind_envs configuration_settings
is_read f =
    any (λ k. k == f.name || elim f.key [ none ↦ false | some key ↦ k == key ])
      (bind_envs [] configuration_settings)
