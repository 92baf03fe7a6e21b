-- ===== src/Examples/Rules.antt =====
-- Sync rules.
use cluster_registry_control.Common.{
  ◌≡◌, refl, true, false, not, none, [], ◌∷◌, keep, is_empty, if◌then◌else◌,
}
use cluster_registry_control.Examples.Samples.{
  simple, secret, secret_kind, secrets_rule, secrets_spec, read_type,
}
use cluster_registry_control.Api.Rules.{
  gvk_eq, match_spec, match_rules, match_rule, match_first, match_object,
}
use cluster_registry_control.Api.Rules.Matching.{rule_fits, match_spec-eq-keep}

match_spec-eq-keep_example : match_spec simple secrets_spec secret ≡ (
    let rules =
      if gvk_eq secret_kind secret_kind
      then keep (rule_fits simple secret (read_type secret)) (secrets_rule ∷ [])
      else [] in
    (not (is_empty rules), rules, none))
match_spec-eq-keep_example =
    match_spec-eq-keep simple secrets_spec secret (read_type secret) refl refl refl

match_test :
    (match_spec simple secrets_spec secret ≡ (true, secrets_rule ∷ [], none))
    × (match_spec simple secrets_spec (record secret { namespace = "other" }) ≡ (false, [], none))
unfolding match_spec match_rules match_rule match_first match_object
match_test = (refl, refl)
