-- ===== src/Cert/Renewer.antt =====
-- pkg/cert/renewer.go: the renewal of certificates. The after-check functions change a state of their
-- own; what they return as an error is only logged.
pub mod Checks
use cluster_registry_control.Common.{
  ℕ, String, Bool, true, false, not, ◌&&◌, ◌||◌, Option, none, some, List, [], ◌∷◌, ◌++◌, Map,
  is_empty, if◌then◌else◌,
}
use cluster_registry_control.Cert.Certificate.{
  Certificate, CertEnv, made, nil_without_error, new_failed, new_certificate,
  new_certificate_from_directory, verify, write,
}

-- The loop over the names, which ends at the first that fails.
unfoldable pub verify_all : CertEnv → List String → Option Certificate → ℕ → Bool
verify_all e [] c time = true
verify_all e (name ∷ names) c time =
    let later = verify_all e names c time in if verify e c name time then later else false

-- A function that is run after a check: `none` is a panic.
abbrev pub AfterCheck : Type 0 → Type 0
AfterCheck S = Option Certificate → Bool → S → Option S

-- The renewer, with the files of its directory.
pub record Renewer (S : Type 0) : Type 0 where
  pub dns_names : List String
  pub directory : Map String
  pub after_check_functions : List (AfterCheck S)

-- What wakes the loop up, at a time: the channel of triggers or the ticker.
pub data Wake : Type 0 where
  triggered ticked : Wake

abbrev pub is_trigger : Wake → Bool
is_trigger triggered = true
is_trigger ticked = false

module _ {S : Type 0} where
  unfoldable pub with_after_check_functions : List (AfterCheck S) → Renewer S → Renewer S
  with_after_check_functions fs r = record r {
    after_check_functions = r.after_check_functions ++ fs;
  }

  unfoldable pub with_dns_names : List String → Renewer S → Renewer S
  with_dns_names names r = record r { dns_names = names }

  -- The loop over the functions.
  unfoldable pub run_after_check : List (AfterCheck S) → Option Certificate → Bool → S → Option S
  run_after_check [] c needs_update s = some s
  run_after_check (f ∷ fs) c needs_update s = elim (f c needs_update s) [
    | none ↦ none
    | some s' ↦ run_after_check fs c needs_update s'
  ]

  module _ (e : CertEnv) where
    unfoldable pub verify_certificate : ℕ → Renewer S → Bool × Option Certificate
    unfolding verify_all
    verify_certificate now r = elim (new_certificate_from_directory e r.directory) [
      | none ↦ (false, none)
      | some c ↦
          let names = if is_empty r.dns_names then "" ∷ [] else r.dns_names in
          (verify_all e names (some c) (e.in_six_months now), some c)
    ]

    -- The directory afterwards, and the certificate; `none` is an error. A nil certificate is not
    -- written.
    unfoldable pub renew_certificate : Renewer S → Renewer S × Option Certificate
    renew_certificate r = elim (new_certificate e r.dns_names) [
      | new_failed ↦ (r, none)
      | nil_without_error ↦ (r, none)
      | made c ↦
          let (dir, done) = write e (some c) r.directory in
          (record r { directory = dir }, if done then some c else none)
    ]

    -- `checkCertificate`, from the state of the functions; `none` is a panic.
    unfoldable pub check_certificate : ℕ → Bool → Renewer S → S → Renewer S × Option S
    unfolding verify_certificate renew_certificate run_after_check
    check_certificate now was_triggered r s =
        let (is_valid, c) = verify_certificate now r in
        if is_valid
        then (r, run_after_check r.after_check_functions c was_triggered s)
        else let (r', c') = renew_certificate r in
          (r', run_after_check r'.after_check_functions c' true s)

    -- `NewRenewer`, with the state of the functions; the check returns no error.
    unfoldable pub new_renewer :
        ℕ → List String → Map String → Bool → List (AfterCheck S) → S → Renewer S × Option S
    new_renewer now names dir should_check fs s =
        let r : Renewer S = record {
          dns_names = names;
          directory = dir;
          after_check_functions = fs;
        } in
        if should_check then check_certificate now true r s else (r, some s)

    -- The loop of `Start`, over what wakes it up before its context is done.
    unfoldable pub run_loop : List (ℕ × Wake) → Renewer S → S → Renewer S × Option S
    run_loop [] r s = (r, some s)
    run_loop ((now, w) ∷ ws) r s =
        let (r', s') = check_certificate now (is_trigger w) r s in
        elim s' [ none ↦ (r', none) | some t ↦ run_loop ws r' t ]

    -- `Start`: the first check is a triggered one.
    unfoldable pub start_renewer : ℕ → List (ℕ × Wake) → Renewer S → S → Renewer S × Option S
    unfolding run_loop
    start_renewer now ws r s = run_loop ((now, triggered) ∷ ws) r s
