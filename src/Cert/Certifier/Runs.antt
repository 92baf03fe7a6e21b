-- ===== src/Cert/Certifier/Runs.antt =====
-- What a check of the certificate does to the configuration of the webhook, in pkg/cert.
use mathlib.Core.Path.{subst}
use cluster_registry_control.Common.{
  ℕ, ◌≡◌, refl, sym, ap, ◌∙◌, Bool, true, false, Option, none, some, List, [], ◌∷◌, ◌++◌, arith,
  some_eq,
}
use cluster_registry_control.Cert.Certificate.{Certificate, CertEnv, new_certificate, new_failed}
use cluster_registry_control.Cert.Renewer.{
  Renewer, run_after_check, verify_certificate, renew_certificate, check_certificate,
}
use cluster_registry_control.Cert.Certifier.{
  Hook, Certifier, CertifierEnv, set_bundles, put_configuration, update_certificate,
  update_if_needed, after_check, is_ready,
}

set_bundles-nil : (h : Hook) (hs : List Hook) → set_bundles none (h ∷ hs) ≡ none
unfolding set_bundles
set_bundles-nil h hs = refl

after_check-nil :
    (k : CertifierEnv) (c : Certifier) (updates : Bool) (h : Hook) (hs : List Hook)
    → c.mutating ≡ none
    → c.validating ≡ some (h ∷ hs)
    → after_check k none updates c ≡ none
unfolding after_check set_bundles
after_check-nil k c updates h hs m v = ground (arith, m, v)

run_after_check-one :
    (k : CertifierEnv) (certificate : Option Certificate) (updates : Bool) (c : Certifier)
    → run_after_check (after_check k ∷ []) certificate updates c
      ≡ after_check k certificate updates c
unfolding run_after_check
run_after_check-one k certificate updates c = ground arith

-- A check panics if the certificate is not valid, no new one can be made, and the certifier has a
-- validating configuration with a webhook and its function is the only one of the renewer.
pub failed_renewal_panics :
    (e : CertEnv) (k : CertifierEnv) (r : Renewer Certifier) (c : Certifier) (now : ℕ)
    (triggered : Bool) (h : Hook) (hs : List Hook)
    → r.after_check_functions ≡ after_check k ∷ []
    → (verify_certificate e now r).0 ≡ false
    → new_certificate e r.dns_names ≡ new_failed
    → c.mutating ≡ none
    → c.validating ≡ some (h ∷ hs)
    → (check_certificate e now triggered r c).1 ≡ none
unfolding check_certificate renew_certificate
failed_renewal_panics e k r c now triggered h hs fs invalid failed m v =
    rw (invalid, failed, check_certificate, renew_certificate)
      (ap (λ gs. run_after_check gs none true c) fs
        ∙ run_after_check-one k none true c
        ∙ after_check-nil k c true h hs m v)

-- The webhooks with the certificate of the authority.
abbrev pub bundled : Certificate → List Hook → List Hook
bundled certificate [] = []
bundled certificate (h ∷ hs) =
    record h { fails_closed = true; ca_bundle = certificate.ca_certificate }
    ∷ bundled certificate hs

set_bundles-bundled :
    (certificate : Certificate) (hooks : List Hook)
    → set_bundles (some certificate) hooks ≡ some (bundled certificate hooks)
unfolding set_bundles
set_bundles-bundled certificate [] = refl
set_bundles-bundled certificate (h ∷ hs) = rw (set_bundles-bundled certificate hs, set_bundles) refl

-- What the function does with a certificate, for a validating configuration.
after_check-some :
    (k : CertifierEnv) (c : Certifier) (certificate : Certificate) (updates : Bool)
    (hooks : List Hook)
    → c.mutating ≡ none
    → c.validating ≡ some hooks
    → after_check k (some certificate) updates c
      ≡ some
          (update_if_needed k updates (record c { validating = some (bundled certificate hooks) }))
unfolding after_check
after_check-some k c certificate updates hooks m v =
    ground (arith, m, v, set_bundles-bundled certificate hooks)

update_if_needed-accepted :
    (k : CertifierEnv) (c : Certifier) (hooks : List Hook)
    → c.mutating ≡ none
    → c.validating ≡ some hooks
    → k.reads_current ≡ true
    → k.is_up_to_date hooks ≡ some false
    → k.annotates ≡ true
    → k.accepts hooks ≡ true
    → let c' = update_if_needed k true c in
      (c'.updates ≡ c.updates ++ hooks ∷ []) × (is_ready c' ≡ true)
unfolding update_if_needed update_certificate put_configuration is_ready
update_if_needed-accepted k c hooks m v a b d f =
    (ground (arith, m, v, a, b, d, f), ground (arith, m, v, a, b, d, f))

module _ (e : CertEnv) (k : CertifierEnv) (r : Renewer Certifier) (c : Certifier)
    (certificate : Certificate) (hooks : List Hook) (now : ℕ)
    (fs : r.after_check_functions ≡ after_check k ∷ [])
    (valid : verify_certificate e now r ≡ (true, some certificate)) (m : c.mutating ≡ none)
    (v : c.validating ≡ some hooks) where
  valid_check :
      (triggered : Bool)
      → (check_certificate e now triggered r c).1
        ≡ some (
            update_if_needed k triggered
              (record c { validating = some (bundled certificate hooks) }))
  unfolding check_certificate
  valid_check triggered =
      rw (ap (λ x. x.0) valid, check_certificate)
        (ap (λ gs. run_after_check gs (verify_certificate e now r).1 triggered c) fs
          ∙ ap (λ g. run_after_check (after_check k ∷ []) g triggered c) (ap (λ x. x.1) valid)
          ∙ run_after_check-one k (some certificate) triggered c
          ∙ after_check-some k c certificate triggered hooks m v)

  -- A check of a valid certificate, with the certifier's function as the only one and a validating
  -- configuration: if it was triggered and the server reads, finds a difference and accepts, then the
  -- update that is made has the certificate of the authority in every webhook, and the certifier is
  -- ready. If it was not triggered, nothing is updated and the readiness stays, also when an update
  -- before was refused.
  pub valid_check_lem :
      ((c' : Certifier)
        → (check_certificate e now true r c).1 ≡ some c'
        → k.reads_current ≡ true
        → k.is_up_to_date (bundled certificate hooks) ≡ some false
        → k.annotates ≡ true
        → k.accepts (bundled certificate hooks) ≡ true
        → (c'.updates ≡ c.updates ++ bundled certificate hooks ∷ []) × (is_ready c' ≡ true))
      × ((c' : Certifier)
          → (check_certificate e now false r c).1 ≡ some c'
          → (c'.updates ≡ c.updates) × (is_ready c' ≡ is_ready c))
  unfolding update_if_needed is_ready
  valid_check_lem = (
    λ c' q a b d f.
        let same = some_eq (sym (valid_check true) ∙ q) in
        let c0 = record c { validating = some (bundled certificate hooks) } in
        subst (λ x. (x.updates ≡ c.updates ++ bundled certificate hooks ∷ []) × (is_ready x ≡ true))
          same (update_if_needed-accepted k c0 (bundled certificate hooks) m refl a b d f),
    λ c' q.
        let same = some_eq (sym (valid_check false) ∙ q) in
        (ap (λ x. x.updates) (sym same), ap (λ x. x.webhook_cert_bundle_readyz) (sym same)),
  )
