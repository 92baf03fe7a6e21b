-- ===== src/Cert/Renewer/Checks.antt =====
-- What the after-check functions of pkg/cert/renewer.go are given.
use mathlib.Core.Path.{subst}
use cluster_registry_control.Common.{
  ℕ, String, ◌≡◌, refl, sym, ap, ◌∙◌, ◌⊎◌, inl, inr, Bool, true, false, ◌||◌, not, Option, none,
  some, List, arith, Map, is_some, Bool-cases, Option-cases,
}
use cluster_registry_control.Cert.Certificate.{
  Certificate, CertEnv, NewAnswer, made, nil_without_error, new_failed, or_failed, or_nil,
  new_certificate, new_certificate_from_directory, write,
}
use cluster_registry_control.Cert.Certificate.Files.{read-write}
use cluster_registry_control.Cert.Renewer.{
  Renewer, run_after_check, verify_certificate, renew_certificate, check_certificate,
}

-- All four parts are there.
abbrev pub IsComplete : Certificate → Type 0
IsComplete c =
    (is_some c.ca_certificate ≡ true)
    × (is_some c.ca_private_key ≡ true)
    × (is_some c.server_certificate ≡ true)
    × (is_some c.server_private_key ≡ true)

-- Every file can be written and read.
abbrev pub HasDisk : CertEnv → Type 0
HasDisk e =
    (e.makes_directory ≡ true)
    × ((name : String) → e.writes_file name ≡ true)
    × ((name : String) → e.reads_file name ≡ true)

or_failed-made :
    (o : Option String) (f : String → NewAnswer) (c : Certificate)
    → or_failed o f ≡ made c
    → (s : String) × (f s ≡ made c)
unfolding or_failed
or_failed-made none f c q = absurd (ground (arith, q))
or_failed-made (some s) f c q = (s, q)

or_nil-made :
    (o : Option String) (f : String → NewAnswer) (c : Certificate)
    → or_nil o f ≡ made c
    → (s : String) × (f s ≡ made c)
unfolding or_nil
or_nil-made none f c q = absurd (ground (arith, q))
or_nil-made (some s) f c q = (s, q)

-- The four parts, all there.
abbrev filled : String → String → String → String → Certificate
filled a b c d = record {
  ca_certificate = some a;
  ca_private_key = some b;
  server_certificate = some c;
  server_private_key = some d;
}

abbrev certificate_of : Certificate → NewAnswer → Certificate
certificate_of d (made c) = c
certificate_of d nil_without_error = d
certificate_of d new_failed = d

-- A certificate that is made has all four parts.
new_certificate_complete :
    (e : CertEnv) (names : List String) (c : Certificate)
    → new_certificate e names ≡ made c
    → (a : String) × (b : String) × (s : String) × (k : String) × (filled a b s k ≡ c)
unfolding new_certificate
new_certificate_complete e names c q =
    let (ca_key, q1) = or_failed-made _ _ c q in
    let (ca_key_text, q2) = or_nil-made _ _ c q1 in
    let (ca, q3) = or_failed-made _ _ c q2 in
    let (ca_text, q4) = or_nil-made _ _ c q3 in
    let (key, q5) = or_failed-made _ _ c q4 in
    let (key_text, q6) = or_nil-made _ _ c q5 in
    let (server, q7) = or_failed-made _ _ c q6 in
    let (server_text, q8) = or_nil-made _ _ c q7 in
    (ca_text, ca_key_text, server_text, key_text, ap (certificate_of c) q8)

NewAnswer-cases :
    (x : NewAnswer)
    → ((c : Certificate) × (x ≡ made c)) ⊎ ((x ≡ nil_without_error) ⊎ (x ≡ new_failed))
NewAnswer-cases (made c) = inl (c, refl)
NewAnswer-cases nil_without_error = inr (inl refl)
NewAnswer-cases new_failed = inr (inr refl)

-- A certificate that was made is written, and read as it was made.
made_stands :
    (e : CertEnv) (names : List String) (dir : Map String) (c : Certificate)
    → HasDisk e
    → new_certificate e names ≡ made c
    → ((write e (some c) dir).1 ≡ true)
      × (new_certificate_from_directory e (write e (some c) dir).0 ≡ some c)
made_stands e names dir c (m, w, r) q =
    let (a, b, s, k, same) = new_certificate_complete e names c q in
    subst
      (λ d.
        ((write e (some d) dir).1 ≡ true)
        × (new_certificate_from_directory e (write e (some d) dir).0 ≡ some d))
      same (read-write e a b s k dir m w r)

or_false : (b : Bool) → (b || false) ≡ b
or_false b = ground arith

or_true : (b : Bool) → (b || true) ≡ true
or_true b = ground arith

module _ {S : Type 0} (e : CertEnv) (r : Renewer S) where
  -- What a renewal leaves.
  abbrev Renews : Renewer S × Option Certificate → Type 0
  Renews after =
      (after.0.after_check_functions ≡ r.after_check_functions)
      × ((c : Certificate)
          → after.1 ≡ some c
          → new_certificate_from_directory e after.0.directory ≡ some c)

  renew_certificate-Renews : HasDisk e → Renews (renew_certificate e r)
  unfolding renew_certificate
  renew_certificate-Renews disk = elim (NewAnswer-cases (new_certificate e r.dns_names)) [
    | inl (d, n) ↦
        let (done, stands) = made_stands e r.dns_names r.directory d disk n in
        rw (n, done, renew_certificate) (refl, λ c h. stands ∙ h)
    | inr (inl n) ↦ rw (n, renew_certificate) (refl, λ c h. absurd (ground (arith, h)))
    | inr (inr n) ↦ rw (n, renew_certificate) (refl, λ c h. absurd (ground (arith, h)))
  ]

  verified-stands :
      (now : ℕ) (c : Certificate)
      → (verify_certificate e now r).1 ≡ some c
      → new_certificate_from_directory e r.directory ≡ some c
  unfolding verify_certificate
  verified-stands now c h = elim (Option-cases (new_certificate_from_directory e r.directory)) [
    | inl n ↦ absurd (let z = rw (n, verify_certificate) at h in ground (arith, z))
    | inr (d, n) ↦ n ∙ rw (n, verify_certificate) at h
  ]

  -- If every file can be written and read: the after-check functions are run on one answer, which is
  -- nil or the certificate that stands in the directory afterwards, and they are told to update
  -- exactly if the check was triggered or the certificate before was not valid.
  pub check_certificate_lem :
      (now : ℕ) (was_triggered : Bool) (s : S)
      → HasDisk e
      → let (r', s') = check_certificate e now was_triggered r s in
        (given : Option Certificate) × (s'
          ≡ run_after_check r.after_check_functions given
              (was_triggered || not (verify_certificate e now r).0)
              s)
        × ((c : Certificate)
            → given ≡ some c
            → new_certificate_from_directory e r'.directory ≡ some c)
  unfolding check_certificate
  check_certificate_lem now was_triggered s disk =
      let fs = r.after_check_functions in
      let (same, stands) = renew_certificate-Renews disk in
      elim (Bool-cases (verify_certificate e now r).0) [
        | inl v ↦
            rw (v, check_certificate)
              (
                (verify_certificate e now r).1,
                ap (λ b. run_after_check fs (verify_certificate e now r).1 b s)
                    (sym (or_false was_triggered)),
                λ c h. verified-stands now c h,
              )
        | inr v ↦
            rw (v, check_certificate)
              (
                (renew_certificate e r).1,
                ap (λ gs. run_after_check gs (renew_certificate e r).1 true s) same
                    ∙ ap (λ b. run_after_check fs (renew_certificate e r).1 b s)
                        (sym (or_true was_triggered)),
                stands,
              )
      ]
