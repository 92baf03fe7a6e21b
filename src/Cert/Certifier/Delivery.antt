-- ===== src/Cert/Certifier/Delivery.antt =====
-- What the end of a check of pkg/cert/webhook_certifier.go delivers to the API server.
use cluster_registry_control.Common.{
  String, ◌≡◌, refl, sym, ◌∙◌, ◌⊎◌, inl, inr, Bool, true, false, Option, none, some, List, [], ◌∷◌,
  arith, In, In-append_left, In-append_right, if◌then◌else◌, Bool-cases, Option-cases,
}
use cluster_registry_control.Cert.Certificate.{Certificate}
use cluster_registry_control.Cert.Certifier.{
  Hook, Certifier, CertifierEnv, set_bundles, put_configuration, update_certificate,
  update_if_needed, after_check,
}

-- Each webhook fails closed and has this bundle.
abbrev pub Bundled : Option String → List Hook → Type 0
Bundled b [] = Unit
Bundled b (h ∷ hs) = (h.fails_closed ≡ true) × (h.ca_bundle ≡ b) × Bundled b hs

abbrev bundle_of : Option Certificate → Option String
bundle_of none = none
bundle_of (some c) = c.ca_certificate

set_bundles-Bundled :
    (c : Option Certificate) (hooks hooks' : List Hook)
    → set_bundles c hooks ≡ some hooks'
    → Bundled (bundle_of c) hooks'
unfolding set_bundles
set_bundles-Bundled c [] hooks' e = let same : [] ≡ hooks' = ground arith in rw (← same) tt
set_bundles-Bundled none (h ∷ hs) hooks' e = absurd (ground arith)
set_bundles-Bundled (some c) (h ∷ hs) hooks' e = elim (Option-cases (set_bundles (some c) hs)) [
  | inl n ↦ absurd (ground arith)
  | inr (rest, n) ↦
      let h' : Hook = record h { fails_closed = true; ca_bundle = c.ca_certificate } in
      let same : h' ∷ rest ≡ hooks' = ground arith in
      rw (← same) (refl, refl, set_bundles-Bundled (some c) hs rest n)
]

module _ (env : CertifierEnv) where
  -- Webhooks with one bundle were accepted by the API server, or it had them already.
  abbrev pub Delivered : Certifier → Type 0
  Delivered c =
      (hooks : List Hook) × ((b : Option String) × Bundled b hooks)
      × (In hooks c.updates ⊎ (env.is_up_to_date hooks ≡ some true))

  abbrev pub ReadyIfDelivered : Certifier → Type 0
  ReadyIfDelivered c = c.webhook_cert_bundle_readyz ≡ true → Delivered c

  put_configuration_lem :
      (hooks : List Hook) (c : Certifier)
      → let (c', done) = put_configuration env hooks c in
        (c'.webhook_cert_bundle_readyz ≡ c.webhook_cert_bundle_readyz)
        × ((hs : List Hook) → In hs c.updates → In hs c'.updates)
        × (done ≡ true → In hooks c'.updates ⊎ (env.is_up_to_date hooks ≡ some true))
  unfolding put_configuration
  put_configuration_lem hooks c = elim (Bool-cases env.reads_current) [
    | inr r ↦ rw r (refl, λ hs i. i, λ h. absurd (ground arith))
    | inl r ↦ elim (Option-cases (env.is_up_to_date hooks)) [
      | inl n ↦ rw (r, n) (refl, λ hs i. i, λ h. absurd (ground arith))
      | inr (same, n) ↦ elim (Bool-cases same) [
        | inl s ↦ rw (r, n, s) (refl, λ hs i. i, λ h. inr refl)
        | inr s ↦ elim (Bool-cases env.annotates) [
          | inr a ↦ rw (r, n, s, a) (refl, λ hs i. i, λ h. absurd (ground arith))
          | inl a ↦ elim (Bool-cases (env.accepts hooks)) [
            | inr x ↦ rw (r, n, s, a, x) (refl, λ hs i. i, λ h. absurd (ground arith))
            | inl x ↦
                rw (r, n, s, a, x)
                  (
                    refl,
                    λ hs i. In-append_left hs c.updates (hooks ∷ []) i,
                    λ h. inl (In-append_right hooks c.updates (hooks ∷ []) (inl refl)),
                  )
          ]
        ]
      ]
    ]
  ]

  -- The end of the function after a check, where the configuration with the new bundles is put.
  put_lem :
      (hooks : List Hook) (b : Option String) (c : Certifier)
      → Bundled b hooks
      → ReadyIfDelivered c
      → let (c', done) = put_configuration env hooks c in
        ReadyIfDelivered (if done then record c' { webhook_cert_bundle_readyz = true } else c')
  put_lem hooks b c bundled inv =
      let (same, kept, reached) = put_configuration_lem hooks c in
      elim (Bool-cases (put_configuration env hooks c).1) [
        | inl d ↦ rw d (λ _. (hooks, (b, bundled), reached d))
        | inr d ↦ rw d (λ ready.
            (let (hs, bs, where_) = inv (sym same ∙ ready) in
              (hs, bs, elim where_ [ inl i ↦ inl (kept hs i) | inr u ↦ inr u ])))
      ]

  update_if_needed_lem :
      (needs : Bool) (hooks : List Hook) (b : Option String) (c : Certifier)
      → Bundled b hooks
      → update_certificate env c ≡ put_configuration env hooks c
      → ReadyIfDelivered c
      → ReadyIfDelivered (update_if_needed env needs c)
  unfolding update_if_needed
  update_if_needed_lem true hooks b c bundled e inv = rw e (put_lem hooks b c bundled inv)
  update_if_needed_lem false hooks b c bundled e inv = inv

  update_mutating :
      (hooks : List Hook) (c : Certifier)
      → let c' = record c { mutating = some hooks } in
        update_certificate env c' ≡ put_configuration env hooks c'
  unfolding update_certificate
  update_mutating hooks c = refl

  update_validating :
      (m : Option (List Hook)) (hooks : List Hook) (c : Certifier)
      → m ≡ none
      → let c' = record c { mutating = m; validating = some hooks } in
        update_certificate env c' ≡ put_configuration env hooks c'
  unfolding update_certificate
  update_validating none hooks c e = refl
  update_validating (some hs) hooks c e = absurd (ground arith)

  pub after_check_lem :
      (certificate : Option Certificate) (needs : Bool) (c c' : Certifier)
      → after_check env certificate needs c ≡ some c'
      → ReadyIfDelivered c
      → ReadyIfDelivered c'
  unfolding after_check
  after_check_lem certificate needs c c' e inv = elim (Option-cases c.mutating) [
    | inr (hooks, m) ↦ elim (Option-cases (set_bundles certificate hooks)) [
      | inl n ↦ absurd (ground arith)
      | inr (hooks', n) ↦
          let d : Certifier = record c { mutating = some hooks' } in
          let same : update_if_needed env needs d ≡ c' = ground arith in
          rw (← same) (
            update_if_needed_lem needs hooks' (bundle_of certificate) d
              (set_bundles-Bundled certificate hooks hooks' n) (update_mutating hooks' c) inv)
    ]
    | inl m ↦ elim (Option-cases c.validating) [
      | inl v ↦ let same : c ≡ c' = ground arith in rw (← same) inv
      | inr (hooks, v) ↦ elim (Option-cases (set_bundles certificate hooks)) [
        | inl n ↦ absurd (ground arith)
        | inr (hooks', n) ↦
            let d : Certifier = record c { validating = some hooks' } in
            let same : update_if_needed env needs d ≡ c' = ground arith in
            rw (← same) (
              update_if_needed_lem needs hooks' (bundle_of certificate) d
                (set_bundles-Bundled certificate hooks hooks' n)
                (update_validating c.mutating hooks' c m) inv)
      ]
    ]
  ]
