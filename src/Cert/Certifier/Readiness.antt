-- ===== src/Cert/Certifier/Readiness.antt =====
-- When `WebhookCertBundleReadyzChecker` of pkg/cert/webhook_certifier.go reports that the certifier is
-- ready.
use cluster_registry_control.Common.{
  ℕ, ◌≡◌, sym, ap, ◌∙◌, inl, inr, Bool, true, false, Option, some, List, [], ◌∷◌, ◌++◌, arith,
  some_eq, Bool-cases, Option-cases,
}
use cluster_registry_control.Cert.Certificate.{Certificate, CertEnv}
use cluster_registry_control.Cert.Renewer.{
  AfterCheck, Renewer, with_after_check_functions, with_dns_names, run_after_check,
  renew_certificate, verify_certificate, check_certificate,
}
use cluster_registry_control.Cert.Certifier.{
  Certifier, CertifierEnv, after_check, prepare_start, is_ready, dns_names,
  load_webhook_configuration,
}
use cluster_registry_control.Cert.Certifier.Informer.{
  Runtime, Event, updated, ticked, ended, check_now, step, run_events, sends_trigger,
  start_certifier, starts_informer,
}
use cluster_registry_control.Cert.Certifier.Delivery.{Delivered, ReadyIfDelivered, after_check_lem}

module _ (env : CertifierEnv) where
  run_single :
      (f : AfterCheck Certifier) (certificate : Option Certificate) (needs : Bool) (c : Certifier)
      → run_after_check (f ∷ []) certificate needs c ≡ f certificate needs c
  unfolding run_after_check
  run_single f certificate needs c = ground arith

  run_one_lem :
      (fs : List (AfterCheck Certifier)) (certificate : Option Certificate) (needs : Bool)
      (c c' : Certifier)
      → fs ≡ after_check env ∷ []
      → run_after_check fs certificate needs c ≡ some c'
      → ReadyIfDelivered env c
      → ReadyIfDelivered env c'
  run_one_lem fs certificate needs c c' one e inv =
      let alone : run_after_check (after_check env ∷ []) certificate needs c ≡ some c' =
        rw one at e in
      after_check_lem env certificate needs c c'
        (sym (run_single (after_check env) certificate needs c) ∙ alone) inv

  load-ready :
      (c : Certifier)
      → (load_webhook_configuration env c).0.webhook_cert_bundle_readyz
        ≡ c.webhook_cert_bundle_readyz
  unfolding load_webhook_configuration
  load-ready c = ground arith

  module _ (e : CertEnv) where
    renew_certificate-functions :
        (r : Renewer Certifier)
        → (renew_certificate e r).0.after_check_functions ≡ r.after_check_functions
    unfolding renew_certificate
    renew_certificate-functions r = ground arith

    -- The function of `Start` is the only one, and readiness comes with a delivery.
    record IsServing (r : Renewer Certifier) (c : Certifier) : Type 0 where
      one : r.after_check_functions ≡ after_check env ∷ []
      honest : ReadyIfDelivered env c

    check_certificate_lem :
        (now : ℕ) (was_triggered : Bool) (r : Renewer Certifier) (c c' : Certifier)
        → (check_certificate e now was_triggered r c).1 ≡ some c'
        → IsServing r c
        → IsServing (check_certificate e now was_triggered r c).0 c'
    unfolding check_certificate
    check_certificate_lem now was_triggered r c c' h k =
        elim (Bool-cases (verify_certificate e now r).0) [
          | inl v ↦
              let h' = rw v at h in
              rw v (record {
                one = k.one;
                honest = run_one_lem r.after_check_functions _ was_triggered c c' k.one h' k.honest;
              })
          | inr v ↦
              let h' = rw v at h in
              let fs = renew_certificate-functions r ∙ k.one in
              rw v (record { one = fs; honest = run_one_lem _ _ true c c' fs h' k.honest })
        ]

    abbrev Serves : Runtime → Type 0
    Serves s = IsServing s.renewer s.certifier

    check_now_lem :
        (now : ℕ) (was_triggered : Bool) (s t : Runtime)
        → check_now e now was_triggered s ≡ some t
        → Serves s
        → Serves t
    unfolding check_now
    check_now_lem now was_triggered s t h k =
        let result = check_certificate e now was_triggered s.renewer s.certifier in
        elim (Option-cases result.1) [
          | inl n ↦ absurd (let gone = rw (check_now, n) at h in ground arith)
          | inr (c, n) ↦
              let after : Runtime = record s { certifier = c; renewer = result.0 } in
              let same : after ≡ t = (let last = rw (check_now, n) at h in ground arith) in
              rw (← same) (check_certificate_lem now was_triggered s.renewer s.certifier c n k)
        ]

    step_lem :
        (now : ℕ) (ev : Event) (s t : Runtime) → step e now ev s ≡ some t → Serves s → Serves t
    unfolding step
    step_lem now (updated new fetched) s t h k =
        elim (Bool-cases (sends_trigger s.certifier new fetched)) [
          | inr q ↦ let same : s ≡ t = ground arith in rw (← same) k
          | inl q ↦ elim (Bool-cases s.closed) [
            | inl c ↦ absurd (ground arith)
            | inr c ↦ check_now_lem now true s t (ground arith) k
          ]
        ]
    step_lem now ticked s t h k = elim (Bool-cases s.closed) [
      | inl c ↦ let same : s ≡ t = ground arith in rw (← same) k
      | inr c ↦ check_now_lem now false s t (ground arith) k
    ]
    step_lem now ended s t h k =
        let same : record s { closed = true } ≡ t = ground arith in rw (← same) k

    run_events_lem :
        (evs : List (ℕ × Event)) (s t : Runtime) → run_events e evs s ≡ some t → Serves s → Serves t
    unfolding run_events
    run_events_lem [] s t h k = let same : s ≡ t = ground arith in rw (← same) k
    run_events_lem ((now, ev) ∷ evs) s t h k = elim (Option-cases (step e now ev s)) [
      | inl n ↦ absurd (let gone = rw (run_events, n) at h in ground arith)
      | inr (u, n) ↦ run_events_lem evs u t (rw (run_events, n) at h) (step_lem now ev s u n k)
    ]

    prepare_start_lem :
        (r r' : Renewer Certifier) (c c' : Certifier)
        → r.after_check_functions ≡ []
        → prepare_start env r c ≡ some (c', r')
        → (r'.after_check_functions ≡ after_check env ∷ [])
          × (c'.webhook_cert_bundle_readyz ≡ c.webhook_cert_bundle_readyz)
    unfolding prepare_start with_after_check_functions with_dns_names
    prepare_start_lem r r' c c' none_before h =
        elim (Bool-cases (load_webhook_configuration env c).1) [
          | inl l ↦
              let d : Certifier = (load_webhook_configuration env c).0 in
              let q : Renewer Certifier =
                with_after_check_functions (after_check env ∷ [])
                  (with_dns_names (dns_names d) r) in
              let pair : (let p : Certifier × Renewer Certifier = (d, q) in p ≡ (c', r')) =
                some_eq (rw l at h) in
              (
                sym (ap (λ (p : Certifier × Renewer Certifier). p.1.after_check_functions) pair)
                    ∙ ap (λ (fs : List (AfterCheck Certifier)). fs ++ after_check env ∷ [])
                        none_before,
                sym (
                      ap (λ (p : Certifier × Renewer Certifier). p.0.webhook_cert_bundle_readyz)
                        pair)
                    ∙ load-ready c,
              )
          | inr l ↦ absurd (let gone = rw l at h in ground arith)
        ]

    -- A certifier that is not ready is started with a renewer that runs no functions yet. Whatever
    -- events follow, if no panic ends them and the certifier is ready, then webhooks that all fail
    -- closed with one bundle were accepted by the API server, or it had them already.
    pub readyz_needs_delivery :
        (informs : Bool) (now : ℕ) (evs : List (ℕ × Event)) (r : Renewer Certifier) (c : Certifier)
        (t : Runtime)
        → r.after_check_functions ≡ []
        → is_ready c ≡ false
        → start_certifier e env informs now evs r c ≡ some (some t)
        → is_ready t.certifier ≡ true
        → Delivered env t.certifier
    unfolding start_certifier is_ready
    readyz_needs_delivery informs now evs r c t none_before unready h ready =
        elim (Option-cases (prepare_start env r c)) [
          | inl n ↦ absurd (let gone = rw (start_certifier, n) at h in ground arith)
          | inr ((c', r'), n) ↦
              let (one, same) = prepare_start_lem r r' c c' none_before n in
              let s : Runtime = record { certifier = c'; renewer = r'; closed = false } in
              let k : Serves s = record { one = one; honest = λ y. absurd (ground arith) } in
              elim (Bool-cases (starts_informer c' informs)) [
                | inr f ↦ absurd (let gone = rw (start_certifier, n, f) at h in ground arith)
                | inl f ↦ elim (Option-cases (check_now e now true s)) [
                  | inl p ↦ absurd (let gone = rw (start_certifier, n, f, p) at h in ground arith)
                  | inr (u, p) ↦
                      let ran : run_events e evs u ≡ some t =
                        (let through = rw (start_certifier, n, f, p) at h in ground arith) in
                      (run_events_lem evs u t ran (check_now_lem now true s u p k)).honest ready
                ]
              ]
        ]
