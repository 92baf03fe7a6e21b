-- ===== src/Util/ReaderSecret/Tokens.antt =====
-- Which token pkg/util/cluster_secret.go takes, how long it waits for one, and which address it
-- writes.
use mathlib.Core.Path.{subst}
use cluster_registry_control.Common.{
  ℕ, zero, suc, ◌<◌, String, ◌≡◌, refl, sym, ap, ◌∙◌, ◌↔◌, ◌⊎◌, inl, inr, true, ◌==◌, Option, none,
  some, List, [], ◌∷◌, arith, eq_iff, eq_refl, get, In, if◌then◌else◌, Bool-cases, Option-cases,
  Result, Result-cases, ok, err, ok_eq, not_both, some_eq,
}
use cluster_registry_control.Api.Cluster.{ClusterResource}
use cluster_registry_control.Util.Kubeconfig.{get_endpoint_for_cluster_by_network}
use cluster_registry_control.Util.ReaderSecret.{
  SecretAnswer, secret_found, secret_not_found, secret_failed, TokenSecret, SecretError, timed_out,
  SecretEnv, check_token, wait_for_secret_token_generated, find_token_secret,
  get_reader_secret_token_and_ca_cert, service_account_token, service_account_name, or_empty,
  choose_address,
}

-- The first text that is not empty, or else the last one.
abbrev pub first_filled : List String → String → String
first_filled [] last = last
first_filled (s ∷ ss) last = if s == "" then first_filled ss last else s

-- The address is the first one that is not empty: that of the resource for all networks, the
-- configured one, the external one; or else the host of the client configuration.
pub choose_address-first :
    (e : SecretEnv) (cluster : ClusterResource) (configured : String)
    → choose_address e cluster configured
      ≡ first_filled
          ((get_endpoint_for_cluster_by_network cluster "").server_address
            ∷ configured
            ∷ or_empty e.external_address
            ∷ [])
          e.host
unfolding choose_address
choose_address-first e cluster configured = ground arith

-- A look at the condition, by the number of looks before.
abbrev Look : Type 0
Look = Result SecretError (Option (String × String))

-- At most `n` looks; the first error or value ends them.
unfoldable pub poll : ℕ → (ℕ → Look) → Result SecretError (String × String)
poll zero f = err timed_out
poll (suc n) f =
    let later = poll n (λ j. f (suc j)) in
    elim (f 0) [ err x ↦ err x | ok none ↦ later | ok (some v) ↦ ok v ]

-- One of the first `n` looks gives a value, and those before it are empty-handed.
abbrev FirstLook : ℕ → (ℕ → Look) → String × String → Type 0
FirstLook n f v = (k : ℕ) × (k < n) × (f k ≡ ok (some v)) × ((j : ℕ) → j < k → f j ≡ ok none)

FirstLook-now :
    (n : ℕ) (f : ℕ → Look) (v : String × String) → f 0 ≡ ok (some v) → FirstLook (suc n) f v
FirstLook-now n f v q = (0, omega arith, q, λ j l. absurd (omega arith))

FirstLook-later :
    (n : ℕ) (f : ℕ → Look) (v : String × String)
    → f 0 ≡ ok none
    → FirstLook n (λ j. f (suc j)) v ↔ FirstLook (suc n) f v
FirstLook-later n f v q =
    (λ w. (suc w.0, (let l = w.1 in omega arith), w.2, before w.0 w.3), λ w. after w.0 w.1 w.2 w.3)
  where
    before : (k : ℕ) → ((j : ℕ) → j < k → f (suc j) ≡ ok none) → (j : ℕ) → j < suc k → f j ≡ ok none
    before k b zero l = q
    before k b (suc j) l = b j (omega arith)

    after :
        (k : ℕ)
        → k < suc n
        → f k ≡ ok (some v)
        → ((j : ℕ) → j < k → f j ≡ ok none)
        → FirstLook n (λ j. f (suc j)) v
    after zero l h b = absurd (let z = sym q ∙ h in ground (arith, z))
    after (suc k) l h b = (k, omega arith, h, λ j m. b (suc j) (omega arith))

FirstLook-head :
    (n : ℕ) (f : ℕ → Look) (v : String × String)
    → FirstLook n f v
    → (f 0 ≡ ok (some v)) ⊎ (f 0 ≡ ok none)
FirstLook-head n f v w = head w.0 w.2 w.3
  where
    head :
        (k : ℕ)
        → f k ≡ ok (some v)
        → ((j : ℕ) → j < k → f j ≡ ok none)
        → (f 0 ≡ ok (some v)) ⊎ (f 0 ≡ ok none)
    head zero q b = inl q
    head (suc k) q b = inr (b 0 (omega arith))

poll_lem : (n : ℕ) (f : ℕ → Look) (v : String × String) → (poll n f ≡ ok v) ↔ FirstLook n f v
unfolding poll
poll_lem zero f v =
    (λ h. absurd (not_both {x = timed_out} h refl), λ w. absurd (let l = w.1 in omega arith))
poll_lem (suc n) f v = elim (Result-cases (f 0)) [
  | inr (x, q) ↦ (
    λ h. absurd (not_both {x = x} h (rw (q, poll) refl)),
    λ w. elim (FirstLook-head (suc n) f v w) [
      | inl h ↦ absurd (not_both h q)
      | inr h ↦ absurd (not_both h q)
    ],
  )
  | inl (none, q) ↦
      let step : poll (suc n) f ≡ poll n (λ j. f (suc j)) = rw (q, poll) refl in
      let (sound, complete) = poll_lem n (λ j. f (suc j)) v in
      let (up, down) = FirstLook-later n f v q in
      (λ h. up (sound (sym step ∙ h)), λ w. step ∙ complete (down w))
  | inl (some u, q) ↦
      let step : poll (suc n) f ≡ ok u = rw (q, poll) refl in
      (
        λ h. FirstLook-now n f v (q ∙ ap (λ x. ok (some x)) (ok_eq step h)),
        λ w. elim (FirstLook-head (suc n) f v w) [
          | inl h ↦ step ∙ ap (λ x. ok x) (some_eq (ok_eq q h))
          | inr h ↦ (let no : some u ≡ none = ok_eq q h in absurd (ground arith))
        ],
      )
]

-- A look finds a secret with both texts.
abbrev pub HasBoth : SecretAnswer → String → String → Type 0
HasBoth x token ca =
    (s : TokenSecret) × (x ≡ secret_found s) × (s.token ≡ some token) × (s.ca_crt ≡ some ca)

-- A look finds no secret, or one without one of the texts: not an error.
abbrev pub IsNotYet : SecretAnswer → Type 0
IsNotYet x =
    (x ≡ secret_not_found)
    ⊎ ((s : TokenSecret) × (x ≡ secret_found s) × ((s.token ≡ none) ⊎ (s.ca_crt ≡ none)))

-- One of the first `n` looks finds both texts, and those before it do not yet.
abbrev pub FirstFound : ℕ → (ℕ → SecretAnswer) → String → String → Type 0
FirstFound n looks token ca =
    (k : ℕ) × (k < n) × HasBoth (looks k) token ca × ((j : ℕ) → j < k → IsNotYet (looks j))

check_token-HasBoth :
    (x : SecretAnswer) (token ca : String)
    → (check_token x ≡ ok (some (token, ca))) ↔ HasBoth x token ca
unfolding check_token
check_token-HasBoth secret_not_found token ca =
    (λ h. absurd (ground arith), λ w. absurd (let q = w.1 in ground arith))
check_token-HasBoth secret_failed token ca =
    (λ h. absurd (ground arith), λ w. absurd (let q = w.1 in ground arith))
check_token-HasBoth (secret_found s) token ca = (
  λ h. elim (Option-cases s.token) [
    | inl n ↦ absurd (ground arith)
    | inr (t, n) ↦ elim (Option-cases s.ca_crt) [
      | inl m ↦ absurd (ground arith)
      | inr (c, m) ↦
          let both : (t, c) ≡ (token, ca) = some_eq (ok_eq refl (rw (n, m) at h)) in
          (s, refl, n ∙ ap (λ p. some p.0) both, m ∙ ap (λ p. some p.1) both)
    ]
  ],
  λ w.
      let (t, q, n, m) = w in
      let same : t ≡ s = ground arith in
      let n' : s.token ≡ some token = rw same at n in
      let m' : s.ca_crt ≡ some ca = rw same at m in rw (n', m') refl,
)

check_token-IsNotYet : (x : SecretAnswer) → (check_token x ≡ ok none) ↔ IsNotYet x
unfolding check_token
check_token-IsNotYet secret_not_found = (λ h. inl refl, λ w. refl)
check_token-IsNotYet secret_failed = (
  λ h. absurd (ground arith),
  λ w. absurd (elim w [ inl q ↦ ground arith | inr (s, q, z) ↦ ground arith ]),
)
check_token-IsNotYet (secret_found s) = (
  λ h. inr (
    s,
    refl,
    elim (Option-cases s.token) [
      | inl n ↦ inl n
      | inr (t, n) ↦ elim (Option-cases s.ca_crt) [
        | inl m ↦ inr m
        | inr (c, m) ↦ absurd (ground arith)
      ]
    ],
  ),
  λ w. elim w [
    | inl q ↦ absurd (ground arith)
    | inr (t, q, z) ↦
        let same : t ≡ s = ground arith in
        elim z [
          | inl n ↦ (let n' : s.token ≡ none = rw same at n in rw n' refl)
          | inr m ↦
              let m' : s.ca_crt ≡ none = rw same at m in
              elim (Option-cases s.token) [ inl n ↦ rw n refl | inr (u, n) ↦ rw (n, m') refl ]
        ]
  ],
)

FirstLook-FirstFound :
    (n : ℕ) (looks : ℕ → SecretAnswer) (token ca : String)
    → FirstLook n (λ i. check_token (looks i)) (token, ca) ↔ FirstFound n looks token ca
FirstLook-FirstFound n looks token ca = (
  λ w. (
    w.0,
    w.1,
    (check_token-HasBoth (looks w.0) token ca).0 w.2,
    λ j l. (check_token-IsNotYet (looks j)).0 (w.3 j l),
  ),
  λ w. (
    w.0,
    w.1,
    (check_token-HasBoth (looks w.0) token ca).1 w.2,
    λ j l. (check_token-IsNotYet (looks j)).1 (w.3 j l),
  ),
)

wait_for_look :
    (e : SecretEnv) (name token ca : String)
    → ((n : ℕ) (f : ℕ → Look) → e.wait n f ≡ poll n f)
    → (wait_for_secret_token_generated e name ≡ ok (some token, some ca))
      ↔ FirstLook 3 (λ i. check_token (e.looks name i)) (token, ca)
unfolding wait_for_secret_token_generated
wait_for_look e name token ca same =
    let f : ℕ → Look = λ i. check_token (e.looks name i) in
    let (sound, complete) = poll_lem 3 f (token, ca) in
    elim (Result-cases (e.wait 3 f)) [
      | inl (v, q) ↦
          let step : wait_for_secret_token_generated e name ≡ ok (some v.0, some v.1) =
            rw (q, wait_for_secret_token_generated) refl in
          let polled : poll 3 f ≡ ok v = sym (same 3 f) ∙ q in
          (
            λ h.
                let both = ok_eq step h in
                let token_eq : v.0 ≡ token = some_eq (ap (λ p. p.0) both) in
                let ca_eq : v.1 ≡ ca = some_eq (ap (λ p. p.1) both) in
                sound (polled ∙ ap (λ t. ok (t, v.1)) token_eq ∙ ap (λ c. ok (token, c)) ca_eq),
            λ w. step ∙ ap (λ p. ok (some p.0, some p.1)) (ok_eq polled (complete w)),
          )
      | inr (x, q) ↦
          let step : wait_for_secret_token_generated e name ≡ err x =
            rw (q, wait_for_secret_token_generated) refl in
          (λ h. absurd (not_both h step), λ w. absurd (not_both (complete w) (sym (same 3 f) ∙ q)))
    ]

-- If the library's wait is a loop of at most so many looks, which ends at the first error or value:
-- a token and a certificate are returned exactly if one of the first three looks finds a secret that
-- has both, and each look before it finds no secret, or one where the token or the certificate is
-- missing, and is no error.
pub wait_for_token_lem :
    (e : SecretEnv) (name token ca : String)
    → ((n : ℕ) (f : ℕ → Look) → e.wait n f ≡ poll n f)
    → (wait_for_secret_token_generated e name ≡ ok (some token, some ca))
      ↔ FirstFound 3 (e.looks name) token ca
wait_for_token_lem e name token ca same =
    let (sound, complete) = wait_for_look e name token ca same in
    let (up, down) = FirstLook-FirstFound 3 (e.looks name) token ca in
    (λ h. up (sound h), λ w. complete (down w))

-- A token that stands already is taken as it is.
abbrev pub IsTokenOf : String → TokenSecret → Type 0
IsTokenOf account s =
    (s.type ≡ service_account_token) × (get service_account_name s.annotations ≡ some account)

-- A list of secrets whose first one is not the token of the account.
find_token_secret-other :
    (account : String) (t : TokenSecret) (ts : List TokenSecret)
    → (find_token_secret account (t ∷ ts) ≡ find_token_secret account ts)
      ⊎ ((find_token_secret account (t ∷ ts) ≡ some t) × IsTokenOf account t)
unfolding find_token_secret
find_token_secret-other account t ts = elim (Bool-cases (t.type == service_account_token)) [
  | inr y ↦ inl (rw (y, find_token_secret) refl)
  | inl y ↦ elim (Option-cases (get service_account_name t.annotations)) [
    | inl n ↦ inl (rw (y, n, find_token_secret) refl)
    | inr (v, n) ↦ elim (Bool-cases (v == account)) [
      | inr k ↦ inl (rw (y, n, k, find_token_secret) refl)
      | inl k ↦ inr (
        rw (y, n, k, find_token_secret) refl,
        ((eq_iff t.type service_account_token).0 y, n ∙ ap some ((eq_iff v account).0 k)),
      )
    ]
  ]
]

-- If a list has a token of the account, then one is found.
find_token_secret-found :
    (account : String) (ss : List TokenSecret) (s : TokenSecret)
    → In s ss
    → IsTokenOf account s
    → (t : TokenSecret) × In t ss × (find_token_secret account ss ≡ some t) × IsTokenOf account t
unfolding find_token_secret
find_token_secret-found account [] s i w = absurd i
find_token_secret-found account (t ∷ ts) s i w = elim (find_token_secret-other account t ts) [
  | inr (q, k) ↦ (t, inl refl, q, k)
  | inl q ↦ elim i [
    | inr j ↦
        let (u, k, found, is_token) = find_token_secret-found account ts s j w in
        (u, inr k, q ∙ found, is_token)
    | inl same ↦
        let at_t : IsTokenOf account t = subst (IsTokenOf account) same w in
        let found : find_token_secret account (t ∷ ts) ≡ some t =
          rw
            (
              (eq_iff t.type service_account_token).1 at_t.0,
              at_t.1,
              eq_refl account,
              find_token_secret,
            )
            refl in
        (t, inl refl, found, at_t)
  ]
]

-- If the service account is there and one of the secrets is a token of it, then what such a secret
-- has is returned, also if its token or its certificate is still missing: nothing is waited for.
pub existing_token_is_taken :
    (e : SecretEnv) (account : String) (ss : List TokenSecret) (s : TokenSecret)
    → e.has_service_account ≡ true
    → e.secrets ≡ some ss
    → In s ss
    → IsTokenOf account s
    → (t : TokenSecret) × In t ss
      × IsTokenOf account t
      × (get_reader_secret_token_and_ca_cert e account ≡ ok (t.token, t.ca_crt))
unfolding get_reader_secret_token_and_ca_cert
existing_token_is_taken e account ss s a l i w =
    let (t, j, found, is_token) = find_token_secret-found account ss s i w in
    (t, j, is_token, rw (a, l, found, get_reader_secret_token_and_ca_cert) refl)
