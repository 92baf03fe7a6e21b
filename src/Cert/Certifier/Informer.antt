-- ===== src/Cert/Certifier/Informer.antt =====
-- `Start` and `startWebhookConfigurationInformer` of pkg/cert/webhook_certifier.go: the informer on the
-- configuration sends to the channel that the renewer's loop reads, and the end of `Start` closes it.
use cluster_registry_control.Common.{
  ℕ, String, ◌≡◌, refl, ◌↔◌, Bool, true, false, ◌&&◌, ◌==◌, eq_iff, Option, none, some, List, [],
  ◌∷◌, ◌++◌, arith, is_some, if◌then◌else◌,
}
use cluster_registry_control.Cert.Certificate.{CertEnv}
use cluster_registry_control.Cert.Renewer.{Renewer, check_certificate}
use cluster_registry_control.Cert.Certifier.{Certifier, CertifierEnv, prepare_start}

-- The new object of an update event: a configuration of one of the two kinds by its name, or another
-- object.
pub data NewConfig : Type 0 where
  mutating_config validating_config : String → NewConfig
  another : NewConfig

-- The type assertion of the update function: the name, if the object has the kind that the
-- certifier holds.
unfoldable pub config_of : Certifier → NewConfig → Option String
config_of c new = elim c.mutating [
  | some hooks ↦ elim new [ mutating_config name ↦ some name | _ ↦ none ]
  | none ↦ elim c.validating [
    | some hooks ↦ elim new [ validating_config name ↦ some name | _ ↦ none ]
    | none ↦ none
  ]
]

-- Whether the update function sends a trigger; `fetched` says whether the configuration can be read.
unfoldable pub sends_trigger : Certifier → NewConfig → Bool → Bool
unfolding config_of
sends_trigger c new fetched = elim (config_of c new) [
  | none ↦ false
  | some name ↦ name == c.webhook_name && fetched
]

-- Whether the informer can be started: a configuration is held, and its kind has an informer.
unfoldable pub starts_informer : Certifier → Bool → Bool
starts_informer c informs = elim c.mutating [
  | some hooks ↦ informs
  | none ↦ elim c.validating [ some hooks ↦ informs | none ↦ false ]
]

-- The certifier, its renewer, and whether the channel of triggers is closed.
pub record Runtime : Type 0 where
  pub certifier : Certifier
  pub renewer : Renewer Certifier
  pub closed : Bool

-- What happens, at a time: an update event, a tick of the renewer, or the end of the context.
pub data Event : Type 0 where
  updated : NewConfig → Bool → Event
  ticked ended : Event

module _ (e : CertEnv) where
  -- A check of the loop; `none` is a panic.
  unfoldable pub check_now : ℕ → Bool → Runtime → Option Runtime
  check_now now was_triggered s =
      let (r, c) = check_certificate e now was_triggered s.renewer s.certifier in
      elim c [ none ↦ none | some c' ↦ some (record s { certifier = c'; renewer = r }) ]

  -- One event: the loop reads what is sent while it runs, and a send on the closed channel is a
  -- panic. When the context ends, `Start` returns and closes the channel.
  unfoldable pub step : ℕ → Event → Runtime → Option Runtime
  step now (updated new fetched) s =
      if sends_trigger s.certifier new fetched
      then if s.closed then none else check_now now true s
      else some s
  step now ticked s = if s.closed then some s else check_now now false s
  step now ended s = some (record s { closed = true })

  unfoldable pub run_events : List (ℕ × Event) → Runtime → Option Runtime
  run_events [] s = some s
  run_events ((now, ev) ∷ evs) s = elim (step now ev s) [ none ↦ none | some t ↦ run_events evs t ]

  -- `Start`: an error, or the first check and then the events; the outer `none` is an error.
  unfoldable pub start_certifier :
      CertifierEnv
      → Bool
      → ℕ
      → List (ℕ × Event)
      → Renewer Certifier
      → Certifier
      → Option (Option Runtime)
  start_certifier env informs now evs r c = elim (prepare_start env r c) [
    | none ↦ none
    | some (c', r') ↦
        if starts_informer c' informs
        then some
            (elim (check_now now true (record { certifier = c'; renewer = r'; closed = false })) [
              | none ↦ none
              | some s ↦ run_events evs s
            ])
        else none
  ]

-- The object has the kind and the name of the configuration that the certifier holds, where the
-- mutating one goes before the validating one.
abbrev pub IsOurs : Certifier → NewConfig → Type 0
IsOurs c (mutating_config name) = (is_some c.mutating ≡ true) × (name ≡ c.webhook_name)
IsOurs c (validating_config name) =
    (c.mutating ≡ none) × (is_some c.validating ≡ true) × (name ≡ c.webhook_name)
IsOurs c another = ⊥

pub sends_trigger_iff :
    (c : Certifier) (new : NewConfig) (fetched : Bool)
    → (sends_trigger c new fetched ≡ true) ↔ (IsOurs c new × (fetched ≡ true))
unfolding sends_trigger
sends_trigger_iff c (mutating_config name) fetched = (
  λ h. ground (arith, eq_iff name c.webhook_name),
  λ h. ground (arith, eq_iff name c.webhook_name),
)
sends_trigger_iff c (validating_config name) fetched = (
  λ h. ground (arith, eq_iff name c.webhook_name),
  λ h. ground (arith, eq_iff name c.webhook_name),
)
sends_trigger_iff c another fetched = (λ h. ground arith, λ h. absurd h.0)

-- An event that sends nothing.
abbrev pub IsQuietFor : Certifier → Event → Type 0
IsQuietFor c (updated new fetched) = sends_trigger c new fetched ≡ false
IsQuietFor c ticked = Unit
IsQuietFor c ended = Unit

abbrev pub AllQuietFor : Certifier → List (ℕ × Event) → Type 0
AllQuietFor c [] = Unit
AllQuietFor c ((now, ev) ∷ evs) = IsQuietFor c ev × AllQuietFor c evs

module _ (e : CertEnv) where
  step_closed :
      (now : ℕ) (ev : Event) (s : Runtime)
      → s.closed ≡ true
      → IsQuietFor s.certifier ev
      → step e now ev s ≡ some s
  unfolding step
  step_closed now (updated new fetched) s c q = rw q
  step_closed now ticked s c q = ground arith
  step_closed now ended s c q = ground arith

  step_late :
      (now : ℕ) (new : NewConfig) (s : Runtime)
      → s.closed ≡ true
      → IsOurs s.certifier new
      → step e now (updated new true) s ≡ none
  unfolding step
  step_late now new s c ours =
      let sent = (sends_trigger_iff s.certifier new true).1 (ours, refl) in rw (sent, c)

  step_ended : (now : ℕ) (s : Runtime) → step e now ended s ≡ some (record s { closed = true })
  unfolding step
  step_ended now s = refl

  closed_panics :
      (evs more : List (ℕ × Event)) (now : ℕ) (new : NewConfig) (s : Runtime)
      → s.closed ≡ true
      → AllQuietFor s.certifier evs
      → IsOurs s.certifier new
      → run_events e (evs ++ (now, updated new true) ∷ more) s ≡ none
  unfolding run_events
  closed_panics [] more now new s c q ours = rw (run_events, step_late now new s c ours)
  closed_panics ((at, ev) ∷ evs) more now new s c (q, qs) ours =
      rw (run_events, step_closed at ev s c q) (closed_panics evs more now new s c qs ours)

  -- After the context of the certifier has ended, the first update of the configuration that it
  -- holds, if it can be read, makes the informer panic, since it sends to the channel that `Start`
  -- has closed. Ticks, other objects and updates that cannot be read do not.
  pub update_after_end_panics :
      (evs more : List (ℕ × Event)) (at now : ℕ) (new : NewConfig) (s : Runtime)
      → AllQuietFor s.certifier evs
      → IsOurs s.certifier new
      → (run_events e ((at, ended) ∷ evs) s ≡ some (record s { closed = true }))
        × (run_events e ((at, ended) ∷ (evs ++ (now, updated new true) ∷ more)) s ≡ none)
  unfolding run_events
  update_after_end_panics evs more at now new s q ours =
      let t : Runtime = record s { closed = true } in
      rw (run_events, step_ended at s)
        (quiet evs t refl q, closed_panics evs more now new t refl q ours)
    where
      quiet :
          (evs : List (ℕ × Event)) (t : Runtime)
          → t.closed ≡ true
          → AllQuietFor t.certifier evs
          → run_events e evs t ≡ some t
      quiet [] t c q = refl
      quiet ((at, ev) ∷ evs) t c (q, qs) =
          rw (run_events, step_closed at ev t c q) (quiet evs t c qs)
