-- ===== src/Common/Parts.antt =====
-- The parts of a call that may fail midway: the state afterwards, and whether there was no error. What
-- was changed before a failure stays.
use mathlib.Core.Path.{◌≡◌}
use mathlib.Core.Logic.{inl, inr}
use mathlib.Core.Bool.{Bool, true, false}
use native.Mathlib.Omega.{arith}
use cluster_registry_control.Common.Tests.{if◌then◌else◌, Bool-cases}

abbrev pub Part : Type 0 → Type 0
Part S = S → S × Bool

module _ {S : Type 0} where
  infixl 5 ◌>>◌
  abbrev pub ◌>>◌ : Part S → Part S → Part S
  ◌>>◌ m k s = let (s', done) = m s in if done then k s' else (s', false)

  -- What holds after the first part whether or not it fails, and is kept by the second.
  pub >>-keeps :
      (P : S → Type 0) (m k : Part S) (s : S)
      → P (m s).0
      → ((t : S) → P t → P (k t).0)
      → P ((m >> k) s).0
  >>-keeps P m k s h f = elim (Bool-cases (m s).1) [ inl e ↦ rw e (f (m s).0 h) | inr e ↦ rw e h ]

  pub >>-done : (m k : Part S) (s : S) → ((m >> k) s).1 ≡ true → (m s).1 ≡ true
  >>-done m k s h = elim (Bool-cases (m s).1) [ inl e ↦ e | inr e ↦ absurd (ground arith) ]

  pub >>-done_after :
      (m k : Part S) (s : S)
      → ((m >> k) s).1 ≡ true
      → ((m >> k) s ≡ k (m s).0) × ((k (m s).0).1 ≡ true)
  >>-done_after m k s h = elim (Bool-cases (m s).1) [
    | inl e ↦ (rw e, ground arith)
    | inr e ↦ absurd (ground arith)
  ]
