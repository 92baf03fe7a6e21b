-- ===== src/Common/Maps.antt =====
-- A Go map with text keys, as an association list. The order of the list stands for the order in
-- which `range` meets the keys, which Go leaves open.
use Prim.Native.String.{String}
use mathlib.Core.Path.{◌≡◌, refl}
use mathlib.Core.Logic.{inl, inr}
use mathlib.Core.Bool.{Bool, true, false}
use mathlib.Core.Option.{Option, none, some}
use mathlib.Core.List.{List, [], ◌∷◌}
use native.Mathlib.Omega.{arith}
use text.Mathlib.Text.{◌==◌}
use text.Mathlib.TextEquality.{eq_iff}
use text.Mathlib.TextPositions.{eq_refl}
use cluster_registry_control.Common.Tests.{if◌then◌else◌, is_some, Bool-cases}
use cluster_registry_control.Common.Lists.{In, any}

abbrev pub Map {ℓ} : Type ℓ → Type ℓ
Map V = List (String × V)

module _ {ℓ} {V : Type ℓ} where
  -- `v, ok := m[k]`.
  unfoldable pub get : String → Map V → Option V
  get k [] = none
  get k ((j, v) ∷ m) = if j == k then some v else get k m

  -- `m[k] = v`.
  unfoldable pub put : String → V → Map V → Map V
  put k v [] = (k, v) ∷ []
  put k v ((j, w) ∷ m) = if j == k then (k, v) ∷ m else (j, w) ∷ put k v m

  -- `delete(m, k)`.
  unfoldable pub delete : String → Map V → Map V
  delete k [] = []
  delete k ((j, w) ∷ m) =
      let rest = delete k m in elim (j == k) [ true ↦ rest | false ↦ (j, w) ∷ rest ]

  -- `_, ok := m[k]`.
  abbrev pub has : String → Map V → Bool
  has k m = is_some (get k m)

  pub get-put :
      (k j : String) (v : V) (m : Map V) → get j (put k v m) ≡ (if k == j then some v else get j m)
  unfolding get put
  get-put k j v [] = refl
  get-put k j v ((i, w) ∷ m) = ground (arith, eq_iff k j, eq_iff i k, eq_iff i j, get-put k j v m)

  pub get-delete :
      (k j : String) (m : Map V) → get j (delete k m) ≡ (if k == j then none else get j m)
  unfolding get delete
  get-delete k j [] = ground arith
  get-delete k j ((i, w) ∷ m) = ground (arith, eq_iff k j, eq_iff i k, eq_iff i j, get-delete k j m)

  pub get-put_self : (k : String) (v : V) (m : Map V) → get k (put k v m) ≡ some v
  get-put_self k v m = simp (get-put, eq_refl)

  pub get-delete_self : (k : String) (m : Map V) → get k (delete k m) ≡ none
  get-delete_self k m = simp (get-delete, eq_refl)

-- An entry that is found stands in the list.
pub In-of_get : {V : Type 0} (k : String) (v : V) (m : Map V) → get k m ≡ some v → In (k, v) m
unfolding get
In-of_get k v [] h = absurd (ground arith)
In-of_get k v ((j, w) ∷ m) h = elim (Bool-cases (j == k)) [
  | inl e ↦ inl (ground (arith, eq_iff j k))
  | inr e ↦ inr (In-of_get k v m (ground arith))
]

module _ {ℓ} {V : Type ℓ} where
  -- `for k, v := range new { m[k] = v }`. Go's keys are distinct, and the order is open: the last
  -- entry of the list comes first here, so that the first of two with one key stands.
  unfoldable pub put_all : Map V → Map V → Map V
  put_all [] m = m
  put_all ((k, v) ∷ new) m = put k v (put_all new m)

  -- `for _, k := range keys { delete(m, k) }`.
  unfoldable pub delete_all : List String → Map V → Map V
  delete_all [] m = m
  delete_all (k ∷ keys) m = delete_all keys (delete k m)

  -- `o`, or else `p`.
  abbrev pub or_else : Option V → Option V → Option V
  or_else none p = p
  or_else (some v) p = some v

  pub get-put_all :
      (new m : Map V) (j : String) → get j (put_all new m) ≡ or_else (get j new) (get j m)
  unfolding get put_all
  get-put_all [] m j = refl
  get-put_all ((k, v) ∷ new) m j =
      ground (arith, get-put k j v (put_all new m), get-put_all new m j)

  pub get-delete_all :
      (keys : List String) (m : Map V) (j : String)
      → get j (delete_all keys m) ≡ (if any (λ k. k == j) keys then none else get j m)
  unfolding delete_all
  get-delete_all [] m j = refl
  get-delete_all (k ∷ keys) m j =
      ground (arith, get-delete_all keys (delete k m) j, get-delete k j m)

-- `m[k]` of a map to texts: "" where the key is missing.
abbrev pub text_or_empty : Option String → String
text_or_empty none = ""
text_or_empty (some v) = v

abbrev pub index : String → Map String → String
index k m = text_or_empty (get k m)
