-- ===== src/Util/Gvk.antt =====
-- pkg/util/resources.go: kinds as texts, which are lists of code points here.
use cluster_registry_control.Common.{
  ℕ, ◌≡◌, refl, ap, inl, inr, Bool, true, not, Option, none, some, List, [], ◌∷◌, ◌++◌, arith,
  nat_beq, if◌then◌else◌, any, Bool-cases, Option-cases,
}

pub record TextGvk : Type 0 where
  pub group : List ℕ
  pub version : List ℕ
  pub kind : List ℕ

abbrev pub dot : ℕ
dot = b'.'

abbrev pub slash : ℕ
slash = b'/'

-- `GVKToString`.
unfoldable pub gvk_to_string : TextGvk → List ℕ
gvk_to_string g = g.kind ++ dot ∷ (g.group ++ slash ∷ g.version)

-- `strings.SplitN(text, sep, 2)` for a separator of one character: the parts before and after the
-- first one, or `none` where there is none and the result has one part.
unfoldable pub split_n2 : ℕ → List ℕ → Option (List ℕ × List ℕ)
split_n2 sep [] = none
split_n2 sep (c ∷ text) =
    let later = split_n2 sep text in
    if nat_beq c sep
    then some ([], text)
    else elim later [ none ↦ none | some (before, after) ↦ some (c ∷ before, after) ]

-- `ParseGVKFromString`.
unfoldable pub parse_gvk_from_string : List ℕ → Option TextGvk
unfolding split_n2
parse_gvk_from_string text = elim (split_n2 dot text) [
  | none ↦ none
  | some (kind, rest) ↦ elim (split_n2 slash rest) [
    | none ↦ none
    | some (group, version) ↦ some (record { group = group; version = version; kind = kind })
  ]
]

-- A text without a character.
abbrev pub is_free_of : ℕ → List ℕ → Bool
is_free_of c text = not (any (λ d. nat_beq d c) text)

split_n2-append :
    (sep : ℕ) (before after : List ℕ)
    → is_free_of sep before ≡ true
    → split_n2 sep (before ++ sep ∷ after) ≡ some (before, after)
unfolding split_n2
split_n2-append sep [] after h = ground arith
split_n2-append sep (c ∷ before) after h = ground (arith, split_n2-append sep before after)

-- Parsing a printed kind gives it back, if its kind has no dot and its group no slash.
pub parse-gvk_to_string :
    (g : TextGvk)
    → is_free_of dot g.kind ≡ true
    → is_free_of slash g.group ≡ true
    → parse_gvk_from_string (gvk_to_string g) ≡ some g
unfolding parse_gvk_from_string gvk_to_string
parse-gvk_to_string g hk hg = ground (
  arith,
  split_n2-append dot g.kind (g.group ++ slash ∷ g.version) hk,
  split_n2-append slash g.group g.version hg,
)

split_n2_sound :
    (sep : ℕ) (text before after : List ℕ)
    → split_n2 sep text ≡ some (before, after)
    → (text ≡ before ++ sep ∷ after) × (is_free_of sep before ≡ true)
unfolding split_n2
split_n2_sound sep [] before after h = absurd (ground arith)
split_n2_sound sep (c ∷ text) before after h = elim (Bool-cases (nat_beq c sep)) [
  | inl e ↦ ground arith
  | inr e ↦ elim (Option-cases (split_n2 sep text)) [
    | inl q ↦ absurd (ground arith)
    | inr ((b, a), q) ↦
        let (same, free) = split_n2_sound sep text b a q in
        let is_before : before ≡ c ∷ b = ground arith in
        let is_after : after ≡ a = ground arith in
        rw (is_before, is_after) (ap (λ l. c ∷ l) same, ground arith)
  ]
]

-- A text that is parsed is the text of the kind that it gives, and that kind has no dot in its kind
-- and no slash in its group.
pub gvk_to_string-parse :
    (text : List ℕ) (g : TextGvk)
    → parse_gvk_from_string text ≡ some g
    → (gvk_to_string g ≡ text) × (is_free_of dot g.kind ≡ true) × (is_free_of slash g.group ≡ true)
unfolding parse_gvk_from_string gvk_to_string
gvk_to_string-parse text g h = elim (Option-cases (split_n2 dot text)) [
  | inl q ↦ absurd (ground arith)
  | inr ((kind, rest), q) ↦ elim (Option-cases (split_n2 slash rest)) [
    | inl p ↦ absurd (ground arith)
    | inr ((group, version), p) ↦
        let (text_is, kind_free) = split_n2_sound dot text kind rest q in
        let (rest_is, group_free) = split_n2_sound slash rest group version p in
        let g_is : g ≡ record { group = group; version = version; kind = kind } = ground arith in
        rw (g_is, text_is, rest_is) (refl, kind_free, group_free)
  ]
]
