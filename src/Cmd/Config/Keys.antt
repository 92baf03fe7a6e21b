-- ===== src/Cmd/Config/Keys.antt =====
-- Which keys `bindEnvs` binds.
use cluster_registry_control.Common.{
  In-append, In-append_left, In-append_right, String, ◌≡◌, refl, ap, ◌∙◌, ◌↔◌, inl, inr, Option,
  none, some, List, [], ◌∷◌, ◌++◌, In,
}
use mathlib.Core.List.{append_assoc}
use cluster_registry_control.Cmd.Config.{
  Setting, value, struct, Settings, end, setting, join, bind_envs, bind_env,
}

-- A path of tags from a struct to one of its values.
pub data Leads : List String → Settings → Type 0 where
  to_value : {tag : String} {rest : Settings} → Leads (tag ∷ []) (setting (some tag) value rest)
  into :
      {tag : String} {fields rest : Settings} {path : List String}
      → Leads path fields
      → Leads (tag ∷ path) (setting (some tag) (struct fields) rest)
  past :
      {tag : Option String} {s : Setting} {rest : Settings} {path : List String}
      → Leads path rest
      → Leads path (setting tag s rest)

-- A key with the path that it comes from.
abbrev Comes : String → List String → Settings → Type 0
Comes key parts fs = (path : List String) × Leads path fs × (key ≡ join (parts ++ path))

bind_envs_sound :
    (key : String) (parts : List String) (fs : Settings)
    → In key (bind_envs parts fs)
    → Comes key parts fs
unfolding bind_envs
bind_envs_sound key parts end i = absurd i
bind_envs_sound key parts (setting none s rest) i =
    let (path, l, e) = bind_envs_sound key parts rest i in (path, past l, e)
bind_envs_sound key parts (setting (some tag) value rest) (inl e) = (tag ∷ [], to_value, e)
bind_envs_sound key parts (setting (some tag) value rest) (inr i) =
    let (path, l, e) = bind_envs_sound key parts rest i in (path, past l, e)
bind_envs_sound key parts (setting (some tag) (struct fields) rest) i =
    let inner = bind_envs_sound key (parts ++ tag ∷ []) fields in
    let later = bind_envs_sound key parts rest in
    elim (In-append key (bind_envs (parts ++ tag ∷ []) fields) (bind_envs parts rest) i) [
      | inl l ↦
          let (path, leads, e) = inner l in
          (tag ∷ path, into leads, e ∙ ap join (append_assoc parts (tag ∷ []) path))
      | inr r ↦ let (path, leads, e) = later r in (path, past leads, e)
    ]

bind_envs_complete :
    {path : List String} {fs : Settings} (parts : List String)
    → Leads path fs
    → In (join (parts ++ path)) (bind_envs parts fs)
unfolding bind_envs
bind_envs_complete parts (to_value {tag} {rest}) = inl refl
bind_envs_complete parts (into {tag} {fields} {rest} {path} l) =
    rw (← append_assoc parts (tag ∷ []) path) (
      In-append_left _ (bind_envs (parts ++ tag ∷ []) fields) (bind_envs parts rest)
        (bind_envs_complete (parts ++ tag ∷ []) l))
bind_envs_complete parts (past {tag = none} {s} {rest} l) = bind_envs_complete parts l
bind_envs_complete parts (past {tag = some tag} {s} {rest} l) =
    In-append_right _ (bind_env (parts ++ tag ∷ []) s) (bind_envs parts rest)
      (bind_envs_complete parts l)

-- A key is bound to an environment variable exactly if it is the path of tags, joined by dots, to a
-- value of the configuration through fields that all have a tag.
pub bind_envs_iff :
    (key : String) (fs : Settings)
    → In key (bind_envs [] fs) ↔ ((path : List String) × Leads path fs × (key ≡ join path))
bind_envs_iff key fs =
    (λ i. bind_envs_sound key [] fs i, λ (path, l, e). rw e (bind_envs_complete [] l))
