-- ===== src/Api/Object.antt =====
-- The objects that are synced, and what the code uses of the libraries that handle them.
use cluster_registry_control.Common.{ℕ, String, ◌≡◌, ◌↔◌, Bool, true, Option, Map}
use cluster_registry_control.Api.Selector.{LabelSelector}

pub record GroupVersionKind : Type 0 where
  pub group : String
  pub version : String
  pub kind : String

-- A signed integer; `negsuc n` is -(n + 1).
pub data ℤ : Type 0 where
  pos negsuc : ℕ → ℤ

-- The metadata that the code reads or writes, and the rest of the object as one text.
pub record Object : Type 0 where
  pub gvk : GroupVersionKind
  pub name : String
  pub namespace : String
  pub labels : Map String
  pub annotations : Map String
  pub generation : ℕ
  pub resource_version : String
  pub uid : String
  pub self_link : String
  pub creation_timestamp : ℕ  -- 0 for the zero time
  pub deletion_timestamp_is_zero : Bool
  pub finalizers : Map String
  pub owner_references : Map String
  pub managed_fields : Map String
  pub body : String

-- A value that gjson found, as `Int` and `String` read it.
pub record Value : Type 0 where
  pub int : ℤ
  pub string : String

-- apimachinery, operator-tools and gjson: `accessor` says whether `meta.Accessor` accepts the
-- object, `marshal` is `json.Marshal` followed by the lookup of a path in its result, which is
-- `none` where the path does not exist.
pub record Machinery : Type 0 where
  pub as_selector : LabelSelector → Option (Map String → Bool)
  pub accessor : Object → Bool
  pub convert_gvk : GroupVersionKind → GroupVersionKind
  pub gvk_empty : GroupVersionKind → Bool
  pub marshal : Object → Option (String → Option Value)

-- The documented behaviour of `GroupVersionKind.Empty`: all three fields are empty.
abbrev pub EmptyLaw : Machinery → Type 0
EmptyLaw k =
    (g : GroupVersionKind)
    → (k.gvk_empty g ≡ true) ↔ ((g.group ≡ "") × (g.version ≡ "") × (g.kind ≡ ""))
