-- ===== src/Api/Selector.antt =====
-- The label selectors of apimachinery, as the API types carry them. What they match is not code of
-- this repository: an operation of the record `Selectors`, which the clients take as a parameter.
use cluster_registry_control.Common.{String, Bool, List, Option, Map}

pub record LabelSelectorRequirement : Type 0 where
  pub key : String
  pub operator : String
  pub values : List String

pub record LabelSelector : Type 0 where
  pub match_labels : Map String
  pub match_expressions : List LabelSelectorRequirement

-- `LabelSelectorAsSelector` and `Matches`: `none` where the selector is not valid, else the test of
-- a set of labels.
pub record Selectors : Type 0 where
  pub as_selector : LabelSelector → Option (Map String → Bool)
