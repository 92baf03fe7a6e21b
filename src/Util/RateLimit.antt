-- ===== src/Util/RateLimit.antt =====
-- pkg/ratelimit/ratelimit.go: the limiter of a sync reconciler. The store and the limiter of throttled
-- are parameters.
use cluster_registry_control.Common.{ℕ, Option, none, some}

pub record RateQuota : Type 0 where
  pub max_rate : ℕ  -- in a second
  pub max_burst : ℕ

abbrev pub default_rate_quota : RateQuota
default_rate_quota = record { max_rate = 1; max_burst = 0 }

abbrev quota_or_default : Option RateQuota → RateQuota
quota_or_default none = default_rate_quota
quota_or_default (some quota) = quota

module _ {S L : Type 0} (new_store : ℕ → Option S) (new_limiter : S → RateQuota → Option L) where
  unfoldable pub new_rate_limiter : ℕ → Option RateQuota → Option L
  new_rate_limiter max_keys quota = elim (new_store max_keys) [
    | none ↦ none
    | some store ↦ new_limiter store (quota_or_default quota)
  ]
