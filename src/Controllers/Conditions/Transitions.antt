-- ===== src/Controllers/Conditions/Transitions.antt =====
-- How conditions change over time, and how the map of conditions stands for the list.
use cluster_registry_control.Common.{
  ℕ, String, ◌≡◌, refl, ◌≢◌, inl, inr, Bool, true, false, not, ◌||◌, ◌==◌, Option, none, some, List,
  [], ◌∷◌, ◌&&◌, any, arith, eq_iff, Map, get, put, get-put, get-put_self, nat_beq, if◌then◌else◌,
  Bool-cases, Option-cases,
}
use mathlib.Core.Path.{subst}
use cluster_registry_control.Api.Cluster.{ClusterCondition, ClusterResource}
use cluster_registry_control.Controllers.Conditions.{
  Event, is_failure, renew, stamp, set_condition, collect_conditions, get_current_conditions,
  first_condition, get_current_condition,
}

get-put_other :
    {V : Type 0} (k : String) (v : V) (m : Map V) (j : String) → k ≢ j → get j (put k v m) ≡ get j m
get-put_other k v m j n = ground (arith, get-put k j v m, eq_iff k j)

-- The time of the last change of status: that of the old condition if its status is the same.
abbrev pub since : ℕ → ClusterCondition → Option ClusterCondition → ℕ
since now c none = if nat_beq c.last_transition_time 0 then now else c.last_transition_time
since now c (some old) =
    if not (old.status == c.status) || nat_beq old.last_transition_time 0
    then now
    else old.last_transition_time

-- The events that are due.
abbrev pub events_due : ClusterCondition → Option ClusterCondition → List Event
events_due c none = []
events_due c (some old) =
    if old.status == c.status
    then []
    else record { warning = is_failure c; reason = c.reason; message = c.message } ∷ []

-- What stands under the type of the condition afterwards, and the events.
abbrev updated : ℕ → ℕ → ClusterCondition → Option ClusterCondition → ClusterCondition × List Event
unfolding renew stamp
updated now later c none = (stamp now later c, [])
updated now later c (some old) =
    let (renewed, events) = renew now c old in (stamp now later renewed, events)

set_condition-eq :
    (now later : ℕ) (c : ClusterCondition) (m : Map ClusterCondition) (o : Option ClusterCondition)
    → get c.type m ≡ o
    → set_condition now later c m
      ≡ (put c.type (updated now later c o).0 m, (updated now later c o).1)
unfolding set_condition
set_condition-eq now later c m none e = ground arith
set_condition-eq now later c m (some old) e = ground arith

-- After a condition is set, the condition of its type has its status, reason and message, the
-- time of this heartbeat, and the time of the last change of status: the old one exactly if there
-- was a condition of that type with the same status and a time. The other conditions stay. An event
-- is recorded exactly if the status of an old condition changes.
pub set_condition_lem :
    (now later : ℕ) (c : ClusterCondition) (m : Map ClusterCondition)
    → now ≢ 0
    → let old = get c.type m in
      let (m', events) = set_condition now later c m in
      ((new : ClusterCondition) × (get c.type m' ≡ some new)
        × (new.status ≡ c.status)
        × (new.reason ≡ c.reason)
        × (new.message ≡ c.message)
        × (new.last_heartbeat_time ≡ later)
        × (new.last_transition_time ≡ since now c old))
      × ((t : String) → c.type ≢ t → get t m' ≡ get t m)
      × (events ≡ events_due c old)
unfolding renew stamp
set_condition_lem now later c m n = elim (Option-cases (get c.type m)) [
  | inl e ↦
      rw (e, set_condition-eq now later c m none e)
        (
          (
            stamp now later c,
            get-put_self c.type (stamp now later c) m,
            refl,
            refl,
            refl,
            refl,
            refl,
          ),
          get-put_other c.type (stamp now later c) m,
          refl,
        )
  | inr (old, e) ↦
      let new = stamp now later (renew now c old).0 in
      rw (e, set_condition-eq now later c m (some old) e)
        (
          (new, get-put_self c.type new m, refl, refl, refl, refl, ground arith),
          get-put_other c.type new m,
          ground arith,
        )
]

abbrev pub has_type : String → List ClusterCondition → Bool
has_type t cs = any (λ c. c.type == t) cs

-- No two conditions of a list have the same type.
abbrev pub are_distinct : List ClusterCondition → Bool
are_distinct [] = true
are_distinct (c ∷ cs) = not (has_type c.type cs) && are_distinct cs

collect_conditions_lem :
    (t : String) (cs : List ClusterCondition) (m : Map ClusterCondition)
    → are_distinct cs ≡ true
    → get t (collect_conditions cs m)
      ≡ (if has_type t cs then some (first_condition t cs) else get t m)
unfolding collect_conditions first_condition
collect_conditions_lem t [] m d = refl
collect_conditions_lem t (c ∷ cs) m d = elim (Bool-cases (c.type == t)) [
  | inl e ↦
      let same = (eq_iff c.type t).0 e in
      let none_later : has_type t cs ≡ false =
        subst (λ x. has_type x cs ≡ false) same (ground arith) in
      ground (
        arith,
        collect_conditions_lem t cs (put c.type c m) (ground arith),
        none_later,
        get-put c.type t c m,
      )
  | inr e ↦
      ground
        (arith, collect_conditions_lem t cs (put c.type c m) (ground arith), get-put c.type t c m)
]

-- If no two conditions in the status of a cluster have the same type, the map of its conditions has
-- under a type the condition that a search of the list finds, and nothing if the list has none.
pub get_current_conditions_lem :
    (cluster : ClusterResource) (t : String)
    → are_distinct cluster.status.conditions ≡ true
    → get t (get_current_conditions cluster) ≡ (
        if has_type t cluster.status.conditions
        then some (get_current_condition cluster t)
        else none)
unfolding get_current_conditions get_current_condition get
get_current_conditions_lem cluster t d = collect_conditions_lem t cluster.status.conditions [] d
