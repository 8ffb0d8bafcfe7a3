-- ===== src/Cea/Drift.antt =====
-- Which fields of the binding moved (src/agent_crew/cea/validator.py, _revs and _drifted_fields).
pub mod Fields
use agent_crew.Common.{
  ℕ, String, Bool, true, false, not, ◌&&◌, if◌then◌else◌, Option, none, some, List, [], ◌∷◌, ◌++◌,
  ◌==◌, is_some, nat_eq, string_eq, option_eq, all,
}
use mathlib.Core.Option
use agent_crew.Cea.Types.{
  DecisionRev, RegistryRef, MatchedCapability, Binding, same_state, gate_state, same_gate,
  same_budget,
}

-- The names of the compared fields.
pub data Field : Type 0 where
  policy_generation policy_hash source_decision_revs capability_registry matched_capability : Field
  runtime_state runtime_state_epoch human_gate_state budget_class : Field

-- A lookup in the dict that `_revs` builds: a later entry for an id replaces an earlier one.
unfoldable pub rev_of : String → List DecisionRev → Option String
rev_of k [] = none
rev_of k (r ∷ rs) = elim (rev_of k rs) [
  | some h ↦ some h
  | none ↦ if r.decision_id == k then some r.body_hash else none
]

abbrev covered : List DecisionRev → List DecisionRev → Bool
covered keys_of other =
    all (λ r. rev_of r.decision_id keys_of == rev_of r.decision_id other) keys_of

-- `_revs(was) == _revs(now)`: the two dicts have the same keys with the same values.
unfoldable pub same_revs : List DecisionRev → List DecisionRev → Bool
unfolding rev_of
same_revs was now =
    if covered was now
    then all (λ r. rev_of r.decision_id was == rev_of r.decision_id now) now
    else false

abbrev capability_id : Option MatchedCapability → Option String
capability_id none = none
capability_id (some c) = some c.id

abbrev capability_owner : Option MatchedCapability → Option String
capability_owner none = none
capability_owner (some c) = c.owner

abbrev pub same_registry : RegistryRef → RegistryRef → Bool
same_registry a b = a.generation == b.generation && a.hash == b.hash

abbrev pub same_capability : Option MatchedCapability → Option MatchedCapability → Bool
same_capability a b = capability_owner a == capability_owner b && capability_id a == capability_id b

-- Has this field moved from `was` to `now`?
unfoldable pub moved : Binding → Binding → Field → Bool
moved was now policy_generation = not (was.policy_generation == now.policy_generation)
moved was now policy_hash = not (was.policy_hash == now.policy_hash)
moved was now source_decision_revs =
    not (same_revs was.source_decision_revs now.source_decision_revs)
moved was now capability_registry =
    not (same_registry was.capability_registry now.capability_registry)
moved was now matched_capability =
    not (same_capability was.matched_capability now.matched_capability)
moved was now runtime_state = not (same_state was.runtime_state now.runtime_state)
moved was now runtime_state_epoch = not (was.runtime_state_epoch == now.runtime_state_epoch)
moved was now human_gate_state =
    not (same_gate (gate_state was.human_gate_state) (gate_state now.human_gate_state))
moved was now budget_class = not (same_budget was.budget_class now.budget_class)

abbrev pub fields : List Field
fields =
    policy_generation ∷ policy_hash ∷ source_decision_revs ∷ capability_registry
    ∷ matched_capability ∷ runtime_state ∷ runtime_state_epoch ∷ human_gate_state ∷ budget_class
    ∷ []

-- The fields of a list that a test selects, in their order.
unfoldable pub select : (Field → Bool) → List Field → List Field
select p [] = []
select p (x ∷ xs) = let rest = select p xs in if p x then x ∷ rest else rest

-- `_drifted_fields`
unfoldable pub drifted_fields : Binding → Binding → List Field
unfolding select moved
drifted_fields was now = select (moved was now) fields

abbrev field_rank : Field → ℕ
field_rank policy_generation = 0
field_rank policy_hash = 1
field_rank source_decision_revs = 2
field_rank capability_registry = 3
field_rank matched_capability = 4
field_rank runtime_state = 5
field_rank runtime_state_epoch = 6
field_rank human_gate_state = 7
field_rank budget_class = 8

-- `f in changed`
unfoldable pub has_field : Field → List Field → Bool
has_field f [] = false
has_field f (x ∷ xs) = if field_rank x == field_rank f then true else has_field f xs
