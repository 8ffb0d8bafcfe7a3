-- ===== src/Cea/Types.antt =====
-- The receipt as the frozen schema admits it (src/agent_crew/cea/receipt.py, runtime_state.py and
-- tests/cea_contract/receipt.schema.json), with the fields that the validator and the store read.
-- An enum of the source is a data type; `null` is `none`; a time is a whole number of ticks.
use agent_crew.Common.{
  ℕ, String, Bool, true, false, Option, none, some, List, ◌==◌, not, nat_eq, string_eq,
}

-- RuntimeState, and its `tightness`
pub data RuntimeState : Type 0 where
  active draining quarantined stopped : RuntimeState

abbrev pub tightness : RuntimeState → ℕ
tightness active = 0
tightness draining = 1
tightness quarantined = 2
tightness stopped = 3

abbrev pub same_state : RuntimeState → RuntimeState → Bool
same_state a b = tightness a == tightness b

-- ReceiptState
pub data ReceiptState : Type 0 where
  issued queued claimed running held consumed superseded revoked : ReceiptState

pub data Decision : Type 0 where
  allow block review human_gate : Decision

-- `human_gate_state`: a string, or `{state: GRANTED, decision_id}`
pub data HumanGate : Type 0 where
  not_required pending denied : HumanGate
  granted : (decision_id : String) → HumanGate

-- `_gate_state`: the state without the decision id
pub data GateState : Type 0 where
  not_required pending denied granted : GateState

abbrev pub gate_state : HumanGate → GateState
gate_state HumanGate.not_required = GateState.not_required
gate_state HumanGate.pending = GateState.pending
gate_state HumanGate.denied = GateState.denied
gate_state (HumanGate.granted _) = GateState.granted

abbrev gate_rank : GateState → ℕ
gate_rank GateState.not_required = 0
gate_rank GateState.pending = 1
gate_rank GateState.denied = 2
gate_rank GateState.granted = 3

abbrev pub same_gate : GateState → GateState → Bool
same_gate a b = gate_rank a == gate_rank b

pub data Verification : Type 0 where
  verified unverified : Verification

abbrev pub is_verified : Verification → Bool
is_verified verified = true
is_verified unverified = false

-- BudgetClass
pub data BudgetClass : Type 0 where
  ok constrained exhausted : BudgetClass

abbrev budget_rank : BudgetClass → ℕ
budget_rank ok = 0
budget_rank constrained = 1
budget_rank exhausted = 2

abbrev pub same_budget : BudgetClass → BudgetClass → Bool
same_budget a b = budget_rank a == budget_rank b

-- one of `source_decision_revs`
pub record DecisionRev : Type 0 where
  pub decision_id : String
  pub body_hash : String

-- `capability_registry: {generation, hash}`
pub record RegistryRef : Type 0 where
  pub generation : Option ℕ
  pub hash : Option String

-- `matched_capability` in a binding
pub record MatchedCapability : Type 0 where
  pub id : String
  pub owner : Option String

-- the binding tuple B
pub record Binding : Type 0 where
  pub policy_generation : ℕ
  pub policy_hash : String
  pub source_decision_revs : List DecisionRev
  pub capability_registry : RegistryRef
  pub matched_capability : Option MatchedCapability
  pub runtime_state : RuntimeState
  pub runtime_state_epoch : ℕ
  pub human_gate_state : HumanGate
  pub budget_class : BudgetClass

-- one of `dispatch_nonces`
pub record DispatchNonce : Type 0 where
  pub nonce : String
  pub attempt : ℕ

pub data ReuseDecision : Type 0 where
  new reuse extend : ReuseDecision

pub record Reuse : Type 0 where
  pub decision : Option ReuseDecision
  pub approver_identity_verified : Bool

-- A receipt that conforms to the schema.
pub record Receipt : Type 0 where
  pub receipt_id : String
  pub issued_at : String
  pub task_id : String
  pub intent_hash : String
  pub project : String
  pub work_class : Option String  -- provenance.intent_identity.work_class
  pub required_reviewer : Option String
  pub required_tester : Option String
  pub human_gate_state : HumanGate
  pub reuse : Option Reuse
  pub executor_binding : Option String
  pub executor_binding_status : Verification
  pub caller_identity_status : Verification
  pub downgrade_reason : Option String
  pub decision : Decision
  pub reason_code : Option String  -- reason.code
  pub signature_status : Verification  -- signature.status
  pub state : ReceiptState
  pub binding : Binding
  pub attempt : ℕ
  pub max_attempts : ℕ
  pub dispatch_nonces : List DispatchNonce

-- `bool(x)` of a text or `None`
abbrev pub truthy : Option String → Bool
truthy none = false
truthy (some s) = not (s == "")
