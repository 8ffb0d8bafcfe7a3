-- ===== src/Cea/Validator/Inputs.antt =====
-- What the receipt validator is given and answers (src/agent_crew/cea/validator.py): the wire form
-- of a receipt, the current inputs, the result with its machine code (the texts of the reasons are
-- left out), and what counts as verified evidence.
use agent_crew.Common.{
  ℕ, String, Bool, true, false, not, ◌&&◌, ◌||◌, if◌then◌else◌, Option, none, some, List, [], ◌==◌,
  elem, nat_eq, string_eq, option_eq,
}
use agent_crew.Cea.Types.{
  GateState, gate_state, same_gate, is_verified, Binding, Reuse, ReuseDecision, Receipt, truthy,
}
use agent_crew.Cea.Matrix.{Point, Outcome}
use agent_crew.Cea.Drift.{Field}

-- What `validate` gets: not an object, an object that breaks the schema, or a receipt.
pub data Wire : Type 0 where
  not_object : Wire
  nonconforming : (receipt_id : String) → Wire
  conforming : Receipt → Wire

-- CurrentInputs
pub record CurrentInputs : Type 0 where
  pub binding : Option Binding
  pub unavailable_inputs : List String
  pub now : ℕ
  pub snapshot_available : Bool
  pub snapshot_age : Option ℕ
  pub epoch_passed_non_active : Bool
  pub claimant : Option String
  pub presenter : Option String
  pub presented_nonce : Option String
  pub nonce_unused : Option Bool
  pub nonce_consumed_by : Option String
  pub nonce_attempt : Option ℕ
  pub already_claimed : Bool
  pub already_dispatched : Bool
  pub max_receipt_age : ℕ
  pub snapshot_max_age : ℕ
  pub signature_verification : Option Bool
  pub attested_identities : List String

-- The machine codes of the reasons.
pub data Code : Type 0 where
  receipt_schema_invalid receipt_consumed receipt_superseded receipt_revoked receipt_held : Code
  receipt_state_invalid signature_unverified_at_boundary receipt_unsigned : Code
  identity_dependent_allow_unverified decision_block decision_human_gate : Code
  review_without_reviewer nonce_missing nonce_unknown nonce_wrong_attempt nonce_reused : Code
  nonce_not_started result_without_execute_start executor_binding_mismatch : Code
  result_accepted_inputs_unavailable inputs_unavailable result_accepted_snapshot_stale : Code
  snapshot_stale runtime_state_forbids runtime_draining stale_receipt : Code
  result_accepted_no_successors runtime_epoch_advanced human_gate_revoked human_gate_pending : Code
  human_gate_denied binding_drift receipt_too_old budget all_ok task_id_mismatch : Code
  attempt_mismatch cea_mode_off : Code

-- ValidationResult
pub record ValidationResult : Type 0 where
  pub point : Point
  pub outcome : Outcome
  pub code : Code
  pub receipt_id : String
  pub binding_now : Option Binding
  pub changed_fields : List Field

abbrev pub answer : Point → Receipt → Outcome → Code → ValidationResult
answer p r outcome code = record {
  point = p;
  outcome = outcome;
  code = code;
  receipt_id = r.receipt_id;
  binding_now = none;
  changed_fields = [];
}

-- an early return, or the rest of the function
abbrev pub or_else : Option ValidationResult → ValidationResult → ValidationResult
or_else (some v) rest = v
or_else none rest = rest

unapproved_reuse : Option Reuse → Bool
unapproved_reuse none = false
unapproved_reuse (some u) = elim u.decision [
  | none ↦ false
  | some ReuseDecision.new ↦ false
  | some _ ↦ not u.approver_identity_verified
]

-- `_identity_dependent`
unfoldable pub identity_dependent : Receipt → Bool
unfolding unapproved_reuse
identity_dependent r =
    if r.work_class == some "ops"
    then true
    else if truthy r.required_reviewer || truthy r.required_tester
    then true
    else if not (same_gate (gate_state r.human_gate_state) GateState.not_required)
    then true
    else unapproved_reuse r.reuse

is_true : Option Bool → Bool
is_true (some true) = true
is_true _ = false

-- `_verified_signature`
unfoldable pub verified_signature : Receipt → CurrentInputs → Bool
unfolding is_true
verified_signature r cur = is_verified r.signature_status && is_true cur.signature_verification

-- `_verified_identity`, for both fields that are asked
unfoldable pub verified_identities : Receipt → CurrentInputs → Bool
verified_identities r cur =
    (is_verified r.executor_binding_status && elem "executor_binding" cur.attested_identities)
    && (is_verified r.caller_identity_status && elem "caller_identity" cur.attested_identities)

-- the texts of the codes, with which each reason begins
unfoldable pub code_text : Code → String
code_text Code.receipt_schema_invalid = "RECEIPT_SCHEMA_INVALID"
code_text Code.receipt_consumed = "RECEIPT_CONSUMED"
code_text Code.receipt_superseded = "RECEIPT_SUPERSEDED"
code_text Code.receipt_revoked = "RECEIPT_REVOKED"
code_text Code.receipt_held = "RECEIPT_HELD"
code_text Code.receipt_state_invalid = "RECEIPT_STATE_INVALID"
code_text Code.signature_unverified_at_boundary = "SIGNATURE_UNVERIFIED_AT_BOUNDARY"
code_text Code.receipt_unsigned = "RECEIPT_UNSIGNED"
code_text Code.identity_dependent_allow_unverified = "IDENTITY_DEPENDENT_ALLOW_UNVERIFIED"
code_text Code.decision_block = "DECISION_BLOCK"
code_text Code.decision_human_gate = "DECISION_HUMAN_GATE"
code_text Code.review_without_reviewer = "REVIEW_WITHOUT_REVIEWER"
code_text Code.nonce_missing = "NONCE_MISSING"
code_text Code.nonce_unknown = "NONCE_UNKNOWN"
code_text Code.nonce_wrong_attempt = "NONCE_WRONG_ATTEMPT"
code_text Code.nonce_reused = "NONCE_REUSED"
code_text Code.nonce_not_started = "NONCE_NOT_STARTED"
code_text Code.result_without_execute_start = "RESULT_WITHOUT_EXECUTE_START"
code_text Code.executor_binding_mismatch = "EXECUTOR_BINDING_MISMATCH"
code_text Code.result_accepted_inputs_unavailable = "RESULT_ACCEPTED_INPUTS_UNAVAILABLE"
code_text Code.inputs_unavailable = "INPUTS_UNAVAILABLE"
code_text Code.result_accepted_snapshot_stale = "RESULT_ACCEPTED_SNAPSHOT_STALE"
code_text Code.snapshot_stale = "SNAPSHOT_STALE"
code_text Code.runtime_state_forbids = "RUNTIME_STATE_FORBIDS"
code_text Code.runtime_draining = "RUNTIME_DRAINING"
code_text Code.stale_receipt = "STALE_RECEIPT"
code_text Code.result_accepted_no_successors = "RESULT_ACCEPTED_NO_SUCCESSORS"
code_text Code.runtime_epoch_advanced = "RUNTIME_EPOCH_ADVANCED"
code_text Code.human_gate_revoked = "HUMAN_GATE_REVOKED"
code_text Code.human_gate_pending = "HUMAN_GATE_PENDING"
code_text Code.human_gate_denied = "HUMAN_GATE_DENIED"
code_text Code.binding_drift = "BINDING_DRIFT"
code_text Code.receipt_too_old = "RECEIPT_TOO_OLD"
code_text Code.budget = "BUDGET"
code_text Code.all_ok = "OK"
code_text Code.task_id_mismatch = "TASK_ID_MISMATCH"
code_text Code.attempt_mismatch = "ATTEMPT_MISMATCH"
code_text Code.cea_mode_off = "CEA_MODE_OFF"
