-- ===== src/Cea/Validator/Judge.antt =====
-- The validator's comparison of the binding and the whole function
-- (src/agent_crew/cea/validator.py, validate from step 6, and ContractReceiptValidator).
use agent_crew.Common.{
  ℕ, ◌+◌, String, Bool, true, false, not, ◌&&◌, ◌||◌, if◌then◌else◌, Option, none, some, List, [],
  ◌∷◌, ltb, nat_eq, string_eq,
}
use agent_crew.Cea.Types.{
  GateState, gate_state, same_gate, exhausted, same_budget, Binding, Receipt,
}
use agent_crew.Cea.Matrix.{Point, result, Outcome, Cell, MatrixCode, runtime_state_verdict, permits}
use agent_crew.Cea.Drift.{Field, drifted_fields, has_field}
use agent_crew.Cea.Validator.Inputs.{
  Wire, not_object, nonconforming, conforming, CurrentInputs, Code, ValidationResult, answer,
  or_else,
}
use agent_crew.Cea.Validator.Checks.{
  is_enqueue, is_result, check_lifecycle, check_signature, check_identity, check_verdict,
  check_nonce, check_executor,
}

-- an answer that carries B′ and the changed fields
abbrev answer_on : Point → Receipt → Binding → List Field → Outcome → Code → ValidationResult
answer_on p r b changed outcome code = record {
  point = p;
  outcome = outcome;
  code = code;
  receipt_id = r.receipt_id;
  binding_now = some b;
  changed_fields = changed;
}

abbrev pub fail_closed : Point → Outcome
fail_closed p = if is_enqueue p then Outcome.block else Outcome.held

abbrev is_empty_list : List String → Bool
is_empty_list [] = true
is_empty_list (_ ∷ _) = false

-- step 6: B′ could not be computed
unfoldable pub inputs_unavailable : Point → Receipt → CurrentInputs → ValidationResult
inputs_unavailable p r cur =
    if is_result p
    then answer p r Outcome.proceed Code.result_accepted_inputs_unavailable
    else record {
      point = p;
      outcome = fail_closed p;
      code = Code.inputs_unavailable;
      receipt_id = r.receipt_id;
      binding_now = cur.binding;
      changed_fields = [];
    }

abbrev too_old : Option ℕ → ℕ → Bool
too_old none limit = true
too_old (some age) limit = ltb limit age

-- step 6: the snapshot is past its bounded-stale window
unfoldable pub check_snapshot : Point → Receipt → CurrentInputs → Binding → Option ValidationResult
check_snapshot p r cur b =
    if cur.snapshot_available
    then none
    else if not (too_old cur.snapshot_age cur.snapshot_max_age)
    then none
    else if is_result p
    then some (answer_on p r b [] Outcome.proceed Code.result_accepted_snapshot_stale)
    else some (answer_on p r b [] (fail_closed p) Code.snapshot_stale)

abbrev matrix_code : MatrixCode → Code
matrix_code MatrixCode.ok = Code.all_ok
matrix_code MatrixCode.runtime_state_forbids = Code.runtime_state_forbids
matrix_code MatrixCode.runtime_draining = Code.runtime_draining

-- step 7: the matrix on the current runtime state
unfoldable pub check_runtime : Point → Receipt → CurrentInputs → Binding → Option ValidationResult
check_runtime p r cur b =
    let v = runtime_state_verdict b.runtime_state p cur.already_claimed cur.already_dispatched in
    if permits v then none else some (answer_on p r b [] v.outcome (matrix_code v.code))

abbrev is_flagged : Cell → Bool
is_flagged Cell.flagged = true
is_flagged _ = false

-- step 8 at RESULT
unfoldable pub result_answer : Receipt → CurrentInputs → Binding → List Field → ValidationResult
result_answer r cur b [] =
    let v =
      runtime_state_verdict b.runtime_state result cur.already_claimed cur.already_dispatched in
    if is_flagged v.cell
    then answer_on result r b [] Outcome.proceed Code.result_accepted_no_successors
    else answer_on result r b [] Outcome.proceed Code.all_ok
result_answer r cur b (f ∷ fs) = answer_on result r b (f ∷ fs) Outcome.proceed Code.stale_receipt

abbrev is_granted : GateState → Bool
is_granted g = same_gate g GateState.granted

-- step 8: the runtime epoch and the human gate
unfoldable pub check_gates :
    Point → Receipt → CurrentInputs → Binding → List Field → Option ValidationResult
check_gates p r cur b changed =
    let gate_now = gate_state b.human_gate_state in
    let gate_was = gate_state r.binding.human_gate_state in
    if has_field Field.runtime_state_epoch changed || cur.epoch_passed_non_active
    then some (answer_on p r b changed Outcome.block Code.runtime_epoch_advanced)
    else if is_granted gate_was && not (is_granted gate_now)
    then some (answer_on p r b changed Outcome.block Code.human_gate_revoked)
    else if same_gate gate_now GateState.pending
    then some (answer_on p r b changed Outcome.human_gate Code.human_gate_pending)
    else if same_gate gate_now GateState.denied
    then some (answer_on p r b changed Outcome.block Code.human_gate_denied)
    else none

-- step 8: the fields whose change asks for a new admission
unfoldable pub needs_readmission : List Field → Bool
needs_readmission changed =
    has_field Field.policy_generation changed
    || (has_field Field.policy_hash changed
        || (has_field Field.source_decision_revs changed
            || (has_field Field.capability_registry changed
                || has_field Field.matched_capability changed)))

-- `_parse_rfc3339` calls `datetime.fromisoformat`.
module _ (parse_rfc3339 : String → Option ℕ) where
  -- now - issued > max_receipt_age
  unfoldable pub expired : Receipt → CurrentInputs → Bool
  expired r cur = elim (parse_rfc3339 r.issued_at) [
    | none ↦ false
    | some issued ↦ ltb (cur.max_receipt_age + issued) cur.now
  ]

  -- step 8: re-admission, age and budget
  unfoldable pub check_drift :
      Point → Receipt → CurrentInputs → Binding → List Field → ValidationResult
  check_drift p r cur b changed =
      if needs_readmission changed
      then answer_on p r b changed Outcome.re_admit Code.binding_drift
      else if expired r cur
      then answer_on p r b changed Outcome.re_admit Code.receipt_too_old
      else if same_budget b.budget_class exhausted
      then answer_on p r b changed Outcome.held Code.budget
      else answer_on p r b changed Outcome.proceed Code.all_ok

  -- steps 7 and 8
  unfoldable pub judge_binding : Point → Receipt → CurrentInputs → Binding → ValidationResult
  judge_binding p r cur b =
      let changed = drifted_fields r.binding b in
      or_else (check_snapshot p r cur b) (
        or_else (check_runtime p r cur b) (
          if is_result p
          then result_answer r cur b changed
          else or_else (check_gates p r cur b changed) (check_drift p r cur b changed)))

  -- step 6
  unfoldable pub judge_inputs : Point → Receipt → CurrentInputs → ValidationResult
  judge_inputs p r cur = elim cur.binding [
    | none ↦ inputs_unavailable p r cur
    | some b ↦
        if not (is_empty_list cur.unavailable_inputs)
        then inputs_unavailable p r cur
        else judge_binding p r cur b
  ]

  -- steps 2 to 8
  unfoldable pub judge : Point → Receipt → CurrentInputs → ValidationResult
  judge p r cur = or_else (check_lifecycle p r) (
      or_else (check_signature p r cur) (
        or_else (check_identity p r cur) (
          or_else (check_verdict p r) (
            or_else (check_nonce p r cur)
              (or_else (check_executor p r cur) (judge_inputs p r cur))))))

  abbrev schema_invalid : Point → String → ValidationResult
  schema_invalid p rid = record {
    point = p;
    outcome = Outcome.block;
    code = Code.receipt_schema_invalid;
    receipt_id = rid;
    binding_now = none;
    changed_fields = [];
  }

  -- `validate`
  unfoldable pub validate : Wire → Point → CurrentInputs → ValidationResult
  unfolding judge
  validate not_object p cur = schema_invalid p ""
  validate (nonconforming rid) p cur = schema_invalid p rid
  validate (conforming r) p cur = judge p r cur
