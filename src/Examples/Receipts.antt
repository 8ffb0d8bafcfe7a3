-- ===== src/Examples/Receipts.antt =====
-- A receipt, its validation and its revisions, on concrete inputs (src/agent_crew/cea).
use agent_crew.Common.{
  ◌≢◌, ◌⊎◌, ℕ, String, true, false, ◌≡◌, ◌↔◌, refl, Option, none, some, [], ◌∷◌, arith, string_eq,
  ◌==◌, find_where,
}
use text.Mathlib.TextEquality.{eq_iff}
use agent_crew.Cea.Types.{
  claimed, running, ReceiptState, issued, queued, consumed, Decision, Binding, Receipt,
  RuntimeState, HumanGate, BudgetClass, Verification,
}
use agent_crew.Cea.Matrix.{
  dispatch, enqueue, result, Outcome, permits, runtime_state_verdict, matrix,
}
use agent_crew.Cea.Validator.Inputs.{
  conforming, CurrentInputs, verified_signature, verified_identities, identity_dependent,
}
use agent_crew.Cea.Validator.Judge.{
  validate, judge_inputs, judge_binding, check_snapshot, check_runtime, check_gates, check_drift,
  expired, inputs_unavailable, judge, needs_readmission, result_answer,
}
use agent_crew.Cea.Validator.Authorised.{Authorised, Cleared}
use agent_crew.Cea.Validator.Completeness.{validate-proceed_iff, validate-result_iff}
use agent_crew.Cea.Validator.Checks.{
  minted_attempt, check_lifecycle, check_signature, check_identity, check_verdict, check_nonce,
  check_executor, check_spent, nonce_started, point_admits, terminal_code,
}
use agent_crew.Cea.Validator.Contract.{
  validate_enqueue, validate_dispatch, validate_execute_start, validate_enqueue-proceed_iff,
  validate_dispatch-proceed_iff, started_on_fresh_nonce,
}
use agent_crew.Cea.Drift.{has_field, drifted_fields, moved, rev_of, same_revs, select}
use agent_crew.Cea.Store.Receipts.{
  ReceiptRow, err, terminal_receipt, append_lifecycle, current_receipt, latest, transition,
  next_seq, insert_row, record_receipt, revision, is_terminal,
}
use agent_crew.Cea.Store.Lifecycle.{Lawful, append_lifecycle-Lawful, terminal_is_final}

abbrev pub binding_1 : Binding
binding_1 = record {
  policy_generation = 3;
  policy_hash = "p";
  source_decision_revs = [];
  capability_registry = record { generation = none; hash = none };
  matched_capability = none;
  runtime_state = RuntimeState.active;
  runtime_state_epoch = 4;
  human_gate_state = HumanGate.not_required;
  budget_class = BudgetClass.ok;
}

abbrev pub receipt_in : ReceiptState → Receipt
receipt_in s = record {
  receipt_id = "r-1";
  issued_at = "2026-01-01T00:00:00Z";
  task_id = "t-1";
  intent_hash = "i";
  project = "crew";
  work_class = some "code";
  required_reviewer = none;
  required_tester = none;
  human_gate_state = HumanGate.not_required;
  reuse = none;
  executor_binding = none;
  executor_binding_status = Verification.verified;
  caller_identity_status = Verification.verified;
  downgrade_reason = none;
  decision = Decision.allow;
  reason_code = none;
  signature_status = Verification.verified;
  state = s;
  binding = binding_1;
  attempt = 1;
  max_attempts = 3;
  dispatch_nonces = [];
}

abbrev pub inputs_1 : CurrentInputs
inputs_1 = record {
  binding = some binding_1;
  unavailable_inputs = [];
  now = 50;
  snapshot_available = true;
  snapshot_age = none;
  epoch_passed_non_active = false;
  claimant = none;
  presenter = none;
  presented_nonce = none;
  nonce_unused = none;
  nonce_consumed_by = none;
  nonce_attempt = none;
  already_claimed = false;
  already_dispatched = false;
  max_receipt_age = 100;
  snapshot_max_age = 60;
  signature_verification = some true;
  attested_identities = "executor_binding" ∷ "caller_identity" ∷ [];
}

-- the one date of these examples
abbrev parse_date : String → Option ℕ
parse_date text = elim (text == "2026-01-01T00:00:00Z") [ true ↦ some 10 | false ↦ none ]

validate-proceed_iff_example :
    ((validate parse_date (conforming (receipt_in issued)) enqueue inputs_1).outcome
      ≡ Outcome.proceed)
    ↔ ((r : Receipt) × (conforming (receipt_in issued) ≡ conforming r)
        × Authorised parse_date enqueue r inputs_1)
validate-proceed_iff_example =
    validate-proceed_iff parse_date (conforming (receipt_in issued)) enqueue inputs_1 (λ e. cc)

-- a receipt that is running on the nonce n-1, whose result is presented
abbrev running_receipt : Receipt
running_receipt = record (receipt_in running) {
  dispatch_nonces = record { nonce = "n-1"; attempt = 1 } ∷ [];
}

abbrev inputs_of_result : CurrentInputs
inputs_of_result = record inputs_1 {
  presented_nonce = some "n-1";
  nonce_unused = some false;
  nonce_consumed_by = some "execute_start:t-1";
  nonce_attempt = some 1;
}

validate-result_iff_example :
    ((validate parse_date (conforming running_receipt) result inputs_of_result).outcome
      ≡ Outcome.proceed)
    ↔ ((r : Receipt) × (conforming running_receipt ≡ conforming r)
        × Cleared result r inputs_of_result)
validate-result_iff_example =
    validate-result_iff parse_date (conforming running_receipt) inputs_of_result

abbrev row_1 : ReceiptState → ReceiptRow
row_1 s = record { receipt_id = "r-1"; seq = 0; body = receipt_in s }

one_row_Lawful : (s : ReceiptState) → Lawful (row_1 s ∷ [])
unfolding revision find_where
one_row_Lawful s = record {
  named = λ rid seq r e. ground (arith, eq_iff "r-1" rid);
  chained = λ rid seq r s e f. absurd (ground arith);
}

append_lifecycle-Lawful_example :
    Lawful (record { receipt_id = "r-1"; seq = 1; body = receipt_in queued } ∷ row_1 issued ∷ [])
unfolding append_lifecycle current_receipt latest transition next_seq insert_row record_receipt
    revision find_where
append_lifecycle-Lawful_example =
    append_lifecycle-Lawful "r-1" queued conforming (row_1 issued ∷ [])
      {rows' = record { receipt_id = "r-1"; seq = 1; body = receipt_in queued } ∷ row_1 issued ∷ []}
      {w = conforming (receipt_in queued)} (λ r r' e. (cc, cc)) (one_row_Lawful issued) refl

terminal_is_final_example :
    append_lifecycle "r-1" queued conforming (row_1 consumed ∷ []) ≡ err terminal_receipt
unfolding current_receipt latest is_terminal
terminal_is_final_example =
    terminal_is_final "r-1" queued conforming (row_1 consumed ∷ []) (receipt_in consumed) refl refl

validate_enqueue-proceed_iff_example :
    ((validate_enqueue parse_date none (conforming (receipt_in issued)) "t-1" inputs_1).outcome
      ≡ Outcome.proceed)
    ↔ ((r : Receipt) × (conforming (receipt_in issued) ≡ conforming r)
        × (r.task_id ≡ "t-1")
        × Authorised parse_date enqueue r inputs_1)
validate_enqueue-proceed_iff_example =
    validate_enqueue-proceed_iff parse_date none (conforming (receipt_in issued)) "t-1" inputs_1

abbrev asked : Option ℕ
asked = some 1

validate_dispatch-proceed_iff_example :
    ((validate_dispatch parse_date none (conforming (receipt_in claimed)) asked inputs_1).outcome
      ≡ Outcome.proceed)
    ↔ ((r : Receipt) × (conforming (receipt_in claimed) ≡ conforming r)
        × ((asked ≡ none) ⊎ (asked ≡ some r.attempt))
        × Authorised parse_date dispatch r inputs_1)
validate_dispatch-proceed_iff_example =
    validate_dispatch-proceed_iff parse_date none (conforming (receipt_in claimed)) asked inputs_1

abbrev pub claimed_receipt : Receipt
claimed_receipt = record (receipt_in claimed) {
  dispatch_nonces = record { nonce = "n-1"; attempt = 1 } ∷ [];
}

abbrev nonce_1 : String
nonce_1 = "n-1"

started_on_fresh_nonce_example :
    (r : Receipt) × (conforming claimed_receipt ≡ conforming r)
    × (nonce_1 ≢ "")
    × (minted_attempt "n-1" r.dispatch_nonces ≡ some r.attempt)
    × (inputs_1.nonce_unused ≢ some false)
unfolding validate_execute_start check_lifecycle check_signature check_identity check_verdict
    check_nonce check_executor check_spent nonce_started point_admits terminal_code minted_attempt
    verified_signature verified_identities identity_dependent judge_inputs judge_binding
    check_snapshot check_runtime check_gates check_drift expired inputs_unavailable judge
    needs_readmission result_answer validate permits runtime_state_verdict matrix has_field
    drifted_fields moved rev_of same_revs select
started_on_fresh_nonce_example =
    started_on_fresh_nonce parse_date (conforming claimed_receipt) "n-1" inputs_1 refl
