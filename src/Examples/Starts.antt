-- ===== src/Examples/Starts.antt =====
-- Two starts on one nonce (src/agent_crew/queue.py, start_execution).
use agent_crew.Common.{true, false, ◌≡◌, refl, none, some, [], ◌∷◌}
use agent_crew.Cea.Types.{claimed}
use agent_crew.Queue.Tasks.Row.{Db}
use agent_crew.Queue.Tasks.Start.{start_execution}
use agent_crew.Queue.Tasks.SingleUse.{EnforcesAll, nonce_starts_once}
use agent_crew.Examples.Receipts.{claimed_receipt}
use agent_crew.Examples.Tasks.{on_engine, db_in}
use agent_crew.Cea.Validator.Contract.{validate_execute_start}
use agent_crew.Cea.Validator.Checks.{
  check_lifecycle, check_signature, check_identity, check_verdict, check_nonce, check_executor,
}
use agent_crew.Cea.Validator.Inputs.{verified_signature, verified_identities, identity_dependent}
use agent_crew.Cea.Validator.Judge.{
  judge_inputs, judge_binding, check_snapshot, check_runtime, check_gates, check_drift, expired,
  needs_readmission,
}
use agent_crew.Cea.Matrix.{permits, runtime_state_verdict}
use agent_crew.Cea.Drift.{drifted_fields, has_field, same_revs}

-- t-5 is claimed and dispatched with the nonce n-1
abbrev dispatched_db : Db
dispatched_db = record (db_in claimed) {
  receipts = record { receipt_id = "r-1"; seq = 0; body = claimed_receipt } ∷ [];
  nonces =
      record {
        nonce = "n-1";
        receipt_id = "r-1";
        attempt = 1;
        issued_at = "now";
        used_at = none;
        used_by = none;
      }
      ∷ [];
}

enforces_all : EnforcesAll on_engine
unfolding EnforcesAll
enforces_all project = (refl, refl)

goes_once : (start_execution on_engine "t-5" (some "n-1") none "now" 9 dispatched_db).1.go ≡ true
unfolding start_execution validate_execute_start check_lifecycle check_signature verified_signature
    check_identity verified_identities identity_dependent check_verdict check_nonce check_executor
    judge_inputs judge_binding check_snapshot check_runtime permits runtime_state_verdict
    check_gates drifted_fields has_field same_revs check_drift expired needs_readmission
goes_once = refl

nonce_starts_once_example :
    (start_execution on_engine "t-5"
      (some "n-1")
      (some "codex")
      "later"
      10
      (start_execution on_engine "t-5" (some "n-1") none "now" 9 dispatched_db).0).1.go
    ≡ false
nonce_starts_once_example =
    nonce_starts_once on_engine "t-5" "t-5" "n-1" none (some "codex") "now" "later" 9 10
      dispatched_db enforces_all refl goes_once
