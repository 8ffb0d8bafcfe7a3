-- ===== src/Queue/Tasks/Engine.antt =====
-- The receipt side of a task row (src/agent_crew/queue.py, _cea_transition_in_txn,
-- _cea_receipt_for_task_on, _cea_claim_gate, _cea_result_gate_on, _cea_report_legacy_row_on; and
-- src/agent_crew/cea/engine.py, transition).
use agent_crew.Common.{ℕ, String, Bool, not, if◌then◌else◌, Option, none, some, List, is_empty}
use mathlib.Core.Option
use agent_crew.Cea.Types.{Receipt, ReceiptState, Binding}
use agent_crew.Cea.Matrix.{claim, result}
use agent_crew.Cea.Validator.Inputs.{Wire, conforming, CurrentInputs}
use agent_crew.Cea.Store.Receipts.{Result, ok, append_lifecycle, current_receipt, ReceiptRow}
use agent_crew.Cea.Store.Nonces.{NonceRow, nonce_row, is_unspent}
use agent_crew.Cea.Store.Lineages.{set_lineage_state}
use agent_crew.Cea.CallSites.{
  Config, recording, GateOutcome, gate_off, gate_claim, gate_result, current_inputs,
}
use agent_crew.Queue.Tasks.Row.{Task, Db, task_of, append_exec_event, or_none, nonempty}

-- What the queue asks of the engine, its configuration and its keys.
pub record Engine : Type 0 where
  pub config : Option String → Config  -- `cea_config(project)`
  pub current_binding : Receipt → Option Binding × List String
  pub verify : Receipt → Option Bool
  pub resign : Receipt → Wire
  pub keeps_receipts : Bool  -- hasattr(engine, "transition")
  -- `_signed_receipt.verify` with the broker's public key: the nonce of a verified grant
  pub verify_signed :
      Receipt
      → (receipt_id : Option String) → Task
      → (enforce_codes : Option (List String)) → Option String
  pub parse_rfc3339 : String → Option ℕ
  pub strip : String → String

abbrev pub written : String → ReceiptState → ℕ → Db → Result (List ReceiptRow × Wire) → Db
written rid state now db (ok (rows, conforming r)) = record db {
  receipts = rows;
  lineages = set_lineage_state r.intent_hash rid r.state now db.lineages;
}
written rid state now db _ = db

-- `_cea_transition_in_txn`, which drops the engine's refusal; `mutate` changes the fields that the
-- transition carries
unfoldable pub cea_transition :
    Engine → (receipt_id : String) → ReceiptState → (mutate : Receipt → Receipt) → ℕ → Db → Db
unfolding append_lifecycle set_lineage_state
cea_transition e rid state mutate now db =
    if is_empty rid
    then db
    else if e.keeps_receipts
    then written rid state now db
        (append_lifecycle rid state (λ r. e.resign (mutate r)) db.receipts)
    else db

abbrev pub receipt_named : Option String → Db → Option String × Option Receipt
receipt_named none db = (none, none)
receipt_named (some rid) db = (some rid, current_receipt rid db.receipts)

abbrev pub receipt_of_row : Option Task → Db → Option String × Option Receipt
receipt_of_row none db = (none, none)
receipt_of_row (some t) db = receipt_named (nonempty t.receipt_id) db

-- `_cea_receipt_for_task_on`
unfoldable pub receipt_for_task : String → Db → Option String × Option Receipt
unfolding task_of current_receipt
receipt_for_task task_id db = receipt_of_row (task_of task_id db.tasks) db

-- `cea_config_for_receipt`
unfoldable pub config_for_receipt : Engine → Option Receipt → Config
config_for_receipt e none = e.config none
config_for_receipt e (some r) = e.config (or_none (e.strip r.project))

-- `current_inputs` of the engine
unfoldable pub inputs_of : Engine → Receipt → ℕ → CurrentInputs
unfolding current_inputs
inputs_of e r now = current_inputs (e.current_binding r).0 (e.current_binding r).1 (e.verify r) now

abbrev pub first_text : String → String → Option String
first_text a b = if is_empty a then or_none b else some a

unfoldable pub claim_gate_of :
    Engine → ℕ → (agent role : String) → (found : Option Receipt) → Option GateOutcome
unfolding recording gate_off gate_claim inputs_of config_for_receipt
claim_gate_of e now agent role none = none
claim_gate_of e now agent role (some r) =
    let config = config_for_receipt e (some r) in
    let claimant = first_text agent role in
    if not (recording config)
    then some (gate_off claim r)
    else some (
        gate_claim e.parse_rfc3339 r claimant (record (inputs_of e r now) { claimant = claimant })
          config)

-- `_cea_claim_gate`; `none` when there is no receipt to ask about
unfoldable pub cea_claim_gate : Engine → ℕ → (task_id agent role : String) → Db → Option GateOutcome
unfolding receipt_for_task claim_gate_of
cea_claim_gate e now task_id agent role db =
    claim_gate_of e now agent role (receipt_for_task task_id db).1

abbrev looked_up : Option String → List NonceRow → Option NonceRow
looked_up nonce rows = elim (nonempty nonce) [ none ↦ none | some n ↦ nonce_row n rows ]

-- `_cea_result_gate_on`
unfoldable pub cea_result_gate :
    Engine → ℕ → Receipt → (nonce presenter : Option String) → Config → Db → GateOutcome
unfolding recording gate_off gate_result inputs_of nonce_row
cea_result_gate e now r nonce presenter config db =
    let row = looked_up nonce db.nonces in
    if not (recording config)
    then gate_off result r
    else gate_result e.parse_rfc3339 r nonce presenter
        (record (inputs_of e r now) {
          presenter = presenter;
          nonce_unused = Option.map is_unspent row;
          nonce_consumed_by = elim row [ none ↦ none | some n ↦ n.used_by ];
          nonce_attempt = Option.map (λ n. n.attempt) row;
        })
        config

-- `_cea_report_legacy_row_on`
unfoldable pub report_legacy_row : String → ℕ → Db → Db
unfolding append_exec_event
report_legacy_row task_id at db = append_exec_event task_id "cea_legacy_row" at db
