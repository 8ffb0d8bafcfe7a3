-- ===== src/Queue/Tasks/Start.antt =====
-- The hand-over of a claimed task to a worker and the worker's start (src/agent_crew/queue.py,
-- record_dispatch, start_execution; src/agent_crew/cea/engine.py, mint_dispatch_nonce). A nonce is
-- a fresh random text: it is given, like the time and its RFC 3339 text.
use agent_crew.Common.{
  ℕ, ◌+◌, String, Bool, true, false, not, ◌&&◌, if◌then◌else◌, Option, none, some, List, [], ◌∷◌,
  ◌++◌, is_some,
}
use mathlib.Core.Option
use agent_crew.Cea.Types.{Receipt, ReceiptState, DispatchNonce}
use agent_crew.Cea.Matrix.{dispatch, execute_start, Outcome}
use agent_crew.Cea.Store.Receipts.{Result, ok, err, ReceiptRow, record_receipt}
use agent_crew.Cea.Store.Nonces.{
  NonceRow, mint_nonce, nonce_row, consume_nonce, consumer_tag, is_unspent,
}
use agent_crew.Cea.CallSites.{
  GateOutcome, recording, enforcing, gate_off, gate_dispatch, gate_execute_start,
}
use agent_crew.Queue.Tasks.Row.{
  Task, cancelled, same_status, Db, task_of, set_task, append_exec_event, or_zero, nonempty,
}
use agent_crew.Queue.Tasks.Engine.{
  Engine, cea_transition, receipt_for_task, config_for_receipt, inputs_of, report_legacy_row,
}

abbrev pub stored : List NonceRow → String → Db → Result (List ReceiptRow × ℕ) → Db × Option String
stored nonces fresh db (ok (rows, seq)) =
    (record db { nonces = nonces; receipts = rows }, some fresh)
stored nonces fresh db (err why) = (record db { nonces = nonces }, none)

unfoldable pub mint_with :
    Engine
    → Receipt
    → (fresh : String) → (minted : Option (List NonceRow)) → Db
    → Db × Option String
unfolding record_receipt
mint_with e r fresh none db = (db, none)
mint_with e r fresh (some nonces) db =
    let entry : DispatchNonce = record { nonce = fresh; attempt = r.attempt } in
    stored nonces fresh db (
      record_receipt (e.resign (record r { dispatch_nonces = r.dispatch_nonces ++ (entry ∷ []) }))
        none db.receipts)

-- `mint_dispatch_nonce` in the caller's transaction, which drops its exceptions: a nonce whose
-- receipt is refused stays in the table and is not given out
unfoldable pub mint : Engine → Receipt → (fresh issued : String) → Db → Db × Option String
unfolding mint_nonce mint_with
mint e r fresh issued db =
    mint_with e r fresh (mint_nonce r.receipt_id r.attempt fresh issued db.nonces) db

-- the arguments of `record_dispatch`
pub record Dispatch : Type 0 where
  pub channel : String
  pub agent : Option String
  pub target : Option String
  pub lease_owner : Option String
  pub lease_seconds : Option ℕ

abbrev pub dispatched : Dispatch → ℕ → Task → Task
dispatched d at t = record t {
  dispatched_at = some at;
  dispatch_channel = some d.channel;
  dispatch_agent = d.agent;
  dispatch_target = d.target;
  dispatch_attempt = some (or_zero t.dispatch_attempt + 1);
  lease_owner = d.lease_owner;
  lease_expires_at = Option.map (λ s. at + s) d.lease_seconds;
}

-- the UPDATE of `record_dispatch`, logged when it met a row
unfoldable pub hand_over : (task_id : String) → Dispatch → ℕ → Db → Db
unfolding set_task task_of append_exec_event
hand_over task_id d at db =
    let db' = set_task task_id (dispatched d at) db in
    if is_some (task_of task_id db.tasks)
    then append_exec_event task_id "dispatched" at db'
    else db'

-- the gate at DISPATCH
unfoldable pub dispatch_gate : Engine → Receipt → ℕ → GateOutcome
unfolding recording gate_off gate_dispatch inputs_of config_for_receipt
dispatch_gate e r now =
    let config = config_for_receipt e (some r) in
    if recording config
    then gate_dispatch e.parse_rfc3339 r (some r.attempt)
        (record (inputs_of e r now) { already_claimed = true }) config
    else gate_off dispatch r

-- `record_dispatch`, without `context_patch`: the nonce minted, or the gate's refusal
pub data Handed : Type 0 where
  handed : (minted : Option String) → Handed
  admission_refused : GateOutcome → Handed

unfoldable pub dispatch_of :
    Engine
    → (task_id : String) → Dispatch
    → (fresh issued : String) → ℕ
    → (found : Option Receipt) → Db
    → Db × Handed
unfolding dispatch_gate mint hand_over recording report_legacy_row
dispatch_of e task_id d fresh issued at none db =
    let reported = if recording (e.config none) then report_legacy_row task_id at db else db in
    (hand_over task_id d at reported, handed none)
dispatch_of e task_id d fresh issued at (some r) db =
    let g = dispatch_gate e r at in
    let (db', minted) = if e.keeps_receipts then mint e r fresh issued db else (db, none) in
    if g.proceed then (hand_over task_id d at db', handed minted) else (db, admission_refused g)

unfoldable pub record_dispatch :
    Engine → (task_id : String) → Dispatch → (fresh issued : String) → ℕ → Db → Db × Handed
unfolding receipt_for_task dispatch_of
record_dispatch e task_id d fresh issued at db =
    dispatch_of e task_id d fresh issued at (receipt_for_task task_id db).1 db

-- what `start_execution` answers
pub record Go : Type 0 where
  pub go : Bool
  pub outcome : Option Outcome
  pub enforced : Bool
  pub nonce_spent : Bool

abbrev pub no_go : Go
no_go = record { go = false; outcome = some Outcome.block; enforced = true; nonce_spent = false }

abbrev pub presented : Option String → List NonceRow → Option NonceRow
presented shown rows = elim (nonempty shown) [ none ↦ none | some n ↦ nonce_row n rows ]

-- the gate at EXECUTE_START
unfoldable pub start_gate :
    Engine → Receipt → (shown presenter : Option String) → ℕ → Db → GateOutcome
unfolding recording gate_off gate_execute_start inputs_of config_for_receipt nonce_row
start_gate e r shown presenter now db =
    let config = config_for_receipt e (some r) in
    if recording config
    then gate_execute_start e.parse_rfc3339 r shown
        (record (inputs_of e r now) {
          presenter = presenter;
          already_dispatched = true;
          nonce_unused = Option.map is_unspent (presented shown db.nonces);
        })
        config
    else gate_off execute_start r

abbrev pub who : Option String → String → Option String
who presenter task_id = elim (nonempty presenter) [ none ↦ some task_id | some p ↦ some p ]

abbrev pub spend_one :
    (nonce : Option String)
    → (presenter : Option String) → (task_id used_at : String) → List NonceRow
    → List NonceRow × Bool
spend_one none presenter task_id used_at rows = (rows, false)
spend_one (some n) presenter task_id used_at rows =
    consume_nonce n (some (consumer_tag "execute_start" (who presenter task_id))) used_at rows

-- `consume_nonce`, if a nonce was shown
unfoldable pub spend_shown :
    (shown presenter : Option String) → (task_id used_at : String) → Db → Db × Bool
unfolding consume_nonce consumer_tag
spend_shown shown presenter task_id used_at db =
    let (rows, spent) = spend_one (nonempty shown) presenter task_id used_at db.nonces in
    (record db { nonces = rows }, spent)

-- the answer to the gate
unfoldable pub start_on :
    Engine
    → (receipt_id : String) → GateOutcome
    → (shown presenter : Option String) → (task_id used_at : String) → ℕ
    → Db
    → Db × Go
unfolding spend_shown cea_transition
start_on e rid g shown presenter task_id used_at now db =
    let (db', spent) = spend_shown shown presenter task_id used_at db in
    if not g.proceed
    then (
      db,
      record {
        go = false;
        outcome = some g.result.outcome;
        enforced = g.enforced;
        nonce_spent = false;
      },
    )
    else if is_some (nonempty shown) && (not spent && g.enforced)
    then (db, no_go)
    else (
      cea_transition e rid ReceiptState.running (λ x. x) now db',
      record {
        go = true;
        outcome = some g.result.outcome;
        enforced = g.enforced;
        nonce_spent = spent;
      },
    )

abbrev pub or_empty : Option String → String
or_empty none = ""
or_empty (some s) = s

abbrev pub is_cancelled : Option Task → Bool
is_cancelled none = false
is_cancelled (some t) = same_status t.status cancelled

abbrev pub start_of :
    Engine
    → (task_id : String) → (shown presenter : Option String) → (used_at : String) → ℕ
    → (receipt : Option String × Option Receipt) → Db
    → Db × Go
start_of e task_id shown presenter used_at now (rid, none) db =
    let enforce = enforcing (e.config none) none in
    (db, record { go = not enforce; outcome = none; enforced = enforce; nonce_spent = false })
start_of e task_id shown presenter used_at now (rid, some r) db =
    start_on e (or_empty rid) (start_gate e r shown presenter now db) shown presenter task_id
      used_at now db

-- `start_execution`
unfoldable pub start_execution :
    Engine
    → (task_id : String) → (shown presenter : Option String) → (used_at : String) → ℕ
    → Db
    → Db × Go
unfolding task_of receipt_for_task start_gate start_on enforcing
start_execution e task_id shown presenter used_at now db =
    if is_cancelled (task_of task_id db.tasks)
    then (db, no_go)
    else start_of e task_id shown presenter used_at now (receipt_for_task task_id db) db
