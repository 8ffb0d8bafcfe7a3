-- ===== src/Cea/Validator/Authorised.antt =====
-- What the validator has established when it lets a task go on
-- (src/agent_crew/cea/validator.py, validate).
use agent_crew.Common.{
  ℕ, ◌≤◌, String, true, false, ◌≡◌, ◌≢◌, ◌⊎◌, Option, none, some, [], if◌then◌else◌,
}
use text.Mathlib.Text.{starts_with}
use agent_crew.Cea.Types.{
  ReceiptState, RuntimeState, active, draining, GateState, gate_state, exhausted, Decision, Binding,
  Receipt, truthy, unverified,
}
use agent_crew.Cea.Matrix.{Point, enqueue, dispatch, execute_start, result}
use agent_crew.Cea.Drift.{Field, moved}
use agent_crew.Cea.Validator.Inputs.{
  CurrentInputs, identity_dependent, verified_signature, verified_identities,
}
use agent_crew.Cea.Validator.Checks.{is_claim, point_admits, minted_attempt}
use agent_crew.Cea.Validator.Judge.{expired}

-- The runtime state lets the point act.
abbrev pub Permitted : Point → RuntimeState → CurrentInputs → Type 0
Permitted p s cur =
    (s ≡ active)
    ⊎ (s ≡ draining)
      × ((p ≡ dispatch) × (cur.already_claimed ≡ true)
          ⊎ (p ≡ execute_start) × (cur.already_dispatched ≡ true))

-- The nonce was minted for the receipt's attempt and is not known to be spent.
abbrev pub FreshNonce : Receipt → CurrentInputs → Type 0
FreshNonce r cur =
    (nonce : String) × (cur.presented_nonce ≡ some nonce)
    × (nonce ≢ "")
    × (minted_attempt nonce r.dispatch_nonces ≡ some r.attempt)
    × (cur.nonce_unused ≢ some false)

abbrev pub presented : Point → CurrentInputs → Option String
presented p cur = if is_claim p then cur.claimant else cur.presenter

-- The nonce was minted for the receipt's attempt and was spent by EXECUTE_START.
abbrev pub StartedNonce : Receipt → CurrentInputs → Type 0
StartedNonce r cur =
    (nonce by : String) × (cur.presented_nonce ≡ some nonce)
    × (nonce ≢ "")
    × (minted_attempt nonce r.dispatch_nonces ≡ some r.attempt)
    × (cur.nonce_unused ≡ some false)
    × (cur.nonce_consumed_by ≡ some by)
    × (starts_with by "execute_start:" ≡ true)
    × ((cur.nonce_attempt ≡ none) ⊎ (cur.nonce_attempt ≡ some r.attempt))

-- What holds of a receipt before any binding is compared.
pub record Cleared (p : Point) (r : Receipt) (cur : CurrentInputs) : Type 0 where
  pub admitted : point_admits p r.state ≡ true
  pub signed :
      (verified_signature r cur ≡ true)
      ⊎ (r.signature_status ≡ unverified) × (truthy r.downgrade_reason ≡ true)
  pub decided : (r.decision ≡ Decision.allow) ⊎ (r.decision ≡ Decision.review)
  pub reviewed : p ≡ enqueue → r.decision ≡ Decision.review → truthy r.required_reviewer ≡ true
  pub identified :
      r.decision ≡ Decision.allow → identity_dependent r ≡ true → verified_identities r cur ≡ true
  pub executor :
      (who bound : String)
      → presented p cur ≡ some who
      → r.executor_binding ≡ some bound
      → (bound ≡ "") ⊎ (who ≡ bound)
  pub fresh : p ≡ execute_start → FreshNonce r cur
  pub started : p ≡ result → StartedNonce r cur × (r.state ≡ ReceiptState.running)

-- What holds of a receipt and the current inputs when the task may go on.
pub record Authorised (parse_rfc3339 : String → Option ℕ) (p : Point) (r : Receipt)
    (cur : CurrentInputs) : Type 0 where
  pub cleared : Cleared p r cur
  pub now_bound : Binding
  pub computed : cur.binding ≡ some now_bound
  pub complete : cur.unavailable_inputs ≡ []
  pub snapshot :
      (cur.snapshot_available ≡ true)
      ⊎ ((age : ℕ) × (cur.snapshot_age ≡ some age) × (age ≤ cur.snapshot_max_age))
  pub uninterrupted : cur.epoch_passed_non_active ≡ false
  pub permitted : Permitted p now_bound.runtime_state cur
  pub steady :
      (f : Field)
      → (f ≡ Field.runtime_state)
        ⊎ (f ≡ Field.human_gate_state)
        ⊎ (f ≡ Field.budget_class)
        ⊎ (moved r.binding now_bound f ≡ false)
  pub gated :
      (gate_state now_bound.human_gate_state ≡ GateState.not_required)
        × (gate_state r.binding.human_gate_state ≢ GateState.granted)
      ⊎ (gate_state now_bound.human_gate_state ≡ GateState.granted)
  pub recent : expired parse_rfc3339 r cur ≡ false
  pub affordable : now_bound.budget_class ≢ exhausted
