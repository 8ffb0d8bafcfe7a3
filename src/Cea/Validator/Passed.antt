-- ===== src/Cea/Validator/Passed.antt =====
-- What each check of the validator that does not stop a task has established
-- (src/agent_crew/cea/validator.py, validate).
use agent_crew.Common.{
  ℕ, ◌≤◌, String, true, false, ◌≡◌, ◌≢◌, ◌⊎◌, inl, inr, none, some, List, arith, Option-cases,
  Bool-cases,
}
use text.Mathlib.TextEquality.{eq_iff}
use agent_crew.Cea.Types.{
  ReceiptState, GateState, gate_state, Decision, Binding, Receipt, truthy, unverified,
}
use agent_crew.Cea.Matrix.{Point, enqueue, execute_start, result, runtime_state_verdict, permits}
use agent_crew.Cea.Drift.{Field, has_field}
use agent_crew.Cea.Validator.Inputs.{
  CurrentInputs, identity_dependent, verified_signature, verified_identities,
}
use agent_crew.Cea.Validator.Checks.{
  nonce_started, point_admits, check_lifecycle, check_signature, check_identity, check_verdict,
  check_nonce, minted_attempt, check_executor,
}
use agent_crew.Cea.Validator.Judge.{check_snapshot, check_runtime, check_gates, needs_readmission}
use agent_crew.Cea.Validator.Authorised.{Permitted, FreshNonce, StartedNonce, presented}

pub lifecycle_passed :
    (p : Point) (r : Receipt) → check_lifecycle p r ≡ none → point_admits p r.state ≡ true
unfolding check_lifecycle
lifecycle_passed p r h = ground arith

pub signature_passed :
    (p : Point) (r : Receipt) (cur : CurrentInputs)
    → check_signature p r cur ≡ none
    → (verified_signature r cur ≡ true)
      ⊎ (r.signature_status ≡ unverified) × (truthy r.downgrade_reason ≡ true)
unfolding check_signature
signature_passed p r cur h = ground arith

pub identity_passed :
    (p : Point) (r : Receipt) (cur : CurrentInputs)
    → check_identity p r cur ≡ none
    → r.decision ≡ Decision.allow
    → identity_dependent r ≡ true
    → verified_identities r cur ≡ true
unfolding check_identity
identity_passed p r cur h a d = ground arith

pub verdict_passed :
    (p : Point) (r : Receipt)
    → check_verdict p r ≡ none
    → ((r.decision ≡ Decision.allow) ⊎ (r.decision ≡ Decision.review))
      × (p ≡ enqueue → r.decision ≡ Decision.review → truthy r.required_reviewer ≡ true)
unfolding check_verdict
verdict_passed p r h = ground arith

pub nonce_passed :
    (p : Point) (r : Receipt) (cur : CurrentInputs)
    → check_nonce p r cur ≡ none
    → p ≡ execute_start
    → FreshNonce r cur
unfolding check_nonce
nonce_passed p r cur h e = elim (Option-cases cur.presented_nonce) [
  | inl missing ↦ absurd (ground arith)
  | inr (nonce, given) ↦ elim (Option-cases (minted_attempt nonce r.dispatch_nonces)) [
    | inl unknown ↦ absurd (ground arith)
    | inr (a, minted) ↦ (nonce, given, ground (arith, eq_iff nonce ""), ground arith, ground arith)
  ]
]

pub started_passed :
    (p : Point) (r : Receipt) (cur : CurrentInputs)
    → check_nonce p r cur ≡ none
    → p ≡ result
    → StartedNonce r cur × (r.state ≡ ReceiptState.running)
unfolding check_nonce nonce_started
started_passed p r cur h e = elim (Option-cases cur.presented_nonce) [
  | inl missing ↦ absurd (ground arith)
  | inr (nonce, given) ↦ elim (Option-cases (minted_attempt nonce r.dispatch_nonces)) [
    | inl unknown ↦ absurd (ground arith)
    | inr (a, minted) ↦ elim (Option-cases cur.nonce_consumed_by) [
      | inl nobody ↦ absurd (ground arith)
      | inr (by, spender) ↦ (
        (
          nonce,
          by,
          given,
          ground (arith, eq_iff nonce ""),
          ground arith,
          ground arith,
          spender,
          ground arith,
          ground arith,
        ),
        ground arith,
      )
    ]
  ]
]

pub executor_passed :
    (p : Point) (r : Receipt) (cur : CurrentInputs)
    → check_executor p r cur ≡ none
    → (who bound : String) → presented p cur ≡ some who
    → r.executor_binding ≡ some bound
    → (bound ≡ "") ⊎ (who ≡ bound)
unfolding check_executor
executor_passed p r cur h who bound e b = ground (arith, eq_iff bound "", eq_iff who bound)

pub snapshot_passed :
    (p : Point) (r : Receipt) (cur : CurrentInputs) (b : Binding)
    → p ≢ result
    → check_snapshot p r cur b ≡ none
    → (cur.snapshot_available ≡ true)
      ⊎ ((age : ℕ) × (cur.snapshot_age ≡ some age) × (age ≤ cur.snapshot_max_age))
unfolding check_snapshot
snapshot_passed p r cur b n h = elim (Option-cases cur.snapshot_age) [
  | inl unknown ↦ inl (ground arith)
  | inr (age, known) ↦ elim (Bool-cases cur.snapshot_available) [
    | inl there ↦ inl there
    | inr away ↦ inr (age, known, ground arith)
  ]
]

pub runtime_passed :
    (p : Point) (r : Receipt) (cur : CurrentInputs) (b : Binding)
    → p ≢ result
    → check_runtime p r cur b ≡ none
    → Permitted p b.runtime_state cur
unfolding check_runtime permits runtime_state_verdict
runtime_passed p r cur b n h = ground arith

pub gates_passed :
    (p : Point) (r : Receipt) (cur : CurrentInputs) (b : Binding) (changed : List Field)
    → check_gates p r cur b changed ≡ none
    → (has_field Field.runtime_state_epoch changed ≡ false)
      × (cur.epoch_passed_non_active ≡ false)
      × ((gate_state b.human_gate_state ≡ GateState.not_required)
            × (gate_state r.binding.human_gate_state ≢ GateState.granted)
          ⊎ (gate_state b.human_gate_state ≡ GateState.granted))
unfolding check_gates
gates_passed p r cur b changed h = ground arith

pub readmission_free :
    (changed : List Field)
    → needs_readmission changed ≡ false
    → (has_field Field.policy_generation changed ≡ false)
      × (has_field Field.policy_hash changed ≡ false)
      × (has_field Field.source_decision_revs changed ≡ false)
      × (has_field Field.capability_registry changed ≡ false)
      × (has_field Field.matched_capability changed ≡ false)
unfolding needs_readmission
readmission_free changed h = ground arith
