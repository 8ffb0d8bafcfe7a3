-- ===== src/Cea/Validator/Completeness.antt =====
-- The conditions of the contract are enough: where they hold, the validator lets the task go on.
-- At RESULT no condition on the binding is among them
-- (src/agent_crew/cea/validator.py, validate).
use agent_crew.Common.{
  ℕ, String, true, false, ◌≡◌, ◌≢◌, refl, ◌↔◌, inl, inr, Option, none, List, [], ◌∷◌, arith,
  Option-cases,
}
use text.Mathlib.TextEquality.{eq_iff}
use agent_crew.Cea.Types.{Binding, Receipt, ReceiptState}
use agent_crew.Cea.Matrix.{
  Point, enqueue, claim, dispatch, execute_start, result, Outcome, runtime_state_verdict, permits,
}
use agent_crew.Cea.Drift.{Field, drifted_fields, has_field}
use agent_crew.Cea.Drift.Fields.{has-drifted_fields}
use agent_crew.Cea.Validator.Inputs.{Wire, not_object, nonconforming, conforming, CurrentInputs}
use agent_crew.Cea.Validator.Checks.{
  nonce_started, point_admits, check_lifecycle, check_signature, check_identity, check_verdict,
  check_nonce, check_executor,
}
use agent_crew.Cea.Validator.Judge.{
  check_snapshot, check_runtime, check_gates, needs_readmission, check_drift, result_answer,
  inputs_unavailable, judge_binding, judge_inputs, judge, validate,
}
use agent_crew.Cea.Validator.Authorised.{
  Permitted, FreshNonce, StartedNonce, presented, Cleared, Authorised,
}
use agent_crew.Cea.Validator.Soundness.{judge-Cleared, validate-Authorised}

lifecycle_passes :
    (p : Point) (r : Receipt) → point_admits p r.state ≡ true → check_lifecycle p r ≡ none
unfolding check_lifecycle
lifecycle_passes p r h = ground arith

module _ (p : Point) (r : Receipt) (cur : CurrentInputs) (c : Cleared p r cur) where
  signature_passes : check_signature p r cur ≡ none
  unfolding check_signature
  signature_passes = ground (arith, c.signed)

  identity_passes : check_identity p r cur ≡ none
  unfolding check_identity
  identity_passes = ground (arith, c.identified)

  verdict_passes : check_verdict p r ≡ none
  unfolding check_verdict
  verdict_passes = ground (arith, c.decided, c.reviewed)

  executor_passes : check_executor p r cur ≡ none
  unfolding check_executor
  executor_passes = elim (Option-cases (presented p cur)) [
    | inl unnamed ↦ ground arith
    | inr (who, e) ↦ elim (Option-cases r.executor_binding) [
      | inl unbound ↦ ground arith
      | inr (bound, b) ↦ ground (arith, c.executor who bound e b, eq_iff bound "", eq_iff who bound)
    ]
  ]

start_passes :
    (r : Receipt) (cur : CurrentInputs) → FreshNonce r cur → check_nonce execute_start r cur ≡ none
unfolding check_nonce
start_passes r cur (nonce, given, nonempty, minted, unspent) = ground (arith, eq_iff nonce "")

end_passes :
    (r : Receipt) (cur : CurrentInputs)
    → StartedNonce r cur
    → r.state ≡ ReceiptState.running
    → check_nonce result r cur ≡ none
unfolding check_nonce nonce_started
end_passes r cur (nonce, by, given, nonempty, minted, spent, spender, tag, same) run =
    ground (arith, eq_iff nonce "")

nonce_passes :
    (p : Point) (r : Receipt) (cur : CurrentInputs) → Cleared p r cur → check_nonce p r cur ≡ none
nonce_passes enqueue r cur c = unfold check_nonce in refl
nonce_passes claim r cur c = unfold check_nonce in refl
nonce_passes dispatch r cur c = unfold check_nonce in refl
nonce_passes execute_start r cur c = start_passes r cur (c.fresh refl)
nonce_passes result r cur c = end_passes r cur (c.started refl).0 (c.started refl).1

module _ (parse_rfc3339 : String → Option ℕ) where
  -- A cleared receipt is judged by its binding alone.
  judge_of_Cleared :
      (p : Point) (r : Receipt) (cur : CurrentInputs)
      → Cleared p r cur
      → judge parse_rfc3339 p r cur ≡ judge_inputs parse_rfc3339 p r cur
  unfolding judge
  judge_of_Cleared p r cur c = rw (
    lifecycle_passes p r c.admitted,
    signature_passes p r cur c,
    identity_passes p r cur c,
    verdict_passes p r cur c,
    nonce_passes p r cur c,
    executor_passes p r cur c,
  )

  result_answer-proceed :
      (r : Receipt) (cur : CurrentInputs) (b : Binding) (changed : List Field)
      → (result_answer r cur b changed).outcome ≡ Outcome.proceed
  unfolding result_answer
  result_answer-proceed r cur b [] = ground arith
  result_answer-proceed r cur b (f ∷ fs) = refl

  -- At RESULT nothing about the binding, the snapshot or the runtime state refuses.
  judge_inputs_result :
      (r : Receipt) (cur : CurrentInputs)
      → (judge_inputs parse_rfc3339 result r cur).outcome ≡ Outcome.proceed
  unfolding judge_inputs inputs_unavailable judge_binding check_snapshot check_runtime permits
      runtime_state_verdict
  judge_inputs_result r cur = elim (Option-cases cur.binding) [
    | inl unknown ↦ ground arith
    | inr (b, known) ↦ ground (arith, result_answer-proceed r cur b (drifted_fields r.binding b))
  ]

  -- A result is accepted exactly when the receipt is cleared for RESULT: a running receipt, its
  -- nonce spent by EXECUTE_START, its identities in order; the current binding, the snapshot and
  -- the runtime state are not asked.
  pub validate-result_iff :
      (w : Wire) (cur : CurrentInputs)
      → ((validate parse_rfc3339 w result cur).outcome ≡ Outcome.proceed)
        ↔ ((r : Receipt) × (w ≡ conforming r) × Cleared result r cur)
  unfolding validate
  validate-result_iff not_object cur = (λ h. cc, λ (r, e, c). cc)
  validate-result_iff (nonconforming rid) cur = (λ h. cc, λ (r, e, c). cc)
  validate-result_iff (conforming r) cur = (
    λ h. (r, refl, (judge-Cleared parse_rfc3339 result r cur h).0),
    λ (r', e, c).
        let same : r' ≡ r = cc in
        rw (judge_of_Cleared result r cur (rw same at c)) (judge_inputs_result r cur),
  )

  snapshot_passes :
      (p : Point) (r : Receipt) (cur : CurrentInputs) (a : Authorised parse_rfc3339 p r cur)
      → check_snapshot p r cur a.now_bound ≡ none
  unfolding check_snapshot
  snapshot_passes p r cur a = ground (arith, a.snapshot)

  runtime_passes :
      (p : Point) (r : Receipt) (cur : CurrentInputs) (b : Binding)
      → Permitted p b.runtime_state cur
      → check_runtime p r cur b ≡ none
  unfolding check_runtime permits runtime_state_verdict
  runtime_passes p r cur b h = ground arith

  steady_at :
      (p : Point) (r : Receipt) (cur : CurrentInputs) (a : Authorised parse_rfc3339 p r cur)
      (f : Field)
      → f ≢ Field.runtime_state
      → f ≢ Field.human_gate_state
      → f ≢ Field.budget_class
      → has_field f (drifted_fields r.binding a.now_bound) ≡ false
  steady_at p r cur a f n m k =
      ground (arith, a.steady f, has-drifted_fields r.binding a.now_bound f)

  gates_pass :
      (p : Point) (r : Receipt) (cur : CurrentInputs) (a : Authorised parse_rfc3339 p r cur)
      → check_gates p r cur a.now_bound (drifted_fields r.binding a.now_bound) ≡ none
  unfolding check_gates
  gates_pass p r cur a = ground (
    arith,
    steady_at p r cur a Field.runtime_state_epoch (λ e. cc) (λ e. cc) (λ e. cc),
    a.uninterrupted,
    a.gated,
  )

  readmission_not_needed :
      (p : Point) (r : Receipt) (cur : CurrentInputs) (a : Authorised parse_rfc3339 p r cur)
      → needs_readmission (drifted_fields r.binding a.now_bound) ≡ false
  unfolding needs_readmission
  readmission_not_needed p r cur a = ground (
    arith,
    steady_at p r cur a Field.policy_generation (λ e. cc) (λ e. cc) (λ e. cc),
    steady_at p r cur a Field.policy_hash (λ e. cc) (λ e. cc) (λ e. cc),
    steady_at p r cur a Field.source_decision_revs (λ e. cc) (λ e. cc) (λ e. cc),
    steady_at p r cur a Field.capability_registry (λ e. cc) (λ e. cc) (λ e. cc),
    steady_at p r cur a Field.matched_capability (λ e. cc) (λ e. cc) (λ e. cc),
  )

  drift_passes :
      (p : Point) (r : Receipt) (cur : CurrentInputs) (a : Authorised parse_rfc3339 p r cur)
      → (check_drift parse_rfc3339 p r cur a.now_bound
          (drifted_fields r.binding a.now_bound)).outcome
        ≡ Outcome.proceed
  unfolding check_drift
  drift_passes p r cur a = ground (arith, readmission_not_needed p r cur a, a.recent, a.affordable)

  binding_passes :
      (p : Point) (r : Receipt) (cur : CurrentInputs)
      → p ≢ result
      → Authorised parse_rfc3339 p r cur
      → (judge_inputs parse_rfc3339 p r cur).outcome ≡ Outcome.proceed
  unfolding judge_inputs judge_binding
  binding_passes p r cur n a = ground (
    arith,
    a.computed,
    a.complete,
    snapshot_passes p r cur a,
    runtime_passes p r cur a.now_bound a.permitted,
    gates_pass p r cur a,
    drift_passes p r cur a,
  )

  -- At enqueue, claim, dispatch and execute start the validator lets a task go on exactly when it
  -- is given a conforming receipt for which every condition of the contract holds. The binding has
  -- then moved in no field but runtime_state, human_gate_state and budget_class; of these the
  -- present value counts, and a granted gate may not be lost.
  pub validate-proceed_iff :
      (w : Wire) (p : Point) (cur : CurrentInputs)
      → p ≢ result
      → ((validate parse_rfc3339 w p cur).outcome ≡ Outcome.proceed)
        ↔ ((r : Receipt) × (w ≡ conforming r) × Authorised parse_rfc3339 p r cur)
  validate-proceed_iff w p cur n =
      (validate-Authorised parse_rfc3339 w p cur n, λ (r, e, a). rw e (authorised_proceeds r a))
    where
      authorised_proceeds :
          (r : Receipt)
          → Authorised parse_rfc3339 p r cur
          → (validate parse_rfc3339 (conforming r) p cur).outcome ≡ Outcome.proceed
      authorised_proceeds r a =
          unfold validate in rw (judge_of_Cleared p r cur a.cleared) (binding_passes p r cur n a)
