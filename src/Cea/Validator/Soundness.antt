-- ===== src/Cea/Validator/Soundness.antt =====
-- From an answer PROCEED to what every check has established
-- (src/agent_crew/cea/validator.py, validate).
use agent_crew.Common.{
  ℕ, String, false, ◌≡◌, ◌≢◌, refl, ◌⊎◌, inl, inr, Option, none, some, List, [], arith,
  Option-cases,
}
use agent_crew.Cea.Types.{exhausted, Binding, Receipt}
use agent_crew.Cea.Matrix.{Point, result, Outcome}
use agent_crew.Cea.Drift.{Field, moved, drifted_fields, has_field}
use agent_crew.Cea.Drift.Fields.{has-drifted_fields}
use agent_crew.Cea.Validator.Inputs.{Wire, not_object, nonconforming, conforming, CurrentInputs}
use agent_crew.Cea.Validator.Checks.{
  check_lifecycle, check_signature, check_identity, check_verdict, check_nonce, check_executor,
}
use agent_crew.Cea.Validator.Judge.{
  check_snapshot, check_runtime, check_gates, needs_readmission, expired, check_drift,
  judge_binding, judge_inputs, inputs_unavailable, judge, validate,
}
use agent_crew.Cea.Validator.Refusals.{
  or_else-proceed, check_lifecycle-Refuses, check_signature-Refuses, check_identity-Refuses,
  check_verdict-Refuses, check_nonce-Refuses, check_executor-Refuses, check_snapshot-Refuses,
  check_runtime-Refuses, check_gates-Refuses,
}
use agent_crew.Cea.Validator.Authorised.{Cleared, Authorised}
use agent_crew.Cea.Validator.Passed.{
  lifecycle_passed, signature_passed, identity_passed, verdict_passed, nonce_passed, started_passed,
  executor_passed, snapshot_passed, runtime_passed, gates_passed, readmission_free,
}

module _ (parse_rfc3339 : String → Option ℕ) where
  drift_passed :
      (p : Point) (r : Receipt) (cur : CurrentInputs) (b : Binding) (changed : List Field)
      → (check_drift parse_rfc3339 p r cur b changed).outcome ≡ Outcome.proceed
      → (needs_readmission changed ≡ false)
        × (expired parse_rfc3339 r cur ≡ false)
        × (b.budget_class ≢ exhausted)
  unfolding check_drift
  drift_passed p r cur b changed h = ground arith

  steady_fields :
      (r : Receipt) (b : Binding)
      → has_field Field.runtime_state_epoch (drifted_fields r.binding b) ≡ false
      → needs_readmission (drifted_fields r.binding b) ≡ false
      → (f : Field)
      → (f ≡ Field.runtime_state)
        ⊎ (f ≡ Field.human_gate_state)
        ⊎ (f ≡ Field.budget_class)
        ⊎ (moved r.binding b f ≡ false)
  steady_fields r b epoch free f =
      ground (
        arith,
        readmission_free (drifted_fields r.binding b) free,
        has-drifted_fields r.binding b f,
      )

  passed_binding :
      (p : Point) (r : Receipt) (cur : CurrentInputs) (b : Binding)
      → p ≢ result
      → (judge_binding parse_rfc3339 p r cur b).outcome ≡ Outcome.proceed
      → (check_snapshot p r cur b ≡ none)
        × (check_runtime p r cur b ≡ none)
        × (check_gates p r cur b (drifted_fields r.binding b) ≡ none)
        × ((check_drift parse_rfc3339 p r cur b (drifted_fields r.binding b)).outcome
            ≡ Outcome.proceed)
  unfolding judge_binding
  passed_binding p r cur b n h =
      let (snap, h1) =
        or_else-proceed (check_snapshot p r cur b) _ (check_snapshot-Refuses p r cur b n) h in
      let (run, h2) =
        or_else-proceed (check_runtime p r cur b) _ (check_runtime-Refuses p r cur b) h1 in
      let (gate, h3) =
        or_else-proceed (check_gates p r cur b (drifted_fields r.binding b))
          (check_drift parse_rfc3339 p r cur b (drifted_fields r.binding b))
          (check_gates-Refuses p r cur b (drifted_fields r.binding b)) (ground arith) in
      (snap, run, gate, h3)

  passed_inputs :
      (p : Point) (r : Receipt) (cur : CurrentInputs)
      → p ≢ result
      → (judge_inputs parse_rfc3339 p r cur).outcome ≡ Outcome.proceed
      → (b : Binding) × (cur.binding ≡ some b)
        × (cur.unavailable_inputs ≡ [])
        × ((judge_binding parse_rfc3339 p r cur b).outcome ≡ Outcome.proceed)
  unfolding judge_inputs inputs_unavailable
  passed_inputs p r cur n h = elim (Option-cases cur.binding) [
    | inl unknown ↦ absurd (ground arith)
    | inr (b, known) ↦ (b, known, ground arith, ground arith)
  ]

  passed_checks :
      (p : Point) (r : Receipt) (cur : CurrentInputs)
      → (judge parse_rfc3339 p r cur).outcome ≡ Outcome.proceed
      → (check_lifecycle p r ≡ none)
        × (check_signature p r cur ≡ none)
        × (check_identity p r cur ≡ none)
        × (check_verdict p r ≡ none)
        × (check_nonce p r cur ≡ none)
        × (check_executor p r cur ≡ none)
        × ((judge_inputs parse_rfc3339 p r cur).outcome ≡ Outcome.proceed)
  unfolding judge
  passed_checks p r cur h =
      let (a, h1) = or_else-proceed (check_lifecycle p r) _ (check_lifecycle-Refuses p r) h in
      let (b, h2) =
        or_else-proceed (check_signature p r cur) _ (check_signature-Refuses p r cur) h1 in
      let (c, h3) =
        or_else-proceed (check_identity p r cur) _ (check_identity-Refuses p r cur) h2 in
      let (d, h4) = or_else-proceed (check_verdict p r) _ (check_verdict-Refuses p r) h3 in
      let (e, h5) = or_else-proceed (check_nonce p r cur) _ (check_nonce-Refuses p r cur) h4 in
      let (f, h6) =
        or_else-proceed (check_executor p r cur) _ (check_executor-Refuses p r cur) h5 in
      (a, b, c, d, e, f, h6)

  pub judge-Cleared :
      (p : Point) (r : Receipt) (cur : CurrentInputs)
      → (judge parse_rfc3339 p r cur).outcome ≡ Outcome.proceed
      → Cleared p r cur × ((judge_inputs parse_rfc3339 p r cur).outcome ≡ Outcome.proceed)
  judge-Cleared p r cur h =
      let (lifecycle, signature, identity, verdict, nonce, executor, rest) =
        passed_checks p r cur h in
      (
        record {
          admitted = lifecycle_passed p r lifecycle;
          signed = signature_passed p r cur signature;
          decided = (verdict_passed p r verdict).0;
          reviewed = (verdict_passed p r verdict).1;
          identified = identity_passed p r cur identity;
          executor = executor_passed p r cur executor;
          fresh = nonce_passed p r cur nonce;
          started = started_passed p r cur nonce;
        },
        rest,
      )

  judge-Authorised :
      (p : Point) (r : Receipt) (cur : CurrentInputs)
      → p ≢ result
      → (judge parse_rfc3339 p r cur).outcome ≡ Outcome.proceed
      → Authorised parse_rfc3339 p r cur
  judge-Authorised p r cur n h =
      let (cleared, h1) = judge-Cleared p r cur h in
      let (b, known, complete, h2) = passed_inputs p r cur n h1 in
      let (snap, run, gate, h3) = passed_binding p r cur b n h2 in
      let (free, recent, affordable) = drift_passed p r cur b (drifted_fields r.binding b) h3 in
      let (epoch, uninterrupted, gated) =
        gates_passed p r cur b (drifted_fields r.binding b) gate in
      record {
        cleared = cleared;
        now_bound = b;
        computed = known;
        complete = complete;
        snapshot = snapshot_passed p r cur b n snap;
        uninterrupted = uninterrupted;
        permitted = runtime_passed p r cur b n run;
        steady = steady_fields r b epoch free;
        gated = gated;
        recent = recent;
        affordable = affordable;
      }

  -- At enqueue, claim, dispatch and execute start the validator lets a task go on only for a
  -- conforming receipt for which every condition of the contract holds.
  pub validate-Authorised :
      (w : Wire) (p : Point) (cur : CurrentInputs)
      → p ≢ result
      → (validate parse_rfc3339 w p cur).outcome ≡ Outcome.proceed
      → (r : Receipt) × (w ≡ conforming r) × Authorised parse_rfc3339 p r cur
  unfolding validate
  validate-Authorised not_object p cur n h = cc
  validate-Authorised (nonconforming rid) p cur n h = cc
  validate-Authorised (conforming r) p cur n h =
      (r, refl, judge-Authorised p r cur n (unfold validate in h))
