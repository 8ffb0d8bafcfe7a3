-- ===== src/Cea/Validator/Contract.antt =====
-- The named methods of the validator (src/agent_crew/cea/validator.py, ContractReceiptValidator).
-- `current` is always given: without it the source takes the default CurrentInputs.
use agent_crew.Common.{
  ℕ, String, Bool, false, not, if◌then◌else◌, Option, none, some, [], option_eq, ◌≡◌, ◌≢◌, ◌↔◌, ◌⊎◌,
  inl, inr, refl, sym, ap, ◌∙◌, eq_of_beq, ◌==◌, nat_eq, string_eq, arith, Bool-cases,
}
use text.Mathlib.TextEquality.{eq_iff}
use agent_crew.Cea.Types.{Receipt}
use agent_crew.Cea.Matrix.{enqueue, claim, dispatch, execute_start, result, Outcome}
use agent_crew.Cea.Validator.Inputs.{
  Wire, not_object, nonconforming, conforming, CurrentInputs, Code, ValidationResult, answer,
}
use agent_crew.Cea.Validator.Checks.{minted_attempt}
use agent_crew.Cea.Validator.Judge.{validate}
use agent_crew.Cea.Validator.Authorised.{Authorised}
use agent_crew.Cea.Validator.Completeness.{validate-proceed_iff}

abbrev given_or : Option String → Option String → Option String
given_or none old = old
given_or (some new) old = some new

-- the task of a conforming receipt
abbrev task_of : Wire → String
task_of not_object = ""
task_of (nonconforming rid) = ""
task_of (conforming r) = r.task_id

-- its attempt
abbrev attempt_of : Wire → ℕ
attempt_of not_object = 0
attempt_of (nonconforming rid) = 0
attempt_of (conforming r) = r.attempt

module _ (parse_rfc3339 : String → Option ℕ) where
  -- `validate_enqueue`; `stated` is the task id of an object that breaks the schema
  unfoldable pub validate_enqueue :
      (stated : Option String) → Wire → (task_id : String) → CurrentInputs → ValidationResult
  unfolding validate
  validate_enqueue stated not_object task_id cur = validate parse_rfc3339 not_object enqueue cur
  validate_enqueue stated (nonconforming rid) task_id cur =
      if not (stated == some task_id)
      then record {
        point = enqueue;
        outcome = Outcome.block;
        code = Code.task_id_mismatch;
        receipt_id = rid;
        binding_now = none;
        changed_fields = [];
      }
      else validate parse_rfc3339 (nonconforming rid) enqueue cur
  validate_enqueue stated (conforming r) task_id cur =
      if not (r.task_id == task_id)
      then answer enqueue r Outcome.block Code.task_id_mismatch
      else validate parse_rfc3339 (conforming r) enqueue cur

  -- `validate_claim`
  unfoldable pub validate_claim :
      Wire → (claimant : Option String) → CurrentInputs → ValidationResult
  unfolding validate
  validate_claim w claimant cur =
      validate parse_rfc3339 w claim (record cur { claimant = given_or claimant cur.claimant })

  abbrev wrong_attempt : Option ℕ → Option ℕ → Bool
  wrong_attempt none stated = false
  wrong_attempt (some attempt) stated = not (stated == some attempt)

  -- `validate_dispatch`; `stated` is the attempt of an object that breaks the schema
  unfoldable pub validate_dispatch :
      (stated : Option ℕ) → Wire → (attempt : Option ℕ) → CurrentInputs → ValidationResult
  unfolding validate
  validate_dispatch stated not_object attempt cur = validate parse_rfc3339 not_object dispatch cur
  validate_dispatch stated (nonconforming rid) attempt cur =
      if wrong_attempt attempt stated
      then record {
        point = dispatch;
        outcome = Outcome.block;
        code = Code.attempt_mismatch;
        receipt_id = rid;
        binding_now = none;
        changed_fields = [];
      }
      else validate parse_rfc3339 (nonconforming rid) dispatch cur
  validate_dispatch stated (conforming r) attempt cur =
      if wrong_attempt attempt (some r.attempt)
      then answer dispatch r Outcome.block Code.attempt_mismatch
      else validate parse_rfc3339 (conforming r) dispatch cur

  -- `validate_execute_start`
  unfoldable pub validate_execute_start :
      Wire → (nonce : Option String) → CurrentInputs → ValidationResult
  unfolding validate
  validate_execute_start w nonce cur =
      validate parse_rfc3339 w execute_start
        (record cur { presented_nonce = given_or nonce cur.presented_nonce })

  -- `validate_result`
  unfoldable pub validate_result :
      Wire → (nonce presenter : Option String) → CurrentInputs → ValidationResult
  unfolding validate
  validate_result w nonce presenter cur = validate parse_rfc3339 w result (record cur {
    presented_nonce = given_or nonce cur.presented_nonce;
    presenter = given_or presenter cur.presenter;
  })

  -- Admission goes on exactly for a conforming receipt of the task at hand that the contract
  -- authorises at enqueue, which it may although runtime_state, human_gate_state or budget_class of
  -- the binding moved.
  pub validate_enqueue-proceed_iff :
      (stated : Option String) (w : Wire) (task_id : String) (cur : CurrentInputs)
      → ((validate_enqueue stated w task_id cur).outcome ≡ Outcome.proceed) ↔ (
          (r : Receipt) × (w ≡ conforming r)
          × (r.task_id ≡ task_id)
          × Authorised parse_rfc3339 enqueue r cur)
  unfolding validate_enqueue validate
  validate_enqueue-proceed_iff stated not_object task_id cur = (λ h. cc, λ (r, e, t, a). cc)
  validate_enqueue-proceed_iff stated (nonconforming rid) task_id cur =
      (λ h. absurd (ground arith), λ (r, e, t, a). cc)
  validate_enqueue-proceed_iff stated (conforming r) task_id cur =
      let base = validate-proceed_iff parse_rfc3339 (conforming r) enqueue cur (λ e. cc) in
      elim (Bool-cases (r.task_id == task_id)) [
        | inl same ↦ (
          λ h.
              let (r', e, a) = base.0 (rw (validate_enqueue, same) at h) in
              (r', e, sym (ap task_of e) ∙ eq_of_beq r.task_id task_id same, a),
          λ (r', e, t, a). rw (validate_enqueue, same) (base.1 (r', e, a)),
        )
        | inr other ↦ (
          λ h. absurd (let g = rw (validate_enqueue, other) at h in cc),
          λ (r', e, t, a).
              absurd (let same = (eq_iff r.task_id task_id).1 (ap task_of e ∙ t) in ground arith),
        )
      ]

  right_attempt :
      (attempt : Option ℕ) (n : ℕ)
      → (wrong_attempt attempt (some n) ≡ false) ↔ ((attempt ≡ none) ⊎ (attempt ≡ some n))
  right_attempt none n = (λ h. inl refl, λ h. refl)
  right_attempt (some a) n = (λ h. inr (ground arith), λ h. ground arith)

  -- Dispatch goes on exactly for a conforming receipt at the attempt asked for, if one is asked for,
  -- that the contract authorises at dispatch, which it may although runtime_state, human_gate_state
  -- or budget_class of the binding moved.
  pub validate_dispatch-proceed_iff :
      (stated : Option ℕ) (w : Wire) (attempt : Option ℕ) (cur : CurrentInputs)
      → ((validate_dispatch stated w attempt cur).outcome ≡ Outcome.proceed) ↔ (
          (r : Receipt) × (w ≡ conforming r)
          × ((attempt ≡ none) ⊎ (attempt ≡ some r.attempt))
          × Authorised parse_rfc3339 dispatch r cur)
  unfolding validate_dispatch validate
  validate_dispatch-proceed_iff stated not_object attempt cur = (λ h. cc, λ (r, e, t, a). cc)
  validate_dispatch-proceed_iff stated (nonconforming rid) attempt cur =
      (λ h. absurd (ground arith), λ (r, e, t, a). cc)
  validate_dispatch-proceed_iff stated (conforming r) attempt cur =
      let base = validate-proceed_iff parse_rfc3339 (conforming r) dispatch cur (λ e. cc) in
      elim (Bool-cases (wrong_attempt attempt (some r.attempt))) [
        | inr same ↦ (
          λ h.
              let (r', e, a) = base.0 (rw (validate_dispatch, same) at h) in
              (
                r',
                e,
                (right_attempt attempt r'.attempt).0
                    (ap (λ x. wrong_attempt attempt (some (attempt_of x))) (sym e) ∙ same),
                a,
              ),
          λ (r', e, t, a). rw (validate_dispatch, same) (base.1 (r', e, a)),
        )
        | inl other ↦ (
          λ h. absurd (let g = rw (validate_dispatch, other) at h in cc),
          λ (r', e, t, a). absurd (
              let same =
                ap (λ x. wrong_attempt attempt (some (attempt_of x))) e
                ∙ (right_attempt attempt r'.attempt).1 t in
              ground arith),
        )
      ]

  -- When execution is let start on a nonce, the receipt conforms, and the nonce is not empty, was
  -- minted for the receipt's attempt and is not known to be spent.
  pub started_on_fresh_nonce :
      (w : Wire) (nonce : String) (cur : CurrentInputs)
      → (validate_execute_start w (some nonce) cur).outcome ≡ Outcome.proceed
      → (r : Receipt) × (w ≡ conforming r)
        × (nonce ≢ "")
        × (minted_attempt nonce r.dispatch_nonces ≡ some r.attempt)
        × (cur.nonce_unused ≢ some false)
  unfolding validate_execute_start
  started_on_fresh_nonce w nonce cur h =
      let (r, e, a) =
        (validate-proceed_iff parse_rfc3339 w execute_start
            (record cur { presented_nonce = some nonce }) (λ e. cc)).0
          h in
      let (n, same, filled, minted, unspent) = a.cleared.fresh refl in
      let eq : nonce ≡ n = ground arith in (r, e, rw eq filled, rw eq minted, unspent)
