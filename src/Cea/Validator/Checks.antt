-- ===== src/Cea/Validator/Checks.antt =====
-- The checks of the validator that come before the binding is compared
-- (src/agent_crew/cea/validator.py, validate, steps 2 to 6). Each early return of the source is a
-- check that may give a result; `none` goes on to the next.
use agent_crew.Common.{
  ℕ, String, Bool, true, false, not, ◌&&◌, if◌then◌else◌, Option, none, some, List, [], ◌∷◌, ◌==◌,
  nat_eq, string_eq,
}
use text.Mathlib.Text.{starts_with}
use agent_crew.Cea.Types.{ReceiptState, Decision, is_verified, DispatchNonce, Receipt, truthy}
use agent_crew.Cea.Matrix.{Point, enqueue, claim, dispatch, execute_start, result, Outcome}
use agent_crew.Cea.Validator.Inputs.{
  CurrentInputs, Code, ValidationResult, answer, identity_dependent, verified_signature,
  verified_identities,
}

abbrev pub is_enqueue : Point → Bool
is_enqueue enqueue = true
is_enqueue _ = false

abbrev pub is_result : Point → Bool
is_result result = true
is_result _ = false

abbrev pub is_claim : Point → Bool
is_claim claim = true
is_claim _ = false

-- `_POINT_STATES`: the lifecycle states that may appear at a point
unfoldable pub point_admits : Point → ReceiptState → Bool
point_admits enqueue ReceiptState.issued = true
point_admits claim ReceiptState.queued = true
point_admits claim ReceiptState.held = true
point_admits dispatch ReceiptState.claimed = true
point_admits execute_start ReceiptState.claimed = true
point_admits execute_start ReceiptState.running = true
point_admits result ReceiptState.running = true
point_admits result ReceiptState.claimed = true
point_admits _ _ = false

-- step 2: the code of a terminal state
unfoldable pub terminal_code : ReceiptState → Option Code
terminal_code ReceiptState.consumed = some Code.receipt_consumed
terminal_code ReceiptState.superseded = some Code.receipt_superseded
terminal_code ReceiptState.revoked = some Code.receipt_revoked
terminal_code _ = none

abbrev is_held : ReceiptState → Bool
is_held ReceiptState.held = true
is_held _ = false

-- step 2
unfoldable pub check_lifecycle : Point → Receipt → Option ValidationResult
unfolding point_admits terminal_code
check_lifecycle p r = elim (terminal_code r.state) [
  | some code ↦ some (answer p r Outcome.block code)
  | none ↦
      if point_admits p r.state
      then none
      else if is_held r.state
      then some (answer p r Outcome.held Code.receipt_held)
      else some (answer p r Outcome.block Code.receipt_state_invalid)
]

-- step 3: the signature, verified as a finding
unfoldable pub check_signature : Point → Receipt → CurrentInputs → Option ValidationResult
check_signature p r cur =
    if verified_signature r cur
    then none
    else if is_verified r.signature_status
    then some (answer p r Outcome.block Code.signature_unverified_at_boundary)
    else if not (truthy r.downgrade_reason)
    then some (answer p r Outcome.block Code.receipt_unsigned)
    else none

abbrev pub is_allow : Decision → Bool
is_allow Decision.allow = true
is_allow _ = false

-- step 3: an identity-dependent ALLOW wants verified identities
unfoldable pub check_identity : Point → Receipt → CurrentInputs → Option ValidationResult
check_identity p r cur =
    if not (verified_identities r cur) && is_allow r.decision && identity_dependent r
    then some (answer p r Outcome.block Code.identity_dependent_allow_unverified)
    else none

-- step 4: the verdict of the receipt
unfoldable pub check_verdict : Point → Receipt → Option ValidationResult
check_verdict p r = elim r.decision [
  | Decision.block ↦ some (answer p r Outcome.block Code.decision_block)
  | Decision.human_gate ↦ some (answer p r Outcome.human_gate Code.decision_human_gate)
  | Decision.review ↦
      if is_enqueue p && not (truthy r.required_reviewer)
      then some (answer p r Outcome.block Code.review_without_reviewer)
      else none
  | Decision.allow ↦ none
]

-- step 5: the attempt that a nonce was minted for; a later entry replaces an earlier one
unfoldable pub minted_attempt : String → List DispatchNonce → Option ℕ
minted_attempt nonce [] = none
minted_attempt nonce (n ∷ ns) = elim (minted_attempt nonce ns) [
  | some a ↦ some a
  | none ↦ if n.nonce == nonce then some n.attempt else none
]

abbrev is_false : Option Bool → Bool
is_false (some false) = true
is_false _ = false

-- `_nonce_started`: was the nonce spent, and by EXECUTE_START?
unfoldable pub nonce_started : CurrentInputs → Bool
nonce_started cur =
    if not (is_false cur.nonce_unused)
    then false
    else elim cur.nonce_consumed_by [ none ↦ false | some by ↦ starts_with by "execute_start:" ]

abbrev pub is_running : ReceiptState → Bool
is_running ReceiptState.running = true
is_running _ = false

abbrev other_attempt : Option ℕ → ℕ → Bool
other_attempt none attempt = false
other_attempt (some a) attempt = not (a == attempt)

-- step 5 for a nonce that the receipt names with its attempt
unfoldable pub check_spent : Point → Receipt → CurrentInputs → Option ValidationResult
check_spent execute_start r cur =
    if is_false cur.nonce_unused
    then some (answer execute_start r Outcome.block Code.nonce_reused)
    else none
check_spent result r cur =
    if not (nonce_started cur)
    then some (answer result r Outcome.block Code.nonce_not_started)
    else if other_attempt cur.nonce_attempt r.attempt
    then some (answer result r Outcome.block Code.nonce_wrong_attempt)
    else if not (is_running r.state)
    then some (answer result r Outcome.block Code.result_without_execute_start)
    else none
check_spent _ r cur = none

abbrev takes_nonce : Point → Bool
takes_nonce execute_start = true
takes_nonce result = true
takes_nonce _ = false

-- step 5: the presented nonce
unfoldable pub check_nonce : Point → Receipt → CurrentInputs → Option ValidationResult
unfolding minted_attempt check_spent
check_nonce p r cur = if not (takes_nonce p) then none else elim cur.presented_nonce [
  | none ↦ some (answer p r Outcome.block Code.nonce_missing)
  | some nonce ↦
      if nonce == ""
      then some (answer p r Outcome.block Code.nonce_missing)
      else elim (minted_attempt nonce r.dispatch_nonces) [
        | none ↦ some (answer p r Outcome.block Code.nonce_unknown)
        | some a ↦
            if not (a == r.attempt)
            then some (answer p r Outcome.block Code.nonce_wrong_attempt)
            else check_spent p r cur
      ]
]

abbrev mismatch : Option String → Option String → Bool
mismatch (some who) (some bound) = if bound == "" then false else not (who == bound)
mismatch _ _ = false

-- step 5: the asserted identity against the bound executor
unfoldable pub check_executor : Point → Receipt → CurrentInputs → Option ValidationResult
check_executor p r cur =
    let presented = if is_claim p then cur.claimant else cur.presenter in
    if mismatch presented r.executor_binding
    then some (answer p r Outcome.block Code.executor_binding_mismatch)
    else none
