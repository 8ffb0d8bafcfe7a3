-- ===== src/Cea/CallSites.antt =====
-- The call sites of the validator (src/agent_crew/cea/callsites.py): what the rollout mode makes of
-- a verdict. A configuration has passed `EngineConfig.__post_init__`, which demotes every mode but
-- enforce, test and off to off (src/agent_crew/cea/engine.py).
pub mod Requeue
pub mod Enforcement
use agent_crew.Common.{
  ℕ, String, Bool, true, false, not, ◌&&◌, ◌||◌, if◌then◌else◌, Option, none, some, List, [], elem,
  string_eq, is_empty,
}
use agent_crew.Cea.Types.{Receipt, Binding, RuntimeState}
use agent_crew.Cea.Matrix.{
  Point, enqueue, claim, dispatch, execute_start, result, Outcome, Verdict, runtime_state_verdict,
}
use agent_crew.Cea.Validator.Inputs.{
  conforming, CurrentInputs, Code, ValidationResult, answer, code_text,
}
use agent_crew.Cea.Validator.Contract.{
  validate_enqueue, validate_claim, validate_dispatch, validate_execute_start, validate_result,
}

-- `EngineConfig.mode`
pub data Mode : Type 0 where
  off enforce test : Mode

-- EngineConfig, the fields that the gates read
pub record Config : Type 0 where
  pub mode : Mode
  pub enforce_codes : Option (List String)

-- resolved.mode in (ENFORCE, TEST)
abbrev pub stops_work : Mode → Bool
stops_work Mode.off = false
stops_work Mode.enforce = true
stops_work Mode.test = true

abbrev listed : Option String → Option (List String) → Bool
listed none codes = true
listed (some code) none = true
listed (some code) (some codes) = elem code codes

-- `enforcing`
unfoldable pub enforcing : Config → (reason_code : Option String) → Bool
enforcing config code = stops_work config.mode && listed code config.enforce_codes

-- `EngineConfig.recording`
unfoldable pub recording : Config → Bool
recording config = stops_work config.mode

-- GateOutcome
pub record GateOutcome : Type 0 where
  pub point : Point
  pub result : ValidationResult
  pub proceed : Bool
  pub enforced : Bool
  pub review_required : Bool

abbrev pub is_proceed : Outcome → Bool
is_proceed Outcome.proceed = true
is_proceed _ = false

abbrev quotes_receipt : Code → Bool
quotes_receipt Code.decision_block = true
quotes_receipt Code.decision_human_gate = true
quotes_receipt _ = false

abbrev text_or : Option String → String → String
text_or none other = other
text_or (some s) other = if is_empty s then other else s

-- the code that the allowlist is asked for
unfoldable pub verdict_code : ValidationResult → Receipt → String
unfolding code_text
verdict_code v r =
    let code = code_text v.code in
    if quotes_receipt v.code then text_or r.reason_code code else code

-- `_gate`
unfoldable pub gate : Point → ValidationResult → Config → Receipt → GateOutcome
unfolding enforcing verdict_code
gate point v config r =
    let passes = is_proceed v.outcome in
    let enforce = enforcing config (if passes then none else some (verdict_code v r)) in
    let proceed = passes || not enforce in
    record {
      point = point;
      result = v;
      proceed = proceed;
      enforced = enforce;
      review_required = stops_work config.mode && (proceed && not passes);
    }

-- `gate_off`, for a receipt on file
unfoldable pub gate_off : Point → Receipt → GateOutcome
gate_off point r = record {
  point = point;
  result = answer point r Outcome.proceed Code.cea_mode_off;
  proceed = true;
  enforced = false;
  review_required = false;
}

-- `current_inputs`, before the overrides of a call site: what the engine finds now, and the
-- defaults of CurrentInputs
unfoldable pub current_inputs :
    (binding : Option Binding) (unavailable : List String) (verified : Option Bool) (now : ℕ)
    → CurrentInputs
current_inputs binding unavailable verified now = record {
  binding = binding;
  unavailable_inputs = unavailable;
  now = now;
  snapshot_available = true;
  snapshot_age = none;
  epoch_passed_non_active = false;
  claimant = none;
  presenter = none;
  presented_nonce = none;
  nonce_unused = none;
  nonce_consumed_by = none;
  nonce_attempt = none;
  already_claimed = false;
  already_dispatched = false;
  max_receipt_age = 86400;
  snapshot_max_age = 900;
  signature_verification = verified;
  attested_identities = [];
}

-- `_parse_rfc3339` calls `datetime.fromisoformat`.
module _ (parse_rfc3339 : String → Option ℕ) where
  -- `gate_enqueue`
  unfoldable pub gate_enqueue : Receipt → (task_id : String) → CurrentInputs → Config → GateOutcome
  unfolding gate
  gate_enqueue r task_id cur config =
      gate enqueue (validate_enqueue parse_rfc3339 none (conforming r) task_id cur) config r

  -- `gate_claim`
  unfoldable pub gate_claim :
      Receipt → (claimant : Option String) → CurrentInputs → Config → GateOutcome
  unfolding gate
  gate_claim r claimant cur config =
      gate claim (validate_claim parse_rfc3339 (conforming r) claimant cur) config r

  -- `gate_dispatch`
  unfoldable pub gate_dispatch :
      Receipt → (attempt : Option ℕ) → CurrentInputs → Config → GateOutcome
  unfolding gate
  gate_dispatch r attempt cur config =
      gate dispatch (validate_dispatch parse_rfc3339 none (conforming r) attempt cur) config r

  -- `gate_execute_start`
  unfoldable pub gate_execute_start :
      Receipt → (nonce : Option String) → CurrentInputs → Config → GateOutcome
  unfolding gate
  gate_execute_start r nonce cur config =
      gate execute_start (validate_execute_start parse_rfc3339 (conforming r) nonce cur) config r

  -- `gate_result`
  unfoldable pub gate_result :
      Receipt → (nonce presenter : Option String) → CurrentInputs → Config → GateOutcome
  unfolding gate
  gate_result r nonce presenter cur config =
      gate result (validate_result parse_rfc3339 (conforming r) nonce presenter cur) config r
