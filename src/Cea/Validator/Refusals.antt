-- ===== src/Cea/Validator/Refusals.antt =====
-- A check of the validator either passes or refuses: away from RESULT no early return lets a task
-- go on (src/agent_crew/cea/validator.py, validate).
use agent_crew.Common.{◌≡◌, ◌≢◌, refl, Option, none, some, List, arith}
use agent_crew.Cea.Types.{Binding, Receipt}
use agent_crew.Cea.Matrix.{Point, result, Outcome, permits}
use agent_crew.Cea.Drift.{Field}
use agent_crew.Cea.Validator.Inputs.{CurrentInputs, ValidationResult, or_else}
use agent_crew.Cea.Validator.Checks.{
  check_lifecycle, check_signature, check_identity, check_verdict, check_nonce, check_executor,
}
use agent_crew.Cea.Validator.Judge.{check_snapshot, check_runtime, check_gates}

abbrev pub Refuses : Option ValidationResult → Type 0
Refuses c = (v : ValidationResult) → c ≡ some v → v.outcome ≢ Outcome.proceed

-- A function that goes on after a refusing check went past it.
pub or_else-proceed :
    (c : Option ValidationResult) (rest : ValidationResult)
    → Refuses c
    → (or_else c rest).outcome ≡ Outcome.proceed
    → (c ≡ none) × (rest.outcome ≡ Outcome.proceed)
or_else-proceed none rest h e = (refl, e)
or_else-proceed (some v) rest h e = absurd (h v refl e)

pub check_lifecycle-Refuses : (p : Point) (r : Receipt) → Refuses (check_lifecycle p r)
unfolding check_lifecycle
check_lifecycle-Refuses p r v e = ground arith

pub check_signature-Refuses :
    (p : Point) (r : Receipt) (cur : CurrentInputs) → Refuses (check_signature p r cur)
unfolding check_signature
check_signature-Refuses p r cur v e = ground arith

pub check_identity-Refuses :
    (p : Point) (r : Receipt) (cur : CurrentInputs) → Refuses (check_identity p r cur)
unfolding check_identity
check_identity-Refuses p r cur v e = ground arith

pub check_verdict-Refuses : (p : Point) (r : Receipt) → Refuses (check_verdict p r)
unfolding check_verdict
check_verdict-Refuses p r v e = ground arith

pub check_nonce-Refuses :
    (p : Point) (r : Receipt) (cur : CurrentInputs) → Refuses (check_nonce p r cur)
unfolding check_nonce
check_nonce-Refuses p r cur v e = ground arith

pub check_executor-Refuses :
    (p : Point) (r : Receipt) (cur : CurrentInputs) → Refuses (check_executor p r cur)
unfolding check_executor
check_executor-Refuses p r cur v e = ground arith

pub check_snapshot-Refuses :
    (p : Point) (r : Receipt) (cur : CurrentInputs) (b : Binding)
    → p ≢ result
    → Refuses (check_snapshot p r cur b)
unfolding check_snapshot
check_snapshot-Refuses p r cur b n v e = ground arith

pub check_runtime-Refuses :
    (p : Point) (r : Receipt) (cur : CurrentInputs) (b : Binding)
    → Refuses (check_runtime p r cur b)
unfolding check_runtime permits
check_runtime-Refuses p r cur b v e = ground arith

pub check_gates-Refuses :
    (p : Point) (r : Receipt) (cur : CurrentInputs) (b : Binding) (changed : List Field)
    → Refuses (check_gates p r cur b changed)
unfolding check_gates
check_gates-Refuses p r cur b changed v e = ground arith
