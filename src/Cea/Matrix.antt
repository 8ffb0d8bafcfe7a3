-- ===== src/Cea/Matrix.antt =====
-- The enforcement matrix of runtime states and validation points
-- (src/agent_crew/cea/validator.py, runtime_state_verdict).
use agent_crew.Common.{Bool, true, false, not, if◌then◌else◌}
use agent_crew.Cea.Types.{RuntimeState, active, draining, quarantined, stopped}

-- ValidationPoint
pub data Point : Type 0 where
  enqueue claim dispatch execute_start result : Point

-- ValidationOutcome
pub data Outcome : Type 0 where
  proceed re_admit block human_gate held : Outcome

-- a cell of `_P6_MATRIX`
pub data Cell : Type 0 where
  ok blocked held claimed dispatched flagged : Cell

-- `_P6_MATRIX`
unfoldable pub matrix : RuntimeState → Point → Cell
matrix active _ = Cell.ok
matrix draining enqueue = Cell.blocked
matrix draining claim = Cell.held
matrix draining dispatch = Cell.claimed
matrix draining execute_start = Cell.dispatched
matrix draining result = Cell.ok
matrix quarantined result = Cell.flagged
matrix quarantined _ = Cell.blocked
matrix stopped result = Cell.flagged
matrix stopped _ = Cell.blocked

pub data MatrixCode : Type 0 where
  ok runtime_state_forbids runtime_draining : MatrixCode

-- RuntimeStateVerdict
pub record Verdict : Type 0 where
  pub state : RuntimeState
  pub point : Point
  pub cell : Cell
  pub outcome : Outcome
  pub code : MatrixCode

abbrev judge_cell : Cell → (already_claimed already_dispatched : Bool) → Outcome × MatrixCode
judge_cell Cell.blocked c d = (Outcome.block, MatrixCode.runtime_state_forbids)
judge_cell Cell.held c d = (Outcome.held, MatrixCode.runtime_draining)
judge_cell Cell.claimed c d =
    if not c then (Outcome.held, MatrixCode.runtime_draining) else (Outcome.proceed, MatrixCode.ok)
judge_cell Cell.dispatched c d =
    if not d then (Outcome.held, MatrixCode.runtime_draining) else (Outcome.proceed, MatrixCode.ok)
judge_cell _ c d = (Outcome.proceed, MatrixCode.ok)

unfoldable pub runtime_state_verdict :
    RuntimeState → Point → (already_claimed already_dispatched : Bool) → Verdict
unfolding matrix
runtime_state_verdict state point already_claimed already_dispatched =
    let cell = matrix state point in
    let (outcome, code) = judge_cell cell already_claimed already_dispatched in
    record { state = state; point = point; cell = cell; outcome = outcome; code = code }

abbrev is_proceed : Outcome → Bool
is_proceed Outcome.proceed = true
is_proceed _ = false

-- RuntimeStateVerdict.permits
unfoldable pub permits : Verdict → Bool
permits v = is_proceed v.outcome
