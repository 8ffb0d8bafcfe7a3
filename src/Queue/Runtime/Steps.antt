-- ===== src/Queue/Runtime/Steps.antt =====
-- The writers of the runtime state as one step function, and schedules of them
-- (src/agent_crew/queue.py).
use agent_crew.Common.{ℕ, String, Bool, true, false, Option, List, [], ◌∷◌}
use agent_crew.Cea.Types.{RuntimeState}
use agent_crew.Queue.Runtime.Row.{Trigger, Runtime}
use agent_crew.Queue.Runtime.Authority.{Verifier}
use agent_crew.Queue.Runtime.Moves.{
  transition_runtime_state, set_stop_epoch, resume_stop, Signal, reconcile_pause_signal,
}
use agent_crew.Queue.Runtime.Boot.{PauseFile, BootFault, fell_back, reconcile_stop_on_boot}

pub data Op : Type 0 where
  transition :
      (to : RuntimeState) (who : String) (reason decision_id incident note : Option String)
      (trigger : Option Trigger) (now : ℕ)
      → Op
  set_stop :
      (paused : Bool) (incident note : Option String) (who : String) (decision_id : Option String)
      (now : ℕ)
      → Op
  resume :
      (generation : ℕ) (incident : Option String) (who : String) (decision_id : Option String)
      (now : ℕ)
      → Op
  reconcile : (signal : Signal) (now : ℕ) → Op
  boot : (file : Option PauseFile) (fault : BootFault) (now : ℕ) → Op

-- a boot reconciliation that failed and wrote its fallback
abbrev pub falls_back : Op → Bool
falls_back (boot file fell_back now) = true
falls_back _ = false

-- A refused operation leaves the tables as they were.
unfoldable pub step : Verifier → Op → Runtime → Runtime
step verify (transition to who reason decision_id incident note trigger now) rt =
    (transition_runtime_state verify to who reason decision_id incident note trigger now rt).0
step verify (set_stop paused incident note who decision_id now) rt =
    (set_stop_epoch verify paused incident note who decision_id now rt).0
step verify (resume generation incident who decision_id now) rt =
    (resume_stop verify generation incident who decision_id now rt).0
step verify (reconcile signal now) rt = (reconcile_pause_signal signal now rt).0
step verify (boot file fault now) rt = reconcile_stop_on_boot file fault now rt

unfoldable pub run : Verifier → List Op → Runtime → Runtime
run verify [] rt = rt
run verify (op ∷ ops) rt = run verify ops (step verify op rt)
