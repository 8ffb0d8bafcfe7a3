-- ===== src/Queue/Runtime/Gates.antt =====
-- When a gate is open (src/agent_crew/queue.py, _stop_active_in_txn).
use agent_crew.Common.{
  ℕ, true, false, ◌≡◌, ◌≢◌, ◌↔◌, ◌⊎◌, refl, sym, ◌∙◌, ap, inl, inr, arith, option_eq, leb, nat_eq,
  string_eq, Bool-cases,
}
use agent_crew.Cea.Types.{RuntimeState, active, draining, quarantined, stopped, tightness}
use agent_crew.Cea.Matrix.{
  Point, enqueue, claim, dispatch, execute_start, result, permits, runtime_state_verdict, matrix,
}
use agent_crew.Queue.Runtime.Row.{Runtime, read_stop_row}
use agent_crew.Queue.Runtime.Moves.{
  Signal, disarmed, armed, unreadable, reconcile_pause_signal, stop_active,
}
use agent_crew.Queue.Runtime.Loosening.{state}

active_of_permits :
    (s : RuntimeState) (point : Point)
    → point ≢ result
    → permits (runtime_state_verdict s point false false) ≡ true
    → s ≡ active
unfolding permits runtime_state_verdict matrix
active_of_permits active point np h = refl
active_of_permits draining enqueue np h = absurd (ground arith)
active_of_permits draining claim np h = absurd (ground arith)
active_of_permits draining dispatch np h = absurd (ground arith)
active_of_permits draining execute_start np h = absurd (ground arith)
active_of_permits draining result np h = absurd (np refl)
active_of_permits quarantined enqueue np h = absurd (ground arith)
active_of_permits quarantined claim np h = absurd (ground arith)
active_of_permits quarantined dispatch np h = absurd (ground arith)
active_of_permits quarantined execute_start np h = absurd (ground arith)
active_of_permits quarantined result np h = absurd (np refl)
active_of_permits stopped enqueue np h = absurd (ground arith)
active_of_permits stopped claim np h = absurd (ground arith)
active_of_permits stopped dispatch np h = absurd (ground arith)
active_of_permits stopped execute_start np h = absurd (ground arith)
active_of_permits stopped result np h = absurd (np refl)

tight_stopped : (s : RuntimeState) → leb 3 (tightness s) ≡ true → s ≡ stopped
tight_stopped active h = absurd (ground arith)
tight_stopped draining h = absurd (ground arith)
tight_stopped quarantined h = absurd (ground arith)
tight_stopped stopped h = refl

pub acted-armed : (now : ℕ) (rt : Runtime) → (reconcile_pause_signal armed now rt).1 ≡ stopped
unfolding reconcile_pause_signal read_stop_row
acted-armed now rt = elim (Bool-cases (leb 3 (tightness (state rt)))) [
  | inl shut ↦ rw shut (tight_stopped (state rt) shut)
  | inr shuts ↦ rw shuts refl
]

gate_open :
    (point : Point) (signal : Signal) (now : ℕ) (rt : Runtime)
    → point ≢ result
    → ((stop_active point signal now rt).1 ≡ false) ↔ ((signal ≡ disarmed) × (state rt ≡ active))
unfolding stop_active reconcile_pause_signal read_stop_row
gate_open point disarmed now rt np =
    (λ h. (refl, active_of_permits (state rt) point np (ground arith)), λ (_, a). rw a refl)
gate_open point unreadable now rt np = (
  λ h. absurd (
      let s = active_of_permits stopped point np (ground arith) in
      let t = ap tightness s in omega arith),
  λ (e, _). absurd (cc),
)
gate_open point armed now rt np = (
  λ h. absurd (
      let s =
        sym (acted-armed now rt)
        ∙ active_of_permits (reconcile_pause_signal armed now rt).1 point np (ground arith) in
      let t = ap tightness s in omega arith),
  λ (e, _). absurd (cc),
)

not_result : (point : Point) → (point ≡ enqueue) ⊎ (point ≡ claim) → point ≢ result
not_result point (inl e) r = absurd (let m : enqueue ≡ result = sym e ∙ r in ground arith)
not_result point (inr e) r = absurd (let m : claim ≡ result = sym e ∙ r in ground arith)

-- The stop gate that the queue asks when work would be admitted or claimed is open exactly when
-- pause.json is read and disarmed and the runtime is ACTIVE.
pub gate_open_iff :
    (point : Point) (signal : Signal) (now : ℕ) (rt : Runtime)
    → (point ≡ enqueue) ⊎ (point ≡ claim)
    → ((stop_active point signal now rt).1 ≡ false) ↔ ((signal ≡ disarmed) × (state rt ≡ active))
gate_open_iff point signal now rt asked = gate_open point signal now rt (not_result point asked)
