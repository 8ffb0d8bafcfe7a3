-- ===== src/Queue/Runtime/Loosening.antt =====
-- The runtime is loosened only by authority (src/agent_crew/queue.py, transition_runtime_state,
-- set_stop_epoch, resume_stop, _reconcile_pause_signal_in_txn, _reconcile_stop_on_boot).
use agent_crew.Common.{
  ◌<◌, String, Bool, true, false, ◌≡◌, refl, ◌⊎◌, inl, inr, Option, none, some, List, arith,
  Bool-cases,
}
use text.Mathlib.TextEquality.{eq_iff}
use agent_crew.Cea.Types.{RuntimeState, active, draining, quarantined, stopped, tightness}
use agent_crew.Queue.Runtime.Row.{Event, Runtime, read_stop_row, last_draining_entry}
use agent_crew.Queue.Runtime.Authority.{granted, Verifier}
use agent_crew.Queue.Runtime.Refusal.{
  looks_like_owner, authority_refusal, transition_refusal, is_drainer, drain_refusal,
}
use agent_crew.Queue.Runtime.Moves.{legacy_refusal}

abbrev pub state : Runtime → RuntimeState
state rt = (read_stop_row rt).state

-- An owner's claim that the verifier has granted.
abbrev pub Granted : Verifier → (frm to : RuntimeState) → String → Option String → Type 0
Granted verify frm to who decision_id =
    (looks_like_owner who ≡ true) × (verify frm to who decision_id ≡ granted)

-- The principal may loosen the runtime: a granted owner; or, out of DRAINING, the one that drained
-- it last, by hand.
abbrev pub MayLoosen :
    Verifier → (frm to : RuntimeState) → String → Option String → List Event → Type 0
MayLoosen verify frm to who decision_id events =
    Granted verify frm to who decision_id
    ⊎ (frm ≡ draining) × (last_draining_entry events ≡ (some who, false))

drainer_named :
    (entry : Option String × Bool) (who : String)
    → entry.1 ≡ false
    → is_drainer entry.0 who ≡ true
    → entry ≡ (some who, false)
drainer_named (none, b) who e y = absurd (ground arith)
drainer_named (some by, b) who e y = let same : who ≡ by = (eq_iff who by).0 (ground arith) in cc

drain_passed :
    (verify : Verifier) (to : RuntimeState) (who : String) (decision_id : Option String)
    (events : List Event)
    → drain_refusal verify to who decision_id
        (last_draining_entry events).0
        (last_draining_entry events).1
      ≡ none
    → MayLoosen verify draining to who decision_id events
unfolding authority_refusal
drain_passed verify to who decision_id events h =
    elim (Bool-cases (is_drainer (last_draining_entry events).0 who)) [
      | inl y ↦ inr (refl, drainer_named (last_draining_entry events) who (ground arith) y)
      | inr n ↦ inl (ground arith)
    ]

pub refusal_passed :
    (verify : Verifier) (frm to : RuntimeState) (who : String) (decision_id : Option String)
    (events : List Event)
    → transition_refusal verify frm to who decision_id
        (last_draining_entry events).0
        (last_draining_entry events).1
      ≡ none
    → tightness to < tightness frm
    → MayLoosen verify frm to who decision_id events
unfolding transition_refusal authority_refusal
refusal_passed verify active to who decision_id events h lt = absurd (elim to [
  | active ↦ omega arith
  | draining ↦ omega arith
  | quarantined ↦ omega arith
  | stopped ↦ omega arith
])
refusal_passed verify quarantined to who decision_id events h lt = inl (ground arith)
refusal_passed verify stopped to who decision_id events h lt = inl (ground arith)
refusal_passed verify draining to who decision_id events h lt =
    drain_passed verify to who decision_id events (ground arith)

pub legacy_passed :
    (verify : Verifier) (frm to : RuntimeState) (who : String) (decision_id : Option String)
    (events : List Event)
    → legacy_refusal verify frm to who decision_id events ≡ none
    → tightness to < tightness frm
    → MayLoosen verify frm to who decision_id events
unfolding legacy_refusal
legacy_passed verify frm to who decision_id events h lt =
    refusal_passed verify frm to who decision_id events (ground arith) lt
