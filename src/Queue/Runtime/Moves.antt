-- ===== src/Queue/Runtime/Moves.antt =====
-- The writers of the runtime state (src/agent_crew/queue.py, transition_runtime_state,
-- set_stop_epoch, resume_stop and the reconciliation of the pause signal). Each runs in one write
-- transaction; a refusal rolls it back.
use agent_crew.Common.{
  ℕ, ◌+◌, String, Bool, true, false, not, ◌&&◌, if◌then◌else◌, Option, none, some, List, ◌∷◌, ◌==◌,
  nat_eq, string_eq, leb, is_some,
}
use agent_crew.Cea.Types.{RuntimeState, active, stopped, tightness, same_state}
use agent_crew.Cea.Matrix.{Point, runtime_state_verdict, permits}
use agent_crew.Queue.Runtime.Row.{
  StoredState, StopRow, Trigger, manual, quarantine, Event, Runtime, read_stop_row,
  last_draining_entry, direction, is_draining,
}
use agent_crew.Queue.Runtime.Authority.{Verifier}
use agent_crew.Queue.Runtime.Refusal.{Refusal, transition_refusal}

-- What a writer answers.
pub data Reply : Type 0 where
  moved : (epoch : ℕ) → Reply
  bad_trigger : Reply
  transition_refused : Refusal → Reply
  not_paused stale_resume : (epoch : ℕ) → Reply

abbrev keep_or : Option String → Option String → Option String
keep_or none old = old
keep_or (some new) old = some new

abbrev pub reason_column : Option StopRow → Option String
reason_column none = none
reason_column (some r) = r.reason

abbrev event_of :
    ℕ
    → (frm to : RuntimeState) → String
    → (reason : Option String) → Option Trigger
    → (decision_id incident note : Option String) → Event
event_of epoch frm to who reason trigger decision_id incident note = record {
  epoch = epoch;
  from_state = frm;
  to_state = to;
  direction = direction frm to;
  who = who;
  reason = reason;
  trigger_kind = trigger;
  decision_id = decision_id;
  incident = incident;
  note = note;
}

-- the UPSERT of the row with an event beside it
abbrev pub write : Runtime → StopRow → Event → Runtime
write rt row event = record { row = some row; events = event ∷ rt.events }

-- `trigger_kind` as the event records it
abbrev trigger_of : RuntimeState → String → Option Trigger → Option Trigger
trigger_of to who (some t) = some t
trigger_of to who none =
    if is_draining to then some (if who == "runtime" then quarantine else manual) else none

abbrev refuse_or : Option Refusal → Runtime → Runtime × Reply → Runtime × Reply
refuse_or none rt next = next
refuse_or (some why) rt next = (rt, transition_refused why)

-- `transition_runtime_state`
unfoldable pub transition_runtime_state :
    Verifier
    → (to : RuntimeState) (who : String) (reason decision_id incident note : Option String)
    → (trigger : Option Trigger) (now : ℕ) → Runtime
    → Runtime × Reply
unfolding read_stop_row last_draining_entry
transition_runtime_state verify to who reason decision_id incident note trigger now rt =
    if is_some trigger && not (is_draining to)
    then (rt, bad_trigger)
    else let cur = read_stop_row rt in
      let entry = last_draining_entry rt.events in
      let kept = keep_or incident cur.incident in
      let epoch = if same_state cur.state to then cur.epoch else cur.epoch + 1 in
      refuse_or (transition_refusal verify cur.state to who decision_id entry.0 entry.1) rt (
        write rt
            (record {
              epoch = epoch;
              paused = same_state to stopped;
              incident = kept;
              note = note;
              updated_at = now;
              state = StoredState.named to;
              reason = reason;
              decision_id = decision_id;
            })
            (event_of epoch cur.state to who reason (trigger_of to who trigger) decision_id kept
              note),
        moved epoch,
      )

-- `_authorize_legacy_loosening_in_txn`
unfoldable pub legacy_refusal :
    Verifier
    → (frm to : RuntimeState) (who : String) (decision_id : Option String) → List Event
    → Option Refusal
unfolding last_draining_entry
legacy_refusal verify frm to who decision_id events =
    let entry = last_draining_entry events in
    if leb (tightness frm) (tightness to)
    then none
    else transition_refusal verify frm to who decision_id entry.0 entry.1

-- `set_stop_epoch`
unfoldable pub set_stop_epoch :
    Verifier
    → (paused : Bool) (incident note : Option String) (who : String)
    → (decision_id : Option String) (now : ℕ) → Runtime
    → Runtime × Reply
unfolding read_stop_row legacy_refusal
set_stop_epoch verify paused incident note who decision_id now rt =
    let cur = read_stop_row rt in
    let to = if paused then stopped else active in
    let epoch = cur.epoch + 1 in
    refuse_or (legacy_refusal verify cur.state to who decision_id rt.events) rt (
      write rt
          (record {
            epoch = epoch;
            paused = paused;
            incident = incident;
            note = note;
            updated_at = now;
            state = StoredState.named to;
            reason = reason_column rt.row;
            decision_id = decision_id;
          })
          (event_of epoch cur.state to who note none decision_id incident note),
      moved epoch,
    )

-- `resume_stop`
unfoldable pub resume_stop :
    Verifier
    → (generation : ℕ) (incident : Option String) (who : String)
    → (decision_id : Option String) (now : ℕ) → Runtime
    → Runtime × Reply
unfolding read_stop_row legacy_refusal
resume_stop verify generation incident who decision_id now rt =
    let cur = read_stop_row rt in
    let kept = keep_or incident cur.incident in
    let resumed = some "resumed via cli" in
    if not cur.paused
    then (rt, not_paused cur.epoch)
    else if leb generation cur.epoch
    then (rt, stale_resume cur.epoch)
    else refuse_or (legacy_refusal verify cur.state active who decision_id rt.events) rt (
      write rt
          (record {
            epoch = generation;
            paused = false;
            incident = kept;
            note = resumed;
            updated_at = now;
            state = StoredState.named active;
            reason = reason_column rt.row;
            decision_id = decision_id;
          })
          (event_of generation cur.state active who resumed none decision_id kept none),
      moved generation,
    )

-- What the pause.json signal says: `(armed, readable)`; an unreadable one is armed.
pub data Signal : Type 0 where
  disarmed armed unreadable : Signal

-- `_reconcile_pause_signal_in_txn`: the tables and the state that the gates act on
unfoldable pub reconcile_pause_signal : Signal → (now : ℕ) → Runtime → Runtime × RuntimeState
unfolding read_stop_row
reconcile_pause_signal disarmed now rt = (rt, (read_stop_row rt).state)
reconcile_pause_signal unreadable now rt = (rt, stopped)
reconcile_pause_signal armed now rt =
    let cur = read_stop_row rt in
    let epoch = cur.epoch + 1 in
    let why = some "pause.json armed externally" in
    if leb 3 (tightness cur.state) then (rt, cur.state) else (
      write rt
          (record {
            epoch = epoch;
            paused = true;
            incident = cur.incident;
            note = cur.note;
            updated_at = now;
            state = StoredState.named stopped;
            reason = why;
            decision_id = none;
          })
          (event_of epoch cur.state stopped "pause.json" why none none cur.incident cur.note),
      stopped,
    )

-- `_stop_active_in_txn`: the tables, and whether the gate at this point is shut
unfoldable pub stop_active : Point → Signal → (now : ℕ) → Runtime → Runtime × Bool
unfolding reconcile_pause_signal permits runtime_state_verdict
stop_active point signal now rt =
    let (rt', state) = reconcile_pause_signal signal now rt in
    (rt', not (permits (runtime_state_verdict state point false false)))
