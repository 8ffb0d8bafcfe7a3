-- ===== src/Queue/Runtime/Boot.antt =====
-- The reconciliation at boot of pause.json with the row (src/agent_crew/queue.py,
-- _reconcile_stop_on_boot). pause.json is given as what was read of it.
use agent_crew.Common.{
  ℕ, String, Bool, true, false, not, ◌&&◌, if◌then◌else◌, Option, none, some, ◌==◌, nat_eq,
  string_eq, option_eq, ltb,
}
use agent_crew.Cea.Types.{RuntimeState, stopped, same_state}
use agent_crew.Queue.Runtime.Row.{
  StoredState, StopRow, Event, Runtime, Stop, read_stop_row, direction,
}
use agent_crew.Queue.Runtime.Moves.{write, reason_column}

-- What was read of pause.json: its verdict, the greatest generation and the incident.
pub record PauseFile : Type 0 where
  pub paused : Bool
  pub epoch : ℕ
  pub incident : Option String

-- The winner of the comparison.
pub record Winner : Type 0 where
  pub paused : Bool
  pub epoch : ℕ
  pub incident : Option String
  pub note : Option String

abbrev first_text : Option String → Option String → Option String
first_text none other = other
first_text (some s) other = if s == "" then other else some s

abbrev same_paused : Bool → Bool → Bool
same_paused true b = b
same_paused false b = not b

-- the higher epoch wins; at one epoch a conflict keeps the runtime paused
unfoldable pub winner : Option PauseFile → Stop → Winner
winner none db = record {
  paused = true;
  epoch = db.epoch;
  incident = db.incident;
  note = some "boot-reconcile: pause.json unreadable, fail-closed paused";
}
winner (some pj) db =
    if ltb db.epoch pj.epoch
    then record { paused = pj.paused; epoch = pj.epoch; incident = pj.incident; note = none }
    else if ltb pj.epoch db.epoch
    then record { paused = db.paused; epoch = db.epoch; incident = db.incident; note = none }
    else if not (same_paused pj.paused db.paused)
    then record {
      paused = true;
      epoch = db.epoch;
      incident = first_text db.incident pj.incident;
      note = some "boot-reconcile CONFLICT: paused";
    }
    else if db.paused && not (pj.incident == db.incident)
    then record {
      paused = true;
      epoch = db.epoch;
      incident = first_text db.incident pj.incident;
      note = some "boot-reconcile CONFLICT: incident";
    }
    else record { paused = db.paused; epoch = db.epoch; incident = db.incident; note = none }

abbrev is_stopped : RuntimeState → Bool
is_stopped s = same_state s stopped

abbrev refusal_note : Option String
refusal_note = some "boot-reconcile REFUSED: pause.json may only tighten"

abbrev joined : Option String → Option String
joined none = refusal_note
joined (some _) = some "boot-reconcile: refused after a conflict"

abbrev decision_column : Option StopRow → Option String
decision_column none = none
decision_column (some r) = r.decision_id

abbrev pub boot_row : Winner → RuntimeState → ℕ → Option StopRow → StopRow
boot_row w state now old = record {
  epoch = w.epoch;
  paused = w.paused;
  incident = w.incident;
  note = w.note;
  updated_at = now;
  state = StoredState.named state;
  reason = reason_column old;
  decision_id = decision_column old;
}

abbrev boot_reason : Option String → Option String
boot_reason none = some "pause.json reconciled into the row"
boot_reason (some note) = some note

abbrev boot_event : Winner → (frm to : RuntimeState) → Event
boot_event w frm to = record {
  epoch = w.epoch;
  from_state = frm;
  to_state = to;
  direction = direction frm to;
  who = "boot-reconcile";
  reason = boot_reason w.note;
  trigger_kind = none;
  decision_id = none;
  incident = w.incident;
  note = w.note;
}

-- The transaction of `_reconcile_stop_on_boot`. An unpaused winner over a STOPPED row is refused: pause.json may only
-- tighten.
unfoldable pub reconcile_row : Option PauseFile → (now : ℕ) → Runtime → Runtime
unfolding winner read_stop_row
reconcile_row file now rt =
    let db = read_stop_row rt in
    let w = winner file db in
    if not w.paused && is_stopped db.state
    then (let kept : Winner = record {
      paused = true;
      epoch = db.epoch;
      incident = db.incident;
      note = joined w.note;
    } in
        write rt (boot_row kept stopped now rt.row) (boot_event kept stopped stopped))
    else let state = if w.paused then stopped else db.state in
      if same_state state db.state
      then record rt { row = some (boot_row w state now rt.row) }
      else write rt (boot_row w state now rt.row) (boot_event w db.state state)

-- How the transaction ended: committed, failed with the fallback written, or failed twice.
pub data BootFault : Type 0 where
  sound fell_back lost : BootFault

-- the row of the fallback; a column that it does not name keeps its value, or has its default
abbrev pub fallback_row : (now : ℕ) → Option StopRow → StopRow
fallback_row now none = record {
  epoch = 0;
  paused = true;
  incident = none;
  note = some "boot-reconcile failed: paused";
  updated_at = now;
  state = StoredState.named RuntimeState.active;
  reason = none;
  decision_id = none;
}
fallback_row now (some r) = record r {
  paused = true;
  note = some "boot-reconcile failed: paused";
  updated_at = now;
}

-- `_reconcile_stop_on_boot`
unfoldable pub reconcile_stop_on_boot : Option PauseFile → BootFault → (now : ℕ) → Runtime → Runtime
unfolding reconcile_row
reconcile_stop_on_boot file sound now rt = reconcile_row file now rt
reconcile_stop_on_boot file fell_back now rt = record rt { row = some (fallback_row now rt.row) }
reconcile_stop_on_boot file lost now rt = rt
