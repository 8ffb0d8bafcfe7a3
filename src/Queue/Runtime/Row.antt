-- ===== src/Queue/Runtime/Row.antt =====
-- The single row runtime_stop and the append-only table runtime_state_events
-- (src/agent_crew/queue.py, _DDL_RUNTIME_STOP, _read_stop_row, _last_draining_entry).
use agent_crew.Common.{
  ℕ, String, Bool, true, false, not, if◌then◌else◌, Option, none, some, List, [], ◌∷◌, leb, ltb,
}
use agent_crew.Cea.Types.{RuntimeState, active, draining, stopped, tightness}

-- The text in the column `state`: NULL or empty, one of RUNTIME_STATES, or something else.
pub data StoredState : Type 0 where
  missing unknown : StoredState
  named : RuntimeState → StoredState

-- A row of runtime_stop.
pub record StopRow : Type 0 where
  pub epoch : ℕ
  pub paused : Bool
  pub incident : Option String
  pub note : Option String
  pub updated_at : ℕ
  pub state : StoredState
  pub reason : Option String
  pub decision_id : Option String

-- `trigger_kind`
pub data Trigger : Type 0 where
  manual quarantine : Trigger

pub data Direction : Type 0 where
  same tighten loosen : Direction

-- A row of runtime_state_events.
pub record Event : Type 0 where
  pub epoch : ℕ
  pub from_state : RuntimeState
  pub to_state : RuntimeState
  pub direction : Direction
  pub who : String
  pub reason : Option String
  pub trigger_kind : Option Trigger
  pub decision_id : Option String
  pub incident : Option String
  pub note : Option String

-- The two tables; the newest event stands first.
pub record Runtime : Type 0 where
  pub row : Option StopRow
  pub events : List Event

-- What `_read_stop_row` returns.
pub record Stop : Type 0 where
  pub epoch : ℕ
  pub paused : Bool
  pub incident : Option String
  pub note : Option String
  pub state : RuntimeState
  pub reason : Option String
  pub decision_id : Option String

abbrev pub state_of : StoredState → Bool → RuntimeState
state_of StoredState.missing paused = if paused then stopped else active
state_of StoredState.unknown paused = stopped
state_of (StoredState.named s) paused = s

abbrev pub normal_stop : Option StopRow → Stop
normal_stop none = record {
  epoch = 0;
  paused = false;
  incident = none;
  note = none;
  state = active;
  reason = none;
  decision_id = none;
}
normal_stop (some r) = record {
  epoch = r.epoch;
  paused = r.paused;
  incident = r.incident;
  note = r.note;
  state = state_of r.state r.paused;
  reason = r.reason;
  decision_id = r.decision_id;
}

-- `_read_stop_row`
unfoldable pub read_stop_row : Runtime → Stop
read_stop_row rt = normal_stop rt.row

abbrev pub is_draining : RuntimeState → Bool
is_draining draining = true
is_draining _ = false

abbrev pub is_manual : Option Trigger → Bool
is_manual (some Trigger.manual) = true
is_manual _ = false

-- `_last_draining_entry`: who drained last, and whether anything but a manual drain did it
unfoldable pub last_draining_entry : List Event → Option String × Bool
last_draining_entry [] = (none, false)
last_draining_entry (e ∷ es) =
    let rest = last_draining_entry es in
    if is_draining e.to_state then (some e.who, not (is_manual e.trigger_kind)) else rest

-- the direction of an event
unfoldable pub direction : RuntimeState → RuntimeState → Direction
direction frm to =
    if leb (tightness to) (tightness frm)
    then if ltb (tightness to) (tightness frm) then Direction.loosen else Direction.same
    else Direction.tighten
