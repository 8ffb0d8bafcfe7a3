-- ===== src/Examples/Runtime.antt =====
-- A runtime row and the writers of it, run on concrete inputs (src/agent_crew/queue.py).
use agent_crew.Common.{
  ◌≤◌, String, true, false, inr, ◌≡◌, ◌≢◌, ◌↔◌, refl, Option, none, some, List, [], ◌∷◌, arith,
  if◌then◌else◌, ◌==◌, string_eq, lower, is_prefix, all, elem, find_where, codes, strip, not, ◌||◌,
}
use agent_crew.Cea.Types.{RuntimeState, active, stopped, same_state}
use agent_crew.Cea.Matrix.{claim}
use agent_crew.Queue.Runtime.Row.{StoredState, StopRow, Runtime, read_stop_row}
use agent_crew.Queue.Runtime.Authority.{
  granted, refused, Verifier, refuse_all, DecisionRecord, Snapshot, read, SnapshotAuthority,
  snapshot_verify, covers, given, names_decision, same_authority, records,
}
use agent_crew.Queue.Runtime.Moves.{resume_stop, legacy_refusal, armed, stop_active, disarmed}
use agent_crew.Queue.Runtime.Refusal.{transition_refusal, looks_like_owner, authority_refusal}
use agent_crew.Queue.Runtime.Boot.{sound}
use agent_crew.Queue.Runtime.Steps.{Op, resume, reconcile, boot, step, run}
use agent_crew.Queue.Runtime.Loosening.{state, MayLoosen}
use agent_crew.Queue.Runtime.Change.{principal, IsCoherent}
use agent_crew.Queue.Runtime.Discipline.{
  loosened_by_authority, epoch_never_falls, run-IsCoherent, stopped_stays,
}
use agent_crew.Queue.Runtime.Gates.{gate_open_iff}
use agent_crew.Queue.Runtime.Granting.{granted_on_signed_record}

abbrev row_in : RuntimeState → StopRow
row_in s = record {
  epoch = 4;
  paused = same_state s stopped;
  incident = some "INC-1";
  note = none;
  updated_at = 100;
  state = StoredState.named s;
  reason = none;
  decision_id = none;
}

abbrev stopped_runtime : Runtime
stopped_runtime = record { row = some (row_in stopped); events = [] }

abbrev active_runtime : Runtime
active_runtime = record { row = some (row_in active); events = [] }

abbrev trusting : Verifier
trusting frm to who decision_id = if who == "owner:yu" then granted else refused

abbrev resuming : Op
resuming = resume 5 none "owner:yu" (some "D-7") 101

abbrev schedule : List Op
schedule = resuming ∷ reconcile armed 102 ∷ boot none sound 103 ∷ []

loosened_by_authority_example :
    (who : String) × (decision_id : Option String) × (principal resuming ≡ some (who, decision_id))
    × MayLoosen trusting
        (state stopped_runtime)
        (state (step trusting resuming stopped_runtime))
        who
        decision_id
        []
unfolding step read_stop_row resume_stop legacy_refusal transition_refusal looks_like_owner
    authority_refusal lower strip is_prefix
loosened_by_authority_example =
    loosened_by_authority trusting resuming stopped_runtime (omega arith)

epoch_never_falls_example : 4 ≤ (read_stop_row (run trusting schedule stopped_runtime)).epoch
unfolding read_stop_row
epoch_never_falls_example = epoch_never_falls trusting schedule stopped_runtime

run-IsCoherent_example : IsCoherent (run trusting schedule stopped_runtime)
unfolding read_stop_row
run-IsCoherent_example = run-IsCoherent trusting schedule stopped_runtime refl refl

stopped_stays_example : state (run refuse_all schedule stopped_runtime) ≡ stopped
unfolding read_stop_row
stopped_stays_example = stopped_stays schedule stopped_runtime refl

gate_open_iff_example :
    ((stop_active claim disarmed 101 active_runtime).1 ≡ false)
    ↔ ((disarmed ≡ disarmed) × (state active_runtime ≡ active))
gate_open_iff_example = gate_open_iff claim disarmed 101 active_runtime (inr refl)

abbrev lift : DecisionRecord
lift = record {
  decision_id = "D-7";
  body_hash = "h";
  supersedes = [];
  principals = "owner:yu" ∷ [];
  build_commits = "abc123" ∷ [];
  runtimes = [];
  project = none;
  expires_at = none;
}

abbrev authority : SnapshotAuthority
authority = record {
  snapshots =
      read
        (record { available = true; signature_valid = true; in_scope = lift ∷ []; decisions = [] });
  build = some "abc123";
  runtime = "";
  project = none;
}

granted_on_signed_record_example :
    (s : Snapshot) × (r : DecisionRecord) × (build : String) × (authority.snapshots ≡ read s)
    × (s.available ≡ true)
    × (s.signature_valid ≡ true)
    × (strip (codes (given (some "D-7"))) ≢ [])
    × (find_where (names_decision (strip (codes (given (some "D-7")))) none) (records s) ≡ some r)
    × (all
          (λ x.
            not (names_decision (strip (codes (given (some "D-7")))) none x) || same_authority r x)
          (records s)
        ≡ true)
    × (elem "owner:yu" r.principals ≡ true)
    × (authority.build ≡ some build)
    × (elem build r.build_commits ≡ true)
unfolding snapshot_verify strip covers
granted_on_signed_record_example =
    granted_on_signed_record authority stopped active "owner:yu" (some "D-7") refl
