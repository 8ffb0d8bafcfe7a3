-- ===== src/Queue/Runtime/Change.antt =====
-- What one step of a writer does to the tables: nothing, or a new row whose verdict and flag agree,
-- whose epoch is no smaller and whose state is looser only by authority
-- (src/agent_crew/queue.py, the writers of runtime_stop).
use agent_crew.Common.{
  if◌then◌else◌, is_some, ℕ, ◌≤◌, ◌<◌, String, Bool, true, false, not, ◌&&◌, ◌≡◌, refl, ◌⊎◌, inl,
  inr, Option, none, some, List, arith, Bool-cases, Option-cases, leb,
}
use agent_crew.Cea.Types.{
  same_state, RuntimeState, active, draining, quarantined, stopped, tightness,
}
use agent_crew.Queue.Runtime.Row.{
  StoredState, Event, state_of, is_draining, Trigger, StopRow, Runtime, Stop, read_stop_row,
  last_draining_entry,
}
use agent_crew.Queue.Runtime.Authority.{Verifier}
use agent_crew.Queue.Runtime.Refusal.{transition_refusal}
use agent_crew.Queue.Runtime.Moves.{
  transition_runtime_state, legacy_refusal, set_stop_epoch, resume_stop, Signal, disarmed, armed,
  unreadable, reconcile_pause_signal,
}
use agent_crew.Queue.Runtime.Boot.{
  Winner, boot_row, PauseFile, winner, reconcile_row, sound, fell_back, lost, fallback_row,
  reconcile_stop_on_boot,
}
use agent_crew.Queue.Runtime.Steps.{
  Op, transition, set_stop, resume, reconcile, boot, falls_back, step,
}
use agent_crew.Queue.Runtime.Loosening.{state, MayLoosen, refusal_passed, legacy_passed}

-- The principal that an operation names, with the decision it cites. A file names nobody.
abbrev pub principal : Op → Option (String × Option String)
principal (transition to who reason decision_id incident remark trigger now) =
    some (who, decision_id)
principal (set_stop paused incident remark who decision_id now) = some (who, decision_id)
principal (resume generation incident who decision_id now) = some (who, decision_id)
principal (reconcile signal now) = none
principal (boot file fault now) = none

abbrev pub OnAuthority :
    Verifier → Option (String × Option String) → Runtime → RuntimeState → Type 0
OnAuthority verify p rt to =
    (who : String) × (decision_id : Option String) × (p ≡ some (who, decision_id))
    × MayLoosen verify (state rt) to who decision_id rt.events

pub record Written (verify : Verifier) (p : Option (String × Option String)) (rt rt' : Runtime)
    : Type 0 where
  pub row : StopRow
  pub to : RuntimeState
  pub stored : rt'.row ≡ some row
  pub names : row.state ≡ StoredState.named to
  pub agrees : row.paused ≡ same_state to stopped
  pub epoch_le : (read_stop_row rt).epoch ≤ row.epoch
  pub by_authority : tightness to < tightness (state rt) → OnAuthority verify p rt to

abbrev pub Change : Verifier → Option (String × Option String) → (rt rt' : Runtime) → Type 0
Change verify p rt rt' = (rt' ≡ rt) ⊎ Written verify p rt rt'

pub transition-Change :
    (verify : Verifier) (to : RuntimeState) (who : String)
    (reason decision_id incident remark : Option String) (trigger : Option Trigger) (now : ℕ)
    (rt : Runtime)
    → Change verify
        (some (who, decision_id))
        rt
        (transition_runtime_state verify to who reason decision_id incident remark trigger now rt).0
unfolding transition_runtime_state read_stop_row last_draining_entry
transition-Change verify to who reason decision_id incident remark trigger now rt =
    elim (Bool-cases (is_some trigger && not (is_draining to))) [
      | inl bad ↦ rw bad (inl refl)
      | inr fine ↦
          elim (Option-cases (
            transition_refusal verify (state rt) to who decision_id
              (last_draining_entry rt.events).0 (last_draining_entry rt.events).1)) [
                | inl ok ↦
                    rw (fine, ok)
                      (inr (record {
                        row = _;
                        to = to;
                        stored = refl;
                        names = refl;
                        agrees = refl;
                        epoch_le = ground arith;
                        by_authority = λ lt. (
                          who,
                          decision_id,
                          refl,
                          refusal_passed verify (state rt) to who decision_id rt.events ok lt,
                        );
                      }))
                | inr (why, denied) ↦ rw (fine, denied) (inl refl)
              ]
    ]

flag_of : (paused : Bool) → paused ≡ same_state (if paused then stopped else active) stopped
flag_of true = refl
flag_of false = refl

pub set_stop-Change :
    (verify : Verifier) (paused : Bool) (incident remark : Option String) (who : String)
    (decision_id : Option String) (now : ℕ) (rt : Runtime)
    → Change verify
        (some (who, decision_id))
        rt
        (set_stop_epoch verify paused incident remark who decision_id now rt).0
unfolding set_stop_epoch read_stop_row
set_stop-Change verify paused incident remark who decision_id now rt =
    let to : RuntimeState = if paused then stopped else active in
    elim (Option-cases (legacy_refusal verify (state rt) to who decision_id rt.events)) [
      | inl ok ↦ rw ok (
          inr (record {
            row = _;
            to = to;
            stored = refl;
            names = refl;
            agrees = flag_of paused;
            epoch_le = omega arith;
            by_authority = λ lt. (
              who,
              decision_id,
              refl,
              legacy_passed verify (state rt) to who decision_id rt.events ok lt,
            );
          }))
      | inr (why, denied) ↦ rw denied (inl refl)
    ]

pub resume-Change :
    (verify : Verifier) (generation : ℕ) (incident : Option String) (who : String)
    (decision_id : Option String) (now : ℕ) (rt : Runtime)
    → Change verify
        (some (who, decision_id))
        rt
        (resume_stop verify generation incident who decision_id now rt).0
unfolding resume_stop read_stop_row
resume-Change verify generation incident who decision_id now rt =
    elim (Bool-cases (not (read_stop_row rt).paused)) [
      | inl idle ↦ rw idle (inl refl)
      | inr stop ↦ elim (Bool-cases (leb generation (read_stop_row rt).epoch)) [
        | inl stale ↦ rw (stop, stale) (inl refl)
        | inr newer ↦
            elim (Option-cases
              (legacy_refusal verify (state rt) active who decision_id rt.events)) [
                | inl ok ↦
                    rw (stop, newer, ok)
                      (inr (record {
                        row = _;
                        to = active;
                        stored = refl;
                        names = refl;
                        agrees = refl;
                        epoch_le = ground arith;
                        by_authority = λ lt. (
                          who,
                          decision_id,
                          refl,
                          legacy_passed verify (state rt) active who decision_id rt.events ok lt,
                        );
                      }))
                | inr (why, denied) ↦ rw (stop, newer, denied) (inl refl)
              ]
      ]
    ]

pub reconcile-Change :
    (verify : Verifier) (signal : Signal) (now : ℕ) (rt : Runtime)
    → Change verify none rt (reconcile_pause_signal signal now rt).0
unfolding reconcile_pause_signal read_stop_row
reconcile-Change verify disarmed now rt = inl refl
reconcile-Change verify unreadable now rt = inl refl
reconcile-Change verify armed now rt = elim (Bool-cases (leb 3 (tightness (state rt)))) [
  | inl shut ↦ rw shut (inl refl)
  | inr shuts ↦ rw shuts (
      inr (record {
        row = _;
        to = stopped;
        stored = refl;
        names = refl;
        agrees = refl;
        epoch_le = omega arith;
        by_authority = λ lt. absurd (ground arith);
      }))
]

-- The flag says what the state says.
abbrev pub IsCoherent : Runtime → Type 0
IsCoherent rt = (read_stop_row rt).paused ≡ same_state (state rt) stopped

winner-epoch_le : (file : Option PauseFile) (db : Stop) → db.epoch ≤ (winner file db).epoch
unfolding winner
winner-epoch_le none db = omega arith
winner-epoch_le (some pj) db = ground arith

tightness_le : (s : RuntimeState) → tightness s ≤ 3
tightness_le active = omega arith
tightness_le draining = omega arith
tightness_le quarantined = omega arith
tightness_le stopped = omega arith

settled-Written :
    (verify : Verifier) (w : Winner) (rt rt' : Runtime) (now : ℕ)
    → (read_stop_row rt).epoch ≤ w.epoch
    → (not w.paused && same_state (state rt) stopped) ≡ false
    → rt'.row ≡ some (boot_row w (if w.paused then stopped else state rt) now rt.row)
    → Written verify none rt rt'
settled-Written verify w rt rt' now le fine e = elim (Bool-cases w.paused) [
  | inl y ↦ record {
    row = _;
    to = stopped;
    stored = e;
    names = rw y refl;
    agrees = y;
    epoch_le = le;
    by_authority = λ lt. absurd (omega (arith, tightness_le (state rt)));
  }
  | inr n ↦ record {
    row = _;
    to = state rt;
    stored = e;
    names = rw n refl;
    agrees = ground arith;
    epoch_le = le;
    by_authority = λ lt. absurd (omega arith);
  }
]

row-Change :
    (verify : Verifier) (file : Option PauseFile) (now : ℕ) (rt : Runtime)
    → Change verify none rt (reconcile_row file now rt)
unfolding reconcile_row read_stop_row
row-Change verify file now rt =
    let w = winner file (read_stop_row rt) in
    let le = winner-epoch_le file (read_stop_row rt) in
    elim (Bool-cases (not w.paused && same_state (state rt) stopped)) [
      | inl kept ↦ rw kept (
          inr (record {
            row = _;
            to = stopped;
            stored = refl;
            names = refl;
            agrees = refl;
            epoch_le = omega arith;
            by_authority = λ lt. absurd (omega (arith, tightness_le (state rt)));
          }))
      | inr fine ↦
          elim (Bool-cases (same_state (if w.paused then stopped else state rt) (state rt))) [
            | inl quiet ↦ rw (fine, quiet) (inr (settled-Written verify w rt _ now le fine refl))
            | inr moves ↦ rw (fine, moves) (inr (settled-Written verify w rt _ now le fine refl))
          ]
    ]

pub step-Change :
    (verify : Verifier) (op : Op) (rt : Runtime)
    → falls_back op ≡ false
    → Change verify (principal op) rt (step verify op rt)
unfolding step reconcile_stop_on_boot
step-Change verify (transition to who reason decision_id incident remark trigger now) rt h =
    transition-Change verify to who reason decision_id incident remark trigger now rt
step-Change verify (set_stop paused incident remark who decision_id now) rt h =
    set_stop-Change verify paused incident remark who decision_id now rt
step-Change verify (resume generation incident who decision_id now) rt h =
    resume-Change verify generation incident who decision_id now rt
step-Change verify (reconcile signal now) rt h = reconcile-Change verify signal now rt
step-Change verify (boot file sound now) rt h = row-Change verify file now rt
step-Change verify (boot file lost now) rt h = inl refl
step-Change verify (boot file fell_back now) rt h = absurd (ground arith)

-- what a fallback leaves: a runtime that is no looser, at its epoch
pub record Held (rt rt' : Runtime) : Type 0 where
  pub no_looser : tightness (state rt) ≤ tightness (state rt')
  pub same_epoch : (read_stop_row rt').epoch ≡ (read_stop_row rt).epoch

paused_no_looser :
    (s : StoredState) (p : Bool) → tightness (state_of s p) ≤ tightness (state_of s true)
paused_no_looser StoredState.missing true = omega arith
paused_no_looser StoredState.missing false = omega arith
paused_no_looser StoredState.unknown p = omega arith
paused_no_looser (StoredState.named s) p = omega arith

fallback-Held :
    (now : ℕ) (events : List Event) (old : Option StopRow)
    → Held
        (record { row = old; events = events })
        (record { row = some (fallback_row now old); events = events })
unfolding read_stop_row
fallback-Held now events none = record { no_looser = omega arith; same_epoch = refl }
fallback-Held now events (some r) = record {
  no_looser = paused_no_looser r.state r.paused;
  same_epoch = refl;
}

pub step-Held :
    (verify : Verifier) (op : Op) (rt : Runtime)
    → falls_back op ≡ true
    → Held rt (step verify op rt)
unfolding step reconcile_stop_on_boot
step-Held verify (boot file fell_back now) rt h = fallback-Held now rt.events rt.row
step-Held verify (boot file sound now) rt h = absurd (ground arith)
step-Held verify (boot file lost now) rt h = absurd (ground arith)
step-Held verify (transition to who reason decision_id incident remark trigger now) rt h =
    absurd (ground arith)
step-Held verify (set_stop paused incident remark who decision_id now) rt h = absurd (ground arith)
step-Held verify (resume generation incident who decision_id now) rt h = absurd (ground arith)
step-Held verify (reconcile signal now) rt h = absurd (ground arith)
