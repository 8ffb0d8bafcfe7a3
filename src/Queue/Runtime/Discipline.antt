-- ===== src/Queue/Runtime/Discipline.antt =====
-- The runtime state is loosened only by authority, its epoch never falls, and its flag says what its
-- state says (src/agent_crew/queue.py, the writers of runtime_stop).
use agent_crew.Common.{
  ◌≤◌, ◌<◌, String, ◌≡◌, refl, sym, ◌∙◌, ap, inl, inr, Option, some, List, [], ◌∷◌, arith, any,
  false, Bool-cases,
}
use agent_crew.Cea.Types.{RuntimeState, active, draining, quarantined, stopped, tightness}
use agent_crew.Queue.Runtime.Row.{Runtime, read_stop_row}
use agent_crew.Queue.Runtime.Authority.{Verifier, refuse_all}
use agent_crew.Queue.Runtime.Steps.{Op, step, run, falls_back}
use agent_crew.Queue.Runtime.Loosening.{state, MayLoosen}
use agent_crew.Queue.Runtime.Change.{principal, Change, Written, IsCoherent, step-Change, step-Held}

state_of_Written :
    {verify : Verifier} {p : Option (String × Option String)} {rt rt' : Runtime}
    (w : Written verify p rt rt')
    → state rt' ≡ w.to
unfolding read_stop_row
state_of_Written w = rw (w.stored, w.names) refl

authority_needed :
    (verify : Verifier) (p : Option (String × Option String)) (rt rt' : Runtime)
    → Change verify p rt rt'
    → tightness (state rt') < tightness (state rt)
    → (who : String) × (decision_id : Option String) × (p ≡ some (who, decision_id))
      × MayLoosen verify (state rt) (state rt') who decision_id rt.events
authority_needed verify p rt rt' (inl e) lt =
    absurd (let s = ap (λ t. tightness (state t)) e in omega arith)
authority_needed verify p rt rt' (inr w) lt =
    rw (state_of_Written w)
      (w.by_authority (let s = ap tightness (state_of_Written w) in omega arith))

-- An operation that leaves the runtime looser than it was names a principal who may loosen it: one
-- who looks like an owner and whose claim the verifier has granted for these two states and the
-- cited decision, or, out of DRAINING, the one who drained it last, by hand. A pause file, at boot or
-- later, never loosens it.
pub loosened_by_authority :
    (verify : Verifier) (op : Op) (rt : Runtime)
    → tightness (state (step verify op rt)) < tightness (state rt)
    → (who : String) × (decision_id : Option String) × (principal op ≡ some (who, decision_id))
      × MayLoosen verify (state rt) (state (step verify op rt)) who decision_id rt.events
unfolding read_stop_row
loosened_by_authority verify op rt lt = elim (Bool-cases (falls_back op)) [
  | inl fell ↦ absurd (omega (arith, (step-Held verify op rt fell).no_looser))
  | inr fine ↦
      authority_needed verify (principal op) rt (step verify op rt) (step-Change verify op rt fine)
        lt
]

epoch-Change :
    (verify : Verifier) (p : Option (String × Option String)) (rt rt' : Runtime)
    → Change verify p rt rt'
    → (read_stop_row rt).epoch ≤ (read_stop_row rt').epoch
unfolding read_stop_row
epoch-Change verify p rt rt' (inl e) = rw e (omega arith)
epoch-Change verify p rt rt' (inr w) = rw w.stored w.epoch_le

step_epoch :
    (verify : Verifier) (op : Op) (rt : Runtime)
    → (read_stop_row rt).epoch ≤ (read_stop_row (step verify op rt)).epoch
step_epoch verify op rt = elim (Bool-cases (falls_back op)) [
  | inl fell ↦ omega (arith, (step-Held verify op rt fell).same_epoch)
  | inr fine ↦
      epoch-Change verify (principal op) rt (step verify op rt) (step-Change verify op rt fine)
]

-- Over any schedule of the writers the epoch of the stop row never falls.
pub epoch_never_falls :
    (verify : Verifier) (ops : List Op) (rt : Runtime)
    → (read_stop_row rt).epoch ≤ (read_stop_row (run verify ops rt)).epoch
unfolding run
epoch_never_falls verify [] rt = omega arith
epoch_never_falls verify (op ∷ ops) rt =
    omega (arith, step_epoch verify op rt, epoch_never_falls verify ops (step verify op rt))

flag_after :
    (verify : Verifier) (p : Option (String × Option String)) (rt rt' : Runtime)
    → Change verify p rt rt'
    → IsCoherent rt
    → IsCoherent rt'
unfolding read_stop_row
flag_after verify p rt rt' (inl e) c = rw e c
flag_after verify p rt rt' (inr w) c = rw (w.stored, w.names) w.agrees

-- If the flag `paused` of the stop row is set exactly when its state is STOPPED, then it is so after
-- any schedule of the writers in which no boot reconciliation fails and writes its fallback.
pub run-IsCoherent :
    (verify : Verifier) (ops : List Op) (rt : Runtime)
    → any falls_back ops ≡ false
    → IsCoherent rt
    → IsCoherent (run verify ops rt)
unfolding run
run-IsCoherent verify [] rt h c = c
run-IsCoherent verify (op ∷ ops) rt h c = elim (Bool-cases (falls_back op)) [
  | inl fell ↦ absurd (ground arith)
  | inr fine ↦
      run-IsCoherent verify ops (step verify op rt) (ground arith)
        (flag_after verify (principal op) rt (step verify op rt) (step-Change verify op rt fine) c)
]

stopped_of_tightness : (s : RuntimeState) → (tightness s < 3 → s ≡ stopped) → s ≡ stopped
stopped_of_tightness active h = h (omega arith)
stopped_of_tightness draining h = h (omega arith)
stopped_of_tightness quarantined h = h (omega arith)
stopped_of_tightness stopped h = refl

step_stays : (op : Op) (rt : Runtime) → state rt ≡ stopped → state (step refuse_all op rt) ≡ stopped
unfolding refuse_all
step_stays op rt e = stopped_of_tightness (state (step refuse_all op rt)) (λ lt.
    let (who, decision_id, named, may) =
      loosened_by_authority refuse_all op rt (let s = ap tightness e in omega arith) in
    elim may [
      | inl (owner, ok) ↦ absurd (cc)
      | inr (drains, entry) ↦ absurd (let s = ap tightness (sym e ∙ drains) in omega arith)
    ])

-- With the verifier that refuses everything, which is the default, a STOPPED runtime stays STOPPED
-- over every schedule of the writers, whatever principals and decisions they name.
pub stopped_stays :
    (ops : List Op) (rt : Runtime) → state rt ≡ stopped → state (run refuse_all ops rt) ≡ stopped
unfolding run
stopped_stays [] rt e = e
stopped_stays (op ∷ ops) rt e = stopped_stays ops (step refuse_all op rt) (step_stays op rt e)
