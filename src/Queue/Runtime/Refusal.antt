-- ===== src/Queue/Runtime/Refusal.antt =====
-- The transition table as one predicate (src/agent_crew/queue.py, _looks_like_owner,
-- _transition_refusal, _authority_refusal).
use agent_crew.Common.{
  String, Bool, false, not, ◌&&◌, ◌||◌, if◌then◌else◌, Option, none, some, ◌==◌, nat_eq, string_eq,
  leb, list_beq, codes, strip, lower, is_prefix, is_empty,
}
use agent_crew.Cea.Types.{RuntimeState, active, draining, quarantined, stopped, tightness}
use agent_crew.Queue.Runtime.Authority.{Verdict, granted, refused, failed, Verifier}

-- Why a loosening is refused.
pub data Refusal : Type 0 where
  owner_only not_granted verifier_failed quarantine_entry not_the_drainer : Refusal

-- `_looks_like_owner`
unfoldable pub looks_like_owner : String → Bool
looks_like_owner who =
    let w = lower (strip (codes who)) in list_beq w (codes "owner") || is_prefix (codes "owner:") w

abbrev of_verdict : Verdict → Option Refusal
of_verdict granted = none
of_verdict refused = some not_granted
of_verdict failed = some verifier_failed

-- `_authority_refusal`
unfoldable pub authority_refusal :
    Verifier → (frm to : RuntimeState) (who : String) (decision_id : Option String) → Option Refusal
authority_refusal verify frm to who decision_id = of_verdict (verify frm to who decision_id)

abbrev pub is_drainer : Option String → String → Bool
is_drainer none who = false
is_drainer (some by) who = not (is_empty by) && who == by

-- out of QUARANTINED or STOPPED
abbrev owner_refusal :
    Verifier → (frm to : RuntimeState) (who : String) (decision_id : Option String) → Option Refusal
owner_refusal verify frm to who decision_id =
    if not (looks_like_owner who)
    then some owner_only
    else authority_refusal verify frm to who decision_id

-- out of DRAINING
abbrev pub drain_refusal :
    Verifier
    → (to : RuntimeState) (who : String) (decision_id : Option String)
    → (entered_by : Option String) (by_quarantine : Bool) → Option Refusal
drain_refusal verify to who decision_id entered_by by_quarantine =
    if by_quarantine
    then some quarantine_entry
    else if is_drainer entered_by who
    then none
    else if looks_like_owner who
    then authority_refusal verify draining to who decision_id
    else some not_the_drainer

-- `_transition_refusal`; `none` permits the transition
unfoldable pub transition_refusal :
    Verifier
    → (frm to : RuntimeState) (who : String) (decision_id : Option String)
    → (entered_by : Option String) (by_quarantine : Bool) → Option Refusal
transition_refusal verify frm to who decision_id entered_by by_quarantine =
    if leb (tightness frm) (tightness to) then none else elim frm [
      | quarantined ↦ owner_refusal verify quarantined to who decision_id
      | stopped ↦ owner_refusal verify stopped to who decision_id
      | draining ↦ drain_refusal verify to who decision_id entered_by by_quarantine
      | active ↦ none
    ]
