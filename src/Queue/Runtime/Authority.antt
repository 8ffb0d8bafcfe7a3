-- ===== src/Queue/Runtime/Authority.antt =====
-- Who may loosen the runtime (src/agent_crew/queue.py, RefuseAllLoosening and
-- SnapshotLooseningAuthority). The policy snapshot and the running build are read from the outside:
-- they are given as what the reads return.
use agent_crew.Common.{
  ℕ, String, Bool, true, false, not, ◌&&◌, if◌then◌else◌, Option, none, some, List, [], ◌∷◌, ◌==◌,
  nat_eq, string_eq, option_eq, list_beq, all, elem, codes, strip, is_empty,
}
use agent_crew.Cea.Types.{RuntimeState}

-- What a verifier answers: a verdict that grants, one that does not, or an exception.
pub data Verdict : Type 0 where
  granted refused failed : Verdict

abbrev pub Verifier : Type 0
Verifier = (frm to : RuntimeState) (who : String) (decision_id : Option String) → Verdict

-- `RefuseAllLoosening.verify`
unfoldable pub refuse_all : Verifier
refuse_all frm to who decision_id = refused

-- a signed decision record, as far as the verifier reads it
pub record DecisionRecord : Type 0 where
  pub decision_id : String
  pub body_hash : String
  pub supersedes : List String
  pub principals : List String
  pub build_commits : List String
  pub runtimes : List String
  pub project : Option String
  pub expires_at : Option ℕ

pub record Snapshot : Type 0 where
  pub available : Bool
  pub signature_valid : Bool
  pub in_scope : List DecisionRecord
  pub decisions : List DecisionRecord

-- `self._snapshots.current()`
pub data SnapshotRead : Type 0 where
  unreadable absent : SnapshotRead
  read : Snapshot → SnapshotRead

-- The verifier's own fields, and the commit of the running build if it is known.
pub record SnapshotAuthority : Type 0 where
  pub snapshots : SnapshotRead
  pub build : Option String
  pub runtime : String
  pub project : Option String

abbrev pub is_usable : Snapshot → Bool
is_usable s = s.available && s.signature_valid

abbrev first_nonempty : List DecisionRecord → List DecisionRecord → List DecisionRecord
first_nonempty [] others = others
first_nonempty (r ∷ rs) others = r ∷ rs

-- `in_scope or decisions`
abbrev pub records : Snapshot → List DecisionRecord
records s = first_nonempty s.in_scope s.decisions

abbrev of_project : Option String → Option String → Bool
of_project none p = true
of_project (some own) none = true
of_project (some own) (some p) = p == own

-- `r.decision_id == did` for the stripped id, in the verifier's project
abbrev pub names_decision : List ℕ → Option String → DecisionRecord → Bool
names_decision did project r = list_beq (codes r.decision_id) did && of_project project r.project

unfoldable pub matching : List ℕ → Option String → List DecisionRecord → List DecisionRecord
matching did project [] = []
matching did project (r ∷ rs) =
    let rest = matching did project rs in if names_decision did project r then r ∷ rest else rest

-- the fields that must agree where several records carry one id
abbrev pub same_authority : DecisionRecord → DecisionRecord → Bool
same_authority a b =
    a.project == b.project
    && (a.body_hash == b.body_hash
        && (list_beq a.principals b.principals
            && (list_beq a.build_commits b.build_commits
                && (list_beq a.runtimes b.runtimes
                    && (list_beq a.supersedes b.supersedes && a.expires_at == b.expires_at)))))

-- the last three conditions, on the record that the id names
unfoldable pub covers : SnapshotAuthority → String → DecisionRecord → Bool
covers v who r =
    if not (elem who r.principals)
    then false
    else if not (is_empty v.runtime) && not (elem v.runtime r.runtimes)
    then false
    else elim v.build [ none ↦ false | some build ↦ elem build r.build_commits ]

abbrev pub given : Option String → String
given none = ""
given (some s) = s

-- one record, or several that agree
unfoldable pub judge_matches : SnapshotAuthority → String → List DecisionRecord → Verdict
judge_matches v who [] = refused
judge_matches v who (r ∷ rs) =
    if not (all (same_authority r) rs) then refused else if covers v who r then granted else refused

-- `SnapshotLooseningAuthority.verify`
unfoldable pub snapshot_verify : SnapshotAuthority → Verifier
unfolding judge_matches matching
snapshot_verify v frm to who decision_id =
    let did = strip (codes (given decision_id)) in
    if list_beq did [] then refused else elim v.snapshots [
      | unreadable ↦ refused
      | absent ↦ refused
      | read s ↦
          if not (is_usable s)
          then refused
          else judge_matches v who (matching did v.project (records s))
    ]
