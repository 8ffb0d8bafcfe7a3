-- ===== src/Queue/Runtime/Granting.antt =====
-- What a granted loosening rests on (src/agent_crew/queue.py, SnapshotLooseningAuthority.verify).
use agent_crew.Common.{
  ℕ, String, true, not, ◌||◌, ◌≡◌, ◌≢◌, refl, ap, inl, inr, Option, some, List, [], ◌∷◌, arith, all,
  elem, find_where, beq_refl, list_beq_refl, option_eq, Option-cases, codes, strip, list_beq,
  nat_eq, string_eq, Bool-cases, if◌then◌else◌,
}
use agent_crew.Cea.Types.{RuntimeState}
use agent_crew.Queue.Runtime.Authority.{
  SnapshotRead, refused, Verdict, granted, SnapshotAuthority, Snapshot, read, absent,
  unreadable as unread, DecisionRecord, records, given, names_decision, same_authority, covers,
  matching, judge_matches, snapshot_verify, is_usable,
}

first_match :
    (did : List ℕ) (project : Option String) (rs : List DecisionRecord) (r : DecisionRecord)
    (more : List DecisionRecord)
    → matching did project rs ≡ r ∷ more
    → find_where (names_decision did project) rs ≡ some r
unfolding matching find_where
first_match did project [] r more e = absurd (cc)
first_match did project (x ∷ rs) r more e = elim (Bool-cases (names_decision did project x)) [
  | inl y ↦ ground arith
  | inr n ↦ ground (arith, first_match did project rs r more (ground arith))
]

agreement :
    (did : List ℕ) (project : Option String) (rs : List DecisionRecord) (r : DecisionRecord)
    → all (same_authority r) (matching did project rs) ≡ true
    → all (λ x. not (names_decision did project x) || same_authority r x) rs ≡ true
unfolding matching
agreement did project [] r h = refl
agreement did project (x ∷ rs) r h = elim (Bool-cases (names_decision did project x)) [
  | inl y ↦ ground (arith, agreement did project rs r)
  | inr n ↦ ground (arith, agreement did project rs r)
]

granted-judge :
    (v : SnapshotAuthority) (who : String) (ms : List DecisionRecord)
    → judge_matches v who ms ≡ granted
    → (r : DecisionRecord) × (more : List DecisionRecord) × (ms ≡ r ∷ more)
      × (all (same_authority r) more ≡ true)
      × (covers v who r ≡ true)
unfolding judge_matches
granted-judge v who [] h = absurd (ground arith)
granted-judge v who (r ∷ rs) h = (r, rs, refl, ground arith, ground arith)

granted-covers :
    (v : SnapshotAuthority) (who : String) (r : DecisionRecord)
    → covers v who r ≡ true
    → (elem who r.principals ≡ true)
      × (build : String) × (v.build ≡ some build)
      × (elem build r.build_commits ≡ true)
unfolding covers
granted-covers v who r h = elim (Option-cases v.build) [
  | inl unknown ↦ absurd (ground arith)
  | inr (build, known) ↦ (ground arith, build, known, ground arith)
]

same_authority_refl : (r : DecisionRecord) → same_authority r r ≡ true
same_authority_refl r =
    rw
      (
        beq_refl r.project,
        beq_refl r.body_hash,
        list_beq_refl r.principals,
        list_beq_refl r.build_commits,
        list_beq_refl r.runtimes,
        list_beq_refl r.supersedes,
      )
      (beq_refl r.expires_at)

read_usable :
    (x : SnapshotRead) (f : Snapshot → Verdict)
    → (elim x [
      | unread ↦ refused
      | absent ↦ refused
      | read s ↦ if not (is_usable s) then refused else f s
    ])
      ≡ granted
    → (s : Snapshot) × (x ≡ read s)
      × (s.available ≡ true)
      × (s.signature_valid ≡ true)
      × (f s ≡ granted)
read_usable unread f h = absurd (ground arith)
read_usable absent f h = absurd (ground arith)
read_usable (read s) f h = (s, refl, ground arith, ground arith, ground arith)

granted_matches :
    (v : SnapshotAuthority) (who : String) (did : List ℕ) (rs : List DecisionRecord)
    → judge_matches v who (matching did v.project rs) ≡ granted
    → (r : DecisionRecord) × (build : String) × (find_where (names_decision did v.project) rs
        ≡ some r)
      × (all (λ x. not (names_decision did v.project x) || same_authority r x) rs ≡ true)
      × (elem who r.principals ≡ true)
      × (v.build ≡ some build)
      × (elem build r.build_commits ≡ true)
granted_matches v who did rs h =
    let (r, more, e, agree, cov) = granted-judge v who (matching did v.project rs) h in
    let (named, build, known, built) = granted-covers v who r cov in
    (
      r,
      build,
      first_match did v.project rs r more e,
      agreement did v.project rs r (rw e (rw (same_authority_refl r) agree)),
      named,
      known,
      built,
    )

-- When the verifier grants a loosening: the policy snapshot was read, is available and has a valid
-- signature; the id cited, stripped, is not empty and names a first record of the snapshot; every
-- record in the verifier's project that the id names agrees with it on the fields of authority; and
-- it names the principal and the commit of the running build, which is known.
pub granted_on_signed_record :
    (v : SnapshotAuthority) (frm to : RuntimeState) (who : String) (decision_id : Option String)
    → snapshot_verify v frm to who decision_id ≡ granted
    → (s : Snapshot) × (r : DecisionRecord) × (build : String) × (v.snapshots ≡ read s)
      × (s.available ≡ true)
      × (s.signature_valid ≡ true)
      × (strip (codes (given decision_id)) ≢ [])
      × (find_where (names_decision (strip (codes (given decision_id))) v.project) (records s)
          ≡ some r)
      × (all
            (λ x.
              not (names_decision (strip (codes (given decision_id))) v.project x)
              || same_authority r x)
            (records s)
          ≡ true)
      × (elem who r.principals ≡ true)
      × (v.build ≡ some build)
      × (elem build r.build_commits ≡ true)
unfolding snapshot_verify
granted_on_signed_record v frm to who decision_id h =
    elim (Bool-cases (list_beq (strip (codes (given decision_id))) [])) [
      | inl blank ↦ absurd (ground arith)
      | inr given_id ↦
          let (s, e, available, valid, judged) =
            read_usable v.snapshots
              (λ s.
                judge_matches v who
                  (matching (strip (codes (given decision_id))) v.project (records s)))
              (ground arith) in
          let (r, build, found, agree, named, known, built) =
            granted_matches v who (strip (codes (given decision_id))) (records s) judged in
          (
            s,
            r,
            build,
            e,
            available,
            valid,
            λ blank. absurd (let y = ap (λ x. list_beq x []) blank in ground arith),
            found,
            agree,
            named,
            known,
            built,
          )
    ]
