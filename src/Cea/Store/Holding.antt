-- ===== src/Cea/Store/Holding.antt =====
-- Who holds an intent lineage (src/agent_crew/cea/store.py, claim_lineage, set_lineage_state,
-- release_lineage).
use agent_crew.Common.{
  ℕ, String, Bool, true, false, ◌&&◌, if◌then◌else◌, Option, some, List, [], ◌∷◌, ◌==◌, nat_eq,
  string_eq, ◌≡◌, sym, ap, ◌∙◌, arith, Bool-cases, Option-cases, inl, inr, find_where, update_where,
  find-update_same, find-delete_same,
}
use text.Mathlib.TextEquality.{eq_iff}
use agent_crew.Cea.Types.{ReceiptState}
use agent_crew.Cea.Store.Lineages.{
  LineageRow, has_hash, lineage_for_intent, lineage_holder, claim_lineage, held_by, release_lineage,
  lets_go, set_lineage_state,
}

-- The statements that touch the table.
pub data LineageOp : Type 0 where
  claim :
      (intent_hash receipt_id project : String) (state : ReceiptState) (work_hash : Option String)
      (now : ℕ)
      → LineageOp
  move : (intent_hash receipt_id : String) (state : ReceiptState) (now : ℕ) → LineageOp
  release : (intent_hash receipt_id : String) → LineageOp

unfoldable pub apply : LineageOp → List LineageRow → List LineageRow
apply (claim h rid project state work_hash now) rows =
    (claim_lineage h rid project state work_hash now rows).0
apply (move h rid state now) rows = set_lineage_state h rid state now rows
apply (release h rid) rows = (release_lineage h rid rows).0

-- Does this statement let the claim of `rid` on `h` go?
unfoldable pub gives_up : String → String → LineageOp → Bool
gives_up h rid (claim _ _ _ _ _ _) = false
gives_up h rid (move h' rid' state _) = lets_go state && (h' == h && rid' == rid)
gives_up h rid (release h' rid') = h' == h && rid' == rid

unfoldable pub run : List LineageOp → List LineageRow → List LineageRow
run [] rows = rows
run (op ∷ ops) rows = run ops (apply op rows)

unfoldable pub never_gives_up : String → String → List LineageOp → Bool
never_gives_up h rid [] = true
never_gives_up h rid (op ∷ ops) = if gives_up h rid op then false else never_gives_up h rid ops

found_hash :
    (h : String) (rows : List LineageRow) {r : LineageRow}
    → lineage_for_intent h rows ≡ some r
    → r.intent_hash ≡ h
unfolding lineage_for_intent
found_hash h [] e = absurd (ground arith)
found_hash h (x ∷ xs) {r = r} e = elim (Bool-cases (has_hash h x)) [
  | inl hit ↦
      let same : x ≡ r = ground arith in
      sym (ap (λ (y : LineageRow). y.intent_hash) same) ∙ (eq_iff x.intent_hash h).0 hit
  | inr miss ↦ found_hash h xs {r = r} (ground arith)
]

-- The row of the holder, if any.
holder-row :
    (h rid : String) (rows : List LineageRow)
    → lineage_holder h rows ≡ some rid
    → (r : LineageRow) × (lineage_for_intent h rows ≡ some r)
      × (r.receipt_id ≡ rid)
      × (r.intent_hash ≡ h)
unfolding lineage_holder
holder-row h rid rows e = elim (Option-cases (lineage_for_intent h rows)) [
  | inl nobody ↦ absurd (ground arith)
  | inr (r, found) ↦ (r, found, ground arith, found_hash h rows found)
]

release-holder :
    (h rid h' rid' : String) (rows : List LineageRow)
    → lineage_holder h rows ≡ some rid
    → (h' == h && rid' == rid) ≡ false
    → lineage_holder h (release_lineage h' rid' rows).0 ≡ some rid
unfolding release_lineage lineage_holder lineage_for_intent
release-holder h rid h' rid' rows e other =
    let (r, found, mine, hash) = holder-row h rid rows e in
    let stays = find-delete_same (has_hash h) (held_by h' rid') rows {x = r} found (
      ground
        (arith, eq_iff r.intent_hash h', eq_iff r.receipt_id rid', eq_iff h' h, eq_iff rid' rid)) in
    rw stays (ap some mine)

update-holder :
    (h rid : String) (p : LineageRow → Bool) (state : ReceiptState) (now : ℕ)
    (rows : List LineageRow)
    → lineage_holder h rows ≡ some rid
    → lineage_holder h (update_where p (λ r. record r { state = state; updated_at = now }) rows)
      ≡ some rid
unfolding lineage_holder lineage_for_intent
update-holder h rid p state now rows e =
    let (r, found, mine, hash) = holder-row h rid rows e in
    let here : find_where (has_hash h) rows ≡ some r = found in
    rw
      (find-update_same (has_hash h) p (λ r. record r { state = state; updated_at = now }) rows
        (λ x. ground arith))
      (rw here (ground arith))

claim-holder :
    (h rid h' rid' project : String) (state : ReceiptState) (work_hash : Option String) (now : ℕ)
    (rows : List LineageRow)
    → lineage_holder h rows ≡ some rid
    → lineage_holder h (claim_lineage h' rid' project state work_hash now rows).0 ≡ some rid
unfolding claim_lineage lineage_holder lineage_for_intent
claim-holder h rid h' rid' project state work_hash now rows e =
    let (r, found, mine, hash) = holder-row h rid rows e in
    elim (Bool-cases (h' == h)) [
      | inl same ↦
          let eq = (eq_iff h' h).0 same in
          let here : find_where (has_hash h) rows ≡ some r = found in
          let taken : find_where (has_hash h') rows ≡ some r =
            ap (λ k. find_where (has_hash k) rows) eq ∙ here in
          ground arith
      | inr other ↦ ground arith
    ]

apply-holder :
    (h rid : String) (op : LineageOp) (rows : List LineageRow)
    → lineage_holder h rows ≡ some rid
    → gives_up h rid op ≡ false
    → lineage_holder h (apply op rows) ≡ some rid
unfolding apply gives_up
apply-holder h rid (claim h' rid' project state work_hash now) rows e g =
    claim-holder h rid h' rid' project state work_hash now rows e
apply-holder h rid (move h' rid' state now) rows e g = elim (Bool-cases (lets_go state)) [
  | inl go ↦ unfold set_lineage_state in rw go (release-holder h rid h' rid' rows e (ground arith))
  | inr stay ↦
      unfold set_lineage_state in rw stay (update-holder h rid (held_by h' rid') state now rows e)
]
apply-holder h rid (release h' rid') rows e g = release-holder h rid h' rid' rows e g

run-holder :
    (h rid : String) (ops : List LineageOp) (rows : List LineageRow)
    → lineage_holder h rows ≡ some rid
    → never_gives_up h rid ops ≡ true
    → lineage_holder h (run ops rows) ≡ some rid
unfolding run never_gives_up
run-holder h rid [] rows e n = e
run-holder h rid (op ∷ ops) rows e n =
    run-holder h rid ops (apply op rows) (apply-holder h rid op rows e (ground arith))
      (ground arith)

claim_taken :
    (h rid rid' project : String) (state : ReceiptState) (work_hash : Option String) (now : ℕ)
    (rows : List LineageRow)
    → lineage_holder h rows ≡ some rid
    → claim_lineage h rid' project state work_hash now rows ≡ (rows, (false, some rid))
unfolding claim_lineage lineage_holder
claim_taken h rid rid' project state work_hash now rows e = ground arith

claim_won :
    (h rid project : String) (state : ReceiptState) (work_hash : Option String) (now : ℕ)
    (rows : List LineageRow)
    → (claim_lineage h rid project state work_hash now rows).1.0 ≡ true
    → lineage_holder h (claim_lineage h rid project state work_hash now rows).0 ≡ some rid
unfolding claim_lineage lineage_holder lineage_for_intent
claim_won h rid project state work_hash now rows e = ground (arith, eq_iff h h)

-- A receipt that wins the claim of an intent hash holds it through any statements of others: until
-- a statement releases that claim by that receipt, or moves it to SUPERSEDED or REVOKED, every
-- other claim of the hash is refused and is told who holds it.
pub claim_excludes :
    (h rid project : String) (state : ReceiptState) (work_hash : Option String) (now : ℕ)
    (rows : List LineageRow) (ops : List LineageOp) (rid' project' : String) (state' : ReceiptState)
    (work_hash' : Option String) (later : ℕ)
    → (claim_lineage h rid project state work_hash now rows).1.0 ≡ true
    → never_gives_up h rid ops ≡ true
    → let after = run ops (claim_lineage h rid project state work_hash now rows).0 in
      claim_lineage h rid' project' state' work_hash' later after ≡ (after, (false, some rid))
claim_excludes h rid project state work_hash now rows ops rid' project' state' work_hash' later won
      kept =
    claim_taken h rid rid' project' state' work_hash' later _
      (run-holder h rid ops _ (claim_won h rid project state work_hash now rows won) kept)
