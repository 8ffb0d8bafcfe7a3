-- ===== src/Cea/Store/Lifecycle.antt =====
-- Every receipt's revisions follow the lifecycle graph, and a terminal revision is the last one
-- (src/agent_crew/cea/store.py, append_lifecycle).
use agent_crew.Common.{
  ℕ, suc, String, true, ◌≡◌, refl, sym, ◌∙◌, ap, ◌⊎◌, inl, inr, none, some, List, ◌∷◌, nat_eq,
  string_eq, arith, Bool-cases, Option-cases,
}
use text.Mathlib.TextEquality.{eq_iff}
use agent_crew.Cea.Types.{Receipt, ReceiptState}
use agent_crew.Cea.Validator.Inputs.{Wire, not_object, nonconforming, conforming}
use agent_crew.Cea.Store.Receipts.{
  ReceiptRow, Result, ok, err, terminal_receipt, is_terminal, transition, next_seq, current_receipt,
  revision, insert_row, keep_body, record_receipt, append_lifecycle,
}
use agent_crew.Cea.Store.Revisions.{revision-lt-next_seq, latest-next_seq, latest-revision}

-- A seq of the table lies below the next one.

-- The revisions of every receipt carry its id, and each follows from the one before it.
pub record Lawful (rows : List ReceiptRow) : Type 0 where
  pub named :
      (rid : String) (seq : ℕ) (r : ReceiptRow)
      → revision rid seq rows ≡ some r
      → r.body.receipt_id ≡ rid
  pub chained :
      (rid : String) (seq : ℕ) (r s : ReceiptRow)
      → revision rid seq rows ≡ some r
      → revision rid (suc seq) rows ≡ some s
      → transition r.body.state s.body.state ≡ true

-- What `mutate` and `sign` leave alone.
abbrev pub Keeps : (Receipt → Wire) → Type 0
Keeps revise =
    (r r' : Receipt)
    → revise r ≡ conforming r'
    → (r'.receipt_id ≡ r.receipt_id) × (r'.state ≡ r.state)

abbrev row_of : Receipt → ℕ → ReceiptRow
row_of r seq = record { receipt_id = r.receipt_id; seq = seq; body = r }

-- What an accepted transition did.
pub record Appended (rid : String) (state : ReceiptState) (revise : Receipt → Wire)
    (rows rows' : List ReceiptRow) : Type 0 where
  pub current : Receipt
  pub updated : Receipt
  pub found : current_receipt rid rows ≡ some current
  pub allowed : transition current.state state ≡ true
  pub revised : revise (record current { state = state }) ≡ conforming updated
  pub written : rows' ≡ row_of updated (next_seq updated.receipt_id rows) ∷ rows

recorded :
    (w : Wire) (rows : List ReceiptRow) {rows' : List ReceiptRow} {seq : ℕ}
    → record_receipt w none rows ≡ ok (rows', seq)
    → (r : Receipt) × (w ≡ conforming r) × (rows' ≡ row_of r (next_seq r.receipt_id rows) ∷ rows)
unfolding record_receipt insert_row
recorded not_object rows e = absurd (ground arith)
recorded (nonconforming rid) rows e = absurd (ground arith)
recorded (conforming r) rows e = (r, refl, ground arith)

kept :
    (w w' : Wire) (res : Result (List ReceiptRow × ℕ)) {rows : List ReceiptRow}
    → keep_body w res ≡ ok (rows, w')
    → (seq : ℕ) × (res ≡ ok (rows, seq))
kept w w' (ok (rows, seq)) e = (seq, ground arith)
kept w w' (err x) e = absurd (ground arith)

append-Appended :
    (rid : String) (state : ReceiptState) (revise : Receipt → Wire) (rows : List ReceiptRow)
    {rows' : List ReceiptRow} {w : Wire}
    → append_lifecycle rid state revise rows ≡ ok (rows', w)
    → Appended rid state revise rows rows'
unfolding append_lifecycle
append-Appended rid state revise rows {w = w} e = elim (Option-cases (current_receipt rid rows)) [
  | inl unknown ↦ absurd (ground arith)
  | inr (current, found) ↦ elim (Bool-cases (transition current.state state)) [
    | inl allowed ↦
        let updated = revise (record current { state = state }) in
        let (seq, stored) = kept updated w (record_receipt updated none rows) (ground arith) in
        let (r, revised, written) = recorded updated rows stored in
        record {
          current = current;
          updated = r;
          found = found;
          allowed = allowed;
          revised = revised;
          written = written;
        }
    | inr refused ↦ absurd (ground arith)
  ]
]

-- the current body belongs to the latest row
current-row :
    (rid : String) (rows : List ReceiptRow) {r : Receipt}
    → current_receipt rid rows ≡ some r
    → (row : ReceiptRow) × (row.body ≡ r)
      × (revision rid row.seq rows ≡ some row)
      × (next_seq rid rows ≡ suc row.seq)
unfolding current_receipt
current-row rid rows e = elim (latest-next_seq rid rows) [
  | inl (nothing, zero) ↦ absurd (ground arith)
  | inr (row, found, next) ↦ (row, ground arith, latest-revision rid rows found, next)
]

-- one more row: a revision is that row or an old one
revision_of_cons :
    (rid : String) (seq : ℕ) (row : ReceiptRow) (rows : List ReceiptRow) {r : ReceiptRow}
    → revision rid seq (row ∷ rows) ≡ some r
    → (row.receipt_id ≡ rid) × (row.seq ≡ seq) × (r ≡ row) ⊎ (revision rid seq rows ≡ some r)
unfolding revision
revision_of_cons rid seq row rows e = ground (arith, eq_iff row.receipt_id rid)

module _ {rid : String} {state : ReceiptState} {revise : Receipt → Wire}
    {rows rows' : List ReceiptRow} (keeps : Keeps revise) (l : Lawful rows)
    (a : Appended rid state revise rows rows') where
  abbrev row : ReceiptRow
  row = row_of a.updated (next_seq a.updated.receipt_id rows)

  updated_same : (a.updated.receipt_id ≡ rid) × (a.updated.state ≡ state)
  updated_same =
      let (last, body, rev, next) = current-row rid rows a.found in
      let (same_id, same_state) = keeps (record a.current { state = state }) a.updated a.revised in
      let mine : a.current.receipt_id ≡ rid =
        ap (λ (r : Receipt). r.receipt_id) (sym body) ∙ l.named rid last.seq last rev in
      (same_id ∙ mine, same_state)

  named_after :
      (k : String) (seq : ℕ) (r : ReceiptRow)
      → revision k seq (row ∷ rows) ≡ some r
      → r.body.receipt_id ≡ k
  named_after k seq r h = elim (revision_of_cons k seq row rows h) [
    | inl (mine, at, same) ↦ ap (λ (x : ReceiptRow). x.body.receipt_id) same ∙ mine
    | inr old ↦ l.named k seq r old
  ]

  step_allowed :
      (k : String) (seq : ℕ) (r : ReceiptRow)
      → row.receipt_id ≡ k
      → row.seq ≡ suc seq
      → revision k seq rows ≡ some r
      → transition r.body.state row.body.state ≡ true
  step_allowed k seq r mine at old =
      let (last, body, rev, next) = current-row rid rows a.found in
      let (same_id, same_state) = updated_same in
      let at' : next_seq rid rows ≡ suc seq = ap (λ id. next_seq id rows) (sym same_id) ∙ at in
      let here : seq ≡ last.seq = omega arith in
      let k_rid : k ≡ rid = sym mine ∙ same_id in
      let found : some r ≡ some last =
        sym old
        ∙ ap (λ id. revision id seq rows) k_rid
        ∙ ap (λ n. revision rid n rows) here
        ∙ rev in
      let r_last : r ≡ last = cc in
      let from : r.body.state ≡ a.current.state =
        ap (λ (x : ReceiptRow). x.body.state) r_last ∙ ap (λ (x : Receipt). x.state) body in
      rw (from, same_state) a.allowed

  chained_after :
      (k : String) (seq : ℕ) (r s : ReceiptRow)
      → revision k seq (row ∷ rows) ≡ some r
      → revision k (suc seq) (row ∷ rows) ≡ some s
      → transition r.body.state s.body.state ≡ true
  chained_after k seq r s h1 h2 = elim (revision_of_cons k (suc seq) row rows h2) [
    | inl (mine2, at2, same2) ↦ elim (revision_of_cons k seq row rows h1) [
      | inl (mine1, at1, same1) ↦ absurd (omega arith)
      | inr old1 ↦
          rw (ap (λ (x : ReceiptRow). x.body.state) same2) (step_allowed k seq r mine2 at2 old1)
    ]
    | inr old2 ↦ elim (revision_of_cons k seq row rows h1) [
      | inl (mine1, at1, same1) ↦
          absurd (ground (arith, revision-lt-next_seq k (suc seq) rows old2))
      | inr old1 ↦ l.chained k seq r s old1 old2
    ]
  ]

-- An accepted transition keeps the table lawful: every receipt's revisions still follow the
-- lifecycle graph, provided that what `mutate` and `sign` make of a receipt keeps its id and state.
pub append_lifecycle-Lawful :
    (rid : String) (state : ReceiptState) (revise : Receipt → Wire) (rows : List ReceiptRow)
    {rows' : List ReceiptRow} {w : Wire}
    → Keeps revise
    → Lawful rows
    → append_lifecycle rid state revise rows ≡ ok (rows', w)
    → Lawful rows'
append_lifecycle-Lawful rid state revise rows keeps l e =
    let a = append-Appended rid state revise rows e in
    rw a.written (record { named = named_after keeps l a; chained = chained_after keeps l a })

-- A receipt that is in a terminal state is never moved again: every transition is refused, and so
-- the table has no later revision of it.
pub terminal_is_final :
    (rid : String) (state : ReceiptState) (revise : Receipt → Wire) (rows : List ReceiptRow)
    (r : Receipt)
    → current_receipt rid rows ≡ some r
    → is_terminal r.state ≡ true
    → append_lifecycle rid state revise rows ≡ err terminal_receipt
unfolding append_lifecycle is_terminal transition
terminal_is_final rid state revise rows r found t = ground arith
