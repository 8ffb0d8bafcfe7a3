-- ===== src/Cea/Store/Revisions.antt =====
-- The numbers of the revisions of a receipt and the newest one (src/agent_crew/cea/store.py,
-- record_receipt, current_receipt).
use agent_crew.Common.{
  ℕ, suc, ◌<◌, String, ◌≡◌, refl, ap, ◌⊎◌, inl, inr, none, some, List, [], ◌∷◌, ◌==◌, nat_eq,
  string_eq, arith, if◌then◌else◌, Bool-cases, Option-cases, eq_of_beq, beq_refl,
}
use agent_crew.Cea.Store.Receipts.{ReceiptRow, next_seq, latest, newer, is_revision, revision}

pub revision-lt-next_seq :
    (rid : String) (seq : ℕ) (rows : List ReceiptRow) {r : ReceiptRow}
    → revision rid seq rows ≡ some r
    → seq < next_seq rid rows
unfolding revision next_seq
revision-lt-next_seq rid seq [] e = absurd (ground arith)
revision-lt-next_seq rid seq (r ∷ rs) {r = q} e = elim (Bool-cases (is_revision rid seq r)) [
  | inl here ↦ ground arith
  | inr on ↦
      let later : revision rid seq rs ≡ some q = unfold revision in ground arith in
      ground (arith, revision-lt-next_seq rid seq rs later)
]

pub latest-next_seq :
    (rid : String) (rows : List ReceiptRow)
    → (latest rid rows ≡ none) × (next_seq rid rows ≡ 0)
      ⊎ ((r : ReceiptRow) × (latest rid rows ≡ some r) × (next_seq rid rows ≡ suc r.seq))
unfolding latest next_seq
latest-next_seq rid [] = inl (refl, refl)
latest-next_seq rid (r ∷ rs) = elim (Bool-cases (r.receipt_id == rid)) [
  | inl mine ↦ elim (latest-next_seq rid rs) [
    | inl (nothing, zero) ↦ inr (r, ground arith, ground arith)
    | inr (q, found, next) ↦ inr (newer r (some q), ground arith, ground arith)
  ]
  | inr other ↦ elim (latest-next_seq rid rs) [
    | inl (nothing, zero) ↦ inl (ground arith, ground arith)
    | inr (q, found, next) ↦ inr (q, ground arith, ground arith)
  ]
]

pub latest-revision :
    (rid : String) (rows : List ReceiptRow) {r : ReceiptRow}
    → latest rid rows ≡ some r
    → revision rid r.seq rows ≡ some r
unfolding latest revision
latest-revision rid [] e = absurd (ground arith)
latest-revision rid (r ∷ rs) {r = q} e = elim (Option-cases (latest rid rs)) [
  | inl nothing ↦ ground (arith, beq_refl r.seq)
  | inr (p, found) ↦ ground (arith, latest-revision rid rs found)
]

-- A new row at the next seq is the current one of its receipt, and the other receipts keep theirs.
pub latest-cons :
    (rid : String) (row : ReceiptRow) (rows : List ReceiptRow)
    → row.seq ≡ next_seq row.receipt_id rows
    → latest rid (row ∷ rows) ≡ (if row.receipt_id == rid then some row else latest rid rows)
unfolding latest
latest-cons rid row rows e = elim (Bool-cases (row.receipt_id == rid)) [
  | inl mine ↦
      let same = eq_of_beq row.receipt_id rid mine in
      ground (arith, latest-next_seq rid rows, ap (λ k. next_seq k rows) same)
  | inr other ↦ ground arith
]
