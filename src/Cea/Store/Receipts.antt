-- ===== src/Cea/Store/Receipts.antt =====
-- The table authorization_receipts (src/agent_crew/cea/store.py). A row is a revision of a receipt;
-- the newest row stands first. The stored JSON text is the receipt itself, and the audit columns
-- recorded_at, recorded_by and note are left out. A body that the schema refuses is a `Wire` that
-- is not conforming.
use Prim.Native.Nat.{max}
use agent_crew.Common.{
  ℕ, suc, String, Bool, true, false, not, ◌&&◌, if◌then◌else◌, Option, none, some, List, [], ◌∷◌,
  ◌==◌, ltb, nat_eq, string_eq, find_where, is_some,
}
use mathlib.Core.Option
use agent_crew.Cea.Types.{
  Receipt, ReceiptState, issued, queued, claimed, running, held, consumed, superseded, revoked,
}
use agent_crew.Cea.Validator.Inputs.{Wire, not_object, nonconforming, conforming}

pub record ReceiptRow : Type 0 where
  pub receipt_id : String
  pub seq : ℕ
  pub body : Receipt

-- ReceiptStoreError, and the database's refusal of a second row for (receipt_id, seq)
pub data StoreError : Type 0 where
  contract_violation unknown_receipt terminal_receipt not_a_transition integrity : StoreError

pub data Result {ℓ} (A : Type ℓ) : Type ℓ where
  ok : A → Result A
  err : StoreError → Result A

-- TERMINAL_STATES
unfoldable pub is_terminal : ReceiptState → Bool
is_terminal consumed = true
is_terminal superseded = true
is_terminal revoked = true
is_terminal _ = false

-- LIFECYCLE_GRAPH: `to in LIFECYCLE_GRAPH[frm]`
unfoldable pub transition : (frm to : ReceiptState) → Bool
transition issued issued = true
transition issued queued = true
transition issued held = true
transition issued superseded = true
transition issued revoked = true
transition queued queued = true
transition queued claimed = true
transition queued held = true
transition queued superseded = true
transition queued revoked = true
transition claimed claimed = true
transition claimed running = true
transition claimed consumed = true
transition claimed held = true
transition claimed superseded = true
transition claimed revoked = true
transition running running = true
transition running consumed = true
transition running superseded = true
transition running revoked = true
transition held held = true
transition held queued = true
transition held claimed = true
transition held superseded = true
transition held revoked = true
transition _ _ = false

-- COALESCE(MAX(seq), -1) + 1 over the rows of a receipt
unfoldable pub next_seq : String → List ReceiptRow → ℕ
next_seq rid [] = 0
next_seq rid (r ∷ rs) =
    let rest = next_seq rid rs in if r.receipt_id == rid then max (suc r.seq) rest else rest

abbrev pub newer : ReceiptRow → Option ReceiptRow → ReceiptRow
newer r none = r
newer r (some q) = if ltb r.seq q.seq then q else r

-- ORDER BY seq DESC LIMIT 1
unfoldable pub latest : String → List ReceiptRow → Option ReceiptRow
latest rid [] = none
latest rid (r ∷ rs) =
    let rest = latest rid rs in if r.receipt_id == rid then some (newer r rest) else rest

-- `current_receipt`
unfoldable pub current_receipt : String → List ReceiptRow → Option Receipt
unfolding latest
current_receipt rid rows = Option.map (λ r. r.body) (latest rid rows)

abbrev pub is_revision : String → ℕ → ReceiptRow → Bool
is_revision rid seq r = r.receipt_id == rid && r.seq == seq

-- the row of `receipt_history` with this seq
unfoldable pub revision : String → ℕ → List ReceiptRow → Option ReceiptRow
unfolding find_where
revision rid seq rows = find_where (is_revision rid seq) rows

abbrev seq_or : Option ℕ → ℕ → ℕ
seq_or none n = n
seq_or (some seq) n = seq

-- the INSERT of `record_receipt`, refused for a second row with this (receipt_id, seq)
unfoldable pub insert_row : Receipt → ℕ → List ReceiptRow → Result (List ReceiptRow × ℕ)
unfolding revision
insert_row r seq rows =
    if is_some (revision r.receipt_id seq rows)
    then err integrity
    else ok (record { receipt_id = r.receipt_id; seq = seq; body = r } ∷ rows, seq)

-- `record_receipt`: the new table and the seq written
unfoldable pub record_receipt : Wire → Option ℕ → List ReceiptRow → Result (List ReceiptRow × ℕ)
record_receipt not_object seq rows = err contract_violation
record_receipt (nonconforming rid) seq rows = err contract_violation
record_receipt (conforming r) seq rows = insert_row r (seq_or seq (next_seq r.receipt_id rows)) rows

abbrev pub keep_body : Wire → Result (List ReceiptRow × ℕ) → Result (List ReceiptRow × Wire)
keep_body w (ok (rows, seq)) = ok (rows, w)
keep_body w (err e) = err e

-- `append_lifecycle` with `_append_lifecycle_in_txn`, under one write lock: the new table and the
-- new body. `revise` is what `mutate` and `sign` make of the receipt with its new state.
unfoldable pub append_lifecycle :
    String
    → ReceiptState
    → (revise : Receipt → Wire) → List ReceiptRow
    → Result (List ReceiptRow × Wire)
append_lifecycle rid state revise rows = elim (current_receipt rid rows) [
  | none ↦ err unknown_receipt
  | some current ↦
      if not (transition current.state state)
      then if is_terminal current.state then err terminal_receipt else err not_a_transition
      else let updated = revise (record current { state = state }) in
        keep_body updated (record_receipt updated none rows)
]
