-- ===== src/Cea/Store/Lineages.antt =====
-- The claim table intent_lineages (src/agent_crew/cea/store.py): an intent hash is held by the
-- receipt that claimed it first, until that receipt lets it go.
use agent_crew.Common.{
  ℕ, String, Bool, true, false, ◌&&◌, if◌then◌else◌, Option, some, List, ◌∷◌, ◌==◌, nat_eq,
  string_eq, is_some, find_where, count_where, update_where, delete_where,
}
use mathlib.Core.Option
use agent_crew.Cea.Types.{ReceiptState, superseded, revoked}

pub record LineageRow : Type 0 where
  pub intent_hash : String
  pub receipt_id : String
  pub project : String
  pub state : ReceiptState
  pub claimed_at : ℕ
  pub updated_at : ℕ
  pub work_hash : Option String

abbrev pub has_hash : String → LineageRow → Bool
has_hash h r = r.intent_hash == h

-- `lineage_for_intent`
unfoldable pub lineage_for_intent : String → List LineageRow → Option LineageRow
unfolding find_where
lineage_for_intent h rows = find_where (has_hash h) rows

-- `_lineage_holder`
unfoldable pub lineage_holder : String → List LineageRow → Option String
unfolding lineage_for_intent
lineage_holder h rows = Option.map (λ r. r.receipt_id) (lineage_for_intent h rows)

-- `claim_lineage` at time `now`: INSERT ... ON CONFLICT(intent_hash) DO NOTHING, then who holds it
unfoldable pub claim_lineage :
    (intent_hash receipt_id project : String) (state : ReceiptState) (work_hash : Option String)
    (now : ℕ)
    → List LineageRow
    → List LineageRow × (Bool × Option String)
unfolding lineage_holder
claim_lineage h rid project state work_hash now rows =
    if is_some (lineage_for_intent h rows) then (rows, (false, lineage_holder h rows)) else (
      record {
        intent_hash = h;
        receipt_id = rid;
        project = project;
        state = state;
        claimed_at = now;
        updated_at = now;
        work_hash = work_hash;
      }
          ∷ rows,
      (true, some rid),
    )

-- WHERE intent_hash = ? AND receipt_id = ?
abbrev pub held_by : String → String → LineageRow → Bool
held_by h rid r = r.intent_hash == h && r.receipt_id == rid

-- `release_lineage`: the new table, and whether one row was deleted
unfoldable pub release_lineage :
    (intent_hash receipt_id : String) → List LineageRow → List LineageRow × Bool
unfolding delete_where count_where
release_lineage h rid rows =
    (delete_where (held_by h rid) rows, count_where (held_by h rid) rows == 1)

abbrev pub lets_go : ReceiptState → Bool
lets_go superseded = true
lets_go revoked = true
lets_go _ = false

-- `set_lineage_state` at time `now`
unfoldable pub set_lineage_state :
    (intent_hash receipt_id : String) → ReceiptState → (now : ℕ) → List LineageRow → List LineageRow
unfolding release_lineage update_where
set_lineage_state h rid state now rows =
    if lets_go state
    then (release_lineage h rid rows).0
    else update_where (held_by h rid) (λ r. record r { state = state; updated_at = now }) rows
