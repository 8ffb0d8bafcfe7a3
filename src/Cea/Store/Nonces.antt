-- ===== src/Cea/Store/Nonces.antt =====
-- The claim table dispatch_nonces (src/agent_crew/cea/store.py): a nonce is bound to an attempt of
-- a receipt and is spent by one conditional UPDATE.
use agent_crew.Common.{
  ℕ, String, Bool, false, not, ◌&&◌, ◌||◌, if◌then◌else◌, Option, none, some, List, ◌∷◌, ◌==◌,
  nat_eq, string_eq, is_some, is_empty, find_where, count_where, update_where,
}
use text.Mathlib.Text.{starts_with}
use Prim.Native.String.{◌++◌}

pub record NonceRow : Type 0 where
  pub nonce : String
  pub receipt_id : String
  pub attempt : ℕ
  pub issued_at : String
  pub used_at : Option String
  pub used_by : Option String

abbrev pub clashes : String → String → ℕ → NonceRow → Bool
clashes nonce rid attempt r = r.nonce == nonce || (r.receipt_id == rid && r.attempt == attempt)

-- `mint_nonce`; `none` is the database's refusal (PRIMARY KEY nonce, UNIQUE (receipt_id, attempt))
unfoldable pub mint_nonce :
    (receipt_id : String) (attempt : ℕ) (nonce issued_at : String)
    → List NonceRow
    → Option (List NonceRow)
unfolding count_where
mint_nonce rid attempt nonce issued_at rows =
    if count_where (clashes nonce rid attempt) rows == 0
    then some (
        record {
          nonce = nonce;
          receipt_id = rid;
          attempt = attempt;
          issued_at = issued_at;
          used_at = none;
          used_by = none;
        }
        ∷ rows)
    else none

abbrev pub is_unspent : NonceRow → Bool
is_unspent r = not (is_some r.used_at)

-- WHERE nonce = ? AND used_at IS NULL
abbrev pub spendable : String → NonceRow → Bool
spendable nonce r = r.nonce == nonce && is_unspent r

abbrev pub spend : (used_at : String) (used_by : Option String) → NonceRow → NonceRow
spend used_at used_by r = record r { used_at = some used_at; used_by = used_by }

-- `consume_nonce`: the new table, and whether exactly one row was changed
unfoldable pub consume_nonce :
    (nonce : String) (used_by : Option String) (used_at : String)
    → List NonceRow
    → List NonceRow × Bool
unfolding count_where update_where
consume_nonce nonce used_by used_at rows = (
  update_where (spendable nonce) (spend used_at used_by) rows,
  count_where (spendable nonce) rows == 1,
)

-- WHERE receipt_id = ? AND used_at IS NULL
abbrev pub outstanding : String → NonceRow → Bool
outstanding rid r = r.receipt_id == rid && is_unspent r

-- `revoke_nonces_for_receipt`: the new table, and how many rows were changed
unfoldable pub revoke_nonces_for_receipt :
    (receipt_id : String) (used_by used_at : String) → List NonceRow → List NonceRow × ℕ
unfolding count_where update_where
revoke_nonces_for_receipt rid used_by used_at rows = (
  update_where (outstanding rid) (spend used_at (some used_by)) rows,
  count_where (outstanding rid) rows,
)

-- `nonce_row`
unfoldable pub nonce_row : String → List NonceRow → Option NonceRow
unfolding find_where
nonce_row nonce rows = find_where (λ r. r.nonce == nonce) rows

abbrev text_or : Option String → String
text_or none = ""
text_or (some s) = s

-- `consumer_tag`
unfoldable pub consumer_tag : (consumer : String) (who : Option String) → String
consumer_tag consumer who = consumer ++ ":" ++ text_or who

-- `consumed_by_execute_start`
unfoldable pub consumed_by_execute_start : Option NonceRow → Bool
consumed_by_execute_start none = false
consumed_by_execute_start (some r) =
    if is_empty (text_or r.used_at) then false else starts_with (text_or r.used_by) "execute_start:"

abbrev pub cancelled_attempt : String
cancelled_attempt = "cancelled_attempt"
