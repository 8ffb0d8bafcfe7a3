-- ===== src/Cea/Store/Spending.antt =====
-- A nonce is spent at most once, whatever is done to the table
-- (src/agent_crew/cea/store.py, mint_nonce, consume_nonce, revoke_nonces_for_receipt).
use agent_crew.Common.{
  ℕ, ◌+◌, ◌≤◌, String, Bool, true, false, ◌≡◌, ◌≢◌, refl, ap, inl, inr, Option, none, some, List,
  [], ◌∷◌, ◌==◌, nat_eq, string_eq, arith, if◌then◌else◌, Bool-cases, count_where, update_where,
  set_where, count-update_none, find-update_same, count-update_same, count-update_le, count_mono,
  eq_of_beq,
}
use text.Mathlib.TextEquality.{eq_iff}
use agent_crew.Cea.Store.Nonces.{
  NonceRow, mint_nonce, is_unspent, spendable, spend, consume_nonce, outstanding,
  revoke_nonces_for_receipt, nonce_row, consumed_by_execute_start, cancelled_attempt, clashes,
}

-- The statements that touch the table.
pub data NonceOp : Type 0 where
  mint : (receipt_id : String) (attempt : ℕ) (nonce issued_at : String) → NonceOp
  consume : (nonce : String) (used_by : Option String) (used_at : String) → NonceOp
  revoke : (receipt_id used_by used_at : String) → NonceOp

abbrev minted_or : Option (List NonceRow) → List NonceRow → List NonceRow
minted_or none rows = rows
minted_or (some rows') rows = rows'

-- One statement; a refused mint leaves the table alone.
unfoldable pub apply : NonceOp → List NonceRow → List NonceRow
apply (mint rid attempt nonce issued_at) rows =
    minted_or (mint_nonce rid attempt nonce issued_at rows) rows
apply (consume nonce used_by used_at) rows = (consume_nonce nonce used_by used_at rows).0
apply (revoke rid used_by used_at) rows = (revoke_nonces_for_receipt rid used_by used_at rows).0

-- Did this statement spend the nonce for its caller?
unfoldable pub spends : String → NonceOp → List NonceRow → Bool
spends n (consume nonce used_by used_at) rows =
    if nonce == n then (consume_nonce nonce used_by used_at rows).1 else false
spends n _ rows = false

-- How often a schedule of statements spends the nonce.
unfoldable pub times_spent : String → List NonceOp → List NonceRow → ℕ
times_spent n [] rows = 0
times_spent n (op ∷ ops) rows =
    (if spends n op rows then 1 else 0) + times_spent n ops (apply op rows)

-- No row of the nonce is unspent, and there is a row.
abbrev Spent : String → List NonceRow → Type 0
Spent n rows = (count_where (spendable n) rows ≡ 0) × (count_where (λ r. r.nonce == n) rows ≢ 0)

mint-Spent :
    (n rid : String) (attempt : ℕ) (nonce issued_at : String) (rows : List NonceRow)
    → Spent n rows
    → Spent n (minted_or (mint_nonce rid attempt nonce issued_at rows) rows)
unfolding mint_nonce
mint-Spent n rid attempt nonce issued_at rows h = ground (
  arith,
  eq_iff nonce n,
  count_mono (λ r. r.nonce == n) (clashes n rid attempt) rows (λ r e. ground arith),
)

update-Spent :
    (n : String) (p : NonceRow → Bool) (used_at : String) (used_by : Option String)
    (rows : List NonceRow)
    → Spent n rows
    → Spent n (update_where p (spend used_at used_by) rows)
update-Spent n p used_at used_by rows h =
    let kept =
      count-update_same (λ r. r.nonce == n) p (spend used_at used_by) rows (λ r. ground arith) in
    let fewer =
      count-update_le (spendable n) p (spend used_at used_by) rows (λ r e. ground arith) in
    (omega arith, rw kept h.1)

apply-Spent :
    (n : String) (op : NonceOp) (rows : List NonceRow) → Spent n rows → Spent n (apply op rows)
unfolding apply consume_nonce revoke_nonces_for_receipt
apply-Spent n (mint rid attempt nonce issued_at) rows h =
    mint-Spent n rid attempt nonce issued_at rows h
apply-Spent n (consume nonce used_by used_at) rows h =
    update-Spent n (spendable nonce) used_at used_by rows h
apply-Spent n (revoke rid used_by used_at) rows h =
    update-Spent n (outstanding rid) used_at (some used_by) rows h

no_second_spending :
    (n : String) (op : NonceOp) (rows : List NonceRow) → Spent n rows → spends n op rows ≡ false
unfolding spends consume_nonce
no_second_spending n (consume nonce used_by used_at) rows h = elim (Bool-cases (nonce == n)) [
  | inl mine ↦
      let same = eq_of_beq nonce n mine in
      ground (arith, ap (λ k. count_where (spendable k) rows) same)
  | inr other ↦ ground arith
]
no_second_spending n _ rows h = refl

spends-Spent :
    (n : String) (op : NonceOp) (rows : List NonceRow)
    → spends n op rows ≡ true
    → Spent n (apply op rows)
unfolding apply spends consume_nonce
spends-Spent n (consume nonce used_by used_at) rows h =
    let mine : (nonce == n) ≡ true = ground arith in
    let once : (count_where (spendable nonce) rows == 1) ≡ true = ground arith in
    rw (eq_of_beq nonce n mine) (spent_now (rw (eq_of_beq nonce n mine) at once))
  where
    spent_now :
        (count_where (spendable n) rows == 1) ≡ true
        → Spent n (update_where (spendable n) (spend used_at used_by) rows)
    spent_now once =
        let gone =
          count-update_none (spendable n) (spendable n) (spend used_at used_by) rows
            (λ r. ground arith) in
        let kept =
          count-update_same (λ r. r.nonce == n) (spendable n) (spend used_at used_by) rows
            (λ r. ground arith) in
        let more = count_mono (spendable n) (λ r. r.nonce == n) rows (λ r e. ground arith) in
        (gone, rw kept (ground arith))
spends-Spent n (mint rid attempt nonce issued_at) rows h = cc
spends-Spent n (revoke rid used_by used_at) rows h = cc

never_again :
    (n : String) (ops : List NonceOp) (rows : List NonceRow)
    → Spent n rows
    → times_spent n ops rows ≡ 0
unfolding times_spent
never_again n [] rows h = refl
never_again n (op ∷ ops) rows h =
    rw (no_second_spending n op rows h)
      (omega (arith, never_again n ops (apply op rows) (apply-Spent n op rows h)))

-- Whatever the table holds and however mints, consumptions and revocations are interleaved, at most
-- one consumption of a nonce succeeds.
pub times_spent-le-one :
    (n : String) (ops : List NonceOp) (rows : List NonceRow) → times_spent n ops rows ≤ 1
unfolding times_spent
times_spent-le-one n [] rows = omega arith
times_spent-le-one n (op ∷ ops) rows = elim (Bool-cases (spends n op rows)) [
  | inl now ↦ rw now (omega (arith, never_again n ops (apply op rows) (spends-Spent n op rows now)))
  | inr not_yet ↦ rw not_yet (omega (arith, times_spent-le-one n ops (apply op rows)))
]

-- A revocation leaves no unspent nonce of the receipt, and a nonce that it spent is never taken for
-- one that EXECUTE_START spent.
pub revoke_closes :
    (rid n used_at : String) (rows : List NonceRow) (r : NonceRow)
    → nonce_row n rows ≡ some r
    → r.receipt_id ≡ rid
    → is_unspent r ≡ true
    → let after = (revoke_nonces_for_receipt rid cancelled_attempt used_at rows).0 in
      (count_where (outstanding rid) after ≡ 0)
      × (consumed_by_execute_start (nonce_row n after) ≡ false)
unfolding revoke_nonces_for_receipt nonce_row consumed_by_execute_start
revoke_closes rid n used_at rows r found mine unspent =
    let f = spend used_at (some cancelled_attempt) in
    (
      count-update_none (outstanding rid) (outstanding rid) f rows (λ x. ground arith),
      rw (find-update_same (λ x. x.nonce == n) (outstanding rid) f rows (λ x. ground arith))
          (rw found (closed r mine unspent)),
    )
  where
    closed :
        (x : NonceRow)
        → x.receipt_id ≡ rid
        → is_unspent x ≡ true
        → consumed_by_execute_start
            (some (set_where (outstanding rid) (spend used_at (some cancelled_attempt)) x))
          ≡ false
    closed x e u =
        let hit : outstanding rid x ≡ true = ground (arith, eq_iff x.receipt_id rid) in
        rw (hit, if◌then◌else◌)
          (elim (Bool-cases (used_at == "")) [ inl empty ↦ rw empty | inr time ↦ rw time ])
