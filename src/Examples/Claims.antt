-- ===== src/Examples/Claims.antt =====
-- The claim tables of nonces and lineages on concrete inputs (src/agent_crew/cea/store.py).
use agent_crew.Common.{◌≤◌, false, ◌≡◌, refl, none, some, List, [], ◌∷◌, count_where, find_where}
use agent_crew.Cea.Types.{issued, queued}
use agent_crew.Cea.Store.Nonces.{
  NonceRow, nonce_row, outstanding, revoke_nonces_for_receipt, cancelled_attempt,
  consumed_by_execute_start,
}
use agent_crew.Cea.Store.Spending.{
  NonceOp, consume, revoke, times_spent, times_spent-le-one, revoke_closes,
}
use agent_crew.Cea.Store.Lineages.{claim_lineage, lineage_for_intent}
use agent_crew.Cea.Store.Holding.{
  LineageOp, move, release, run, gives_up, never_gives_up, claim_excludes,
}

abbrev minted : NonceRow
minted = record {
  nonce = "n-1";
  receipt_id = "r-1";
  attempt = 1;
  issued_at = "t0";
  used_at = none;
  used_by = none;
}

abbrev racing : List NonceOp
racing =
    consume "n-1" (some "execute_start:w1") "t1"
    ∷ consume "n-1" (some "execute_start:w2") "t1"
    ∷ revoke "r-1" cancelled_attempt "t2"
    ∷ []

times_spent-le-one_example : times_spent "n-1" racing (minted ∷ []) ≤ 1
times_spent-le-one_example = times_spent-le-one "n-1" racing (minted ∷ [])

revoke_closes_example :
    (count_where
        (outstanding "r-1")
        (revoke_nonces_for_receipt "r-1" cancelled_attempt "t2" (minted ∷ [])).0
      ≡ 0)
    × (consumed_by_execute_start
          (nonce_row "n-1" (revoke_nonces_for_receipt "r-1" cancelled_attempt "t2" (minted ∷ [])).0)
        ≡ false)
unfolding nonce_row find_where
revoke_closes_example = revoke_closes "r-1" "n-1" "t2" (minted ∷ []) minted refl refl refl

abbrev others : List LineageOp
others = move "h" "r-1" queued 2 ∷ release "h" "r-9" ∷ []

claim_excludes_example :
    let after = run others (claim_lineage "h" "r-1" "crew" issued none 1 []).0 in
    claim_lineage "h" "r-2" "crew" issued none 3 after ≡ (after, (false, some "r-1"))
unfolding claim_lineage lineage_for_intent find_where never_gives_up gives_up
claim_excludes_example =
    claim_excludes "h" "r-1" "crew" issued none 1 [] others "r-2" "crew" issued none 3 refl refl
