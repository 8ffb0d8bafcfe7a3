-- ===== src/Examples/Leases.antt =====
-- The claims on notices and continuations on concrete inputs (src/agent_crew/queue.py).
use agent_crew.Common.{
  ◌↔◌, ◌≤◌, true, false, ◌≡◌, refl, none, some, List, [], ◌∷◌, count_where, update_where,
  find_where, arith,
}
use text.Mathlib.TextEquality.{eq_iff}
use agent_crew.Queue.Announcements.{
  Announcement, claim_pr_announcement, owns_pr_announcement, mark_pr_announcement_posted,
  release_pr_announcement,
}
use agent_crew.Queue.Announcements.Posting.{
  NoticeOp, claim, mark, release, times_posted, times_posted-le-one,
}
use agent_crew.Queue.Announcements.Fencing.{takeover_fences}
use agent_crew.Queue.Outbox.{
  Continuation, pending, outbox_claim, outbox_mark_applied, outbox_finish_claim, to_pending,
}
use agent_crew.Queue.Outbox.Lease.{
  OutboxOp, take, apply_result, reopen, execute_all, all_respect, respects, lease_excludes,
}
use agent_crew.Cea.Types.{active}
use agent_crew.Queue.Runtime.Moves.{disarmed}
use agent_crew.Queue.Runtime.Loosening.{state}
use agent_crew.Queue.External.{Tables, external_op_reserve}
use agent_crew.Queue.External.Reservation.{
  ExternalStep, reserve, mark as mark_op, reset, is_admitted, times_reserved, admitted_iff,
  times_reserved-le-one,
}

abbrev slow : Announcement
slow = record {
  pr_number = 7;
  kind = "merge";
  claimed_at = 10;
  claimed_by = "a";
  claim_token = "ta";
  posted_at = none;
}

abbrev two_workers : List NoticeOp
two_workers =
    claim 7 "merge" "b" "tb" 300 400
    ∷ mark 7 "merge" "ta" 401
    ∷ mark 7 "merge" "tb" 402
    ∷ release 7 "merge" "tb"
    ∷ mark 7 "merge" "tb" 403
    ∷ []

times_posted-le-one_example : times_posted 7 "merge" two_workers (slow ∷ []) ≤ 1
unfolding count_where
times_posted-le-one_example = times_posted-le-one 7 "merge" two_workers (slow ∷ []) (omega arith)

takeover_fences_example :
    let after = (claim_pr_announcement 7 "merge" "b" "tb" 300 400 (slow ∷ [])).0 in
    (owns_pr_announcement 7 "merge" "ta" after ≡ false)
    × (mark_pr_announcement_posted 7 "merge" "ta" 401 after ≡ (after, false))
    × (release_pr_announcement 7 "merge" "ta" after ≡ (after, false))
unfolding claim_pr_announcement find_where
takeover_fences_example =
    takeover_fences 7 "merge" "b" "tb" "ta" 300 400 401 (slow ∷ []) refl
      (λ e. let h = (eq_iff "ta" "tb").1 e in cc)

abbrev owed : Continuation
owed = record {
  parent_task_id = "t-1";
  task_type = "review";
  result_json = "{}";
  stop_epoch = 0;
  stage = pending;
  attempt_id = none;
  lease_owner = none;
  lease_expires_at = none;
  created_at = 1;
  updated_at = 1;
}

abbrev busy : List OutboxOp
busy = take "t-1" "w2" "a2" 300 150 ∷ apply_result "t-1" "w2" 160 ∷ reopen "t-9" 170 ∷ []

lease_excludes_example :
    let after = execute_all busy (outbox_claim "t-1" "w1" "a1" 300 100 (owed ∷ [])).0 in
    (outbox_claim "t-1" "w3" "a3" 300 399 after ≡ (after, none))
    × (outbox_mark_applied "t-1" "w3" 399 after ≡ (after, false))
    × (outbox_finish_claim "t-1" "w3" to_pending 399 after ≡ (after, false))
unfolding count_where outbox_claim update_where find_where all_respect respects
lease_excludes_example =
    lease_excludes "t-1" "w1" "a1" 300 100 (owed ∷ []) busy "w3" "a3" 300 399 to_pending
      (omega arith) (λ e. ground arith) refl (omega arith)
      (λ e. let h = (eq_iff "w3" "w1").1 e in cc)

abbrev quiet : Tables
quiet = record { runtime = record { row = none; events = [] }; ops = [] }

abbrev merging : List ExternalStep
merging =
    reserve "merge:pr:7" (some 7) disarmed 10
    ∷ mark_op "merge:pr:7" "failed" none true 11
    ∷ reset "merge:pr:7" "abc"
    ∷ reserve "merge:pr:7" (some 7) disarmed 12
    ∷ []

admitted_iff_example :
    (is_admitted (external_op_reserve "merge:pr:7" (some 7) disarmed 10 quiet).1 ≡ true)
    ↔ ((disarmed ≡ disarmed) × (state quiet.runtime ≡ active))
admitted_iff_example = admitted_iff "merge:pr:7" (some 7) disarmed 10 quiet

times_reserved-le-one_example : times_reserved "merge:pr:7" merging quiet ≤ 1
times_reserved-le-one_example = times_reserved-le-one "merge:pr:7" merging quiet
