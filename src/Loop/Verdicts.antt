-- ===== src/Loop/Verdicts.antt =====
-- A review is fail-closed: only an explicit verdict moves the loop (src/agent_crew/loop.py,
-- _resolve_verdict, handle_review_result).
use agent_crew.Common.{
  ℕ, ◌<◌, true, some, [], nat_eq, string_eq, option_eq, opt_beq_iff, ◌≡◌, ◌≢◌, ◌↔◌, ◌⊎◌, refl,
  arith,
}
use agent_crew.Loop.{
  completed, TaskResult, resolve_verdict, reused_rejection, approved, changes_requested,
  LoopContext, handle_review_result,
}

-- Unless its call of `enqueue_test` raises, the loop takes a review for an approval exactly when the
-- review completed, says approve and has no findings, at whatever iteration.
pub approved_iff :
    (r : TaskResult) (iteration max_iter : ℕ) (c : LoopContext)
    → ((handle_review_result r iteration max_iter c).0 ≡ approved)
      ↔ ((r.status ≡ completed) × (r.verdict ≡ some "approve") × (r.findings ≡ []))
unfolding handle_review_result resolve_verdict
approved_iff r iteration max_iter c =
    (λ h. ground (arith, opt_beq_iff r.verdict (some "approve")), λ (s, v, f). rw (s, v, f) refl)

-- A round of changes is asked for only before the bound on iterations, and only on a completed review
-- that requests changes and has findings, or on the reuse of an earlier rejection.
pub changes_within_bound :
    (r : TaskResult) (iteration max_iter : ℕ) (c : LoopContext)
    → (handle_review_result r iteration max_iter c).0 ≡ changes_requested
    → (iteration < max_iter)
      × ((reused_rejection r ≡ true)
          ⊎ (r.status ≡ completed) × (r.verdict ≡ some "request_changes") × (r.findings ≢ []))
unfolding handle_review_result resolve_verdict
changes_within_bound r iteration max_iter c h =
    ground (arith, opt_beq_iff r.verdict (some "request_changes"))
