-- ===== src/Examples/Reviews.antt =====
-- A review and what the loop makes of it (src/agent_crew/loop.py).
use agent_crew.Common.{◌<◌, true, false, ◌≡◌, ◌≢◌, ◌↔◌, ◌⊎◌, refl, some, [], ◌∷◌}
use agent_crew.Loop.{
  completed, TaskResult, approved, LoopContext, resolve_verdict, handle_review_result,
  reused_rejection,
}
use agent_crew.Loop.Verdicts.{approved_iff, changes_within_bound}

abbrev clean : TaskResult
clean = record { status = completed; summary = "ok"; verdict = some "approve"; findings = [] }

abbrev wanting : TaskResult
wanting = record {
  status = completed;
  summary = "no";
  verdict = some "request_changes";
  findings = "missing test" ∷ [];
}

abbrev here : LoopContext
here = record { has_queue = true; no_tester = false; task_desc = "add a parser"; branch = "feat" }

approved_iff_example :
    ((handle_review_result clean 1 5 here).0 ≡ approved)
    ↔ ((clean.status ≡ completed) × (clean.verdict ≡ some "approve") × (clean.findings ≡ []))
approved_iff_example = approved_iff clean 1 5 here

changes_within_bound_example :
    (1 < 5)
    × ((reused_rejection wanting ≡ true)
        ⊎ (wanting.status ≡ completed)
          × (wanting.verdict ≡ some "request_changes")
          × (wanting.findings ≢ []))
unfolding handle_review_result resolve_verdict
changes_within_bound_example = changes_within_bound wanting 1 5 here refl
