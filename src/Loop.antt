-- ===== src/Loop.antt =====
-- The loop of implementation and review (src/agent_crew/loop.py, with the part of TaskResult in
-- src/agent_crew/protocol.py that it reads).
pub mod Verdicts
use agent_crew.Common.{
  ℕ, String, Bool, true, false, not, ◌&&◌, ◌||◌, if◌then◌else◌, Option, none, some, List, [], ◌∷◌,
  ◌==◌, nat_eq, string_eq, option_eq, leb, ltb, is_empty,
}

pub data Status : Type 0 where
  completed failed needs_human timed_out blocked : Status

pub record TaskResult : Type 0 where
  pub status : Status
  pub summary : String
  pub verdict : Option String
  pub findings : List String

-- What `_resolve_verdict` returns.
pub data Resolved : Type 0 where
  approve request_changes review_failed invalid_review_result : Resolved

abbrev pub suppressed_reason : String
suppressed_reason = "tokenomics_canary_suppressed_identical_sha_rereview"

abbrev pub is_completed : Status → Bool
is_completed completed = true
is_completed _ = false

abbrev is_blocked : Status → Bool
is_blocked blocked = true
is_blocked _ = false

abbrev pub reused_rejection : TaskResult → Bool
reused_rejection r = is_blocked r.status && r.summary == suppressed_reason

abbrev pub has_findings : TaskResult → Bool
has_findings r = elim r.findings [ [] ↦ false | ◌∷◌ _ _ ↦ true ]

-- `_resolve_verdict`
unfoldable pub resolve_verdict : TaskResult → Resolved
resolve_verdict r =
    if reused_rejection r
    then request_changes
    else if not (is_completed r.status)
    then review_failed
    else if r.verdict == some "approve"
    then if has_findings r then invalid_review_result else approve
    else if r.verdict == some "request_changes"
    then if has_findings r then request_changes else invalid_review_result
    else invalid_review_result

-- What the loop goes on with.
pub data Next : Type 0 where
  approved changes_requested escalate failed_review invalid_review : Next

-- What is called on the queue. Both may raise, and `enqueue_test` may adopt a test task on file.
pub data Effect : Type 0 where
  create_gate enqueue_test : Effect

-- the queue if there is one, and what a test task needs
pub record LoopContext : Type 0 where
  pub has_queue : Bool
  pub no_tester : Bool
  pub task_desc : String
  pub branch : String

abbrev wants_test : LoopContext → Bool
wants_test c =
    c.has_queue && (not c.no_tester && (not (is_empty c.task_desc) && not (is_empty c.branch)))

-- `handle_review_result`: what it returns when its call does not raise, and the call
unfoldable pub handle_review_result :
    TaskResult → (iteration max_iter : ℕ) → LoopContext → Next × List Effect
unfolding resolve_verdict
handle_review_result r iteration max_iter c = elim (resolve_verdict r) [
  | review_failed ↦ (failed_review, [])
  | invalid_review_result ↦ (invalid_review, [])
  | approve ↦ (approved, if wants_test c then enqueue_test ∷ [] else [])
  | request_changes ↦
      if leb max_iter iteration
      then (escalate, if c.has_queue then create_gate ∷ [] else [])
      else (changes_requested, [])
]
