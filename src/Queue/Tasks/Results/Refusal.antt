-- ===== src/Queue/Tasks/Results/Refusal.antt =====
-- Which results are refused before the receipt is asked (src/agent_crew/queue.py, submit_result up
-- to its call of the RESULT gate; src/agent_crew/protocol.py, validate_review_result).
use agent_crew.Common.{
  ℕ, String, Bool, true, false, not, ◌&&◌, ◌||◌, if◌then◌else◌, Option, none, some, List, [], ◌∷◌,
  ◌==◌, nat_eq, string_eq, option_eq, any, find_where, is_some, length, codes, strip, lower,
  is_prefix, ltb,
}
use agent_crew.Queue.Tasks.Row.{
  Task, Status, pending, in_progress, completed, failed, timed_out, cancelled, same_status, Db,
  ErrorInfo, ExecEvent, nonempty,
}

-- TaskResult; `json` is `_result_to_json` of it
pub record TaskResult : Type 0 where
  pub task_id : String
  pub status : Status
  pub summary : String
  pub verdict : Option String
  pub findings : List String
  pub pr_number : Option ℕ
  pub error_info : Option ErrorInfo
  pub json : String

-- the arguments of `submit_result`
pub record Submission : Type 0 where
  pub result : TaskResult
  pub nonce : Option String
  pub presenter : Option String
  pub consume_receipt : Bool
  pub expected_status : Option Status
  pub dispatcher_failed : Bool
  pub allow_review_replay : Bool
  pub validate_review : Bool
  pub adopted_fallback_task_id : Option String

-- the exceptions
pub data Refused : Type 0 where
  not_found intent_is_final duplicate_review completed_review : Refused
  late_result : (prior : Status) → (fallback : Option String) → Refused
  invalid_review unexpected_status admission_refused : Refused

abbrev pub is_late : Refused → Bool
is_late (late_result prior fallback) = true
is_late _ = false

-- the operation of the context is terminal SUCCESS
unfoldable pub intent_final : Task → Db → Bool
unfolding find_where
intent_final t db = elim (nonempty t.context.external_operation_id) [
  | none ↦ false
  | some op ↦ elim (find_where (λ w. w.external_operation_id == op) db.work_intents) [
    | none ↦ false
    | some w ↦ w.state == "SUCCESS"
  ]
]

abbrev is_end_of : String → ExecEvent → Bool
is_end_of task_id ev =
    ev.task_id == task_id
    && (ev.event == "force_failed" || (ev.event == "dispatcher_failed" || ev.event == "result"))

-- a failure that the queue or the dispatcher recorded
unfoldable pub system_failed : Task → Db → Bool
unfolding find_where
system_failed t db =
    same_status t.status failed && elim (find_where (is_end_of t.task_id) db.exec_events) [
      | none ↦ false
      | some ev ↦ ev.event == "force_failed" || ev.event == "dispatcher_failed"
    ]

-- task_id LIKE 'fallback-%' AND original_task_id = ?
abbrev is_fallback_of : String → Task → Bool
is_fallback_of task_id u =
    is_prefix (codes "fallback-") (lower (codes u.task_id))
    && u.context.original_task_id == some task_id

abbrev later : Task → Option Task → Task
later t none = t
later t (some u) = if ltb t.created_at u.created_at then u else t

-- ORDER BY created_at DESC LIMIT 1
unfoldable pub last_by : (Task → Bool) → List Task → Option Task
last_by p [] = none
last_by p (t ∷ ts) = let rest = last_by p ts in if p t then some (later t rest) else rest

-- the newest fallback of a failed implementation
unfoldable pub fallback_of : Task → Db → Option Task
unfolding last_by lower is_prefix
fallback_of t db =
    if t.task_type == "implement" && (same_status t.status failed || same_status t.status timed_out)
    then last_by (is_fallback_of t.task_id) db.tasks
    else none

abbrev pub adopts : Option String → Option Task → Bool
adopts adopted none = false
adopts adopted (some f) = adopted == some f.task_id && same_status f.status cancelled

abbrev pub id_if : Bool → Option Task → Option String
id_if b none = none
id_if b (some f) = if b then some f.task_id else none

-- the refusal of a late result, by who failed the task and by its newest fallback
abbrev pub late_of :
    Submission → Task → (by_system : Bool) → (fallback : Option Task) → Option Refused
late_of sub t by_system fallback =
    let adopted = adopts sub.adopted_fallback_task_id fallback in
    let ignored = is_some fallback && not adopted in
    let revision =
      same_status t.status completed && not (same_status sub.result.status completed) in
    let decided =
      same_status t.status cancelled
      || (same_status t.status timed_out || (by_system || revision)) in
    if decided && not adopted || ignored
    then some (late_result t.status (id_if ignored fallback))
    else none

-- the refusal of a late result
unfoldable pub late : Submission → Task → Db → Option Refused
unfolding system_failed fallback_of
late sub t db = late_of sub t (system_failed t db) (fallback_of t db)

abbrev is_verdict : Option String → Bool
is_verdict v = v == some "approve" || v == some "request_changes"

abbrev is_empty_list {ℓ} : {A : Type ℓ} → List A → Bool
is_empty_list [] = true
is_empty_list (_ ∷ _) = false

-- the verdict does not fit the findings
abbrev mismatched : TaskResult → Bool
mismatched res =
    not (is_verdict res.verdict)
    || ((res.verdict == some "approve" && not (is_empty_list res.findings))
        || (res.verdict == some "request_changes" && is_empty_list res.findings))

abbrev shorter : ℕ → String → Bool
shorter n s = ltb (length (strip (codes s))) n

-- `validate_review_result`: is there an error?
unfoldable pub invalid_review_result : (require_verdict : Bool) → TaskResult → Bool
unfolding strip
invalid_review_result required res =
    same_status res.status completed
    && ((required && mismatched res)
        || (is_verdict res.verdict && (shorter 40 res.summary || any (shorter 10) res.findings)))

-- a second result of a review that completed
unfoldable pub published :
    (same_json : String → String → Bool) → Submission → Task → Db → Option Refused
unfolding find_where
published same_json sub t db =
    if t.task_type == "review" && (same_status t.status completed && not sub.allow_review_replay)
    then elim (find_where (λ c. c.parent_task_id == t.task_id) db.outbox) [
      | none ↦ some Refused.completed_review
      | some c ↦
          if same_json c.result_json sub.result.json
          then some Refused.duplicate_review
          else some Refused.completed_review
    ]
    else none

abbrev or_else : Option Refused → Option Refused → Option Refused
or_else (some why) rest = some why
or_else none rest = rest

-- the checks in their order
unfoldable pub refusal :
    (same_json : String → String → Bool) → Submission → Task → Db → Option Refused
unfolding intent_final published late invalid_review_result
refusal same_json sub t db =
    or_else (if intent_final t db then some Refused.intent_is_final else none) (
      or_else (published same_json sub t db) (
        or_else (late sub t db) (
          or_else
            (if (t.task_type == "review" && sub.validate_review)
                && invalid_review_result
                    (same_status t.status pending || same_status t.status in_progress) sub.result
              then some Refused.invalid_review
              else none)
            (elim sub.expected_status [
              | none ↦ none
              | some s ↦ if same_status t.status s then none else some Refused.unexpected_status
            ]))))
