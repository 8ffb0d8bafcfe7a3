-- ===== src/Queue/Tasks/Dequeue.antt =====
-- Which pending task an agent takes (src/agent_crew/queue.py, dequeue, dequeue_discuss_for_agent;
-- src/agent_crew/role_mapping.py, provider_family). A list of tasks stands in the order of
-- insertion, which decides between rows of equal priority and age.
pub mod Selection
use agent_crew.Common.{
  ℕ, String, Bool, true, false, not, if◌then◌else◌, Option, none, some, List, is_empty,
}
use agent_crew.Cea.Matrix.{claim}
use agent_crew.Queue.Runtime.Moves.{Signal, stop_active}
use agent_crew.Queue.Tasks.Row.{Task, Db, nonempty}
use agent_crew.Queue.Tasks.Engine.{Engine}
use agent_crew.Queue.Tasks.Claim.{claim_through_gate}
use agent_crew.Queue.Tasks.Dequeue.Selection.{
  Request, Choice, unknown_role, chosen, choose, choose_discuss,
}

-- What a dequeue answers; an unknown role raises ValueError.
pub data Reply : Type 0 where
  nothing bad_role : Reply
  took : Task → Reply

abbrev pub or_back : (before : Db) → Task → (claimed : Option Db) → Db × Reply
or_back before t none = (before, nothing)
or_back before t (some db) = (db, took t)

-- claim the chosen row, or roll back to `before`
unfoldable pub take_chosen :
    Engine → (agent role via : String) → ℕ → Choice → (before db : Db) → Db × Reply
unfolding claim_through_gate
take_chosen e agent role via now unknown_role before db = (before, bad_role)
take_chosen e agent role via now (chosen none) before db = (before, nothing)
take_chosen e agent role via now (chosen (some t)) before db =
    or_back before t (claim_through_gate e t.task_id agent role via now db)

-- the gate at CLAIM, asked before the transaction and again in it; `first` and `second` are what
-- pause.json says then
unfoldable pub gated : (first second : Signal) → ℕ → (Db → Db → Db × Reply) → Db → Db × Reply
unfolding stop_active
gated first second now body db =
    let (rt0, shut0) = stop_active claim first now db.runtime in
    let before = record db { runtime = rt0 } in
    let (rt1, shut1) = stop_active claim second now rt0 in
    if shut0
    then (before, nothing)
    else if shut1
    then (before, nothing)
    else body before (record db { runtime = rt1 })

-- `claim_source or claimed_via`
abbrev pub or_via : String → String → String
or_via source via = if is_empty source then via else source

-- the transaction of `dequeue` past its gate
abbrev pub dequeue_body :
    Engine → (holds : String → String → Bool) → Request → ℕ → (before db : Db) → Db × Reply
dequeue_body e holds req now before db =
    take_chosen e req.agent req.role (or_via req.claim_source req.claimed_via) now
      (choose holds req now db.tasks) before db

-- `dequeue`; `holds` is `_holds_task_type`, which reads the role map of state.json
unfoldable pub dequeue :
    Engine
    → (holds : String → String → Bool) → Request
    → (first second : Signal) → ℕ
    → Db
    → Db × Reply
unfolding gated take_chosen choose
dequeue e holds req first second now db = gated first second now (dequeue_body e holds req now) db

-- the transaction of `dequeue_discuss_for_agent` past its gate
abbrev pub discuss_body :
    Engine → (agent via : String) → (skip_deferred : Bool) → ℕ → (before db : Db) → Db × Reply
discuss_body e agent via skip_deferred now before db =
    take_chosen e agent "discuss" via now (chosen (choose_discuss agent skip_deferred now db.tasks))
      before db

-- `dequeue_discuss_for_agent`
unfoldable pub dequeue_discuss_for_agent :
    Engine
    → (agent claimed_via claim_source : String) → (skip_deferred : Bool) → (first second : Signal)
    → ℕ
    → Db
    → Db × Reply
unfolding gated take_chosen choose_discuss
dequeue_discuss_for_agent e agent claimed_via claim_source skip_deferred first second now db =
    gated first second now
      (discuss_body e agent (or_via claim_source claimed_via) skip_deferred now) db
