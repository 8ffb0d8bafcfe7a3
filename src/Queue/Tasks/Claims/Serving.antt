-- ===== src/Queue/Tasks/Claims/Serving.antt =====
-- With CEA off, a pull that finds a waiting task gets one (src/agent_crew/queue.py, dequeue).
use agent_crew.Common.{
  ℕ, String, Bool, true, false, ◌≡◌, refl, sym, ap, ◌∙◌, Option, none, some, List, [], ◌∷◌, inl,
  inr, Bool-cases, arith, is_empty, any,
}
use mathlib.Core.Option.{some_inj}
use agent_crew.Cea.Types.{Receipt, active}
use agent_crew.Cea.Matrix.{claim}
use agent_crew.Cea.CallSites.{
  Mode, off, Config, GateOutcome, enforcing, recording, gate_off, stops_work,
}
use agent_crew.Queue.Runtime.Moves.{disarmed, stop_active, reconcile_pause_signal}
use agent_crew.Queue.Runtime.Loosening.{state}
use agent_crew.Queue.Runtime.Gates.{gate_open_iff}
use agent_crew.Queue.Tasks.Row.{Task, Db}
use agent_crew.Queue.Tasks.Engine.{
  Engine, receipt_for_task, config_for_receipt, claim_gate_of, cea_claim_gate,
}
use agent_crew.Queue.Tasks.Claim.{
  claim_config, check_signed, after_gate, gate_checked, grant_of, claim_through_gate,
}
use agent_crew.Queue.Tasks.Dequeue.{
  Reply, took, or_back, take_chosen, gated, dequeue_body, dequeue, or_via,
}
use agent_crew.Queue.Tasks.Dequeue.Selection.{
  Request, chosen, choose, choose_by_role, open_to, first_by, sooner,
}
use agent_crew.Queue.Tasks.Claims.Taking.{}

-- the rollout mode is off for every project
abbrev pub Off : Engine → Type 0
Off e = (project : Option String) → (e.config project).mode ≡ off

pub first_by-any :
    (p : Task → Bool) (ts : List Task) → any p ts ≡ true → (t : Task) × (first_by p ts ≡ some t)
unfolding first_by
first_by-any p [] h = absurd (ground arith)
first_by-any p (u ∷ us) h = elim (Bool-cases (p u)) [
  | inl y ↦ (sooner u (first_by p us), rw y refl)
  | inr n ↦ let (t, found) = first_by-any p us (ground arith) in (t, rw n found)
]

recording-off : (c : Config) → c.mode ≡ off → recording c ≡ false
unfolding recording
recording-off c m = ap stops_work m

module _ (e : Engine) (no_mode : Off e) where
  claim_config-off :
      (row : Option Task) (signed : Option Receipt) → (claim_config e row signed).mode ≡ off
  unfolding claim_config config_for_receipt
  claim_config-off none none = no_mode _
  claim_config-off (some t) none = no_mode _
  claim_config-off none (some r) = no_mode _
  claim_config-off (some t) (some r) = no_mode _

  claim_gate_of-proceed :
      (now : ℕ) (agent role : String) (found : Option Receipt) (g : GateOutcome)
      → claim_gate_of e now agent role found ≡ some g
      → g.proceed ≡ true
  unfolding claim_gate_of recording config_for_receipt gate_off
  claim_gate_of-proceed now agent role none g h = absurd (ground arith)
  claim_gate_of-proceed now agent role (some r) g h =
      let m = recording-off (config_for_receipt e (some r)) (no_mode _) in
      let w : claim_gate_of e now agent role (some r) ≡ some (gate_off claim r) = rw m refl in
      sym (ap (λ x. x.proceed) (some_inj.0 (sym w ∙ h)))

  after_gate-serves :
      (i agent role via : String) (now : ℕ) (gate : Option GateOutcome) (db : Db)
      → ((g : GateOutcome) → gate ≡ some g → g.proceed ≡ true)
      → (db' : Db) × (after_gate e i agent role via now gate db ≡ some db')
  unfolding after_gate enforcing
  after_gate-serves i agent role via now none db p = rw (no_mode none) (_, refl)
  after_gate-serves i agent role via now (some g) db p = rw (p g refl) (_, refl)

  gate_checked-serves :
      (i agent role via : String) (now : ℕ) (m : Mode) (grant : Option String) (db : Db)
      → m ≡ off
      → (db' : Db) × (gate_checked e i agent role via now (check_signed m grant i now db)
          ≡ some db')
  unfolding gate_checked check_signed cea_claim_gate
  gate_checked-serves i agent role via now Mode.off grant db o =
      after_gate-serves i agent role via now (cea_claim_gate e now i agent role db) db
        (claim_gate_of-proceed now agent role (receipt_for_task i db).1)
  gate_checked-serves i agent role via now Mode.enforce grant db o = absurd (ground arith)
  gate_checked-serves i agent role via now Mode.test grant db o = absurd (ground arith)

  claim_through_gate-serves :
      (i agent role via : String) (now : ℕ) (db : Db)
      → (db' : Db) × (claim_through_gate e i agent role via now db ≡ some db')
  unfolding claim_through_gate grant_of
  claim_through_gate-serves i agent role via now db =
      let (mode, grant) = grant_of e i db in
      gate_checked-serves i agent role via now mode grant db (claim_config-off _ _)

  take_chosen-serves :
      (agent role via : String) (now : ℕ) (t : Task) (before db : Db)
      → (take_chosen e agent role via now (chosen (some t)) before db).1 ≡ took t
  unfolding take_chosen
  take_chosen-serves agent role via now t before db =
      let (db', won) = claim_through_gate-serves t.task_id agent role via now db in
      ap (λ o. (or_back before t o).1) won

  -- an open gate lets the transaction run on the same tables
  gated-serves :
      (now : ℕ) (body : Db → Db → Db × Reply) (db : Db)
      → state db.runtime ≡ active
      → gated disarmed disarmed now body db ≡ body db db
  unfolding gated stop_active reconcile_pause_signal
  gated-serves now body db a =
      let shut : (stop_active claim disarmed now db.runtime).1 ≡ false =
        (gate_open_iff claim disarmed now db.runtime (inr refl)).1 (refl, a) in
      rw shut refl

  plain_choice :
      (holds : String → String → Bool) (req : Request) (now : ℕ) (ts : List Task) (t : Task)
      → req.agent ≡ ""
      → req.role ≡ ""
      → first_by (open_to req now) ts ≡ some t
      → choose holds req now ts ≡ chosen (some t)
  unfolding choose choose_by_role
  plain_choice holds req now ts t a r first =
      let no_agent = ap is_empty a in
      let no_role = ap is_empty r in rw (no_agent, no_role) (ap chosen first)

  -- With CEA off for every project, the runtime ACTIVE and pause.json disarmed, a pull without agent
  -- and role takes a task whenever some task is pending, not skipped and not deferred.
  pub dequeue_serves :
      (holds : String → String → Bool) (req : Request) (now : ℕ) (db : Db)
      → req.agent ≡ ""
      → req.role ≡ ""
      → state db.runtime ≡ active
      → any (open_to req now) db.tasks ≡ true
      → (t : Task) × ((dequeue e holds req disarmed disarmed now db).1 ≡ took t)
  unfolding dequeue
  dequeue_serves holds req now db a r run waits =
      let (t, first) = first_by-any (open_to req now) db.tasks waits in
      let picked = plain_choice holds req now db.tasks t a r first in
      let via = or_via req.claim_source req.claimed_via in
      (
        t,
        ap (λ x. x.1) (gated-serves now (dequeue_body e holds req now) db run)
            ∙ (ap (λ c. (take_chosen e req.agent req.role via now c db db).1) picked
                ∙ take_chosen-serves req.agent req.role via now t db db),
      )
