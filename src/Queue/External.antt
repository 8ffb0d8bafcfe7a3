-- ===== src/Queue/External.antt =====
-- Reservations of remote mutations (src/agent_crew/queue.py, external_op): a reservation is taken in
-- the transaction that reads the stop row. A failed transaction is left out.
pub mod Reservation
use agent_crew.Common.{
  ℕ, suc, ◌+◌, String, Bool, true, false, not, ◌&&◌, ◌||◌, if◌then◌else◌, Option, none, some, List,
  [], ◌∷◌, ◌==◌, nat_eq, string_eq, is_some, is_empty, find_where, count_where, update_where,
}
use Prim.Native.String.{◌++◌}
use text.Mathlib.Text.{starts_with}
use agent_crew.Cea.Types.{RuntimeState, active, same_state}
use agent_crew.Queue.Runtime.Row.{Runtime, read_stop_row}
use agent_crew.Queue.Runtime.Moves.{Signal, reconcile_pause_signal}

-- A row of external_op; `phase` is its column `state`, whose values the callers choose.
pub record ExternalOp : Type 0 where
  pub op_key : String
  pub phase : String
  pub pr_number : Option ℕ
  pub attempt : ℕ
  pub admitted_epoch : ℕ
  pub reserved_at : ℕ
  pub done_at : Option ℕ
  pub last_error : Option String

abbrev pub has_key : String → ExternalOp → Bool
has_key key r = r.op_key == key

-- What a reservation answers: the row, and whether it is new.
pub data Admission : Type 0 where
  stop_blocked : (epoch : ℕ) → Admission
  admitted : (row : Option ExternalOp) (reserved : Bool) → Admission

-- The two tables that the transaction works on.
pub record Tables : Type 0 where
  pub runtime : Runtime
  pub ops : List ExternalOp

-- INSERT OR IGNORE
unfoldable pub insert_op : ExternalOp → List ExternalOp → List ExternalOp × Bool
unfolding count_where
insert_op r rows =
    if count_where (has_key r.op_key) rows == 0 then (r ∷ rows, true) else (rows, false)

abbrev fresh_op : String → Option ℕ → ℕ → ℕ → ExternalOp
fresh_op key pr epoch now = record {
  op_key = key;
  phase = "reserved";
  pr_number = pr;
  attempt = 0;
  admitted_epoch = epoch;
  reserved_at = now;
  done_at = none;
  last_error = none;
}

-- `external_op_reserve`; a refusal rolls back what the pause signal wrote, too
unfoldable pub external_op_reserve :
    (op_key : String) (pr_number : Option ℕ) (signal : Signal) (now : ℕ)
    → Tables
    → Tables × Admission
unfolding reconcile_pause_signal read_stop_row insert_op find_where
external_op_reserve key pr signal now t =
    let (rt, state) = reconcile_pause_signal signal now t.runtime in
    let stop = read_stop_row rt in
    if not (same_state state active)
    then (t, stop_blocked stop.epoch)
    else let (ops, newly) = insert_op (fresh_op key pr stop.epoch now) t.ops in
      (record { runtime = rt; ops = ops }, admitted (find_where (has_key key) ops) newly)

abbrev done_time : String → ℕ → Option ℕ
done_time phase now = if phase == "done" then some now else none

-- `external_op_mark`
unfoldable pub external_op_mark :
    (op_key phase : String) (last_error : Option String) (inc_attempt : Bool) (now : ℕ)
    → List ExternalOp
    → List ExternalOp
unfolding update_where
external_op_mark key phase last_error inc_attempt now rows =
    update_where (has_key key)
      (λ r. record r {
        phase = phase;
        last_error = last_error;
        attempt = if inc_attempt then r.attempt + 1 else r.attempt;
        done_at = done_time phase now;
      })
      rows

abbrev error_text : Option String → String
error_text none = ""
error_text (some s) = s

-- the retry budget belongs to another head
abbrev budget_of_other_head : String → ExternalOp → Bool
budget_of_other_head head r =
    r.phase == "failed"
    && (not (is_empty head) && not (starts_with (error_text r.last_error) ("head=" ++ head ++ " ")))

abbrev resets : String → Option ExternalOp → Bool
resets head none = false
resets head (some r) = budget_of_other_head head r

-- `external_op_reset_failed_head`: the table, and the row
unfoldable pub external_op_reset_failed_head :
    (op_key head_sha : String) → List ExternalOp → List ExternalOp × Option ExternalOp
unfolding find_where update_where
external_op_reset_failed_head key head rows =
    if resets head (find_where (has_key key) rows)
    then (let after =
          update_where (has_key key)
            (λ r. record r { phase = "reserved"; attempt = 0; last_error = none }) rows in
        (after, find_where (has_key key) after))
    else (rows, find_where (has_key key) rows)
