-- ===== src/HostAgent/Quiet.antt =====
-- How often one run of crates/gridops-host-agent/src/dispatch.rs has the helper carry out a command.
use gridops.Prelude.{
  ℕ, ◌+◌, ◌≤◌, ◌≡◌, refl, ap, ◌∙◌, inl, inr, Bool, true, false, ◌||◌, ◌&&◌, some, List, [], ◌∷◌,
  Result, ok, err, Result-cases, ◌==◌, if◌then◌else◌, arith,
}
use gridops.HostAgent.Journal.{
  deadline, AgentCommandEnvelope, AgentCommandResult, CommandRow, Journal, JournalError, Receipt,
  new, interrupted, completed, set_result, complete,
}
use gridops.HostAgent.Dispatch.{
  World, Stop, never, after_receipt, during_work, before_complete, HelperCall, Worked, after_call,
  after_prepare, call, recover, settle, unless_stopped, carry_out, Dispatched, Plan, plan, refuse,
  call_helper, prepare_new, request, result_of, answer, finish, execute, act_on, refused,
}
use gridops.HostAgent.Rows.{
  after_call-commands, after_prepare-commands, is_work, AreQuestions, recover-IsRecovery,
}

-- The journal has a row for the command.
unfoldable pub is_known : ℕ → List CommandRow → Bool
is_known id [] = false
is_known id (r ∷ rs) = r.command_id == id || is_known id rs

-- How often the helper was called to carry out a command.
unfoldable pub calls_for : ℕ → List HelperCall → ℕ
calls_for id [] = 0
calls_for id (c ∷ cs) = (if c.command_id == id && is_work c.method then 1 else 0) + calls_for id cs

pub set_result-keeps :
    (id : ℕ) (result : AgentCommandResult) (rows rows' : List CommandRow)
    → set_result result rows ≡ ok rows'
    → is_known id rows' ≡ is_known id rows
unfolding set_result is_known
set_result-keeps id result [] rows' e = ground arith
set_result-keeps id result (r ∷ rs) rows' e = elim (Result-cases (set_result result rs)) [
  | inl (rest, found) ↦ ground (arith, set_result-keeps id result rs rest found)
  | inr (x, missing) ↦ ground arith
]

pub complete-keeps :
    (id : ℕ) (result : AgentCommandResult) (j j' : Journal)
    → complete j result ≡ ok j'
    → is_known id j'.commands ≡ is_known id j.commands
unfolding complete
complete-keeps id result j j' e = elim (Result-cases (set_result result j.commands)) [
  | inl (rows, found) ↦ ground (arith, set_result-keeps id result j.commands rows found)
  | inr (x, missing) ↦ ground arith
]

-- Nothing that follows a call of the helper calls it again, or forgets the command.
pub record IsQuiet (id : ℕ) (rows : List CommandRow) (calls : List HelperCall) (d : Dispatched)
    : Type 0 where
  pub known : is_known id d.0.commands ≡ is_known id rows
  pub called : d.1 ≡ calls

pub answer-IsQuiet :
    (id : ℕ) (j : Journal) (calls : List HelperCall) (result : AgentCommandResult)
    (r : Result JournalError Journal)
    → complete j result ≡ r
    → IsQuiet id j.commands calls (answer j calls result r)
answer-IsQuiet id j calls result (ok j') e = record {
  known = complete-keeps id result j j' e;
  called = refl;
}
answer-IsQuiet id j calls result (err x) e = record { known = refl; called = refl }

pub settle-IsQuiet :
    (id : ℕ) (s : Stop) (j : Journal) (calls : List HelperCall) (result : AgentCommandResult)
    → IsQuiet id j.commands calls (settle s j calls result)
settle-IsQuiet id before_complete j calls result = record { known = refl; called = refl }
settle-IsQuiet id never j calls result = answer-IsQuiet id j calls result (complete j result) refl
settle-IsQuiet id after_receipt j calls result =
    answer-IsQuiet id j calls result (complete j result) refl
settle-IsQuiet id during_work j calls result =
    answer-IsQuiet id j calls result (complete j result) refl

pub finish-IsQuiet :
    (id : ℕ) (w : World) (e : AgentCommandEnvelope) (rows : List CommandRow)
    (calls : List HelperCall) (done : Worked)
    → done.0.commands ≡ rows
    → IsQuiet id rows calls (finish w e calls done)
unfolding finish
finish-IsQuiet id w e rows calls (j, err x) same = record {
  known = ap (is_known id) same;
  called = refl;
}
finish-IsQuiet id w e rows calls (j, ok outcome) same =
    let q = settle-IsQuiet id w.stops j calls (result_of w e outcome) in
    record { known = q.known ∙ ap (is_known id) same; called = q.called }

pub unless_stopped-IsQuiet :
    (id : ℕ) (s : Stop) (j : Journal) (calls : List HelperCall) (done : Dispatched)
    → IsQuiet id j.commands calls done
    → IsQuiet id j.commands calls (unless_stopped s j calls done)
unless_stopped-IsQuiet id during_work j calls done q = record { known = refl; called = refl }
unless_stopped-IsQuiet id never j calls done q = q
unless_stopped-IsQuiet id after_receipt j calls done q = q
unless_stopped-IsQuiet id before_complete j calls done q = q

-- Acting on a command has it carried out once at most, and keeps its row.
pub record IsOnce (id : ℕ) (e : AgentCommandEnvelope) (rows : List CommandRow) (d : Dispatched)
    : Type 0 where
  pub kept : is_known id d.0.commands ≡ is_known id rows
  pub once : calls_for id d.1 ≤ (if e.command_id == id then 1 else 0)

pub quiet-IsOnce :
    (id : ℕ) (e : AgentCommandEnvelope) (rows : List CommandRow) (calls : List HelperCall)
    (d : Dispatched)
    → calls_for id calls ≤ (if e.command_id == id then 1 else 0)
    → IsQuiet id rows calls d
    → IsOnce id e rows d
quiet-IsOnce id e rows calls d few q = record { kept = q.known; once = rw (q.called) few }

pub carry_out-IsOnce :
    (id : ℕ) (trusted : Bool) (w : World) (j : Journal) (e : AgentCommandEnvelope) (p : Plan)
    → IsOnce id e j.commands (carry_out trusted w j e p)
unfolding calls_for
carry_out-IsOnce id trusted w j e (refuse outcome) =
    quiet-IsOnce id e j.commands [] _ (ground arith)
      (finish-IsQuiet id w e j.commands [] (j, ok outcome) refl)
carry_out-IsOnce id trusted w j e (call_helper owned) =
    let calls = request call trusted e owned ∷ [] in
    quiet-IsOnce id e j.commands calls _ (ground arith) (
      unless_stopped-IsQuiet id w.stops j calls _ (
        finish-IsQuiet id w e j.commands calls (after_call j owned w.response)
          (after_call-commands j owned w.response)))
carry_out-IsOnce id trusted w j e (prepare_new environment) =
    let calls = request call trusted e (some environment) ∷ [] in
    quiet-IsOnce id e j.commands calls _ (ground arith) (
      unless_stopped-IsQuiet id w.stops j calls _ (
        finish-IsQuiet id w e j.commands calls (after_prepare j environment w.response)
          (after_prepare-commands j environment w.response)))

pub either-IsOnce :
    (id : ℕ) (e : AgentCommandEnvelope) (rows : List CommandRow) (b : Bool) (x y : Dispatched)
    → IsOnce id e rows x
    → IsOnce id e rows y
    → IsOnce id e rows (if b then x else y)
either-IsOnce id e rows true x y first second = first
either-IsOnce id e rows false x y first second = second

questions-calls_for : (id : ℕ) (cs : List HelperCall) → AreQuestions cs → calls_for id cs ≡ 0
unfolding calls_for
questions-calls_for id [] q = refl
questions-calls_for id (c ∷ cs) q = ground (arith, questions-calls_for id cs)

pub recover-calls_for :
    (id : ℕ) (trusted : Bool) (w : World) (j : Journal) (e : AgentCommandEnvelope)
    → calls_for id (recover trusted w j e).1 ≡ 0
recover-calls_for id trusted w j e =
    questions-calls_for id (recover trusted w j e).1 (recover-IsRecovery trusted w j e).asks

-- The answer to an interrupted command.
pub interrupted-IsQuiet :
    (id : ℕ) (trusted : Bool) (w : World) (j : Journal) (e : AgentCommandEnvelope)
    → let (done, calls) = recover trusted w j e in
      IsQuiet id j.commands calls (unless_stopped w.stops j calls (finish w e calls done))
interrupted-IsQuiet id trusted w j e =
    let (done, calls) = recover trusted w j e in
    unless_stopped-IsQuiet id w.stops j calls _
      (finish-IsQuiet id w e j.commands calls done (recover-IsRecovery trusted w j e).rows)

pub act_on-IsOnce :
    (id : ℕ) (trusted : Bool) (w : World) (j : Journal) (e : AgentCommandEnvelope) (r : Receipt)
    → IsOnce id e j.commands (act_on trusted w j e r)
unfolding act_on execute calls_for
act_on-IsOnce id trusted w j e (completed result) = record { kept = refl; once = ground arith }
act_on-IsOnce id trusted w j e interrupted =
    let (done, calls) = recover trusted w j e in
    let none_called = recover-calls_for id trusted w j e in
    quiet-IsOnce id e j.commands calls _ (omega arith) (interrupted-IsQuiet id trusted w j e)
act_on-IsOnce id trusted w j e new =
    either-IsOnce id e j.commands w.in_time (execute trusted w j e)
      (finish w e [] (j, ok (refused deadline)))
      (carry_out-IsOnce id trusted w j e (plan trusted w.fresh_id j e))
      (quiet-IsOnce id e j.commands [] _ (ground arith)
        (finish-IsQuiet id w e j.commands [] (j, ok (refused deadline)) refl))
