-- ===== src/HostAgent/Redelivered.antt =====
-- What crates/gridops-host-agent/src/dispatch.rs answers to a command that is delivered again.
use gridops.Prelude.{
  ℕ, ◌≡◌, refl, sym, ap, ◌∙◌, Bool, true, false, not, Bool-cases, Option, none, some, inl, inr,
  List, [], ◌∷◌, Result, ok, err, Result-cases, ◌==◌, if◌then◌else◌, arith,
}
use gridops.HostAgent.Journal.{
  AgentCommandEnvelope, AgentCommandResult, CommandRow, Journal, JournalError, Receipt, new,
  interrupted, completed, find_command, received_before, stored_receipt, receive_at, receive,
  set_result, complete, deadline,
}
use gridops.HostAgent.Dispatch.{
  World, Stop, never, after_receipt, during_work, before_complete, HelperCall, Worked, after_call,
  after_prepare, call, recover, Dispatched, invalid_command, Plan, plan, refuse, call_helper,
  prepare_new, request, result_of, answer, settle, finish, unless_stopped, carry_out, execute,
  act_on, act_unless_stopped, dispatch_with, refused,
}
use gridops.HostAgent.Rows.{after_call-commands, after_prepare-commands, recover-IsRecovery}

-- The command's row, with its request and a result or none.
record HasRow (e : AgentCommandEnvelope) (rows : List CommandRow) : Type 0 where
  row : CommandRow
  found : find_command e.command_id rows ≡ some row
  same_request : row.request_hash ≡ e.request_hash

record IsStored (e : AgentCommandEnvelope) (rows : List CommandRow) (result : AgentCommandResult)
    : Type 0 where
  stored_row : CommandRow
  stored_found : find_command e.command_id rows ≡ some stored_row
  stored_request : stored_row.request_hash ≡ e.request_hash
  stored_result : stored_row.result ≡ some result

-- What a delivery that answers leaves.
abbrev Answered : AgentCommandEnvelope → Dispatched → Type 0
Answered e (j, calls, ok result) = IsStored e j.commands result
Answered e (j, calls, err x) = Unit {0}

set_result-row :
    (result : AgentCommandResult) (rows rows' : List CommandRow) (row : CommandRow)
    → find_command result.command_id rows ≡ some row
    → set_result result rows ≡ ok rows'
    → find_command result.command_id rows' ≡ some (record row { result = some result })
unfolding set_result find_command
set_result-row result [] rows' row f e = ground arith
set_result-row result (r ∷ rs) rows' row f e = elim (Result-cases (set_result result rs)) [
  | inl (rest, set) ↦ ground (arith, set_result-row result rs rest row)
  | inr (x, missing) ↦ ground arith
]

answer-Answered :
    (e : AgentCommandEnvelope) (j : Journal) (calls : List HelperCall) (result : AgentCommandResult)
    (r : Result JournalError Journal)
    → e.command_id ≡ result.command_id
    → HasRow e j.commands
    → complete j result ≡ r
    → Answered e (answer j calls result r)
unfolding complete
answer-Answered e j calls result (err x) own has done = tt
answer-Answered e j calls result (ok j') own has done =
    elim (Result-cases (set_result result j.commands)) [
      | inr (x, failed) ↦ ground arith
      | inl (rows, set) ↦
          let f : find_command result.command_id j.commands ≡ some has.row =
            sym (ap (λ i. find_command i j.commands) own) ∙ has.found in
          let g = set_result-row result j.commands rows has.row f set in
          let left : j'.commands ≡ rows = ground arith in
          record {
            stored_row = record has.row { result = some result };
            stored_found =
                ap (λ i. find_command i j'.commands) own
                ∙ ap (find_command result.command_id) left
                ∙ g;
            stored_request = has.same_request;
            stored_result = refl;
          }
    ]

settle-Answered :
    (e : AgentCommandEnvelope) (s : Stop) (j : Journal) (calls : List HelperCall)
    (result : AgentCommandResult)
    → e.command_id ≡ result.command_id
    → HasRow e j.commands
    → Answered e (settle s j calls result)
settle-Answered e before_complete j calls result own has = tt
settle-Answered e never j calls result own has =
    answer-Answered e j calls result (complete j result) own has refl
settle-Answered e after_receipt j calls result own has =
    answer-Answered e j calls result (complete j result) own has refl
settle-Answered e during_work j calls result own has =
    answer-Answered e j calls result (complete j result) own has refl

finish-Answered :
    (w : World) (e : AgentCommandEnvelope) (rows : List CommandRow) (calls : List HelperCall)
    (done : Worked)
    → done.0.commands ≡ rows
    → HasRow e rows
    → Answered e (finish w e calls done)
unfolding finish
finish-Answered w e rows calls (j, err x) same has = tt
finish-Answered w e rows calls (j, ok outcome) same has =
    settle-Answered e w.stops j calls (result_of w e outcome) refl (record {
      row = has.row;
      found = ap (find_command e.command_id) same ∙ has.found;
      same_request = has.same_request;
    })

unless_stopped-Answered :
    (e : AgentCommandEnvelope) (s : Stop) (j : Journal) (calls : List HelperCall)
    (done : Dispatched)
    → Answered e done
    → Answered e (unless_stopped s j calls done)
unless_stopped-Answered e during_work j calls done a = tt
unless_stopped-Answered e never j calls done a = a
unless_stopped-Answered e after_receipt j calls done a = a
unless_stopped-Answered e before_complete j calls done a = a

carry_out-Answered :
    (trusted : Bool) (w : World) (j : Journal) (e : AgentCommandEnvelope) (p : Plan)
    → HasRow e j.commands
    → Answered e (carry_out trusted w j e p)
carry_out-Answered trusted w j e (refuse outcome) has =
    finish-Answered w e j.commands [] (j, ok outcome) refl has
carry_out-Answered trusted w j e (call_helper owned) has =
    let calls = request call trusted e owned ∷ [] in
    unless_stopped-Answered e w.stops j calls (finish w e calls (after_call j owned w.response)) (
      finish-Answered w e j.commands calls (after_call j owned w.response)
        (after_call-commands j owned w.response) has)
carry_out-Answered trusted w j e (prepare_new environment) has =
    let calls = request call trusted e (some environment) ∷ [] in
    unless_stopped-Answered e w.stops j calls
      (finish w e calls (after_prepare j environment w.response))
      (finish-Answered w e j.commands calls (after_prepare j environment w.response)
        (after_prepare-commands j environment w.response) has)

either-Answered :
    (e : AgentCommandEnvelope) (b : Bool) (x y : Dispatched)
    → Answered e x
    → Answered e y
    → Answered e (if b then x else y)
either-Answered e true x y first second = first
either-Answered e false x y first second = second

-- What a receipt says of the journal.
abbrev Got : AgentCommandEnvelope → Journal → Result JournalError Receipt → Type 0
Got e j (ok new) = HasRow e j.commands
Got e j (ok interrupted) = HasRow e j.commands
Got e j (ok (completed result)) = IsStored e j.commands result
Got e j (err x) = Unit {0}

stored_receipt-Got :
    (e : AgentCommandEnvelope) (j : Journal) (row : CommandRow) (result : Option AgentCommandResult)
    → row.result ≡ result
    → find_command e.command_id j.commands ≡ some row
    → row.request_hash ≡ e.request_hash
    → Got e j (ok (stored_receipt result))
stored_receipt-Got e j row none r f same = record { row = row; found = f; same_request = same }
stored_receipt-Got e j row (some result) r f same = record {
  stored_row = row;
  stored_found = f;
  stored_request = same;
  stored_result = r;
}

received_before-Got :
    (e : AgentCommandEnvelope) (j : Journal) (row : CommandRow)
    → find_command e.command_id j.commands ≡ some row
    → Got e j (received_before row e.request_hash)
received_before-Got e j row f = elim (Bool-cases (row.request_hash == e.request_hash)) [
  | inl same ↦ rw (same, Got) (stored_receipt-Got e j row row.result refl f (ground arith))
  | inr other ↦ rw (other, Got) tt
]

receive_at-Got :
    (boot : ℕ) (j : Journal) (e : AgentCommandEnvelope) (row : Option CommandRow)
    → find_command e.command_id j.commands ≡ row
    → Got e (receive_at boot j e row).0 (receive_at boot j e row).1
unfolding find_command
receive_at-Got boot j e none absent = record {
  row = record {
    command_id = e.command_id;
    request_hash = e.request_hash;
    result = none;
    boot_id = some boot;
  };
  found = ground arith;
  same_request = refl;
}
receive_at-Got boot j e (some row) found = received_before-Got e j row found

receive-Got :
    (boot : ℕ) (j : Journal) (e : AgentCommandEnvelope)
    → Got e (receive boot j e).0 (receive boot j e).1
unfolding receive
receive-Got boot j e = receive_at-Got boot j e (find_command e.command_id j.commands) refl

act_on-Answered :
    (trusted : Bool) (w : World) (j : Journal) (e : AgentCommandEnvelope) (r : Receipt)
    → Got e j (ok r)
    → Answered e (act_on trusted w j e r)
unfolding act_on execute
act_on-Answered trusted w j e (completed result) got = got
act_on-Answered trusted w j e interrupted got =
    let (done, calls) = recover trusted w j e in
    unless_stopped-Answered e w.stops j calls _
      (finish-Answered w e j.commands calls done (recover-IsRecovery trusted w j e).rows got)
act_on-Answered trusted w j e new got =
    either-Answered e w.in_time (execute trusted w j e) (finish w e [] (j, ok (refused deadline)))
      (carry_out-Answered trusted w j e (plan trusted w.fresh_id j e) got)
      (finish-Answered w e j.commands [] (j, ok (refused deadline)) refl got)

act_unless_stopped-Answered :
    (at : Stop) (trusted : Bool) (w : World) (j : Journal) (e : AgentCommandEnvelope)
    (r : Result JournalError Receipt)
    → Got e j r
    → Answered e (act_unless_stopped at trusted w j e r)
act_unless_stopped-Answered at trusted w j e (err x) got = tt
act_unless_stopped-Answered after_receipt trusted w j e (ok r) got = tt
act_unless_stopped-Answered never trusted w j e (ok r) got = act_on-Answered trusted w j e r got
act_unless_stopped-Answered during_work trusted w j e (ok r) got =
    act_on-Answered trusted w j e r got
act_unless_stopped-Answered before_complete trusted w j e (ok r) got =
    act_on-Answered trusted w j e r got

dispatch_with-Answered :
    (trusted : Bool) (w : World) (j : Journal) (e : AgentCommandEnvelope)
    → Answered e (dispatch_with trusted w j e)
unfolding dispatch_with
dispatch_with-Answered trusted w j e =
    either-Answered e (not w.bound) (j, [], err invalid_command)
      (act_unless_stopped w.stops trusted w ((receive w.boot_id j e).0) e
        ((receive w.boot_id j e).1))
      tt
      (act_unless_stopped-Answered w.stops trusted w ((receive w.boot_id j e).0) e
        ((receive w.boot_id j e).1) (receive-Got w.boot_id j e))

-- A command whose result is stored is answered from the journal.
stored-again :
    (trusted : Bool) (w : World) (j : Journal) (e : AgentCommandEnvelope)
    (result : AgentCommandResult)
    → IsStored e j.commands result
    → w.bound ≡ true
    → w.stops ≡ never
    → dispatch_with trusted w j e ≡ (j, [], ok result)
unfolding dispatch_with receive act_on
stored-again trusted w j e result s bound runs =
    ground (arith, s.stored_found, s.stored_request, s.stored_result)

-- A command that was answered once is answered the same when it comes again: the helper is not
-- asked, and the journal stays as it is. This holds whatever the time, the trust and the runtime are
-- by then, if the command is still bound to the session and the agent does not stop.
pub dispatch_with-again :
    (trusted trusted' : Bool) (w w' : World) (j j' : Journal) (e : AgentCommandEnvelope)
    (calls : List HelperCall) (result : AgentCommandResult)
    → dispatch_with trusted w j e ≡ (j', calls, ok result)
    → w'.bound ≡ true
    → w'.stops ≡ never
    → dispatch_with trusted' w' j' e ≡ (j', [], ok result)
dispatch_with-again trusted trusted' w w' j j' e calls result answered bound runs =
    let first = dispatch_with-Answered trusted w j e in
    let stored : IsStored e j'.commands result = rw answered at first in
    stored-again trusted' w' j' e result stored bound runs
