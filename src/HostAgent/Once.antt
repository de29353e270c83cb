-- ===== src/HostAgent/Once.antt =====
-- How often a command of crates/gridops-host-agent/src/dispatch.rs is carried out.
use gridops.Prelude.{
  ℕ, ◌+◌, ◌≤◌, ◌≡◌, ◌≢◌, ◌⊎◌, refl, sym, ap, ◌∙◌, inl, inr, Bool, true, false, not, Bool-cases,
  none, some, Option-cases, List, [], ◌∷◌, ◌++◌, Result, ok, err, ◌==◌, if◌then◌else◌, arith,
}
use gridops.HostAgent.Journal.{
  AgentCommandEnvelope, CommandRow, Journal, JournalError, Receipt, new, interrupted, completed,
  find_command, received_before, receive,
}
use gridops.HostAgent.Dispatch.{
  World, Stop, never, after_receipt, during_work, before_complete, HelperCall, act_unless_stopped,
  Dispatched, execute, act_on, dispatch_with, invalid_command,
}
use gridops.HostAgent.Quiet.{
  is_known, calls_for, interrupted-IsQuiet, recover-calls_for, act_on-IsOnce,
}

-- What one delivery of a command does, seen for one command id.
record IsCounted (id : ℕ) (rows : List CommandRow) (d : Dispatched) : Type 0 where
  grows : is_known id rows ≡ true → is_known id d.0.commands ≡ true
  quiet : is_known id rows ≡ true → calls_for id d.1 ≡ 0
  few : calls_for id d.1 ≤ 1
  marks : (calls_for id d.1 ≡ 0) ⊎ (is_known id d.0.commands ≡ true)

find_command-is_known :
    (id : ℕ) (rows : List CommandRow) → find_command id rows ≡ none → is_known id rows ≡ false
unfolding find_command is_known
find_command-is_known id [] e = refl
find_command-is_known id (r ∷ rs) e = ground (arith, find_command-is_known id rs)

-- Only a new command is carried out.
act_on_known :
    (id : ℕ) (trusted : Bool) (w : World) (j : Journal) (e : AgentCommandEnvelope) (r : Receipt)
    → r ≢ new
    → calls_for id (act_on trusted w j e r).1 ≡ 0
unfolding act_on execute calls_for
act_on_known id trusted w j e (completed result) old = refl
act_on_known id trusted w j e interrupted old =
    ap (calls_for id) ((interrupted-IsQuiet id trusted w j e).called)
    ∙ recover-calls_for id trusted w j e
act_on_known id trusted w j e new old = absurd (old refl)

-- The receipt: an old command is never taken for a new one, and a new one gets its row.
record IsReceived (id : ℕ) (j j' : Journal) (e : AgentCommandEnvelope)
    (r : Result JournalError Receipt) : Type 0 where
  keeps : is_known id j.commands ≡ true → is_known id j'.commands ≡ true
  known : (e.command_id ≡ id) → is_known id j'.commands ≡ true
  old : (e.command_id ≡ id) → is_known id j.commands ≡ true → r ≢ ok new

find_command-known :
    (id : ℕ) (rows : List CommandRow) (row : CommandRow)
    → find_command id rows ≡ some row
    → is_known id rows ≡ true
unfolding find_command is_known
find_command-known id [] row e = ground arith
find_command-known id (r ∷ rs) row e = ground (arith, find_command-known id rs row)

received_before_old : (row : CommandRow) (hash : ℕ) → received_before row hash ≢ ok new
received_before_old row hash = λ e. ground arith

receive-IsReceived :
    (id boot : ℕ) (j : Journal) (e : AgentCommandEnvelope)
    → IsReceived id j (receive boot j e).0 e (receive boot j e).1
unfolding receive is_known
receive-IsReceived id boot j e = elim (Option-cases (find_command e.command_id j.commands)) [
  | inl absent ↦
      let unknown = find_command-is_known e.command_id j.commands absent in
      rw (absent, receive)
        (record {
          keeps = λ k. ground arith;
          known = λ s. ground arith;
          old = λ s k n. absurd (ground (arith, unknown, ap (λ i. is_known i j.commands) s));
        })
  | inr (row, found) ↦
      let present = find_command-known e.command_id j.commands row found in
      rw (found, receive)
        (record {
          keeps = λ k. k;
          known = λ s. sym (ap (λ i. is_known i j.commands) s) ∙ present;
          old = λ s k n. absurd (received_before_old row e.request_hash n);
        })
]

-- Acting on a receipt, for one command id: the row of the command stands by then.
act_on-IsCounted :
    (id : ℕ) (trusted : Bool) (w : World) (j j' : Journal) (e : AgentCommandEnvelope) (r : Receipt)
    → IsReceived id j j' e (ok r)
    → IsCounted id j.commands (act_on trusted w j' e r)
act_on-IsCounted id trusted w j j' e r received =
    let acted = act_on-IsOnce id trusted w j' e r in
    let kept = acted.kept in
    let once = acted.once in
    elim (Bool-cases (e.command_id == id)) [
      | inr other ↦
          let none_called : calls_for id (act_on trusted w j' e r).1 ≡ 0 = ground arith in
          record {
            grows = λ k. kept ∙ received.keeps k;
            quiet = λ k. none_called;
            few = omega arith;
            marks = inl none_called;
          }
      | inl mine ↦
          let same : e.command_id ≡ id = ground arith in
          record {
            grows = λ k. kept ∙ received.keeps k;
            quiet = λ k. act_on_known id trusted w j' e r (λ n. received.old same k (ap ok n));
            few = ground arith;
            marks = inr (kept ∙ received.known same);
          }
    ]

act_unless_stopped-IsCounted :
    (id : ℕ) (at : Stop) (trusted : Bool) (w : World) (j j' : Journal) (e : AgentCommandEnvelope)
    (r : Result JournalError Receipt)
    → IsReceived id j j' e r
    → IsCounted id j.commands (act_unless_stopped at trusted w j' e r)
unfolding calls_for
act_unless_stopped-IsCounted id at trusted w j j' e (err x) received = record {
  grows = received.keeps;
  quiet = λ k. refl;
  few = omega arith;
  marks = inl refl;
}
act_unless_stopped-IsCounted id after_receipt trusted w j j' e (ok r) received = record {
  grows = received.keeps;
  quiet = λ k. refl;
  few = omega arith;
  marks = inl refl;
}
act_unless_stopped-IsCounted id never trusted w j j' e (ok r) received =
    act_on-IsCounted id trusted w j j' e r received
act_unless_stopped-IsCounted id during_work trusted w j j' e (ok r) received =
    act_on-IsCounted id trusted w j j' e r received
act_unless_stopped-IsCounted id before_complete trusted w j j' e (ok r) received =
    act_on-IsCounted id trusted w j j' e r received

either-IsCounted :
    (id : ℕ) (rows : List CommandRow) (b : Bool) (x y : Dispatched)
    → IsCounted id rows x
    → IsCounted id rows y
    → IsCounted id rows (if b then x else y)
either-IsCounted id rows true x y first second = first
either-IsCounted id rows false x y first second = second

dispatch_with-IsCounted :
    (id : ℕ) (trusted : Bool) (w : World) (j : Journal) (e : AgentCommandEnvelope)
    → IsCounted id j.commands (dispatch_with trusted w j e)
unfolding dispatch_with calls_for
dispatch_with-IsCounted id trusted w j e =
    either-IsCounted id j.commands (not w.bound) (j, [], err invalid_command)
      (act_unless_stopped w.stops trusted w ((receive w.boot_id j e).0) e
        ((receive w.boot_id j e).1))
      (record { grows = λ k. k; quiet = λ k. refl; few = omega arith; marks = inl refl })
      (act_unless_stopped-IsCounted id w.stops trusted w j ((receive w.boot_id j e).0) e
        ((receive w.boot_id j e).1) (receive-IsReceived id w.boot_id j e))

-- The requests that the helper gets over a history of deliveries, each in its own world: the agent
-- keeps its journal between them, also when it stops within one.
unfoldable pub calls_of : Bool → Journal → List (World × AgentCommandEnvelope) → List HelperCall
calls_of trusted j [] = []
calls_of trusted j ((w, e) ∷ rest) =
    let (j', calls, reply) = dispatch_with trusted w j e in calls ++ calls_of trusted j' rest

calls_for-append :
    (id : ℕ) (xs ys : List HelperCall) → calls_for id (xs ++ ys) ≡ calls_for id xs + calls_for id ys
unfolding calls_for
calls_for-append id [] ys = omega arith
calls_for-append id (x ∷ xs) ys = ground (arith, calls_for-append id xs ys)

calls_of_known :
    (id : ℕ) (trusted : Bool) (j : Journal) (ds : List (World × AgentCommandEnvelope))
    → is_known id j.commands ≡ true
    → calls_for id (calls_of trusted j ds) ≡ 0
unfolding calls_of calls_for
calls_of_known id trusted j [] k = refl
calls_of_known id trusted j ((w, e) ∷ rest) k =
    let counted = dispatch_with-IsCounted id trusted w j e in
    let d = dispatch_with trusted w j e in
    let here = counted.quiet k in
    let later = calls_of_known id trusted d.0 rest (counted.grows k) in
    omega (arith, calls_for-append id d.1 (calls_of trusted d.0 rest))

no_calls : (id : ℕ) → calls_for id [] ≡ 0
unfolding calls_for
no_calls id = refl

-- Whatever is delivered, in whatever order and however often, with the same or another body under
-- one command id, and wherever the agent stops and starts again, the helper is called at most once to
-- carry out a command of each id. Its other method, which asks what remains of a start that was cut
-- short, does not count.
pub calls_of-once :
    (id : ℕ) (trusted : Bool) (j : Journal) (ds : List (World × AgentCommandEnvelope))
    → calls_for id (calls_of trusted j ds) ≤ 1
unfolding calls_of
calls_of-once id trusted j [] = ground (arith, no_calls id)
calls_of-once id trusted j ((w, e) ∷ rest) =
    let counted = dispatch_with-IsCounted id trusted w j e in
    let d = dispatch_with trusted w j e in
    let few = counted.few in
    let split = calls_for-append id d.1 (calls_of trusted d.0 rest) in
    elim counted.marks [
      | inl none_here ↦ let later = calls_of-once id trusted d.0 rest in omega (arith, split)
      | inr stands ↦ let later = calls_of_known id trusted d.0 rest stands in omega (arith, split)
    ]
