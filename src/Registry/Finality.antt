-- ===== src/Registry/Finality.antt =====
-- The states of commands in crates/gridops-core/src/fleet/registry/commands.rs: which of them no
-- operation leaves, and rows that have ids of their own.
pub mod Loops
pub mod Calls
use gridops.Prelude.{
  ℕ, ◌≡◌, refl, ◌∙◌, sym, ap, Bool, true, false, not, ◌&&◌, ◌||◌, Bool-cases, inl, inr, Option,
  none, some, List, [], ◌∷◌, map, ◌==◌, if◌then◌else◌, arith, ==_iff,
}
use gridops.Registry.Rows.{update_where, first_where, select_where}
use gridops.Registry.Tables.{CommandState, CommandRow, Database}
use gridops.Registry.Results.{set_command}

-- The end of a command.
abbrev pub is_final : CommandState → Bool
is_final CommandState.succeeded = true
is_final CommandState.failed = true
is_final CommandState.cancelled = true
is_final _ = false

-- The state of the command with an id.
unfoldable pub state_of : ℕ → List CommandRow → Option CommandState
state_of i [] = none
state_of i (c ∷ cs) = if c.id == i then some c.state else state_of i cs

abbrev pub ids : List CommandRow → List ℕ
ids cs = map (λ c. c.id) cs

unfoldable pub is_in : ℕ → List ℕ → Bool
is_in i [] = false
is_in i (j ∷ js) = j == i || is_in i js

-- `host_commands.id` is unique.
abbrev pub IsDistinct : List ℕ → Type 0
IsDistinct [] = Unit
IsDistinct (i ∷ rest) = (is_in i rest ≡ false) × IsDistinct rest

-- No row of the list has the id.
abbrev pub Avoids : ℕ → List CommandRow → Type 0
Avoids i [] = Unit
Avoids i (c ∷ cs) = ((c.id == i) ≡ false) × Avoids i cs

pub ids-update :
    (test : CommandRow → Bool) (change : CommandRow → CommandRow) (cs : List CommandRow)
    → ((c : CommandRow) → (change c).id ≡ c.id)
    → ids (update_where test change cs) ≡ ids cs
unfolding update_where
ids-update test change [] same = refl
ids-update test change (c ∷ cs) same = ground (arith, same c, ids-update test change cs same)

-- An update of another command.
pub state_of-update_ne :
    (i j : ℕ) (change : CommandRow → CommandRow) (cs : List CommandRow)
    → (j == i) ≡ false
    → ((c : CommandRow) → (change c).id ≡ c.id)
    → state_of i (update_where (λ c. c.id == j) change cs) ≡ state_of i cs
unfolding update_where state_of
state_of-update_ne i j change [] ne same = refl
state_of-update_ne i j change (c ∷ cs) ne same =
    ground (arith, same c, state_of-update_ne i j change cs ne same)

-- An update of commands that are not final.
pub state_of-update_open :
    (i : ℕ) (s : CommandState) (test : CommandRow → Bool) (change : CommandRow → CommandRow)
    (cs : List CommandRow)
    → is_final s ≡ true
    → ((c : CommandRow) → (change c).id ≡ c.id)
    → ((c : CommandRow) → test c ≡ true → is_final c.state ≡ false)
    → state_of i cs ≡ some s
    → state_of i (update_where test change cs) ≡ some s
unfolding update_where state_of
state_of-update_open i s test change [] final same unended e = cc
state_of-update_open i s test change (c ∷ cs) final same unended e = elim (Bool-cases (test c)) [
  | inl hit ↦
      ground
        (arith, same c, unended c hit, state_of-update_open i s test change cs final same unended)
  | inr miss ↦ ground (arith, state_of-update_open i s test change cs final same unended)
]

pub state_of-is_in :
    (i : ℕ) (s : CommandState) (cs : List CommandRow)
    → state_of i cs ≡ some s
    → is_in i (ids cs) ≡ true
unfolding state_of is_in
state_of-is_in i s [] e = cc
state_of-is_in i s (c ∷ cs) e = ground (arith, state_of-is_in i s cs)

-- A row that a query finds shows the state of its id.
pub first_where-state_of :
    (test : CommandRow → Bool) (cs : List CommandRow) (c : CommandRow)
    → IsDistinct (ids cs)
    → first_where test cs ≡ some c
    → state_of c.id cs ≡ some c.state
unfolding first_where state_of
first_where-state_of test [] c d e = cc
first_where-state_of test (x ∷ xs) c d e = elim (Bool-cases (test x)) [
  | inl hit ↦ ground arith
  | inr miss ↦
      let rest = first_where-state_of test xs c d.1 (rw miss at e) in
      ground (arith, state_of-is_in c.id c.state xs rest, ==_iff x.id c.id)
]

Avoids-absent :
    (i : ℕ) (test : CommandRow → Bool) (cs : List CommandRow)
    → is_in i (ids cs) ≡ false
    → Avoids i (select_where test cs)
unfolding select_where is_in
Avoids-absent i test [] out = tt
Avoids-absent i test (c ∷ cs) out = elim (Bool-cases (test c)) [
  | inl hit ↦ rw hit (ground arith, Avoids-absent i test cs (ground arith))
  | inr miss ↦ rw miss (Avoids-absent i test cs (ground arith))
]

-- A query for commands that are not final leaves a final command out.
pub select_where-Avoids :
    (i : ℕ) (s : CommandState) (test : CommandRow → Bool) (cs : List CommandRow)
    → IsDistinct (ids cs)
    → is_final s ≡ true
    → ((c : CommandRow) → test c ≡ true → is_final c.state ≡ false)
    → state_of i cs ≡ some s
    → Avoids i (select_where test cs)
unfolding select_where state_of
select_where-Avoids i s test [] d final unended e = tt
select_where-Avoids i s test (c ∷ cs) d final unended e = elim (Bool-cases (c.id == i)) [
  | inl here ↦
      let same : c.id ≡ i = (==_iff c.id i).0 here in
      let shut : test c ≡ false = elim (Bool-cases (test c)) [
        | inl hit ↦ ground (arith, unended c hit)
        | inr miss ↦ miss
      ] in
      rw shut (Avoids-absent i test cs (rw same at d.0))
  | inr there ↦
      let rest = select_where-Avoids i s test cs d.1 final unended (rw there at e) in
      elim (Bool-cases (test c)) [ inl hit ↦ rw hit (there, rest) | inr miss ↦ rw miss rest ]
]
