-- ===== src/Admission/Path.antt =====
-- `domain_path` of crates/gridops-core/src/fleet/admission.rs: the chain of domains from a backend's
-- own up to the host's root.
pub mod Chain
use gridops.Prelude.{
  ℕ, zero, suc, Bool, true, false, ◌||◌, Option, none, some, List, [], ◌∷◌, ◌++◌, Result, ok, err,
  ◌==◌, if◌then◌else◌,
}
use gridops.Admission.Store.{FleetError, invariant, DomainRow, Store, find_domain}

-- crates/gridops-core/src/fleet/protocol/primitives.rs.
abbrev pub max_resource_domain_depth : ℕ
max_resource_domain_depth = 64

abbrev pub seen_before : ℕ → List ℕ → Bool
seen_before id [] = false
seen_before id (x ∷ xs) = x == id || seen_before id xs

-- The `while let` loop. `room` is the depth limit less `result.len()`: with no room left the loop
-- fails whether or not the domain was seen, so no fuel is needed.
unfoldable pub walk :
    Store → ℕ → ℕ → List ℕ → List DomainRow → Option ℕ → Result FleetError (List DomainRow)
walk st host zero seen result none = ok result
walk st host zero seen result (some id) =
    err (invariant "resource domain topology is cyclic or too deep")
walk st host (suc room) seen result none = ok result
walk st host (suc room) seen result (some id) = elim (seen_before id seen) [
  | true ↦ err (invariant "resource domain topology is cyclic or too deep")
  | false ↦ elim (find_domain id host st.domains) [
    | none ↦ err (invariant "resource domain is missing or cross-host")
    | some d ↦ walk st host room (id ∷ seen) (result ++ (d ∷ [])) d.parent_domain_id
  ]
]

unfoldable pub domain_path : Store → ℕ → ℕ → Result FleetError (List DomainRow)
domain_path st leaf host = walk st host max_resource_domain_depth [] [] (some leaf)
