-- ===== src/Admission/Path/Chain.antt =====
-- The paths that `domain_path` of crates/gridops-core/src/fleet/admission.rs finds, and the parent
-- chains of the domain table.
use mathlib.Core.List.{append_assoc, append-nil}
use gridops.Prelude.{
  ℕ, zero, suc, ◌≤◌, ◌<◌, ◌≡◌, refl, sym, ap, ◌∙◌, ◌↔◌, inl, inr, true, false, Bool-cases, Option,
  none, some, Option-cases, List, [], ◌∷◌, ◌++◌, map, ok, length, arith, ◌==◌, ==_iff,
}
use gridops.Admission.Store.{DomainRow, Store, find_domain}
use gridops.Admission.Path.{max_resource_domain_depth, seen_before, walk, domain_path}

pub find_domain-id :
    (id host : ℕ) (rows : List (ℕ × DomainRow)) (d : DomainRow)
    → find_domain id host rows ≡ some d
    → d.id ≡ id
unfolding find_domain
find_domain-id id host [] d e = ground arith
find_domain-id id host ((h, r) ∷ rest) d e = ground (arith, find_domain-id id host rest d)

abbrev pub ids : List DomainRow → List ℕ
ids = map (λ d. d.id)

-- No domain stands twice.
abbrev pub AreDistinct : List ℕ → Type 0
AreDistinct [] = Unit {0}
AreDistinct (i ∷ rest) = (seen_before i rest ≡ false) × AreDistinct rest

module _ (st : Store) (host : ℕ) where
  -- The rows from a domain up to one without a parent.
  abbrev pub IsChain : Option ℕ → List DomainRow → Type 0
  IsChain none [] = Unit {0}
  IsChain none (d ∷ ds) = ⊥
  IsChain (some id) [] = ⊥
  IsChain (some id) (d ∷ ds) =
      (find_domain id host st.domains ≡ some d) × IsChain d.parent_domain_id ds

  walk-IsChain :
      (room : ℕ) (seen : List ℕ) (result p : List DomainRow) (c : Option ℕ)
      → walk st host room seen result c ≡ ok p
      → (q : List DomainRow) × (p ≡ result ++ q) × IsChain c q × (length q ≤ room)
  unfolding walk
  walk-IsChain zero seen result p none e = ([], ground (arith, append-nil result), tt, omega arith)
  walk-IsChain zero seen result p (some id) e = ground arith
  walk-IsChain (suc room) seen result p none e =
      ([], ground (arith, append-nil result), tt, omega arith)
  walk-IsChain (suc room) seen result p (some id) e = elim (Bool-cases (seen_before id seen)) [
    | inl again ↦ ground arith
    | inr first ↦ elim (Option-cases (find_domain id host st.domains)) [
      | inl missing ↦ ground arith
      | inr (d, found) ↦
          let step : walk st host room (id ∷ seen) (result ++ (d ∷ [])) d.parent_domain_id ≡ ok p =
            ground arith in
          let (q, e', chain, short) =
            walk-IsChain room (id ∷ seen) (result ++ (d ∷ [])) p d.parent_domain_id step in
          (d ∷ q, e' ∙ append_assoc result (d ∷ []) q, (found, chain), omega arith)
    ]
  ]

  -- A domain has one chain at most.
  chain_unique : (c : Option ℕ) (p q : List DomainRow) → IsChain c p → IsChain c q → p ≡ q
  chain_unique none [] [] a b = refl
  chain_unique none [] (d ∷ ds) a b = absurd b
  chain_unique none (d ∷ ds) q a b = absurd a
  chain_unique (some id) [] q a b = absurd a
  chain_unique (some id) (d ∷ ds) [] a b = absurd b
  chain_unique (some id) (d ∷ ds) (x ∷ xs) a b =
      let same : d ≡ x = ground arith in
      let rest : ds ≡ xs = chain_unique d.parent_domain_id ds xs a.1 (rw (← same) at b.1) in cc

  -- A domain on a chain starts a chain that is no longer.
  IsChain-from :
      (i : ℕ) (c : Option ℕ) (p : List DomainRow)
      → IsChain c p
      → seen_before i (ids p) ≡ true
      → (q : List DomainRow) × IsChain (some i) q × (length q ≤ length p)
  IsChain-from i none [] a m = ground arith
  IsChain-from i none (d ∷ ds) a m = absurd a
  IsChain-from i (some id) [] a m = absurd a
  IsChain-from i (some id) (d ∷ ds) a m = elim (Bool-cases (d.id == i)) [
    | inl here ↦
        let same : id ≡ i =
          sym (find_domain-id id host st.domains d a.0) ∙ (==_iff d.id i).0 here in
        (d ∷ ds, rw same at a, omega arith)
    | inr there ↦
        let (q, chain, short) = IsChain-from i d.parent_domain_id ds a.1 (ground arith) in
        (q, chain, omega arith)
  ]

  chain_distinct : (c : Option ℕ) (p : List DomainRow) → IsChain c p → AreDistinct (ids p)
  chain_distinct none [] a = tt
  chain_distinct none (d ∷ ds) a = absurd a
  chain_distinct (some id) [] a = absurd a
  chain_distinct (some id) (d ∷ ds) a = (
    elim (Bool-cases (seen_before d.id (ids ds))) [
      | inl again ↦
          let (q, chain, short) = IsChain-from d.id d.parent_domain_id ds a.1 again in
          let same = find_domain-id id host st.domains d a.0 in
          let eq : d ∷ ds ≡ q = chain_unique (some id) (d ∷ ds) q a (rw same at chain) in
          absurd (omega (arith, ap length eq))
      | inr first ↦ first
    ],
    chain_distinct d.parent_domain_id ds a.1,
  )

  -- Each domain met so far starts a chain longer than the one still to go.
  abbrev IsPast : ℕ → List ℕ → Type 0
  IsPast n [] = Unit {0}
  IsPast n (i ∷ rest) = ((q : List DomainRow) × IsChain (some i) q × (n < length q)) × IsPast n rest

  IsPast-mono : (m n : ℕ) (seen : List ℕ) → m ≤ n → IsPast n seen → IsPast m seen
  IsPast-mono m n [] h p = tt
  IsPast-mono m n (i ∷ rest) h ((q, chain, long), p) =
      ((q, chain, omega arith), IsPast-mono m n rest h p)

  not_seen :
      (id : ℕ) (p : List DomainRow) (seen : List ℕ)
      → IsChain (some id) p
      → IsPast (length p) seen
      → seen_before id seen ≡ false
  not_seen id p [] a past = refl
  not_seen id p (i ∷ rest) a ((q, chain, long), past) = elim (Bool-cases (i == id)) [
    | inl same ↦
        let eq : p ≡ q = chain_unique (some id) p q a (rw ((==_iff i id).0 same) at chain) in
        absurd (omega (arith, ap length eq))
    | inr other ↦ rw other (not_seen id p rest a past)
  ]

  walk-of_IsChain :
      (room : ℕ) (seen : List ℕ) (result : List DomainRow) (c : Option ℕ) (p : List DomainRow)
      → IsChain c p
      → length p ≤ room
      → IsPast (length p) seen
      → walk st host room seen result c ≡ ok (result ++ p)
  unfolding walk
  walk-of_IsChain zero seen result none [] a h past = rw (append-nil result)
  walk-of_IsChain (suc room) seen result none [] a h past = rw (append-nil result)
  walk-of_IsChain room seen result none (d ∷ ds) a h past = absurd a
  walk-of_IsChain room seen result (some id) [] a h past = absurd a
  walk-of_IsChain zero seen result (some id) (d ∷ ds) a h past = absurd (omega arith)
  walk-of_IsChain (suc room) seen result (some id) (d ∷ ds) a h past =
      let fresh = not_seen id (d ∷ ds) seen a past in
      let later : IsPast (length ds) (id ∷ seen) = (
        (d ∷ ds, a, omega arith),
        IsPast-mono (length ds) (suc (length ds)) seen (omega arith) past,
      ) in
      rw (fresh, walk, a.0, ← append_assoc result (d ∷ []) ds)
        (walk-of_IsChain room (id ∷ seen) (result ++ (d ∷ [])) d.parent_domain_id ds a.1
          (omega arith) later)

-- The path of a domain is found exactly when its parents on the host form a chain of at most 64
-- domains that ends at a root; it is that chain. A cycle, a missing parent and a parent on another
-- host make it fail.
pub domain_path_iff :
    (st : Store) (leaf host : ℕ) (p : List DomainRow)
    → (domain_path st leaf host ≡ ok p)
      ↔ (IsChain st host (some leaf) p × (length p ≤ max_resource_domain_depth))
unfolding domain_path
domain_path_iff st leaf host p = (
  λ e.
      let (q, same, chain, short) =
        walk-IsChain st host max_resource_domain_depth [] [] p (some leaf) e in
      (rw same chain, rw same short),
  λ v. walk-of_IsChain st host max_resource_domain_depth [] [] (some leaf) p v.0 v.1 tt,
)

-- No domain stands twice on a path that is found.
pub domain_path-AreDistinct :
    (st : Store) (leaf host : ℕ) (p : List DomainRow)
    → domain_path st leaf host ≡ ok p
    → AreDistinct (ids p)
domain_path-AreDistinct st leaf host p e =
    chain_distinct st host (some leaf) p ((domain_path_iff st leaf host p).0 e).0
