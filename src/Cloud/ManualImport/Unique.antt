-- ===== src/Cloud/ManualImport/Unique.antt =====
-- No two manual nodes share a label or an address.
use private_deploy.Base.{
  ◌≡◌, refl, false, inl, inr, Option, none, some, List, [], ◌∷◌, All, All-mono, String, str_eq,
  is_empty, trim, trim_idem, arith, Bool-cases,
}
use private_deploy.Cloud.Nodes.{CloudNode}
use private_deploy.Cloud.ManualImport.Types.{
  ManualNodeInput, ManualNodeConflict, Result, is_manual, trim_or_empty, is_current, same_address,
  conflict_with, first_of_two, first_conflict, first_foreign_conflict, find_manual_conflict,
  new_node,
}
use private_deploy.Cloud.ManualImport.Store.{
  ManualStore, ManualDeps, foreign, trimmed_input, make_node, create_manual_node,
}
use private_deploy.Cloud.ManualImport.Create.{create_manual_node-Accepted}

-- Two nodes that the checks let stand side by side.
abbrev pub Apart : CloudNode → CloudNode → Type 0
Apart a b =
    (str_eq a.label b.label ≡ false)
    × (same_address b.ipv4 a.ipv4 ≡ false)
    × (same_address b.ipv6 a.ipv6 ≡ false)

abbrev pub Unique : List CloudNode → Type 0
Unique [] = Unit
Unique (n ∷ ns) = All (λ m. Apart n m) ns × Unique ns

-- The node is told from the new one, but where it is the one that is updated.
abbrev pub ApartUnless : Option String → CloudNode → CloudNode → Type 0
ApartUnless current node n = is_current n.instance_id current ≡ false → Apart n node

-- What the new node is compared by.
abbrev against : CloudNode → Option String → CloudNode → Option ManualNodeConflict
against node current = conflict_with node.label node.ipv4 node.ipv6 current

conflict_with-Apart :
    (node n : CloudNode) (current : Option String)
    → is_empty node.label ≡ false
    → against node current n ≡ none
    → ApartUnless current node n
unfolding conflict_with
conflict_with-Apart node n current l h c = ground arith

first_of_two-none :
    {A : Type 0} (a b : Option A) → first_of_two a b ≡ none → (a ≡ none) × (b ≡ none)
first_of_two-none none b h = (refl, h)
first_of_two-none (some a) b h = cc

first_conflict-none :
    (test : CloudNode → Option ManualNodeConflict) (ns : List CloudNode)
    → first_conflict test ns ≡ none
    → All (λ n. test n ≡ none) ns
unfolding first_conflict
first_conflict-none test [] h = tt
first_conflict-none test (n ∷ ns) h =
    let q = first_of_two-none _ _ h in (q.0, first_conflict-none test ns q.1)

first_foreign_conflict-none :
    (test : CloudNode → Option ManualNodeConflict) (ns : List CloudNode)
    → first_foreign_conflict test ns ≡ none
    → All (λ n. test n ≡ none) (foreign ns)
unfolding first_foreign_conflict
first_foreign_conflict-none test [] h = tt
first_foreign_conflict-none test (n ∷ ns) h = elim (Bool-cases (is_manual n)) [
  | inl e ↦ rw e (first_foreign_conflict-none test ns (rw e at h))
  | inr e ↦
      let q = first_of_two-none _ _ (rw e at h) in
      rw e (q.0, first_foreign_conflict-none test ns q.1)
]

trim-trim_or_empty : (o : Option String) → trim (trim_or_empty o) ≡ trim_or_empty o
unfolding trim
trim-trim_or_empty none = refl
trim-trim_or_empty (some s) = trim_idem s

-- Nothing conflicts: the new node is told from all the nodes that are not replaced by it.
find_manual_conflict-none :
    (manual_nodes instances : List CloudNode) (input : ManualNodeInput) (current : Option String)
    (seed now : String)
    → is_empty (trim input.label) ≡ false
    → find_manual_conflict manual_nodes instances (trimmed_input input) current ≡ none
    → All (ApartUnless current (new_node input seed now)) manual_nodes
      × All (ApartUnless current (new_node input seed now)) (foreign instances)
unfolding find_manual_conflict new_node
find_manual_conflict-none manual_nodes instances input current seed now l h =
    let node = new_node input seed now in
    let q = first_of_two-none _ _ (
      rw (trim_idem input.label, trim-trim_or_empty input.ipv4, trim-trim_or_empty input.ipv6) at
        h) in
    (
      All-mono _ _ manual_nodes (λ n. conflict_with-Apart node n current l)
          (first_conflict-none (against node current) manual_nodes q.0),
      All-mono _ _ (foreign instances) (λ n. conflict_with-Apart node n current l)
          (first_foreign_conflict-none (against node current) instances q.1),
    )

module _ {W : Type 0} (deps : ManualDeps W) (input : ManualNodeInput) (s : ManualStore W)
    (current : Option String) where
  pub create_manual_node-Apart :
      (node : CloudNode)
      → (create_manual_node deps input current s).0 ≡ Result.ok node
      → All (ApartUnless current node) s.manual_nodes
        × All (ApartUnless current node) (foreign s.instances)
  create_manual_node-Apart node h =
      let (a, e) = create_manual_node-Accepted deps input s current node h in
      rw e (find_manual_conflict-none s.manual_nodes s.instances input current _ _ a.0 a.2)

  -- A creation draws an id at most.
  pub create_manual_node-keeps :
      ((create_manual_node deps input current s).1.manual_nodes ≡ s.manual_nodes)
      × ((create_manual_node deps input current s).1.instances ≡ s.instances)
  unfolding create_manual_node make_node
  create_manual_node-keeps = ground arith
