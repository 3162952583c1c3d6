-- ===== src/Cloud/ManualImport/Create.antt =====
-- What `createManualNode` accepts, and what it makes of it.
use private_deploy.Base.{
  ℕ, zero, suc, ◌≤◌, ◌≡◌, refl, Bool, true, false, ◌&&◌, ◌||◌, inl, inr, Option, none, some, String,
  leb, is_empty, has_text, starts_with, trim, trim_idem, ◌<>◌, arith, Bool-cases, if◌then◌else◌,
}
use private_deploy.Cloud.Nodes.{CloudNode}
use private_deploy.Cloud.Ids.Lemmas.{starts_with-prefix}
use private_deploy.Cloud.ManualImport.Types.{
  JsNumber, not_a_number, infinite, finite, ManualNodeInput, ManualError, Result, in_range,
  sanitize_port, trim_or_empty, find_manual_conflict, new_node, has_protocol, checked_protocol,
  ManualNodeConflict,
}
use private_deploy.Cloud.ManualImport.Store.{
  ManualStore, ManualDeps, seed_of, trimmed_input, unless_conflict, make_node, create_manual_node,
}

-- What makes an input one that a node is made of.
abbrev pub Accepted :
    {W : Type 0} → ManualStore W → ManualNodeInput → Option String → CloudNode → Type 0
Accepted s input current node =
    (is_empty (trim input.label) ≡ false)
    × ((is_empty (trim_or_empty input.ipv4) && is_empty (trim_or_empty input.ipv6)) ≡ false)
    × (find_manual_conflict s.manual_nodes s.instances (trimmed_input input) current ≡ none)
    × (has_protocol node ≡ true)

-- A guard that was passed.
passed :
    {A S : Type 0} (b : Bool) (e : ManualError) (s : S) (r : Result A × S) {a : A}
    → (if b then (Result.failed e, s) else r).0 ≡ Result.ok a
    → (b ≡ false) × (r.0 ≡ Result.ok a)
passed true e s r h = cc
passed false e s r h = (refl, h)

checked :
    (n node : CloudNode)
    → checked_protocol n ≡ Result.ok node
    → (has_protocol n ≡ true) × (node ≡ n)
checked n node h = elim (Bool-cases (has_protocol n)) [
  | inl e ↦ (e, same (rw e at h))
  | inr e ↦ absurd (refused (rw e at h))
]
  where
    same : Result.ok n ≡ Result.ok node → node ≡ n
    same q = cc

    refused :
        ◌≡◌ {A = Result CloudNode} (Result.failed ManualError.protocol_required) (Result.ok node)
        → ⊥
    refused q = cc

module _ {W : Type 0} (deps : ManualDeps W) (input : ManualNodeInput) (s : ManualStore W) where
  -- The node that the input would give.
  abbrev pub candidate : CloudNode
  candidate =
      let (seed, w) = seed_of deps.sample_id input.instance_id s.world in
      new_node input seed (deps.iso_now w)

  unless_conflict-ok :
      (c : Option ManualNodeConflict) (node : CloudNode)
      → (unless_conflict deps c input s).0 ≡ Result.ok node
      → (c ≡ none) × (has_protocol candidate ≡ true) × (node ≡ candidate)
  unfolding make_node
  unless_conflict-ok none node h = let q = checked candidate node h in (refl, q.0, q.1)
  unless_conflict-ok (some c) node h = cc

  pub create_manual_node-Accepted :
      (current : Option String) (node : CloudNode)
      → (create_manual_node deps input current s).0 ≡ Result.ok node
      → Accepted s input current candidate × (node ≡ candidate)
  unfolding create_manual_node
  create_manual_node-Accepted current node h =
      let (label, h1) = passed _ _ _ _ h in
      let (address, h2) = passed _ _ _ _ h1 in
      let q = unless_conflict-ok _ node h2 in ((label, address, q.0, q.1), q.2)

abbrev pub PortInRange : Option ℕ → Type 0
PortInRange none = Unit
PortInRange (some n) = (1 ≤ n) × (n ≤ 65535)

-- A node that a manual input may give.
pub record IsUsable (node : CloudNode) : Type 0 where
  pub labelled : is_empty node.label ≡ false
  pub tidy : trim node.label ≡ node.label
  pub addressed : (has_text node.ipv4 || has_text node.ipv6) ≡ true
  pub prefixed : starts_with node.instance_id "cloud-" ≡ true
  pub reachable : has_protocol node ≡ true
  pub ss_port : PortInRange node.ss_port
  pub hysteria_port : PortInRange node.hysteria_port
  pub vless_port : PortInRange node.vless_port
  pub trojan_port : PortInRange node.trojan_port

in_range-PortInRange : (n : ℕ) → PortInRange (in_range n)
in_range-PortInRange zero = tt
in_range-PortInRange (suc n) = elim (Bool-cases (leb (suc n) 65535)) [
  | inl e ↦ rw e (omega arith, ground arith)
  | inr e ↦ rw e tt
]

sanitize_port-PortInRange : (p : Option JsNumber) → PortInRange (sanitize_port p)
unfolding sanitize_port
sanitize_port-PortInRange none = tt
sanitize_port-PortInRange (some not_a_number) = tt
sanitize_port-PortInRange (some infinite) = tt
sanitize_port-PortInRange (some (finite true n f)) = tt
sanitize_port-PortInRange (some (finite false n f)) = in_range-PortInRange n

prefixed_id :
    (seed : String)
    → starts_with (if starts_with seed "cloud-" then seed else "cloud-" <> seed) "cloud-" ≡ true
prefixed_id seed = elim (Bool-cases (starts_with seed "cloud-")) [
  | inl e ↦ rw e e
  | inr e ↦ rw e (starts_with-prefix "cloud-" seed)
]

addressed_lem :
    (a b : String)
    → (is_empty a && is_empty b) ≡ false
    → (has_text (some a) || has_text (some b)) ≡ true
addressed_lem a b h = ground arith

new_node-IsUsable :
    (input : ManualNodeInput) (seed now : String)
    → is_empty (trim input.label) ≡ false
    → (is_empty (trim_or_empty input.ipv4) && is_empty (trim_or_empty input.ipv6)) ≡ false
    → has_protocol (new_node input seed now) ≡ true
    → IsUsable (new_node input seed now)
unfolding new_node
new_node-IsUsable input seed now l a p = record {
  labelled = l;
  tidy = trim_idem input.label;
  addressed = addressed_lem _ _ a;
  prefixed = prefixed_id seed;
  reachable = p;
  ss_port = sanitize_port-PortInRange input.ss_port;
  hysteria_port = sanitize_port-PortInRange input.hysteria_port;
  vless_port = sanitize_port-PortInRange input.vless_port;
  trojan_port = sanitize_port-PortInRange input.trojan_port;
}

-- A manual node is created only of an input with a label, an address and a protocol that is complete,
-- and only where nothing conflicts; then its label is not empty and has no white space around it, it
-- has an address, its id begins with cloud-, its ports lie between 1 and 65535, and one of its
-- protocols has a port and a secret.
pub create_manual_node-IsUsable :
    {W : Type 0} (deps : ManualDeps W) (input : ManualNodeInput) (s : ManualStore W)
    (current : Option String) (node : CloudNode)
    → (create_manual_node deps input current s).0 ≡ Result.ok node
    → Accepted s input current node × IsUsable node
create_manual_node-IsUsable deps input s current node h =
    let (a, e) = create_manual_node-Accepted deps input s current node h in
    rw e (a, new_node-IsUsable input _ _ a.0 a.1 a.3)
