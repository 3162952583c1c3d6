-- ===== src/Cloud/ManualImport/Update.antt =====
-- Updating a node.
use private_deploy.Base.{
  ◌≡◌, refl, sym, ap, ◌∙◌, true, false, inl, inr, Option, none, some, List, [], ◌∷◌, map, All,
  Distinct, one_of, String, str_eq, str_eq_sym, arith, Bool-cases,
}
use text.Mathlib.TextEquality.{eq_iff}
use private_deploy.Cloud.Nodes.{CloudNode}
use private_deploy.Cloud.ManualImport.Types.{ManualNodeInput, Result, same_address}
use private_deploy.Cloud.ManualImport.Store.{
  ManualStore, ManualDeps, then_run, call, sync_manual_nodes_into_instances, create_manual_node,
}
use private_deploy.Cloud.ManualImport.Handlers.{replace_first, updated_node, store_update}
use private_deploy.Cloud.ManualImport.Unique.{
  Apart, ApartUnless, Unique, create_manual_node-Apart, create_manual_node-keeps,
}
use private_deploy.Cloud.ManualImport.Add.{call-manual_nodes, then_run-manual_nodes}

abbrev pub id_of : CloudNode → String
id_of node = node.instance_id

same_address_sym : (a b : Option String) → same_address a b ≡ same_address b a
same_address_sym none none = refl
same_address_sym none (some b) = refl
same_address_sym (some a) none = refl
same_address_sym (some a) (some b) = ground (arith, eq_iff a b, eq_iff b a)

Apart-sym : (a b : CloudNode) → Apart a b → Apart b a
Apart-sym a b h = (
  str_eq_sym b.label a.label ∙ h.0,
  same_address_sym a.ipv4 b.ipv4 ∙ h.1,
  same_address_sym a.ipv6 b.ipv6 ∙ h.2,
)

-- The nodes behind the first one with an id have other ids.
others_differ :
    (x id : String) (ns : List CloudNode)
    → str_eq x id ≡ true
    → one_of x (map id_of ns) ≡ false
    → All (λ n. str_eq n.instance_id id ≡ false) ns
others_differ x id [] e h = tt
others_differ x id (n ∷ ns) e h = (
  ground (arith, eq_iff x id, eq_iff n.instance_id id, eq_iff x n.instance_id),
  others_differ x id ns e (ground arith),
)

All-replace_first :
    (P : CloudNode → Type 0) (id : String) (node : CloudNode) (ns : List CloudNode)
    → P node
    → All P ns
    → All P (replace_first id node ns)
unfolding replace_first
All-replace_first P id node [] p h = tt
All-replace_first P id node (n ∷ ns) p h = elim (Bool-cases (str_eq n.instance_id id)) [
  | inl e ↦ rw e (p, h.1)
  | inr e ↦ rw e (h.0, All-replace_first P id node ns p h.1)
]

Unique-replace_first :
    (id : String) (node : CloudNode) (ns : List CloudNode)
    → Distinct (map id_of ns)
    → Unique ns
    → All (ApartUnless (some id) node) ns
    → Unique (replace_first id node ns)
unfolding replace_first
Unique-replace_first id node [] d u a = tt
Unique-replace_first id node (n ∷ ns) d u a = elim (Bool-cases (str_eq n.instance_id id)) [
  | inl e ↦ rw e (apart_from_all ns (others_differ n.instance_id id ns e d.0) a.1, u.1)
  | inr e ↦ rw e (
    All-replace_first (Apart n) id node ns (a.0 e) u.0,
    Unique-replace_first id node ns d.1 u.1 a.1,
  )
]
  where
    apart_from_all :
        (ms : List CloudNode)
        → All (λ m. str_eq m.instance_id id ≡ false) ms
        → All (ApartUnless (some id) node) ms
        → All (Apart node) ms
    apart_from_all = elim [
      | [] ↦ λ h k. tt
      | m ∷ (ms → ih) ↦ λ h k. (Apart-sym m node (k.0 h.0), ih h.1 k.1)
    ]

module _ {W : Type 0} (deps : ManualDeps W) where
  pub store_update-manual_nodes :
      (id : String) (current updated : CloudNode) (s : ManualStore W)
      → (store_update deps id current updated s).1.manual_nodes
        ≡ replace_first id (updated_node deps current updated) s.manual_nodes
  unfolding store_update sync_manual_nodes_into_instances
  store_update-manual_nodes id current updated s =
      let node = updated_node deps current updated in
      let nodes = replace_first id node s.manual_nodes in
      let s' : ManualStore W = record s { manual_nodes = nodes } in
      then_run-manual_nodes _ (call (deps.save_manual_nodes nodes) s') nodes
        (call-manual_nodes s' (deps.save_manual_nodes nodes s'.world))
        λ a t e.
          then_run-manual_nodes _ (call (deps.ensure_subscription_for_node node) t) nodes
            (call-manual_nodes t (deps.ensure_subscription_for_node node t.world) ∙ e) λ a t e. e

  pub created-Unique :
      (id : String) (current : CloudNode) (input : ManualNodeInput) (s : ManualStore W)
      (r : Result CloudNode × ManualStore W)
      → create_manual_node deps input (some id) s ≡ r
      → Distinct (map id_of s.manual_nodes)
      → Unique s.manual_nodes
      → Unique (then_run (λ updated. store_update deps id current updated) r).1.manual_nodes
  created-Unique id current input s (Result.ok node, t) q d u =
      let kept : t.manual_nodes ≡ s.manual_nodes =
        ap (λ x. x.1.manual_nodes) (sym q) ∙ (create_manual_node-keeps deps input s (some id)).0 in
      let apart = (create_manual_node-Apart deps input s (some id) node (ap (λ x. x.0) q)).0 in
      rw (store_update-manual_nodes id current node t, kept)
        (Unique-replace_first id (updated_node deps current node) s.manual_nodes d u apart)
  created-Unique id current input s (Result.failed e, t) q d u =
      rw (ap (λ x. x.1.manual_nodes) (sym q) ∙ (create_manual_node-keeps deps input s (some id)).0)
        u
