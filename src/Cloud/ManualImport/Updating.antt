-- ===== src/Cloud/ManualImport/Updating.antt =====
-- The handler that updates a node, as a whole.
use private_deploy.Base.{◌≡◌, refl, sym, ap, ◌∙◌, Option, none, some, List, map, Distinct, String}
use private_deploy.Cloud.Nodes.{CloudNode}
use private_deploy.Cloud.ManualImport.Types.{ManualNodeInput, Result, new_node}
use private_deploy.Cloud.ManualImport.Store.{
  ManualStore, ManualDeps, Handler, then_run, call, load_manual_nodes, create_manual_node,
}
use private_deploy.Cloud.ManualImport.Handlers.{
  node_with_id, replace_first, merged, updated_node, store_update, update_found, update_manual_node,
}
use private_deploy.Cloud.ManualImport.Create.{
  IsUsable, create_manual_node-Accepted, create_manual_node-IsUsable,
}
use private_deploy.Cloud.ManualImport.Unique.{Unique, create_manual_node-keeps}
use private_deploy.Cloud.ManualImport.Update.{id_of, created-Unique, store_update-manual_nodes}

-- What an update drops.
abbrev pub HasNoNames : CloudNode → Type 0
HasNoNames node =
    (node.hysteria_server_name ≡ none)
    × (node.hysteria_insecure ≡ none)
    × (node.vless_server_name ≡ none)
    × (node.trojan_server_name ≡ none)
    × (node.trojan_insecure ≡ none)

-- The node that a call returns, where it returns.
abbrev Gives : {W : Type 0} → CloudNode → Result CloudNode × ManualStore W → Type 0
Gives node (Result.ok n, t) = n ≡ node
Gives node (Result.failed e, t) = Unit

then_run-Gives :
    {W A : Type 0} (node : CloudNode) (f : A → Handler W CloudNode) (r : Result A × ManualStore W)
    → ((a : A) (t : ManualStore W) → Gives node (f a t))
    → Gives node (then_run f r)
then_run-Gives node f (Result.ok a, t) h = h a t
then_run-Gives node f (Result.failed e, t) h = tt

module _ {W : Type 0} (deps : ManualDeps W) (id : String) (updates : ManualNodeInput) where
  nameless :
      (current : CloudNode) (seed now now' : String)
      → HasNoNames (updated_node deps current (new_node (merged id updates current now') seed now))
  unfolding new_node merged
  nameless current seed now now' = (refl, refl, refl, refl, refl)

  -- After an update of the nodes: it stored the returned node in the place of the one with the id.
  abbrev pub Stored : List CloudNode → Result CloudNode × ManualStore W → Type 0
  Stored before (Result.failed e, t) = Unit
  Stored before (Result.ok node, t) =
      (t.manual_nodes ≡ replace_first id node before) × IsUsable node × HasNoNames node

  found-Unique :
      (current : Option CloudNode) (s : ManualStore W)
      → Distinct (map id_of s.manual_nodes)
      → Unique s.manual_nodes
      → Unique (update_found deps id updates current s).1.manual_nodes
  unfolding update_found
  found-Unique none s d u = u
  found-Unique (some current) s d u =
      created-Unique deps id current (merged id updates current (deps.iso_now s.world)) s _ refl d u

  load_run-Unique :
      (r : Result (Unit {0}) × ManualStore W)
      → Distinct (map id_of r.1.manual_nodes)
      → Unique r.1.manual_nodes
      → Unique
          (then_run
            (λ _ s. update_found deps id updates (node_with_id id s.manual_nodes) s)
            r).1.manual_nodes
  load_run-Unique (Result.ok a, s) d u = found-Unique (node_with_id id s.manual_nodes) s d u
  load_run-Unique (Result.failed e, s) d u = u

  -- Where the nodes that are loaded have distinct ids and share no label and no address, an update
  -- leaves nodes that share none, whether or not the call failed.
  pub update_manual_node-Unique :
      (s : ManualStore W)
      → Distinct (map id_of (load_manual_nodes deps s).1.manual_nodes)
      → Unique (load_manual_nodes deps s).1.manual_nodes
      → Unique (update_manual_node deps id updates s).1.manual_nodes
  unfolding update_manual_node
  update_manual_node-Unique s d u = load_run-Unique (load_manual_nodes deps s) d u

  store_update-Gives :
      (current updated : CloudNode) (s : ManualStore W)
      → Gives (updated_node deps current updated) (store_update deps id current updated s)
  unfolding store_update
  store_update-Gives current updated s =
      let node = updated_node deps current updated in
      then_run-Gives node _ (call (deps.save_manual_nodes (replace_first id node s.manual_nodes)) _)
        λ a t. then_run-Gives node _ (call (deps.ensure_subscription_for_node node) t) λ a t. refl

  stored :
      (before : List CloudNode) (node : CloudNode) (r : Result CloudNode × ManualStore W)
      → r.1.manual_nodes ≡ replace_first id node before
      → Gives node r
      → IsUsable node
      → HasNoNames node
      → Stored before r
  stored before node (Result.ok n, t) e g u h = rw g (e, u, h)
  stored before node (Result.failed x, t) e g u h = tt

  usable : (current node : CloudNode) → IsUsable node → IsUsable (updated_node deps current node)
  usable current node u = record {
    labelled = u.labelled;
    tidy = u.tidy;
    addressed = u.addressed;
    prefixed = u.prefixed;
    reachable = u.reachable;
    ss_port = u.ss_port;
    hysteria_port = u.hysteria_port;
    vless_port = u.vless_port;
    trojan_port = u.trojan_port;
  }

  created-Stored :
      (current : CloudNode) (now : String) (s : ManualStore W)
      (r : Result CloudNode × ManualStore W)
      → create_manual_node deps (merged id updates current now) (some id) s ≡ r
      → Stored s.manual_nodes (then_run (λ updated. store_update deps id current updated) r)
  created-Stored current now s (Result.ok node, t) q =
      let input = merged id updates current now in
      let kept : t.manual_nodes ≡ s.manual_nodes =
        ap (λ x. x.1.manual_nodes) (sym q) ∙ (create_manual_node-keeps deps input s (some id)).0 in
      stored s.manual_nodes (updated_node deps current node) _
        (store_update-manual_nodes deps id current node t
          ∙ ap (replace_first id (updated_node deps current node)) kept)
        (store_update-Gives current node t)
        (usable current node
          (create_manual_node-IsUsable deps input s (some id) node (ap (λ x. x.0) q)).1)
        (rw (create_manual_node-Accepted deps input s (some id) node (ap (λ x. x.0) q)).1
          (nameless current _ _ now))
  created-Stored current now s (Result.failed e, t) q = tt

  found-Stored :
      (current : Option CloudNode) (s : ManualStore W)
      → Stored s.manual_nodes (update_found deps id updates current s)
  unfolding update_found
  found-Stored none s = tt
  found-Stored (some current) s = created-Stored current (deps.iso_now s.world) s _ refl

  load_run-Stored :
      (r : Result (Unit {0}) × ManualStore W)
      → Stored r.1.manual_nodes
          (then_run (λ _ s. update_found deps id updates (node_with_id id s.manual_nodes) s) r)
  load_run-Stored (Result.ok a, s) = found-Stored (node_with_id id s.manual_nodes) s
  load_run-Stored (Result.failed e, s) = tt

  -- An update that returns has put the returned node in the place of the first loaded node with the
  -- id and left the others. The node is usable as a created one is; it has no server name and no
  -- insecure flag, whatever the node before it and the updates had.
  pub update_manual_node-Stored :
      (s : ManualStore W)
      → Stored (load_manual_nodes deps s).1.manual_nodes (update_manual_node deps id updates s)
  unfolding update_manual_node
  update_manual_node-Stored s = load_run-Stored (load_manual_nodes deps s)
