-- ===== src/Cloud/ManualImport/Handlers.antt =====
-- The handlers that add and update nodes.
use private_deploy.Base.{
  ℕ, Option, none, some, List, [], ◌∷◌, ◌++◌, String, str_eq, trim, text_or, if◌then◌else◌,
}
use private_deploy.Cloud.Nodes.{CloudNode}
use private_deploy.Cloud.ManualImport.Types.{
  JsNumber, whole, ManualNodeInput, ManualNodeConflict, ManualNodeSkipEntry, ManualError, Result,
}
use private_deploy.Cloud.ManualImport.Store.{
  ManualStore, ManualDeps, Handler, then_run, ◌>>=◌, ◌>>◌, result, call,
  sync_manual_nodes_into_instances, load_manual_nodes, create_manual_node,
}

-- The first node with the id.
abbrev pub node_with_id : String → List CloudNode → Option CloudNode
node_with_id id [] = none
node_with_id id (n ∷ ns) = if str_eq n.instance_id id then some n else node_with_id id ns

-- `nodes[index] = …` at the first node with the id.
unfoldable pub replace_first : String → CloudNode → List CloudNode → List CloudNode
replace_first id node [] = []
replace_first id node (n ∷ ns) =
    let rest = replace_first id node ns in if str_eq n.instance_id id then node ∷ ns else n ∷ rest

-- A node that is a duplicate, as it is reported.
abbrev pub skip_entry : ManualNodeConflict → ManualNodeSkipEntry
skip_entry conflict = record {
  identifier = conflict.value;
  reason = conflict.type;
  existing_label = conflict.existing.label;
  existing_provider = conflict.existing.provider;
}

-- `updates.x ?? current.x`
abbrev pub given_or : {A : Type 0} → Option A → Option A → Option A
given_or none b = b
given_or (some a) b = some a

abbrev pub port_input : Option ℕ → Option JsNumber
port_input none = none
port_input (some n) = some (whole n)

-- `merged` of `updateManualNode`: the server names and the insecure flags are not among its fields.
unfoldable pub merged : String → ManualNodeInput → CloudNode → String → ManualNodeInput
merged id updates current now = record {
  instance_id = some id;
  label = text_or (some (trim updates.label)) current.label;
  ipv4 = given_or updates.ipv4 current.ipv4;
  ipv6 = given_or updates.ipv6 current.ipv6;
  region = given_or updates.region current.region;
  plan = given_or updates.plan current.plan;
  ss_port = given_or updates.ss_port (port_input current.ss_port);
  ss_password = given_or updates.ss_password current.ss_password;
  hysteria_port = given_or updates.hysteria_port (port_input current.hysteria_port);
  hysteria_password = given_or updates.hysteria_password current.hysteria_password;
  hysteria_server_name = none;
  hysteria_insecure = none;
  vless_port = given_or updates.vless_port (port_input current.vless_port);
  vless_uuid = given_or updates.vless_uuid current.vless_uuid;
  vless_public_key = given_or updates.vless_public_key current.vless_public_key;
  vless_short_id = given_or updates.vless_short_id current.vless_short_id;
  vless_server_name = none;
  trojan_port = given_or updates.trojan_port (port_input current.trojan_port);
  trojan_password = given_or updates.trojan_password current.trojan_password;
  trojan_server_name = none;
  trojan_insecure = none;
  created_at = some (text_or current.created_at now);
}

-- The nodes that were added, and the duplicates that were skipped.
abbrev pub Added : Type 0
Added = List CloudNode × List ManualNodeSkipEntry

abbrev pub with_added :
    {W : Type 0} → CloudNode → Result Added × ManualStore W → Result Added × ManualStore W
with_added node (Result.ok (added, skipped), s) = (Result.ok (node ∷ added, skipped), s)
with_added node (Result.failed e, s) = (Result.failed e, s)

abbrev pub with_skipped :
    {W : Type 0} → ManualNodeSkipEntry → Result Added × ManualStore W → Result Added × ManualStore W
with_skipped entry (Result.ok (added, skipped), s) = (Result.ok (added, entry ∷ skipped), s)
with_skipped entry (Result.failed e, s) = (Result.failed e, s)

module _ {W : Type 0} (deps : ManualDeps W) where
  -- One round of the loop, on what `createManualNode` gave; `rest` are the rounds behind it.
  unfoldable pub add_round :
      Handler W Added → Result CloudNode × ManualStore W → Result Added × ManualStore W
  add_round rest (Result.ok node, s) =
      with_added node (rest (record s { manual_nodes = s.manual_nodes ++ (node ∷ []) }))
  add_round rest (Result.failed (ManualError.duplicate conflict), s) =
      with_skipped (skip_entry conflict) (rest s)
  add_round rest (Result.failed e, s) = (Result.failed e, s)

  unfoldable pub add_manual_nodes_internal : List ManualNodeInput → Handler W Added
  unfolding add_round create_manual_node
  add_manual_nodes_internal [] s = (Result.ok ([], []), s)
  add_manual_nodes_internal (input ∷ inputs) s =
      add_round (λ t. add_manual_nodes_internal inputs t) (create_manual_node deps input none s)

  -- A subscription for each added node; an error is logged.
  unfoldable pub connect_nodes : List CloudNode → ManualStore W → ManualStore W
  connect_nodes [] s = s
  connect_nodes (node ∷ nodes) s =
      let (r, w) = deps.ensure_subscription_for_node node s.world in
      connect_nodes nodes
        (record s { world = deps.mark_node_status node.instance_id "connected" w })

  -- What is done with the nodes that were added.
  unfoldable pub finish_adding : Added → Handler W Added
  unfolding connect_nodes sync_manual_nodes_into_instances
  finish_adding ([], []) s = (Result.ok ([], []), s)
  finish_adding ([], entry ∷ skipped) s =
      (Result.failed (ManualError.all_skipped (entry ∷ skipped)), s)
  finish_adding (node ∷ added, skipped) s =
      then_run
        (λ _ t. (
          Result.ok (node ∷ added, skipped),
          sync_manual_nodes_into_instances deps (connect_nodes (node ∷ added) t),
        ))
        (call (deps.save_manual_nodes s.manual_nodes) s)

  unfoldable pub add_manual_nodes : List ManualNodeInput → Handler W Added
  unfolding load_manual_nodes add_manual_nodes_internal finish_adding
  add_manual_nodes [] s = (Result.ok ([], []), s)
  add_manual_nodes (input ∷ inputs) s =
      (do
        load_manual_nodes deps
        added ← add_manual_nodes_internal (input ∷ inputs)
        finish_adding added)
        s

  abbrev pub first_added : Added → Result CloudNode
  first_added ([], skipped) = Result.failed (ManualError.other "duplicate")
  first_added (node ∷ added, skipped) = Result.ok node

  unfoldable pub add_manual_node : ManualNodeInput → Handler W CloudNode
  unfolding add_manual_nodes
  add_manual_node input = do added ← add_manual_nodes (input ∷ []); result (first_added added)

  -- The node that an update stores.
  abbrev pub updated_node : CloudNode → CloudNode → CloudNode
  updated_node current updated = record updated {
    provider = some "manual";
    status = some "active";
    status_text = some "connected";
    created_at = some (text_or current.created_at (text_or updated.created_at ""));
  }

  -- `updateManualNode` once the node is found.
  unfoldable pub store_update : String → CloudNode → CloudNode → Handler W CloudNode
  unfolding sync_manual_nodes_into_instances replace_first
  store_update id current updated s =
      let node = updated_node current updated in
      let nodes = replace_first id node s.manual_nodes in
      (do
        call (deps.save_manual_nodes nodes)
        call (deps.ensure_subscription_for_node node)
        λ t. (
          Result.ok node,
          sync_manual_nodes_into_instances deps
              (record t { world = deps.mark_node_status id "connected" t.world }),
        ))
        (record s { manual_nodes = nodes })

  unfoldable pub update_found : String → ManualNodeInput → Option CloudNode → Handler W CloudNode
  unfolding merged create_manual_node store_update
  update_found id updates none s = (Result.failed (ManualError.other "manual-node-not-found"), s)
  update_found id updates (some current) s =
      (do
        updated ←
            create_manual_node deps (merged id updates current (deps.iso_now s.world)) (some id)
        store_update id current updated)
        s

  unfoldable pub update_manual_node : String → ManualNodeInput → Handler W CloudNode
  unfolding load_manual_nodes update_found
  update_manual_node id updates = do
    load_manual_nodes deps
    λ s. update_found id updates (node_with_id id s.manual_nodes) s
