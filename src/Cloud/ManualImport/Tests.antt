-- ===== src/Cloud/ManualImport/Tests.antt =====
-- A store over a file that holds one node; the world counts the ids that were drawn and keeps what
-- was saved.
use private_deploy.Base.{
  ℕ, suc, ◌≡◌, refl, true, false, Option, none, some, List, [], ◌∷◌, map, String, ◌<>◌, ok, threw,
  Distinct, show, trim,
}
use private_deploy.Cloud.Nodes.{CloudNode}
use private_deploy.Cloud.ManualImport.Types.{
  whole, finite, ManualNodeInput, Result, sanitize_port, new_node,
}
use private_deploy.Cloud.ManualImport.Store.{
  ManualStore, ManualDeps, load_manual_nodes, create_manual_node,
}
use private_deploy.Cloud.ManualImport.Handlers.{add_manual_nodes, update_manual_node}
use private_deploy.Cloud.ManualImport.Unique.{Unique}
use private_deploy.Cloud.ManualImport.Create.{Accepted, IsUsable, create_manual_node-IsUsable}
use private_deploy.Cloud.ManualImport.Adding.{add_manual_nodes-Unique}
use private_deploy.Cloud.ManualImport.Update.{id_of}
use private_deploy.Cloud.ManualImport.Updating.{Stored, update_manual_node-Stored}

record Disk : Type 0 where
  drawn : ℕ
  saved : List CloudNode

abbrev node : String → String → Option String → CloudNode
node id ip provider = record {
  instance_id = id;
  label = id;
  provider = provider;
  status = none;
  status_text = none;
  region = none;
  plan = none;
  ipv4 = some ip;
  ipv6 = none;
  port = none;
  password = none;
  created_at = none;
  ss_port = some 8388;
  ss_password = some "secret";
  hysteria_port = none;
  hysteria_password = none;
  hysteria_server_name = some "example.org";
  hysteria_insecure = some true;
  vless_port = none;
  vless_uuid = none;
  vless_public_key = none;
  vless_short_id = none;
  vless_server_name = none;
  trojan_port = none;
  trojan_password = none;
  trojan_server_name = none;
  trojan_insecure = none;
  vless_relay_port = none;
}

abbrev stored_node : CloudNode
stored_node = node "cloud-a" "8.8.8.8" (some "manual")

abbrev deps : ManualDeps Disk
deps = record {
  read_file = λ d. (ok "[…]", d);
  parse_nodes = λ text. ok (stored_node ∷ []);
  save_manual_nodes = λ nodes d. (ok tt, record d { saved = nodes });
  ensure_subscription_for_node = λ n d. (threw "offline", d);
  mark_node_status = λ id status d. d;
  now = λ d. 7;
  iso_now = λ d. "2025-01-01T00:00:00.000Z";
  sample_id = λ d. ("ID_" <> show d.drawn, record d { drawn = suc d.drawn });
}

abbrev input : String → String → ManualNodeInput
input label ip = record {
  instance_id = none;
  label = label;
  ipv4 = some ip;
  ipv6 = none;
  region = none;
  plan = none;
  ss_port = some (finite false 443 true);
  ss_password = some " pw ";
  hysteria_port = none;
  hysteria_password = none;
  hysteria_server_name = none;
  hysteria_insecure = none;
  vless_port = none;
  vless_uuid = none;
  vless_public_key = none;
  vless_short_id = none;
  vless_server_name = none;
  trojan_port = none;
  trojan_password = none;
  trojan_server_name = none;
  trojan_insecure = none;
  created_at = none;
}

abbrev start : ManualStore Disk
start = record {
  manual_nodes = [];
  manual_nodes_loaded = false;
  instances = node "x" "9.9.9.9" (some "vultr") ∷ [];
  instances_updated_at = none;
  world = record { drawn = 0; saved = [] };
}

abbrev after_load : ManualStore Disk
after_load = (load_manual_nodes deps start).1

-- A port keeps its integer part, and one that is out of range is dropped.
ports :
    map sanitize_port
      (some (finite false 443 true) ∷ some (whole 65536) ∷ some (finite true 1 false) ∷ none ∷ [])
    ≡ some 443 ∷ none ∷ none ∷ none ∷ []
unfolding sanitize_port
ports = refl

abbrev made : CloudNode
made = new_node (input " b " "1.1.1.1") "manual-ID_0" "2025-01-01T00:00:00.000Z"

created : (create_manual_node deps (input " b " "1.1.1.1") none after_load).0 ≡ Result.ok made
unfolding create_manual_node load_manual_nodes show trim
created = refl

loaded_nodes-Unique : Unique after_load.manual_nodes
unfolding load_manual_nodes
loaded_nodes-Unique = (tt, tt)

loaded_nodes-Distinct : Distinct (map id_of after_load.manual_nodes)
unfolding load_manual_nodes
loaded_nodes-Distinct = (refl, tt)

add_manual_nodes-Unique_example :
    Unique
      (add_manual_nodes deps (input "b" "1.1.1.1" ∷ input "c" "1.1.1.1" ∷ []) start).1.manual_nodes
add_manual_nodes-Unique_example =
    add_manual_nodes-Unique deps (input "b" "1.1.1.1") (input "c" "1.1.1.1" ∷ []) start
      loaded_nodes-Unique

create_manual_node-IsUsable_example :
    Accepted after_load (input " b " "1.1.1.1") none made × IsUsable made
create_manual_node-IsUsable_example =
    create_manual_node-IsUsable deps (input " b " "1.1.1.1") after_load none made created

-- The file was not written.
nothing_saved :
    (add_manual_nodes deps (input " b " "1.1.1.1" ∷ input " " "2.2.2.2" ∷ []) start).1.world.saved
    ≡ []
unfolding add_manual_nodes show trim
nothing_saved = refl

update_manual_node-Stored_example :
    Stored deps "cloud-a"
      (input "b" "1.1.1.1")
      after_load.manual_nodes
      (update_manual_node deps "cloud-a" (input "b" "1.1.1.1") start)
update_manual_node-Stored_example =
    update_manual_node-Stored deps "cloud-a" (input "b" "1.1.1.1") start

abbrev mixed : ManualStore Disk
mixed = record start {
  manual_nodes = node "m" "1.2.3.4" none ∷ node "v" "1.2.3.5" (some "vultr") ∷ [];
}
