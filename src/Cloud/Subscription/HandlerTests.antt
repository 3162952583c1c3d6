-- ===== src/Cloud/Subscription/HandlerTests.antt =====
-- A disk that notes the files that are written and the kernel's starts, with a clock.
use private_deploy.Base.{
  ◌<>◌, show, ℕ, suc, false, leb, length, filter, ◌≡◌, refl, true, none, List, [], ◌∷◌, ◌++◌,
  String, ok, threw, split, trim_start, starts_with, if◌then◌else◌,
}
use private_deploy.Cloud.Address.{is_public_ipv4_address, is_private_start, parse_int}
use private_deploy.Cloud.Ids.{subscription_id, is_managed_cloud_outbound_id}
use private_deploy.Cloud.Nodes.{CloudNode, has_usable_address}
use private_deploy.Cloud.SmartRouting.{default_outbound}
use private_deploy.Cloud.Subscription.Record.{new_subscription}
use private_deploy.Cloud.Subscription.Apply.{
  finished, waiting, StoredProfile, ApplyStore, ApplyDeps, get_subscribe_by_id,
  load_protocol_health, remove_subscription_for_node, ensure_subscription_for_node,
}
use private_deploy.Cloud.Subscription.Refers.{refers_to}
use private_deploy.Cloud.Subscription.Waiting.{remove_subscription_for_node-waiting}
use private_deploy.Cloud.Subscription.Move.{migrate_managed_node_identity}
use private_deploy.Cloud.Subscription.Frame.{Keeps}
use private_deploy.Cloud.Subscription.Moved.{migrate_managed_node_identity-Keeps}
use private_deploy.Cloud.Subscription.Unwritten.{
  with_write_file, WasUpdated, ensure_subscription_for_node-unwritten,
}
use private_deploy.Cloud.Subscription.Health.{verdicts}
use private_deploy.Cloud.Subscription.Probe.{store_verdicts}
use private_deploy.Cloud.Subscription.Settled.{Settles, store_verdicts-Settles}
use private_deploy.Cloud.Subscription.ApplyNode.{apply_node_to_profile}
use private_deploy.Cloud.Subscription.ApplyAll.{NodeCalls, apply_all_nodes_to_profile}
use private_deploy.Cloud.Subscription.Applied.{IsApplied, apply_node_to_profile-IsApplied}
use private_deploy.Cloud.Subscription.AppliedAll.{AppliesAll, apply_all_nodes_to_profile-AppliesAll}
use private_deploy.Cloud.Subscription.Tests.{target_status, node}

record Disk : Type 0 where
  clock : ℕ
  files : List String
  starts : ℕ

abbrev deps : ApplyDeps Disk
deps = record {
  read_health = λ d. ([], d);
  write_file = λ path os d. (ok tt, record d { files = d.files ++ (path ∷ []) });
  remove_file = λ path d. (threw "no such file", d);
  save_health = λ h d. (ok tt, d);
  save_subscribes = λ xs d. (ok tt, d);
  save_profiles = λ ps d. (ok tt, d);
  remove_proxy_from_groups = λ id d. d;
  running = λ d. true;
  reload_kernel = λ reason d. (ok tt, record d { starts = suc d.starts });
  reload_or_start_kernel = λ reason d. (ok tt, record d { starts = suc d.starts });
  refresh_provider_proxies = λ d. (ok tt, d);
  same_json = λ p q. true;
  cdn_deployment_for = λ id d. none;
  now = λ d. d.clock;
  sample_id = λ d. ("ID_" <> show d.clock, record d { clock = suc d.clock });
  translate = λ key. key;
  default_script = "const onSubscribe = …";
}

abbrev profile : String → StoredProfile
profile id = record {
  id = id;
  profile = record {
    inbounds = [];
    outbounds =
        record (default_outbound "select") {
          outbounds = record { id = "cloud-vultr-1"; type = "Subscription"; tag = "tokyo" } ∷ [];
        }
        ∷ [];
    rules = [];
    final = "select";
    auto_detect_interface = true;
  };
}

-- Two profiles offer the node, whose subscription was run at 1000.
abbrev start : ApplyStore Disk
start = record {
  protocol_health = [];
  protocol_health_loaded = true;
  subscribes =
      new_subscription "" "cloud-vultr-1" "tokyo" "data/subscribes/cloud-vultr-1.json" 1000 ∷ [];
  profiles = profile "p" ∷ profile "q" ∷ [];
  kernel_profile = "q";
  world = record { clock = 301000; files = []; starts = 0 };
}

ensure_subscription_for_node-unwritten_example :
    (ensure_subscription_for_node (with_write_file (λ path os d. (threw "full", d)) deps) node start
      ≡ ensure_subscription_for_node deps node start)
    × WasUpdated "cloud-vultr-1" 301000 (ensure_subscription_for_node deps node start)
unfolding has_usable_address is_public_ipv4_address split is_private_start parse_int subscription_id
    get_subscribe_by_id load_protocol_health trim_start starts_with
ensure_subscription_for_node-unwritten_example =
    ensure_subscription_for_node-unwritten deps node start
      (new_subscription "" "cloud-vultr-1" "tokyo" "data/subscribes/cloud-vultr-1.json" 1000)
      (λ path os d. (threw "full", d)) refl refl refl

remove_subscription_for_node-waiting_example :
    (remove_subscription_for_node deps "vultr-1" start).0 ≡ (
      if leb (length (filter (refers_to (subscription_id "vultr-1")) start.profiles)) 1
      then finished tt
      else waiting)
remove_subscription_for_node-waiting_example =
    remove_subscription_for_node-waiting deps "vultr-1" start (λ xs d. refl) (λ ps d. refl)

both_refer : length (filter (refers_to (subscription_id "vultr-1")) start.profiles) ≡ 2
unfolding subscription_id starts_with
both_refer = refl

-- The node under its new id.
abbrev moved_node : CloudNode
moved_node = record node { instance_id = "vultr-2" }

migrate_managed_node_identity-Keeps_example :
    Keeps "cloud-vultr-3" start (migrate_managed_node_identity deps "vultr-1" moved_node start)
unfolding subscription_id starts_with
migrate_managed_node_identity-Keeps_example =
    migrate_managed_node_identity-Keeps deps "cloud-vultr-3" "vultr-1" moved_node start refl refl

store_verdicts-Settles_example :
    Settles deps node target_status
      (store_verdicts deps node.instance_id (verdicts node target_status) false start)
store_verdicts-Settles_example = store_verdicts-Settles deps node target_status start refl

-- No profile is there, and none is chosen.
abbrev empty_start : ApplyStore Disk
empty_start = record start { profiles = []; kernel_profile = "" }

apply_node_to_profile-IsApplied_example :
    IsApplied deps node empty_start (apply_node_to_profile deps node none empty_start)
unfolding has_usable_address is_public_ipv4_address split is_private_start parse_int trim_start
    subscription_id is_managed_cloud_outbound_id starts_with
apply_node_to_profile-IsApplied_example =
    apply_node_to_profile-IsApplied deps node none empty_start refl refl tt

-- The node, a copy of it under another id, and the node again.
abbrev calls : NodeCalls Disk
calls = record {
  load_manual_nodes = λ d. (ok tt, d);
  sync_manual_nodes_into_instances = λ d. d;
  instances = λ d. node ∷ moved_node ∷ node ∷ [];
  mark_node_status = λ id status d. d;
}

apply_all_nodes_to_profile-AppliesAll_example :
    AppliesAll deps calls start (apply_all_nodes_to_profile deps calls start)
unfolding subscription_id is_managed_cloud_outbound_id starts_with
apply_all_nodes_to_profile-AppliesAll_example =
    apply_all_nodes_to_profile-AppliesAll deps calls (λ w. (refl, (refl, (refl, tt)))) start
      (tt, (tt, tt))

only_the_new_one : (apply_all_nodes_to_profile deps calls start).0 ≡ finished ("vultr-2" ∷ [])
unfolding apply_all_nodes_to_profile has_usable_address is_public_ipv4_address split
    is_private_start parse_int trim_start subscription_id starts_with
only_the_new_one = refl

new_profile_chosen :
    (apply_node_to_profile deps node none empty_start).1.kernel_profile ≡ "ID_301000"
unfolding apply_node_to_profile has_usable_address is_public_ipv4_address split is_private_start
    parse_int trim_start subscription_id starts_with show
new_profile_chosen = refl
