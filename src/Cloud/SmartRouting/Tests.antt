-- ===== src/Cloud/SmartRouting/Tests.antt =====
-- A small profile with two cloud nodes below its fallback.
use private_deploy.Cloud.SmartRouting.Balance.{
  ends_with, other_inbound, socks_inbound, other_rule, inbound_rule, SingBoxConfig,
  node_outbound_tags, inject_nodes, inject_load_balance_config,
}
use private_deploy.Base.{
  ℕ, show, some, none, ◌≡◌, refl, ◌⊎◌, true, false, List, [], ◌∷◌, ◌++◌, String, starts_with,
}
use private_deploy.Cloud.Ids.{
  ProtocolHealthMap, is_managed_cloud_outbound_id, smart_auto, smart_udp_auto,
}
use private_deploy.Cloud.SmartRouting.{
  IProxy, IOutbound, IRule, IProfile, CloudSubscriptionEntry, default_outbound, has_outbound,
}
use private_deploy.Cloud.SmartRouting.Routes.{collect_subscription_entries}
use private_deploy.Cloud.SmartRouting.Apply.{
  clean_rules, ensure_smart_auto_routing, fallback_id, insert_after, place_rules, managed_rules,
  choose_final,
}
use private_deploy.Cloud.SmartRouting.Again.{ensure_smart_auto_routing_idem}
use private_deploy.Cloud.SmartRouting.Order.{Split, ensure_smart_auto_routing-rules}
use private_deploy.Cloud.SmartRouting.Closed.{IsRouted, serves, ensure_smart_auto_routing-IsRouted}

abbrev child : String → IProxy
child id = record { id = id; type = "Subscription"; tag = id }

abbrev built_in : String → IProxy
built_in id = record { id = id; type = "Built-in"; tag = "old" }

abbrev fallback : IOutbound
fallback = record (default_outbound fallback_id) {
  outbounds = built_in "outbound-direct" ∷ child "cloud-do-1" ∷ child "cloud-2" ∷ [];
}

abbrev rule_to : String → String → IRule
rule_to id outbound = record {
  id = id;
  type = "domain";
  payload = "example.org";
  invert = false;
  action = "route";
  outbound = outbound;
  sniffer = [];
  strategy = "default";
  server = "";
}

abbrev profile : IProfile
profile = record {
  inbounds = [];
  outbounds = fallback ∷ [];
  rules = rule_to "r1" "outbound-direct" ∷ rule_to "r2" "outbound-select" ∷ [];
  final = "outbound-select";
  auto_detect_interface = true;
}

abbrev health : ProtocolHealthMap
health =
    (
      "2",
      ("trojan", record { state = "degraded"; reason = "manual-override"; updated_at = 1 }) ∷ [],
    )
    ∷ []

placed :
    place_rules profile.rules
    ≡ rule_to "r1" "outbound-direct" ∷ (managed_rules ++ (rule_to "r2" "outbound-select" ∷ []))
unfolding place_rules insert_after
placed = refl

chosen : choose_final profile.final ≡ smart_auto
unfolding choose_final
chosen = refl

ensure_smart_auto_routing_idem_example :
    ensure_smart_auto_routing (ensure_smart_auto_routing profile health) health
    ≡ ensure_smart_auto_routing profile health
ensure_smart_auto_routing_idem_example = ensure_smart_auto_routing_idem profile health

ensure_smart_auto_routing-rules_example :
    (ensure_smart_auto_routing profile health).rules ≡ clean_rules profile.rules
    ⊎ Split (clean_rules profile.rules) (ensure_smart_auto_routing profile health).rules
ensure_smart_auto_routing-rules_example = ensure_smart_auto_routing-rules profile health

abbrev before : List IProxy
before = built_in smart_udp_auto ∷ child "cloud-2" ∷ []

abbrev entry : CloudSubscriptionEntry
entry = record {
  id = "cloud-2";
  type = "Subscription";
  tag = "Paris";
  instance_id = "2";
  managed_exclude = "";
}

-- A configuration with three outbounds, two of them for nodes; other inbounds and rules are numbers.
abbrev config : SingBoxConfig ℕ ℕ
config = record {
  outbound_tags =
      some "direct"
      ∷ some "Cloud Node Paris Best Auto"
      ∷ none
      ∷ some "Cloud Node Rome Best Auto"
      ∷ [];
  inbounds = other_inbound 1 ∷ [];
  rules = other_rule 2 ∷ [];
}

injected : inject_load_balance_config 9000 config ≡ (
  9000 ∷ 9001 ∷ [],
  record config {
    inbounds =
        other_inbound 1 ∷ socks_inbound "lb-node-0" 9000 ∷ socks_inbound "lb-node-1" 9001 ∷ [];
    rules =
        inbound_rule "lb-node-1" "Cloud Node Rome Best Auto"
        ∷ inbound_rule "lb-node-0" "Cloud Node Paris Best Auto"
        ∷ other_rule 2
        ∷ [];
  },
)
unfolding inject_load_balance_config inject_nodes node_outbound_tags ends_with starts_with show
injected = refl

-- The last node has left, and the final outbound is still the one that the function chose.
abbrev left_profile : IProfile
left_profile = record profile {
  outbounds =
      default_outbound smart_auto
      ∷ default_outbound "outbound-direct"
      ∷ default_outbound "outbound-select"
      ∷ [];
  final = smart_auto;
}

ensure_smart_auto_routing-IsRouted_example :
    IsRouted left_profile.final
      (serves left_profile health)
      (ensure_smart_auto_routing left_profile health)
ensure_smart_auto_routing-IsRouted_example =
    ensure_smart_auto_routing-IsRouted left_profile health (refl, (refl, tt)) refl

nothing_is_final :
    let next = ensure_smart_auto_routing left_profile health in
    has_outbound next.final next.outbounds ≡ false
unfolding ensure_smart_auto_routing starts_with collect_subscription_entries
    is_managed_cloud_outbound_id
nothing_is_final = refl
