-- ===== src/Cloud/SmartRouting/Apply.antt =====
-- The managed rules, the final outbound and the whole of `ensureSmartAutoRouting`:
-- frontend/src/stores/cloud/smartRouting.ts.
use private_deploy.Base.{
  ℕ, suc, Bool, true, false, not, ◌&&◌, Option, none, some, List, [], ◌∷◌, ◌++◌, map, filter,
  length, take, drop, String, str_eq, one_of, if◌then◌else◌,
}
use private_deploy.Cloud.Ids.{
  smart_auto, smart_tcp_primary, smart_tcp_secondary, smart_udp_auto, smart_hysteria_auto,
  legacy_outbounds, is_managed_cloud_outbound_id, ProtocolHealthMap,
}
use private_deploy.Cloud.SmartRouting.{
  IProxy, IOutbound, IRule, IProfile, CloudSubscriptionEntry, update_first, find_outbound_tag,
}
use private_deploy.Cloud.SmartRouting.Routes.{
  upsert_built_in_child, collect_subscription_entries, ensure_link_aggregation, add_node_outbounds,
  add_global_outbounds,
}

-- `DefaultOutboundIds`
abbrev pub direct_id : String
direct_id = "outbound-direct"

abbrev pub fallback_id : String
fallback_id = "outbound-fallback"

abbrev pub rule_tcp443 : String
rule_tcp443 = "rule-smart-tcp-443-route"

abbrev pub rule_tcp_web : String
rule_tcp_web = "rule-smart-tcp-web-route"

abbrev pub rule_udp : String
rule_udp = "rule-smart-udp-route"

-- `managedRuleIdSet`
abbrev pub managed_rule_ids : List String
managed_rule_ids =
    rule_tcp443 ∷ rule_tcp_web ∷ rule_udp ∷ "cloud-smart-udp-route" ∷ "rule-smart-tcp-443-route"
    ∷ "rule-smart-tcp-web-route" ∷ []

abbrev pub keeps_children : IOutbound → IOutbound
keeps_children o = record o {
  outbounds = filter (λ c. not (is_managed_cloud_outbound_id c.id)) o.outbounds;
}

-- What the function made before is taken out of the outbounds and their children.
unfoldable pub clean_outbounds : List IOutbound → List IOutbound
clean_outbounds os = map keeps_children (filter (λ o. not (is_managed_cloud_outbound_id o.id)) os)

abbrev pub is_own_rule : IRule → Bool
is_own_rule r = not (one_of r.id managed_rule_ids) && not (is_managed_cloud_outbound_id r.outbound)

unfoldable pub clean_rules : List IRule → List IRule
clean_rules rules = filter is_own_rule rules

abbrev rule : String → String → String → String → IRule
rule id type payload outbound = record {
  id = id;
  type = type;
  payload = payload;
  invert = false;
  action = "route";
  outbound = outbound;
  sniffer = [];
  strategy = "default";
  server = "";
}

abbrev pub managed_rules : List IRule
managed_rules =
    rule rule_tcp443 "port" "443" smart_tcp_primary
    ∷ rule rule_tcp_web "port" "80,8080" smart_tcp_secondary
    ∷ rule rule_udp "network" "udp" smart_udp_auto
    ∷ []

abbrev pub is_direct : IRule → Bool
is_direct r = str_eq r.outbound direct_id

abbrev pub next : Option ℕ → Bool → Option ℕ
next (some i) b = some (suc i)
next none true = some 0
next none false = none

-- `insertAfter`, which is `none` for -1: the loop from the end finds the last direct rule.
unfoldable pub insert_after : List IRule → Option ℕ
insert_after [] = none
insert_after (r ∷ rs) = next (insert_after rs) (is_direct r)

abbrev pub splice : Option ℕ → List IRule → List IRule
splice none rules = rules ++ managed_rules
splice (some i) rules = take (suc i) rules ++ (managed_rules ++ drop (suc i) rules)

unfoldable pub place_rules : List IRule → List IRule
unfolding insert_after
place_rules rules = splice (insert_after rules) rules

-- `autoManagedFinalIds`
abbrev pub auto_managed_final_ids : List String
auto_managed_final_ids =
    "" ∷ fallback_id ∷ "outbound-urlte" ∷ "outbound-select" ∷ smart_auto ∷ legacy_outbounds

unfoldable pub choose_final : String → String
choose_final final = if one_of final auto_managed_final_ids then smart_auto else final

-- `{ id, type: 'Built-in', tag: findOutboundTag(profile, id) }`
abbrev pub smart_child : List IOutbound → String → IProxy
smart_child os id = record { id = id; type = "Built-in"; tag = find_outbound_tag os id }

-- `smartOutboundRefs`
abbrev pub smart_outbound_refs : List (String × ℕ)
smart_outbound_refs =
    (smart_auto, 0)
    ∷ (smart_tcp_primary, 1)
    ∷ (smart_tcp_secondary, 2)
    ∷ (smart_udp_auto, 3)
    ∷ (smart_hysteria_auto, 4)
    ∷ []

unfoldable pub wire_children : List IOutbound → List (String × ℕ) → List IProxy → List IProxy
wire_children os [] cs = cs
wire_children os ((id, index) ∷ refs) cs =
    wire_children os refs (upsert_built_in_child (smart_child os id) index cs)

-- The first outbound with the id of the fallback, if it is a selector.
unfoldable pub wire_fallback : List IOutbound → List IOutbound
wire_fallback os =
    update_first fallback_id
      (λ o.
        if str_eq o.type "selector"
        then record o { outbounds = wire_children os smart_outbound_refs o.outbounds }
        else o)
      os

abbrev pub route_entries : List CloudSubscriptionEntry → IProfile → IProfile
route_entries [] profile = profile
route_entries (e ∷ es) profile = record profile {
  outbounds =
      wire_fallback (add_global_outbounds (e ∷ es) (add_node_outbounds (e ∷ es) profile.outbounds));
  rules = place_rules profile.rules;
  final = choose_final profile.final;
}

unfoldable pub clean_profile : IProfile → IProfile
unfolding clean_outbounds clean_rules
clean_profile profile = record profile {
  outbounds = clean_outbounds profile.outbounds;
  rules = clean_rules profile.rules;
}

unfoldable pub ensure_smart_auto_routing : IProfile → ProtocolHealthMap → IProfile
unfolding clean_profile ensure_link_aggregation
ensure_smart_auto_routing profile health =
    let cleaned = clean_profile profile in
    let subscriptions = collect_subscription_entries cleaned.outbounds health in
    route_entries subscriptions (ensure_link_aggregation cleaned (length subscriptions))
