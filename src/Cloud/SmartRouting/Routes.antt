-- ===== src/Cloud/SmartRouting/Routes.antt =====
-- `ensureSmartAutoRouting` and its parts: frontend/src/stores/cloud/smartRouting.ts.
use private_deploy.Base.{
  ℕ, max, Bool, false, not, ◌&&◌, ◌||◌, Option, none, some, List, [], ◌∷◌, ◌++◌, map, length, take,
  drop, String, ◌<>◌, str_eq, is_empty, starts_with, text_or, leb, if◌then◌else◌,
}
use private_deploy.Base.Dict.{Dict, lookup, insert}
use private_deploy.Cloud.Ids.{
  cloud_subscription_prefix, smart_auto, smart_tcp_primary, smart_tcp_secondary, smart_udp_auto,
  smart_hysteria_auto, node_smart_outbound_id, is_managed_cloud_outbound_id,
  cloud_instance_id_from_subscription_ref, ProtocolHealthMap, derive_managed_exclude,
  shadowsocks_pattern, hysteria2_pattern,
}
use private_deploy.Cloud.SmartRouting.{
  InboundListen, IInbound, IProxy, IOutbound, IProfile, CloudSubscriptionEntry, default_test_url,
  secondary_probe_url, ensure_outbound, has_type, sync_subscription_entries, sync_built_in_entries,
}

-- Takes out the first child with the id that is built in.
unfoldable pub remove_built_in : String → List IProxy → List IProxy
remove_built_in id [] = []
remove_built_in id (c ∷ cs) =
    let rest = remove_built_in id cs in
    if str_eq c.id id && has_type "Built-in" c then cs else c ∷ rest

unfoldable pub upsert_built_in_child : IProxy → ℕ → List IProxy → List IProxy
unfolding remove_built_in
upsert_built_in_child child index children =
    let current = remove_built_in child.id children in
    if leb index (length current)
    then take index current ++ (child ∷ drop index current)
    else current ++ (child ∷ [])

-- A child that names a cloud subscription.
abbrev pub is_cloud_child : IProxy → Bool
is_cloud_child child =
    has_type "Subscription" child
    && (not (is_empty child.id) && starts_with child.id cloud_subscription_prefix)

abbrev pub entry_of : ProtocolHealthMap → IProxy → CloudSubscriptionEntry
entry_of health child =
    let instance_id = cloud_instance_id_from_subscription_ref child.id in
    record {
      id = child.id;
      type = "Subscription";
      tag = text_or (some child.tag) child.id;
      instance_id = instance_id;
      managed_exclude = derive_managed_exclude (lookup instance_id health);
    }

abbrev collect_children :
    ProtocolHealthMap → List IProxy → Dict CloudSubscriptionEntry → Dict CloudSubscriptionEntry
collect_children health [] dedup = dedup
collect_children health (c ∷ cs) dedup =
    collect_children health cs
      (if is_cloud_child c then insert c.id (entry_of health c) dedup else dedup)

-- A selector or a group by delay that is not managed.
abbrev pub is_source : IOutbound → Bool
is_source o =
    not (is_managed_cloud_outbound_id o.id) && (str_eq o.type "selector" || str_eq o.type "urltest")

abbrev collect :
    ProtocolHealthMap → List IOutbound → Dict CloudSubscriptionEntry → Dict CloudSubscriptionEntry
collect health [] dedup = dedup
collect health (o ∷ os) dedup =
    collect health os (if is_source o then collect_children health o.outbounds dedup else dedup)

abbrev values : Dict CloudSubscriptionEntry → List CloudSubscriptionEntry
values d = map (λ e. e.1) d

unfoldable pub collect_subscription_entries :
    List IOutbound → ProtocolHealthMap → List CloudSubscriptionEntry
collect_subscription_entries outbounds health = values (collect health outbounds [])

abbrev pub set_listen : Bool → Option InboundListen → Option InboundListen
set_listen b none = none
set_listen b (some l) = some (record l { tcp_multi_path = b })

unfoldable pub set_multi_path : Bool → IInbound → IInbound
set_multi_path b inbound =
    if str_eq inbound.type "mixed"
    then record inbound { mixed = set_listen b inbound.mixed }
    else if str_eq inbound.type "socks"
    then record inbound { socks = set_listen b inbound.socks }
    else if str_eq inbound.type "http"
    then record inbound { http = set_listen b inbound.http }
    else inbound

unfoldable pub ensure_link_aggregation : IProfile → ℕ → IProfile
unfolding set_multi_path
ensure_link_aggregation profile count = record profile {
  inbounds = map (set_multi_path (leb 2 count)) profile.inbounds;
  auto_detect_interface = false;
}

-- `outbound.url = …` and so on; an interval that is there stays.
abbrev pub probe : String → String → String → String → ℕ → IOutbound → IOutbound
probe url include exclude interval tolerance o = record o {
  url = url;
  include = include;
  exclude = exclude;
  interval = text_or (some o.interval) interval;
  tolerance = max tolerance o.tolerance;
}

abbrev pub node_best : String
node_best = "-(?:ss|shadowsocks|hysteria2?|hy2|vless|trojan)(?:-(?:v4|v6|ipv4|ipv6))?$"

abbrev pub node_tag : CloudSubscriptionEntry → String
node_tag entry = "Cloud Node " <> (entry.tag <> " Best Auto")

abbrev pub node_outbound : CloudSubscriptionEntry → String × String
node_outbound entry = (node_smart_outbound_id entry.instance_id, node_tag entry)

unfoldable pub add_node_outbound : CloudSubscriptionEntry → List IOutbound → List IOutbound
add_node_outbound entry =
    ensure_outbound (node_smart_outbound_id entry.instance_id) (node_tag entry) λ o.
      probe default_test_url node_best entry.managed_exclude "75s" 65
        (sync_subscription_entries (entry ∷ []) o)

unfoldable pub add_node_outbounds : List CloudSubscriptionEntry → List IOutbound → List IOutbound
add_node_outbounds [] os = os
add_node_outbounds (e ∷ es) os = add_node_outbounds es (add_node_outbound e os)

-- The five outbounds over all nodes.
unfoldable pub add_global_outbounds : List CloudSubscriptionEntry → List IOutbound → List IOutbound
add_global_outbounds es os =
    let nodes = map node_outbound es in
    let os1 =
      ensure_outbound smart_auto "Cloud Smart Best Auto"
        (λ o. probe default_test_url "" "" "2m" 80 (sync_built_in_entries nodes o)) os in
    let os2 =
      ensure_outbound smart_tcp_primary "Cloud Smart Best TCP Auto"
        (λ o. probe default_test_url "" "" "90s" 70 (sync_built_in_entries nodes o)) os1 in
    let os3 =
      ensure_outbound smart_tcp_secondary "Cloud Smart Best Web Auto"
        (λ o. probe secondary_probe_url "" "" "90s" 85 (sync_built_in_entries nodes o)) os2 in
    let os4 =
      ensure_outbound smart_udp_auto "Cloud Smart SS UDP Auto"
        (λ o.
          probe secondary_probe_url shadowsocks_pattern "" "2m" 100
            (sync_subscription_entries es o))
        os3 in
    ensure_outbound smart_hysteria_auto "Cloud Smart Hysteria Backup"
      (λ o.
        probe secondary_probe_url hysteria2_pattern "" "2m" 120 (sync_subscription_entries es o))
      os4
