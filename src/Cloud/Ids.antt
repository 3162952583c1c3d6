-- ===== src/Cloud/Ids.antt =====
-- The ids of cloud subscriptions and of the outbounds made for them, and the patterns that keep
-- unhealthy protocols out: frontend/src/stores/cloud/helpers.ts and constants.ts.
pub mod Lemmas
mod Tests
use private_deploy.Base.{
  ℕ, zero, suc, Bool, true, false, ◌||◌, Option, none, some, List, [], ◌∷◌, map, filter, String,
  ◌<>◌, not, str_eq, one_of, is_empty, starts_with, trim, if◌then◌else◌,
}
use private_deploy.Base.Dict.{Dict, lookup}

-- `CloudSubscriptionPrefix`
abbrev pub cloud_subscription_prefix : String
cloud_subscription_prefix = "cloud-"

-- `CloudSmartNodeOutboundPrefix`
abbrev pub cloud_smart_node_outbound_prefix : String
cloud_smart_node_outbound_prefix = "outbound-smart-node-"

-- `CloudSmartOutboundIds`
abbrev pub smart_auto : String
smart_auto = "outbound-smart-auto"

abbrev pub smart_tcp_primary : String
smart_tcp_primary = "outbound-smart-tcp-primary"

abbrev pub smart_tcp_secondary : String
smart_tcp_secondary = "outbound-smart-tcp-secondary"

abbrev pub smart_udp_auto : String
smart_udp_auto = "outbound-smart-udp-auto"

abbrev pub smart_hysteria_auto : String
smart_hysteria_auto = "outbound-smart-hysteria-auto"

abbrev pub cloud_smart_outbound_ids : List String
cloud_smart_outbound_ids =
    smart_auto ∷ smart_tcp_primary ∷ smart_tcp_secondary ∷ smart_udp_auto ∷ smart_hysteria_auto ∷ []

-- `CloudSmartLegacyIds.Outbounds`
abbrev pub legacy_outbounds : List String
legacy_outbounds =
    "cloud-smart-tcp-auto" ∷ "cloud-smart-udp-auto" ∷ "cloud-smart-hysteria-auto"
    ∷ "outbound-smart-tcp-primary" ∷ "outbound-smart-tcp-secondary" ∷ []

unfoldable pub subscription_id : String → String
subscription_id instance_id =
    if starts_with instance_id "cloud-" then instance_id else "cloud-" <> instance_id

unfoldable pub subscription_path : String → String
unfolding subscription_id
subscription_path instance_id = "data/subscribes/" <> (subscription_id instance_id <> ".json")

-- `s.slice(n)`
unfoldable pub slice_from : ℕ → String → String
slice_from zero s = s
slice_from (suc n) String.[] = ""
slice_from (suc n) (String.◌∷◌ c s) = slice_from n s

unfoldable pub cloud_instance_id_from_subscription_ref : String → String
unfolding slice_from
cloud_instance_id_from_subscription_ref id =
    if starts_with id "cloud-do-"
    then id
    else if starts_with id cloud_subscription_prefix
    then slice_from 6 id
    else id

unfoldable pub node_smart_outbound_id : String → String
unfolding subscription_id
node_smart_outbound_id instance_id =
    cloud_smart_node_outbound_prefix <> ("auto-" <> subscription_id instance_id)

unfoldable pub is_managed_cloud_outbound_id : String → Bool
is_managed_cloud_outbound_id id =
    one_of id cloud_smart_outbound_ids
    || (one_of id legacy_outbounds || starts_with id cloud_smart_node_outbound_prefix)

abbrev alternatives : List String → String
alternatives [] = ""
alternatives (p ∷ []) = p
alternatives (p ∷ q ∷ ps) = p <> ("|" <> alternatives (q ∷ ps))

-- `joinRegexAlternatives` of the patterns that are there.
unfoldable pub join_regex_alternatives : List String → String
join_regex_alternatives patterns =
    alternatives
      (map (λ p. "(?:" <> (p <> ")")) (filter (λ p. not (is_empty p)) (map trim patterns)))

pub record ProtocolHealthEntry : Type 0 where
  pub state : String
  pub reason : String
  pub updated_at : ℕ

abbrev pub ProtocolHealthMap : Type 0
ProtocolHealthMap = Dict (Dict ProtocolHealthEntry)

abbrev tag_suffix : String
tag_suffix = "(?:-(?:v4|v6|ipv4|ipv6))?$"

-- `ProtocolTagPattern`, which `ProtocolExcludePattern` repeats.
abbrev pub shadowsocks_pattern : String
shadowsocks_pattern = "-(?:ss|shadowsocks)" <> tag_suffix

abbrev pub hysteria2_pattern : String
hysteria2_pattern = "-(?:hysteria2?|hy2)" <> tag_suffix

abbrev pub exclude_pattern : String → Option String
exclude_pattern protocol =
    if str_eq protocol "shadowsocks"
    then some shadowsocks_pattern
    else if str_eq protocol "hysteria2"
    then some hysteria2_pattern
    else if str_eq protocol "vless"
    then some ("-(?:vless)" <> tag_suffix)
    else if str_eq protocol "trojan"
    then some ("-(?:trojan)" <> tag_suffix)
    else none

abbrev cons_some : Option String → List String → List String
cons_some none ps = ps
cons_some (some p) ps = p ∷ ps

unfoldable pub degraded_patterns : Dict ProtocolHealthEntry → List String
degraded_patterns [] = []
degraded_patterns ((protocol, value) ∷ entry) =
    let rest = degraded_patterns entry in
    if str_eq value.state "degraded" then cons_some (exclude_pattern protocol) rest else rest

unfoldable pub derive_managed_exclude : Option (Dict ProtocolHealthEntry) → String
unfolding degraded_patterns join_regex_alternatives
derive_managed_exclude none = ""
derive_managed_exclude (some entry) = join_regex_alternatives (degraded_patterns entry)
