-- ===== src/Cloud/SmartRouting.antt =====
-- The outbounds and rules for automatic routing through the cloud nodes:
-- frontend/src/stores/cloud/smartRouting.ts. A profile has the fields that this code reads or
-- writes, and every outbound has its list of children.
pub mod Routes
pub mod Apply
pub mod Clean
pub mod Again
pub mod Order
pub mod Outbounds
pub mod Closed
pub mod Fresh
pub mod Balance
mod Tests
use private_deploy.Base.{
  ℕ, zero, suc, ◌+◌, max, Bool, true, false, not, ◌&&◌, ◌||◌, Option, none, some, List, [], ◌∷◌,
  ◌++◌, map, filter, find, length, take, drop, String, ◌<>◌, str_eq, one_of, is_empty, starts_with,
  text_or, or_else, leb, ltb, if◌then◌else◌,
}
use private_deploy.Base.Dict.{Dict, lookup, insert}
use private_deploy.Cloud.Ids.{
  cloud_subscription_prefix, smart_auto, smart_tcp_primary, smart_tcp_secondary, smart_udp_auto,
  smart_hysteria_auto, legacy_outbounds, node_smart_outbound_id, is_managed_cloud_outbound_id,
  cloud_instance_id_from_subscription_ref, ProtocolHealthMap, derive_managed_exclude,
  shadowsocks_pattern, hysteria2_pattern,
}

pub record InboundListen : Type 0 where
  pub listen : String
  pub listen_port : ℕ
  pub tcp_fast_open : Bool
  pub tcp_multi_path : Bool
  pub udp_fragment : Bool

pub record IInbound : Type 0 where
  pub id : String
  pub type : String
  pub tag : String
  pub enable : Bool
  pub mixed : Option InboundListen
  pub socks : Option InboundListen
  pub http : Option InboundListen

pub record IProxy : Type 0 where
  pub id : String
  pub type : String
  pub tag : String

pub record IOutbound : Type 0 where
  pub id : String
  pub tag : String
  pub type : String
  pub outbounds : List IProxy
  pub url : String
  pub interval : String
  pub tolerance : ℕ
  pub interrupt_exist_connections : Bool
  pub include : String
  pub exclude : String

pub record IRule : Type 0 where
  pub id : String
  pub type : String
  pub payload : String
  pub invert : Bool
  pub action : String
  pub outbound : String
  pub sniffer : List String
  pub strategy : String
  pub server : String

pub record IProfile : Type 0 where
  pub inbounds : List IInbound
  pub outbounds : List IOutbound
  pub rules : List IRule
  pub final : String
  pub auto_detect_interface : Bool

pub record CloudSubscriptionEntry : Type 0 where
  pub id : String
  pub type : String
  pub tag : String
  pub instance_id : String
  pub managed_exclude : String

-- `DefaultTestURL`, also the primary probe.
abbrev pub default_test_url : String
default_test_url = "https://www.gstatic.com/generate_204"

abbrev pub secondary_probe_url : String
secondary_probe_url = "https://www.cloudflare.com/cdn-cgi/trace"

-- `ProfileDefaults.DefaultOutbound()`, under the id that it is given at once.
abbrev pub default_outbound : String → IOutbound
default_outbound id = record {
  id = id;
  tag = "";
  type = "selector";
  outbounds = [];
  url = default_test_url;
  interval = "3m";
  tolerance = 150;
  interrupt_exist_connections = true;
  include = "";
  exclude = "";
}

-- Changes the first outbound with the id.
unfoldable pub update_first : String → (IOutbound → IOutbound) → List IOutbound → List IOutbound
update_first id f [] = []
update_first id f (o ∷ os) =
    let rest = update_first id f os in if str_eq o.id id then f o ∷ os else o ∷ rest

abbrev pub has_outbound : String → List IOutbound → Bool
has_outbound id [] = false
has_outbound id (o ∷ os) = str_eq o.id id || has_outbound id os

-- `ensureOutbound`, with what is then done to the outbound that it returns.
unfoldable pub ensure_outbound :
    String → String → (IOutbound → IOutbound) → List IOutbound → List IOutbound
unfolding update_first
ensure_outbound id tag configure outbounds =
    let present : List IOutbound =
      if has_outbound id outbounds then outbounds else outbounds ++ (default_outbound id ∷ []) in
    update_first id
      (λ o.
        configure
          (record o { id = id; tag = tag; type = "urltest"; interrupt_exist_connections = true }))
      present

abbrev pub has_type : String → IProxy → Bool
has_type type child = str_eq child.type type

abbrev pub proxy_of : CloudSubscriptionEntry → IProxy
proxy_of entry = record { id = entry.id; type = entry.type; tag = entry.tag }

unfoldable pub sync_subscription_entries : List CloudSubscriptionEntry → IOutbound → IOutbound
sync_subscription_entries entries outbound = record outbound {
  outbounds =
      filter (λ c. not (has_type "Subscription" c)) outbound.outbounds ++ map proxy_of entries;
}

unfoldable pub sync_built_in_entries : List (String × String) → IOutbound → IOutbound
sync_built_in_entries entries outbound = record outbound {
  outbounds =
      filter (λ c. not (has_type "Built-in" c)) outbound.outbounds
      ++ map (λ e. record { id = e.0; type = "Built-in"; tag = e.1 }) entries;
}

-- The tag of the first outbound with the id.
abbrev pub tag_of : List IOutbound → String → Option String
tag_of [] id = none
tag_of (o ∷ os) id = if str_eq o.id id then some o.tag else tag_of os id

unfoldable pub find_outbound_tag : List IOutbound → String → String
find_outbound_tag outbounds id = text_or (tag_of outbounds id) id
