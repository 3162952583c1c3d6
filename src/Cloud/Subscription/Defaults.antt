-- ===== src/Cloud/Subscription/Defaults.antt =====
-- The profile that a node is applied to where there is none: frontend/src/constant/profile.ts, on the
-- fields of `IProfile`. A rule takes its sampled id; ids that are overwritten at once are not drawn.
use private_deploy.Base.{List, [], ◌∷◌, map, String, false, true, none, some}
use private_deploy.Cloud.SmartRouting.{
  InboundListen, IInbound, IProxy, IOutbound, IRule, IProfile, default_outbound, default_test_url,
}
use private_deploy.Cloud.SmartRouting.Apply.{direct_id, fallback_id}

-- The other ids of `DefaultOutboundIds`.
abbrev pub select_id : String
select_id = "outbound-select"

abbrev pub urltest_id : String
urltest_id = "outbound-urlte"

abbrev pub global_id : String
global_id = "outbound-global"

-- `DefaultInboundIds.Tun`
abbrev pub tun_id : String
tun_id = "tun-in"

abbrev pub default_inbound_mixed : InboundListen
default_inbound_mixed = record {
  listen = "127.0.0.1";
  listen_port = 20122;
  tcp_fast_open = false;
  tcp_multi_path = false;
  udp_fragment = false;
}

abbrev pub default_inbounds : List IInbound
default_inbounds =
    record {
      id = "mixed-in";
      type = "mixed";
      tag = "mixed-in";
      enable = true;
      mixed = some default_inbound_mixed;
      socks = none;
      http = none;
    }
    ∷ record {
      id = tun_id;
      type = "tun";
      tag = "tun-in";
      enable = false;
      mixed = none;
      socks = none;
      http = none;
    }
    ∷ []

abbrev pub built_in : (String → String) → String × String → IProxy
built_in translate (id, key) = record { id = id; type = "Built-in"; tag = translate key }

-- One of the default outbounds, with the built-in ones that it offers under the keys of their tags.
abbrev pub preset :
    (String → String) → String → String → String → List (String × String) → String → IOutbound
preset translate id tag type children url = record (default_outbound id) {
  tag = tag;
  type = type;
  outbounds = map (built_in translate) children;
  url = url;
}

abbrev pub select_ref : String × String
select_ref = (select_id, "outbound.select")

abbrev pub urltest_ref : String × String
urltest_ref = (urltest_id, "outbound.urltest")

abbrev pub direct_ref : String × String
direct_ref = (direct_id, "outbound.direct")

abbrev pub fallback_ref : String × String
fallback_ref = (fallback_id, "outbound.fallback")

unfoldable pub default_outbounds : (String → String) → List IOutbound
default_outbounds translate =
    preset translate select_id (translate "outbound.select") "selector" (urltest_ref ∷ []) ""
    ∷ preset translate urltest_id (translate "outbound.urltest") "urltest" [] default_test_url
    ∷ preset translate direct_id (translate "outbound.direct") "direct" [] ""
    ∷ preset translate fallback_id (translate "outbound.fallback") "selector"
        (select_ref ∷ direct_ref ∷ []) ""
    ∷ preset translate global_id "GLOBAL" "selector"
        (select_ref ∷ urltest_ref ∷ direct_ref ∷ fallback_ref ∷ []) ""
    ∷ []

abbrev pub default_rule : String → String → String → String → String → IRule
default_rule type payload action outbound id = record {
  id = id;
  type = type;
  payload = payload;
  invert = false;
  action = action;
  outbound = outbound;
  sniffer = [];
  strategy = "default";
  server = "";
}

-- The rules of `DefaultRoute`, each still without its id.
unfoldable pub default_rules : List (String → IRule)
default_rules =
    default_rule "inbound" tun_id "sniff" ""
    ∷ default_rule "protocol" "dns" "hijack-dns" ""
    ∷ default_rule "clash_mode" "direct" "route" direct_id
    ∷ default_rule "clash_mode" "global" "route" global_id
    ∷ default_rule "network" "icmp" "route" direct_id
    ∷ default_rule "protocol" "quic" "reject" ""
    ∷ []

unfoldable pub default_profile : (String → String) → List IRule → IProfile
unfolding default_outbounds
default_profile translate rules = record {
  inbounds = default_inbounds;
  outbounds = default_outbounds translate;
  rules = rules;
  final = fallback_id;
  auto_detect_interface = false;
}
