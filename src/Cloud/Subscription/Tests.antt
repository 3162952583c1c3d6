-- ===== src/Cloud/Subscription/Tests.antt =====
-- A node with two protocols and a CDN, its subscription, and a profile that offers it.
use private_deploy.Base.{
  ◌≡◌, ap, refl, true, none, some, [], ◌∷◌, map, filter, any, All, String, ◌<>◌, trim, trim_start,
  split,
}
use private_deploy.Base.Dict.{Dict, lookup}
use private_deploy.Cloud.Address.{
  is_public_ipv4_address, is_public_ipv4_number, is_private_start, to_number, parse_int,
}
use private_deploy.Cloud.Ids.{ProtocolHealthMap}
use private_deploy.Cloud.Nodes.{CloudNode}
use private_deploy.Cloud.SmartRouting.{IProxy, IOutbound, default_outbound}
use private_deploy.Cloud.Subscription.Payload.{
  CdnDeployment, tag_of, ip_versions, cdn_host, url_safe, protocol_outbounds, node_outbounds,
}
use private_deploy.Cloud.Subscription.Tags.{as_like, is_own, protocol_outbounds-proxy_tags}
use private_deploy.Cloud.Subscription.Servers.{Reaches, ip_of, node_outbounds-Reaches}
use private_deploy.Cloud.Subscription.Record.{Subscription, new_subscription, apply_managed_exclude}
use private_deploy.Cloud.Subscription.Exclude.{apply_managed_exclude-again}
use private_deploy.Cloud.Subscription.Profiles.{
  Replacement, replace_references, is_type, offer_subscription,
}
use private_deploy.Cloud.Subscription.Replacing.{IsReplaced, replace_references-IsReplaced}
use private_deploy.Cloud.Subscription.Offering.{Offers, offer_subscription-Offers}
use private_deploy.Cloud.Subscription.Health.{verdicts}
use private_deploy.Cloud.Subscription.Stable.{is_healthy, verdicts-healthy}
use private_deploy.Kernel.ProxyGroups.{proxy_tags}

abbrev pub node : CloudNode
node = record {
  instance_id = "vultr-1";
  label = "tokyo";
  provider = some "vultr";
  status = none;
  status_text = none;
  region = none;
  plan = none;
  ipv4 = some "8.8.8.8";
  ipv6 = some "::";
  port = none;
  password = none;
  created_at = none;
  ss_port = some 8388;
  ss_password = some "secret";
  hysteria_port = none;
  hysteria_password = none;
  hysteria_server_name = none;
  hysteria_insecure = none;
  vless_port = some 443;
  vless_uuid = some "uuid";
  vless_public_key = some "a+b/c==";
  vless_short_id = some "01";
  vless_server_name = none;
  trojan_port = none;
  trojan_password = none;
  trojan_server_name = none;
  trojan_insecure = none;
  vless_relay_port = some 8080;
}

-- The probe of the custom host has failed.
abbrev deployment : CdnDeployment
deployment = record {
  worker_host = some "a.workers.dev";
  custom_host = some " cdn.example.org";
  custom_host_status = some "failed";
  path_secret = some "k";
}

tags :
    map tag_of (node_outbounds node (some deployment))
    ≡ "tokyo-ss-v4" ∷ "tokyo-ss-v6" ∷ "tokyo-vless-v4" ∷ "tokyo-vless-v6" ∷ "tokyo-cdn" ∷ []
unfolding node_outbounds protocol_outbounds cdn_host trim is_public_ipv4_address split
    is_private_start parse_int
tags = refl

-- The custom host is used whatever its status.
custom_host : cdn_host node (some deployment) ≡ "cdn.example.org"
unfolding cdn_host trim
custom_host = refl

protocol_outbounds-proxy_tags_example :
    map tag_of (filter is_own (protocol_outbounds node (ip_versions node) (some deployment)))
    ≡ proxy_tags (as_like node)
unfolding is_public_ipv4_number is_public_ipv4_address split is_private_start to_number parse_int
    trim trim_start
protocol_outbounds-proxy_tags_example = protocol_outbounds-proxy_tags node (some deployment) refl

node_outbounds-Reaches_example :
    All
      (Reaches (map ip_of (ip_versions node)) (cdn_host node (some deployment)))
      (node_outbounds node (some deployment))
node_outbounds-Reaches_example = node_outbounds-Reaches node (some deployment)

written_key : url_safe "a+b/c==" ≡ "a-b_c"
unfolding url_safe
written_key = refl

-- Hysteria2 was degraded before, Shadowsocks is now.
abbrev before : ProtocolHealthMap
before =
    (
      "vultr-1",
      (
        "hysteria2",
        record { state = "degraded"; reason = "connectivity-udp-unreachable"; updated_at = 1 },
      )
          ∷ [],
    )
    ∷ []

abbrev after : ProtocolHealthMap
after =
    (
      "vultr-1",
      (
        "shadowsocks",
        record { state = "degraded"; reason = "connectivity-tcp-unreachable"; updated_at = 2 },
      )
          ∷ [],
    )
    ∷ []

abbrev subscription : Subscription
subscription = record (new_subscription "" "cloud-vultr-1" "tokyo" "data/tokyo.json" 7) {
  exclude = "slow";
}

-- What the user put in the place of the pattern is lost.
edited_exclude :
    (apply_managed_exclude after "vultr-1"
      (record (apply_managed_exclude before "vultr-1" subscription) { exclude = "fast" })).exclude
    ≡ (apply_managed_exclude after "vultr-1" subscription).exclude
edited_exclude =
    ap (λ s. s.exclude) (apply_managed_exclude-again before after "vultr-1" "fast" subscription)

apply_managed_exclude-again_example :
    apply_managed_exclude after "vultr-1"
      (record (apply_managed_exclude before "vultr-1" subscription) { exclude = "fast" })
    ≡ apply_managed_exclude after "vultr-1" subscription
apply_managed_exclude-again_example =
    apply_managed_exclude-again before after "vultr-1" "fast" subscription

abbrev entry : IProxy
entry = record { id = "cloud-vultr-1"; type = "Subscription"; tag = "tokyo" }

abbrev selector : IOutbound
selector = record (default_outbound "select") {
  tag = "Select";
  outbounds = entry ∷ record { id = "auto"; type = "Built-in"; tag = "Auto" } ∷ entry ∷ [];
}

abbrev move : Replacement
move = record { old = "cloud-vultr-1"; new = "cloud-vultr-2"; tag = "osaka" }

replace_references-IsReplaced_example :
    All (IsReplaced move) (replace_references move (selector ∷ [])).1
replace_references-IsReplaced_example = replace_references-IsReplaced move (selector ∷ []) refl

-- The repeated reference is left out.
replaced :
    map (λ o. map (λ c. c.tag) o.outbounds) (replace_references move (selector ∷ [])).1
    ≡ ("osaka" ∷ "Auto" ∷ []) ∷ []
unfolding replace_references
replaced = refl

offer_subscription-Offers_example :
    let next = offer_subscription "ID_1" "ID_2" entry (default_outbound "select" ∷ []) in
    (any (is_type "selector") next ≡ true)
    × (any (is_type "urltest") next ≡ true)
    × All (Offers "selector" "cloud-vultr-1") next
    × All (Offers "urltest" "cloud-vultr-1") next
    × (offer_subscription "ID_3" "ID_4" entry next ≡ next)
offer_subscription-Offers_example =
    offer_subscription-Offers "ID_1" "ID_2" "ID_3" "ID_4" entry (default_outbound "select" ∷ [])

-- Only the VLESS port was reached.
abbrev pub target_status : Dict String
target_status = ("vless-reality", "open") ∷ ("shadowsocks-tcp", "closed") ∷ []

verdicts-healthy_example : any is_healthy (verdicts node target_status) ≡ true
unfolding lookup
verdicts-healthy_example = verdicts-healthy node target_status refl refl refl refl

found :
    map (λ v. v.protocol <> (" " <> v.state)) (verdicts node target_status)
    ≡ "shadowsocks degraded" ∷ "vless healthy" ∷ []
unfolding verdicts lookup
found = refl
