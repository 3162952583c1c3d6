-- ===== src/Cloud/Subscription/Tags.antt =====
-- The tags of a node's outbounds: they are distinct, and they are those that the kernel's groups are
-- given for the node.
use mathlib.Core.List.{map-append}
use private_deploy.Base.{
  ◌≡◌, refl, ap, ◌∙◌, Bool, true, false, Option, List, [], ◌∷◌, ◌++◌, map, filter, filter-append,
  String, ◌<>◌, has_text, arith,
}
use private_deploy.Cloud.Address.{is_public_ipv4_address, is_public_ipv4_number}
use private_deploy.Cloud.Nodes.{CloudNode}
use private_deploy.Cloud.Subscription.Payload.{
  CdnDeployment, NodeOutbound, cdn, tag_of, IpVersion, ip_versions, each_version, has_shadowsocks,
  has_hysteria, has_vless, has_trojan, shadowsocks_outbounds, hysteria_outbounds, vless_outbounds,
  trojan_outbounds, cdn_outbounds, protocol_outbounds,
}
use private_deploy.Kernel.ProxyGroups.{CloudNodeLike, protocol_tags, proxy_tags}
use private_deploy.Kernel.ProxyGroups.Nodes.{versions}

-- The node as the kernel's groups take it.
abbrev pub as_like : CloudNode → CloudNodeLike
as_like node = record {
  label = node.label;
  ipv4 = node.ipv4;
  ipv6 = node.ipv6;
  ss_port = node.ss_port;
  ss_password = node.ss_password;
  hysteria_port = node.hysteria_port;
  hysteria_password = node.hysteria_password;
  vless_port = node.vless_port;
  vless_uuid = node.vless_uuid;
  vless_public_key = node.vless_public_key;
  vless_short_id = node.vless_short_id;
  trojan_port = node.trojan_port;
  trojan_password = node.trojan_password;
}

abbrev pub suffix : IpVersion → String
suffix v = v.suffix

-- Not the outbound of the CDN.
abbrev pub is_own : NodeOutbound → Bool
is_own (cdn tag host uuid path) = false
is_own _ = true

map-tags :
    (vs : List IpVersion) (make : String → String → NodeOutbound) (label p : String)
    → ((s ip : String) → tag_of (make s ip) ≡ label <> (p <> s))
    → map tag_of (map (λ v. make v.suffix v.ip) vs) ≡ map (λ v. label <> (p <> v)) (map suffix vs)
map-tags [] make label p h = refl
map-tags (v ∷ vs) make label p h = cc (h v.suffix v.ip, map-tags vs make label p h)

pub each_version-tags :
    (b : Bool) (vs : List IpVersion) (make : String → String → NodeOutbound) (label p : String)
    → ((s ip : String) → tag_of (make s ip) ≡ label <> (p <> s))
    → map tag_of (each_version b vs make) ≡ protocol_tags b label (map suffix vs) p
each_version-tags false vs make label p h = refl
each_version-tags true vs make label p h = map-tags vs make label p h

map-own :
    (vs : List IpVersion) (make : String → String → NodeOutbound)
    → ((s ip : String) → is_own (make s ip) ≡ true)
    → filter is_own (map (λ v. make v.suffix v.ip) vs) ≡ map (λ v. make v.suffix v.ip) vs
map-own [] make h = refl
map-own (v ∷ vs) make h =
    rw (h v.suffix v.ip) (ap (λ r. make v.suffix v.ip ∷ r) (map-own vs make h))

each_version-own :
    (b : Bool) (vs : List IpVersion) (make : String → String → NodeOutbound)
    → ((s ip : String) → is_own (make s ip) ≡ true)
    → filter is_own (each_version b vs make) ≡ each_version b vs make
each_version-own false vs make h = refl
each_version-own true vs make h = map-own vs make h

cdn_outbounds-own :
    (node : CloudNode) (d : Option CdnDeployment) → filter is_own (cdn_outbounds node d) ≡ []
unfolding cdn_outbounds
cdn_outbounds-own node d = ground arith

-- The tags and the own outbounds of each protocol.
module _ (node : CloudNode) (vs : List IpVersion) where
  pub shadowsocks_outbounds-tags :
      (map tag_of (shadowsocks_outbounds node vs)
        ≡ protocol_tags (has_shadowsocks node) node.label (map suffix vs) "-ss")
      × (filter is_own (shadowsocks_outbounds node vs) ≡ shadowsocks_outbounds node vs)
  unfolding shadowsocks_outbounds
  shadowsocks_outbounds-tags = (
    each_version-tags (has_shadowsocks node) vs _ node.label "-ss" (λ s ip. refl),
    each_version-own (has_shadowsocks node) vs _ (λ s ip. refl),
  )

  pub hysteria_outbounds-tags :
      (map tag_of (hysteria_outbounds node vs)
        ≡ protocol_tags (has_hysteria node) node.label (map suffix vs) "-hysteria2")
      × (filter is_own (hysteria_outbounds node vs) ≡ hysteria_outbounds node vs)
  unfolding hysteria_outbounds
  hysteria_outbounds-tags = (
    each_version-tags (has_hysteria node) vs _ node.label "-hysteria2" (λ s ip. refl),
    each_version-own (has_hysteria node) vs _ (λ s ip. refl),
  )

  pub vless_outbounds-tags :
      (map tag_of (vless_outbounds node vs)
        ≡ protocol_tags (has_vless node) node.label (map suffix vs) "-vless")
      × (filter is_own (vless_outbounds node vs) ≡ vless_outbounds node vs)
  unfolding vless_outbounds
  vless_outbounds-tags = (
    each_version-tags (has_vless node) vs _ node.label "-vless" (λ s ip. refl),
    each_version-own (has_vless node) vs _ (λ s ip. refl),
  )

  pub trojan_outbounds-tags :
      (map tag_of (trojan_outbounds node vs)
        ≡ protocol_tags (has_trojan node) node.label (map suffix vs) "-trojan")
      × (filter is_own (trojan_outbounds node vs) ≡ trojan_outbounds node vs)
  unfolding trojan_outbounds
  trojan_outbounds-tags = (
    each_version-tags (has_trojan node) vs _ node.label "-trojan" (λ s ip. refl),
    each_version-own (has_trojan node) vs _ (λ s ip. refl),
  )

-- The suffixes of the versions, by which addresses there are.
pub suffix-ip_versions :
    (node : CloudNode)
    → map suffix (ip_versions node)
      ≡ versions (is_public_ipv4_address node.ipv4) (has_text node.ipv6)
suffix-ip_versions node = ground arith

own_protocol_outbounds :
    (node : CloudNode) (vs : List IpVersion) (d : Option CdnDeployment)
    → map tag_of (filter is_own (protocol_outbounds node vs d))
      ≡ protocol_tags (has_shadowsocks node) node.label (map suffix vs) "-ss"
        ++ (protocol_tags (has_hysteria node) node.label (map suffix vs) "-hysteria2"
            ++ (protocol_tags (has_vless node) node.label (map suffix vs) "-vless"
                ++ protocol_tags (has_trojan node) node.label (map suffix vs) "-trojan"))
unfolding protocol_outbounds
own_protocol_outbounds node vs d =
    let (s, s') = shadowsocks_outbounds-tags node vs in
    let (h, h') = hysteria_outbounds-tags node vs in
    let (v, v') = vless_outbounds-tags node vs in
    let (t, t') = trojan_outbounds-tags node vs in
    simp (filter-append, map-append, s', h', v', t', cdn_outbounds-own node d, s, h, v, t)

-- The tags of the outbounds of the protocols, that of the CDN left out, are those that the kernel's
-- groups are given for the node, where both tests for a public address agree on its IPv4 address.
pub protocol_outbounds-proxy_tags :
    (node : CloudNode) (deployment : Option CdnDeployment)
    → is_public_ipv4_address node.ipv4 ≡ is_public_ipv4_number node.ipv4
    → map tag_of (filter is_own (protocol_outbounds node (ip_versions node) deployment))
      ≡ proxy_tags (as_like node)
unfolding proxy_tags
protocol_outbounds-proxy_tags node deployment h =
    own_protocol_outbounds node (ip_versions node) deployment ∙ rw (suffix-ip_versions node, h) refl
