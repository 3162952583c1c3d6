-- ===== src/Cloud/Subscription/Outbounds.antt =====
-- The outbounds of a node as a whole: their tags are distinct and their servers are the node's.
use mathlib.Core.List.{map-append}
use private_deploy.Base.{
  ◌≡◌, refl, Bool, true, false, Option, List, [], ◌∷◌, ◌++◌, map, String, ◌<>◌, Distinct, has_text,
  is_empty, arith,
}
use private_deploy.Cloud.Address.{is_public_ipv4_address}
use private_deploy.Cloud.Nodes.{CloudNode}
use private_deploy.Cloud.Subscription.Payload.{
  CdnDeployment, NodeOutbound, tag_of, IpVersion, ip_versions, each_version, has_shadowsocks,
  has_hysteria, has_vless, has_trojan, cdn_host, cdn_outbounds, protocol_outbounds, legacy_format,
  or_legacy, node_outbounds,
}
use private_deploy.Cloud.Subscription.Tags.{
  suffix, suffix-ip_versions, shadowsocks_outbounds-tags, hysteria_outbounds-tags,
  vless_outbounds-tags, trojan_outbounds-tags,
}
use private_deploy.Kernel.ProxyGroups.Nodes.{
  Distinct-map_append, protocol_tags-suffixes_of, suffixes_of, versions,
}

pub or_legacy_cases :
    (P : List NodeOutbound → Type 0) (os legacy : List NodeOutbound)
    → P os
    → P legacy
    → P (or_legacy os legacy)
or_legacy_cases P [] legacy p q = q
or_legacy_cases P (o ∷ os) legacy p q = p

-- The suffix of the CDN's tag, where it has a host.
abbrev cdn_suffixes : Bool → List String
cdn_suffixes true = []
cdn_suffixes false = "-cdn" ∷ []

cdn_outbounds-tags :
    (node : CloudNode) (d : Option CdnDeployment)
    → map tag_of (cdn_outbounds node d)
      ≡ map (λ s. node.label <> s) (cdn_suffixes (is_empty (cdn_host node d)))
unfolding cdn_outbounds
cdn_outbounds-tags node d = ground arith

abbrev suffixes : List String → Bool → Bool → Bool → Bool → Bool → List String
suffixes vs ss hy vl no_cdn tr =
    suffixes_of ss vs "-ss"
    ++ (suffixes_of hy vs "-hysteria2"
        ++ (suffixes_of vl vs "-vless" ++ (cdn_suffixes no_cdn ++ suffixes_of tr vs "-trojan")))

suffixes-Distinct :
    (v4 v6 ss hy vl no_cdn tr : Bool) → Distinct (suffixes (versions v4 v6) ss hy vl no_cdn tr)
suffixes-Distinct v4 v6 ss hy vl no_cdn true = ground arith
suffixes-Distinct v4 v6 ss hy vl no_cdn false = ground arith

protocol_outbounds-tags :
    (node : CloudNode) (vs : List IpVersion) (d : Option CdnDeployment)
    → map tag_of (protocol_outbounds node vs d)
      ≡ map
          (λ s. node.label <> s)
          (suffixes
            (map suffix vs)
            (has_shadowsocks node)
            (has_hysteria node)
            (has_vless node)
            (is_empty (cdn_host node d))
            (has_trojan node))
unfolding protocol_outbounds
protocol_outbounds-tags node vs d = simp (
  map-append,
  (shadowsocks_outbounds-tags node vs).0,
  (hysteria_outbounds-tags node vs).0,
  (vless_outbounds-tags node vs).0,
  (trojan_outbounds-tags node vs).0,
  cdn_outbounds-tags node d,
  protocol_tags-suffixes_of,
)

-- In the legacy format the suffix stands right behind the label.
abbrev legacy_suffixes : Bool → List String → List String
legacy_suffixes true vs = vs
legacy_suffixes false vs = []

legacy_tags :
    (vs : List IpVersion) (make : String → String → NodeOutbound) (label : String)
    → ((s ip : String) → tag_of (make s ip) ≡ label <> s)
    → map tag_of (map (λ v. make v.suffix v.ip) vs) ≡ map (λ s. label <> s) (map suffix vs)
legacy_tags [] make label h = refl
legacy_tags (v ∷ vs) make label h = cc (h v.suffix v.ip, legacy_tags vs make label h)

versions-Distinct : (v4 v6 : Bool) → Distinct (versions v4 v6)
versions-Distinct v4 v6 = ground arith

each_version-Distinct :
    (b : Bool) (node : CloudNode) (make : String → String → NodeOutbound)
    → ((s ip : String) → tag_of (make s ip) ≡ node.label <> s)
    → Distinct (map tag_of (each_version b (ip_versions node) make))
each_version-Distinct false node make h = tt
each_version-Distinct true node make h =
    rw (legacy_tags (ip_versions node) make node.label h, suffix-ip_versions node)
      (Distinct-map_append node.label _ (versions-Distinct _ _))

legacy_format-Distinct :
    (node : CloudNode) → Distinct (map tag_of (legacy_format node (ip_versions node)))
unfolding legacy_format
legacy_format-Distinct node = each_version-Distinct _ node _ (λ s ip. refl)

-- The tags of a node's outbounds are distinct, whatever its label, its protocols and its CDN.
pub node_outbounds-Distinct :
    (node : CloudNode) (deployment : Option CdnDeployment)
    → Distinct (map tag_of (node_outbounds node deployment))
unfolding node_outbounds
node_outbounds-Distinct node d =
    or_legacy_cases (λ os. Distinct (map tag_of os)) _ _
      (rw (protocol_outbounds-tags node (ip_versions node) d, suffix-ip_versions node)
        (Distinct-map_append node.label _ (
          suffixes-Distinct (is_public_ipv4_address node.ipv4) (has_text node.ipv6)
            (has_shadowsocks node) (has_hysteria node) (has_vless node) (is_empty (cdn_host node d))
            (has_trojan node))))
      (legacy_format-Distinct node)
