-- ===== src/Cloud/Subscription/Servers.antt =====
-- The servers of a node's outbounds.
use mathlib.Core.List.{map-append}
use private_deploy.Base.{
  ◌≡◌, refl, Bool, true, false, inl, inr, Option, some, List, [], ◌∷◌, ◌++◌, map, All, All-append,
  All-mono, String, one_of, one_of_self, has_text, is_empty, arith, Bool-cases, one_of-append,
}
use private_deploy.Cloud.Address.{is_public_ipv4_address}
use private_deploy.Cloud.Nodes.{CloudNode}
use private_deploy.Cloud.Subscription.Payload.{
  CdnDeployment, NodeOutbound, shadowsocks, hysteria2, vless, cdn, trojan, server_of, IpVersion,
  version_if, ip_versions, each_version, has_shadowsocks, has_hysteria, has_vless, has_trojan,
  cdn_host, shadowsocks_outbounds, hysteria_outbounds, vless_outbounds, trojan_outbounds,
  cdn_outbounds, protocol_outbounds, legacy_format, or_legacy, node_outbounds,
}
use private_deploy.Cloud.Subscription.Outbounds.{or_legacy_cases}

-- An outbound reaches one of the addresses; that of the CDN its host.
abbrev pub Reaches : List String → String → NodeOutbound → Type 0
Reaches ips host (cdn tag server uuid path) = (server ≡ host) × (is_empty host ≡ false)
Reaches ips host (shadowsocks tag server port password) = one_of server ips ≡ true
Reaches ips host (hysteria2 tag server port password insecure name) = one_of server ips ≡ true
Reaches ips host (vless tag server port uuid name key id) = one_of server ips ≡ true
Reaches ips host (trojan tag server port password insecure name) = one_of server ips ≡ true

abbrev pub ip_of : IpVersion → String
ip_of v = v.ip

map-Reaches :
    (vs : List IpVersion) (make : String → String → NodeOutbound) (ips : List String)
    (host : String)
    → ((s ip : String) → one_of ip ips ≡ true → Reaches ips host (make s ip))
    → All (λ v. one_of v.ip ips ≡ true) vs
    → All (Reaches ips host) (map (λ v. make v.suffix v.ip) vs)
map-Reaches [] make ips host h a = tt
map-Reaches (v ∷ vs) make ips host h a = (h v.suffix v.ip a.0, map-Reaches vs make ips host h a.1)

each_version-Reaches :
    (b : Bool) (vs : List IpVersion) (make : String → String → NodeOutbound) (ips : List String)
    (host : String)
    → ((s ip : String) → one_of ip ips ≡ true → Reaches ips host (make s ip))
    → All (λ v. one_of v.ip ips ≡ true) vs
    → All (Reaches ips host) (each_version b vs make)
each_version-Reaches false vs make ips host h a = tt
each_version-Reaches true vs make ips host h a = map-Reaches vs make ips host h a

ips-all : (vs : List IpVersion) → All (λ v. one_of v.ip (map ip_of vs) ≡ true) vs
ips-all [] = tt
ips-all (v ∷ vs) =
    (one_of_self v.ip (map ip_of vs), All-mono _ _ vs (λ w h. ground arith) (ips-all vs))

cdn_outbounds-Reaches :
    (node : CloudNode) (ips : List String) (d : Option CdnDeployment)
    → All (Reaches ips (cdn_host node d)) (cdn_outbounds node d)
unfolding cdn_outbounds
cdn_outbounds-Reaches node ips d = elim (Bool-cases (is_empty (cdn_host node d))) [
  | inl e ↦ rw e tt
  | inr e ↦ rw e ((refl, e), tt)
]

module _ (node : CloudNode) (d : Option CdnDeployment) (vs : List IpVersion) where
  protocol_outbounds-Reaches :
      All (Reaches (map ip_of vs) (cdn_host node d)) (protocol_outbounds node vs d)
  unfolding protocol_outbounds shadowsocks_outbounds hysteria_outbounds vless_outbounds
      trojan_outbounds
  protocol_outbounds-Reaches =
      let ips = map ip_of vs in
      let host = cdn_host node d in
      let all = ips-all vs in
      All-append (Reaches ips host) _ _
        (each_version-Reaches (has_shadowsocks node) vs _ ips host (λ s ip h. h) all)
        (All-append (Reaches ips host) _ _
          (each_version-Reaches (has_hysteria node) vs _ ips host (λ s ip h. h) all)
          (All-append (Reaches ips host) _ _
            (each_version-Reaches (has_vless node) vs _ ips host (λ s ip h. h) all)
            (All-append (Reaches ips host) _ _ (cdn_outbounds-Reaches node ips d)
              (each_version-Reaches (has_trojan node) vs _ ips host (λ s ip h. h) all))))

  legacy_format-Reaches : All (Reaches (map ip_of vs) (cdn_host node d)) (legacy_format node vs)
  unfolding legacy_format
  legacy_format-Reaches =
      each_version-Reaches _ vs _ (map ip_of vs) (cdn_host node d) (λ s ip h. h) (ips-all vs)

-- Every outbound of a node reaches one of the node's addresses, its public IPv4 address or its IPv6
-- address where that is not empty; but that of the CDN reaches the CDN's host, which is not empty.
pub node_outbounds-Reaches :
    (node : CloudNode) (deployment : Option CdnDeployment)
    → All
        (Reaches (map ip_of (ip_versions node)) (cdn_host node deployment))
        (node_outbounds node deployment)
unfolding node_outbounds
node_outbounds-Reaches node d =
    let vs = ip_versions node in
    or_legacy_cases (All (Reaches (map ip_of vs) (cdn_host node d))) _ _
      (protocol_outbounds-Reaches node d vs) (legacy_format-Reaches node d vs)

map-servers :
    (vs : List IpVersion) (make : String → String → NodeOutbound)
    → ((s ip : String) → server_of (make s ip) ≡ ip)
    → map server_of (map (λ v. make v.suffix v.ip) vs) ≡ map ip_of vs
map-servers [] make h = refl
map-servers (v ∷ vs) make h = cc (h v.suffix v.ip, map-servers vs make h)

each_version-servers :
    (x : String) (vs : List IpVersion) (make : String → String → NodeOutbound)
    → ((s ip : String) → server_of (make s ip) ≡ ip)
    → one_of x (map ip_of vs) ≡ true
    → one_of x (map server_of (each_version true vs make)) ≡ true
each_version-servers x vs make h e = rw (map-servers vs make h) e

one_of-or_legacy :
    (x : String) (os legacy : List NodeOutbound)
    → one_of x (map server_of os) ≡ true
    → one_of x (map server_of (or_legacy os legacy)) ≡ true
one_of-or_legacy x [] legacy h = cc
one_of-or_legacy x (o ∷ os) legacy h = h

one_of-front :
    (x : String) (os rest : List NodeOutbound)
    → one_of x (map server_of os) ≡ true
    → one_of x (map server_of (os ++ rest)) ≡ true
one_of-front x os rest h =
    rw (map-append server_of os rest, one_of-append x (map server_of os) (map server_of rest), h)
      refl

unspecified :
    (public : Bool) (ipv4 ipv6 : Option String)
    → ipv6 ≡ some "::"
    → one_of "::"
        (map ip_of (version_if public ipv4 "-v4" ++ version_if (has_text ipv6) ipv6 "-v6"))
      ≡ true
unspecified public ipv4 ipv6 e = rw e (last public)
  where
    last :
        (public : Bool)
        → one_of "::"
            (map ip_of (version_if public ipv4 "-v4" ++ version_if true (some "::") "-v6"))
          ≡ true
    last false = refl
    last true = ground (arith, one_of_self "::" [])

-- A node with Shadowsocks and the unspecified IPv6 address :: gets an outbound whose server is that
-- address.
pub node_outbounds-unspecified :
    (node : CloudNode) (deployment : Option CdnDeployment)
    → node.ipv6 ≡ some "::"
    → has_shadowsocks node ≡ true
    → one_of "::" (map server_of (node_outbounds node deployment)) ≡ true
unfolding node_outbounds protocol_outbounds shadowsocks_outbounds
node_outbounds-unspecified node d e h =
    one_of-or_legacy "::" (protocol_outbounds node (ip_versions node) d) _ (
      one_of-front "::" (shadowsocks_outbounds node (ip_versions node)) _ (
        rw h (
          each_version-servers "::" (ip_versions node) _ (λ s ip. refl)
            (unspecified (is_public_ipv4_address node.ipv4) node.ipv4 node.ipv6 e))))
