-- ===== src/Cloud/Subscription/Payload.antt =====
-- The outbounds of a node, as `ensureSubscriptionForNode` writes them to the node's file.
use Prim.Native.Char.{Char, code}
use private_deploy.Base.{
  ℕ, zero, suc, Bool, true, false, not, ◌&&◌, ◌==◌, Option, none, some, List, [], ◌∷◌, ◌++◌, map,
  String, ◌<>◌, is_empty, trim, has_text, has_number, text_or, if◌then◌else◌,
}
use private_deploy.Cloud.Address.{is_public_ipv4_address}
use private_deploy.Cloud.Nodes.{CloudNode, normalize_server_name, resolve_tls_insecure}

-- What is read of `CdnDeployment`.
pub record CdnDeployment : Type 0 where
  pub worker_host : Option String
  pub custom_host : Option String
  pub custom_host_status : Option String
  pub path_secret : Option String

-- An outbound by the fields that differ between nodes. The method of Shadowsocks is aes-256-gcm, the
-- rates of Hysteria2 are 100, VLESS has the flow xtls-rprx-vision, and both kinds of VLESS use the
-- fingerprint of chrome; the outbound of the CDN is VLESS over a websocket at port 443, whose host is
-- its server, its `Host` header and its server name.
pub data NodeOutbound : Type 0 where
  shadowsocks : String → String → ℕ → String → NodeOutbound
  hysteria2 : String → String → ℕ → String → Bool → String → NodeOutbound
  vless : String → String → ℕ → String → String → String → String → NodeOutbound
  cdn : String → String → String → String → NodeOutbound
  trojan : String → String → ℕ → String → Bool → String → NodeOutbound

abbrev pub tag_of : NodeOutbound → String
tag_of (shadowsocks tag server port password) = tag
tag_of (hysteria2 tag server port password insecure name) = tag
tag_of (vless tag server port uuid name key id) = tag
tag_of (cdn tag host uuid path) = tag
tag_of (trojan tag server port password insecure name) = tag

abbrev pub server_of : NodeOutbound → String
server_of (shadowsocks tag server port password) = server
server_of (hysteria2 tag server port password insecure name) = server
server_of (vless tag server port uuid name key id) = server
server_of (cdn tag host uuid path) = host
server_of (trojan tag server port password insecure name) = server

-- An address of the node with the suffix of its tags.
pub record IpVersion : Type 0 where
  pub ip : String
  pub suffix : String

abbrev pub version_if : Bool → Option String → String → List IpVersion
version_if false ip suffix = []
version_if true ip suffix = record { ip = text_or ip ""; suffix = suffix } ∷ []

abbrev pub ip_versions : CloudNode → List IpVersion
ip_versions node =
    version_if (is_public_ipv4_address node.ipv4) node.ipv4 "-v4"
    ++ version_if (has_text node.ipv6) node.ipv6 "-v6"

-- `replace(/\+/g, '-').replace(/\//g, '_')`
abbrev pub url_safe_char : Char → String → String
url_safe_char c s =
    if code c == b'+'
    then String.◌∷◌ "-" s
    else if code c == b'/'
    then String.◌∷◌ "_" s
    else String.◌∷◌ c s

abbrev pub url_safe_chars : String → String
url_safe_chars String.[] = ""
url_safe_chars (String.◌∷◌ c s) = url_safe_char c (url_safe_chars s)

-- `replace(/=+$/, '')`
abbrev pub without_padding : String → String
without_padding String.[] = ""
without_padding (String.◌∷◌ c s) =
    let rest = without_padding s in
    if is_empty rest && code c == b'=' then "" else String.◌∷◌ c rest

unfoldable pub url_safe : String → String
url_safe key = without_padding (url_safe_chars key)

abbrev port_of : Option ℕ → ℕ
port_of none = 0
port_of (some n) = n

abbrev text_of : Option String → String
text_of none = ""
text_of (some s) = s

-- One outbound for each version, where the node has the protocol.
abbrev pub each_version :
    Bool → List IpVersion → (String → String → NodeOutbound) → List NodeOutbound
each_version false versions make = []
each_version true versions make = map (λ v. make v.suffix v.ip) versions

abbrev pub has_shadowsocks : CloudNode → Bool
has_shadowsocks node = has_number node.ss_port && has_text node.ss_password

abbrev pub has_hysteria : CloudNode → Bool
has_hysteria node = has_number node.hysteria_port && has_text node.hysteria_password

abbrev pub has_vless : CloudNode → Bool
has_vless node =
    has_number node.vless_port
    && has_text node.vless_uuid
    && has_text node.vless_public_key
    && has_text node.vless_short_id

abbrev pub has_trojan : CloudNode → Bool
has_trojan node = has_number node.trojan_port && has_text node.trojan_password

abbrev trim_of : Option String → String
trim_of none = ""
trim_of (some s) = trim s

-- `cdnHost`; the custom host is taken whatever its status.
unfoldable pub cdn_host : CloudNode → Option CdnDeployment → String
cdn_host node none = ""
cdn_host node (some deployment) =
    if has_number node.vless_relay_port && has_text node.vless_uuid
    then text_or (some (trim_of deployment.custom_host)) (trim_of deployment.worker_host)
    else ""

abbrev secret_of : Option CdnDeployment → String
secret_of none = ""
secret_of (some deployment) = trim_of deployment.path_secret

-- `cdnWsPath`
unfoldable pub cdn_path : Option CdnDeployment → String
cdn_path deployment =
    if is_empty (secret_of deployment) then "/?ed=2560" else "/?ed=2560&k=" <> secret_of deployment

unfoldable pub cdn_outbounds : CloudNode → Option CdnDeployment → List NodeOutbound
unfolding cdn_host cdn_path
cdn_outbounds node deployment =
    if is_empty (cdn_host node deployment)
    then []
    else cdn (node.label <> "-cdn") (cdn_host node deployment) (text_of node.vless_uuid)
        (cdn_path deployment)
      ∷ []

unfoldable pub shadowsocks_outbounds : CloudNode → List IpVersion → List NodeOutbound
shadowsocks_outbounds node versions = each_version (has_shadowsocks node) versions λ suffix ip.
    shadowsocks (node.label <> ("-ss" <> suffix)) ip (port_of node.ss_port)
      (text_of node.ss_password)

unfoldable pub hysteria_outbounds : CloudNode → List IpVersion → List NodeOutbound
hysteria_outbounds node versions = each_version (has_hysteria node) versions λ suffix ip.
    hysteria2 (node.label <> ("-hysteria2" <> suffix)) ip (port_of node.hysteria_port)
      (text_of node.hysteria_password) (resolve_tls_insecure node.hysteria_insecure)
      (normalize_server_name node.hysteria_server_name "www.bing.com")

unfoldable pub vless_outbounds : CloudNode → List IpVersion → List NodeOutbound
unfolding url_safe
vless_outbounds node versions = each_version (has_vless node) versions λ suffix ip.
    vless (node.label <> ("-vless" <> suffix)) ip (port_of node.vless_port)
      (text_of node.vless_uuid) (normalize_server_name node.vless_server_name "www.microsoft.com")
      (url_safe (text_of node.vless_public_key)) (text_of node.vless_short_id)

unfoldable pub trojan_outbounds : CloudNode → List IpVersion → List NodeOutbound
trojan_outbounds node versions = each_version (has_trojan node) versions λ suffix ip.
    trojan (node.label <> ("-trojan" <> suffix)) ip (port_of node.trojan_port)
      (text_of node.trojan_password) (resolve_tls_insecure node.trojan_insecure)
      (normalize_server_name node.trojan_server_name "www.microsoft.com")

-- The outbounds of the protocols that the node has, for the versions.
unfoldable pub protocol_outbounds :
    CloudNode → List IpVersion → Option CdnDeployment → List NodeOutbound
unfolding shadowsocks_outbounds hysteria_outbounds vless_outbounds trojan_outbounds cdn_outbounds
protocol_outbounds node versions deployment =
    shadowsocks_outbounds node versions
    ++ (hysteria_outbounds node versions
        ++ (vless_outbounds node versions
            ++ (cdn_outbounds node deployment ++ trojan_outbounds node versions)))

-- `a || b` of numbers.
abbrev number_or : Option ℕ → Option ℕ → Option ℕ
number_or none b = b
number_or (some zero) b = b
number_or (some (suc n)) b = some (suc n)

-- The legacy format: one Shadowsocks outbound for each version.
unfoldable pub legacy_format : CloudNode → List IpVersion → List NodeOutbound
legacy_format node versions =
    let port = number_or node.port node.ss_port in
    let password = text_or node.password (text_of node.ss_password) in
    each_version (has_number port && not (is_empty password)) versions
      (λ suffix ip. shadowsocks (node.label <> suffix) ip (port_of port) password)

abbrev pub or_legacy : List NodeOutbound → List NodeOutbound → List NodeOutbound
or_legacy [] legacy = legacy
or_legacy (o ∷ os) legacy = o ∷ os

-- `outbounds`, for a node that has at least one version.
unfoldable pub node_outbounds : CloudNode → Option CdnDeployment → List NodeOutbound
unfolding protocol_outbounds legacy_format
node_outbounds node deployment =
    let versions = ip_versions node in
    or_legacy (protocol_outbounds node versions deployment) (legacy_format node versions)
