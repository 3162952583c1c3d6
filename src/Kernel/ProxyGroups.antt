-- ===== src/Kernel/ProxyGroups.antt =====
-- The kernel's proxy groups, kept in step with the cloud nodes:
-- frontend/src/stores/kernelApiProxyGroups.ts. A map of proxies is copied, so the functions return
-- the new map.
pub mod Removal
pub mod Addition
pub mod Nodes
mod Tests
use private_deploy.Base.{
  ℕ, Bool, true, false, not, ◌&&◌, ◌||◌, Option, none, some, List, [], ◌∷◌, ◌++◌, String, ◌<>◌, map,
  if◌then◌else◌, str_eq, one_of, filter, has_number, has_text,
}
use private_deploy.Base.Dict.{Dict, insert, erase, map_values}
use private_deploy.Cloud.Address.{is_public_ipv4_number}

-- `CoreApiProxy`; `all` is absent for a proxy that is no group. The measured delays are a list of
-- numbers here.
pub record CoreApiProxy : Type 0 where
  pub alive : Bool
  pub all : Option (List String)
  pub name : String
  pub now : String
  pub type : String
  pub udp : Bool
  pub history : List ℕ

-- `group.now = group.all[0]` where the group selected the proxy that is gone.
abbrev pub reselect : String → List String → String → String
reselect id [] now = now
reselect id (x ∷ xs) now = if str_eq now id then x else now

unfoldable pub remove_from_members : String → Option (List String) → CoreApiProxy → CoreApiProxy
remove_from_members id none group = group
remove_from_members id (some members) group =
    let kept = filter (λ m. not (str_eq m id)) members in
    record group { all = some kept; now = reselect id kept group.now }

unfoldable pub remove_from_group : String → CoreApiProxy → CoreApiProxy
unfolding remove_from_members
remove_from_group id group = remove_from_members id group.all group

unfoldable pub remove_proxy_from_kernel_groups : Dict CoreApiProxy → String → Dict CoreApiProxy
unfolding remove_from_group
remove_proxy_from_kernel_groups proxies id = erase id (map_values (remove_from_group id) proxies)

-- A new leaf of the map.
abbrev pub new_proxy : String → String → CoreApiProxy
new_proxy kind name = record {
  alive = false;
  all = some [];
  name = name;
  now = "";
  type = kind;
  udp = false;
  history = [];
}

abbrev pub is_choice : CoreApiProxy → Bool
is_choice group = str_eq group.type "Selector" || str_eq group.type "URLTest"

-- The tags that the members lack, behind the members.
abbrev pub with_tags : List String → List String → List String
with_tags tags members = members ++ filter (λ t. not (one_of t members)) tags

unfoldable pub add_to_members : List String → Option (List String) → CoreApiProxy → CoreApiProxy
add_to_members tags none group = group
add_to_members tags (some members) group =
    if is_choice group then record group { all = some (with_tags tags members) } else group

unfoldable pub add_to_group : List String → CoreApiProxy → CoreApiProxy
unfolding add_to_members
add_to_group tags group = add_to_members tags group.all group

unfoldable pub add_proxy_to_kernel_groups : Dict CoreApiProxy → String → Dict CoreApiProxy
unfolding add_to_group
add_proxy_to_kernel_groups proxies id =
    map_values (add_to_group (id ∷ [])) (insert id (new_proxy "Subscription" id) proxies)

-- `CloudNodeLike`; a port of 0 and an empty text count as absent.
pub record CloudNodeLike : Type 0 where
  pub label : String
  pub ipv4 : Option String
  pub ipv6 : Option String
  pub ss_port : Option ℕ
  pub ss_password : Option String
  pub hysteria_port : Option ℕ
  pub hysteria_password : Option String
  pub vless_port : Option ℕ
  pub vless_uuid : Option String
  pub vless_public_key : Option String
  pub vless_short_id : Option String
  pub trojan_port : Option ℕ
  pub trojan_password : Option String

abbrev pub ip_versions : CloudNodeLike → List String
ip_versions node =
    (if is_public_ipv4_number node.ipv4 then "-v4" ∷ [] else [])
    ++ (if has_text node.ipv6 then "-v6" ∷ [] else [])

-- The tags of one protocol, if the node has it.
abbrev pub protocol_tags : Bool → String → List String → String → List String
protocol_tags true label versions protocol = map (λ v. label <> (protocol <> v)) versions
protocol_tags false label versions protocol = []

abbrev pub has_ss : CloudNodeLike → Bool
has_ss node = has_number node.ss_port && has_text node.ss_password

abbrev pub has_hysteria : CloudNodeLike → Bool
has_hysteria node = has_number node.hysteria_port && has_text node.hysteria_password

abbrev pub has_vless : CloudNodeLike → Bool
has_vless node =
    has_number node.vless_port
    && has_text node.vless_uuid
    && has_text node.vless_public_key
    && has_text node.vless_short_id

abbrev pub has_trojan : CloudNodeLike → Bool
has_trojan node = has_number node.trojan_port && has_text node.trojan_password

unfoldable pub proxy_tags : CloudNodeLike → List String
proxy_tags node =
    protocol_tags (has_ss node) node.label (ip_versions node) "-ss"
    ++ (protocol_tags (has_hysteria node) node.label (ip_versions node) "-hysteria2"
        ++ (protocol_tags (has_vless node) node.label (ip_versions node) "-vless"
            ++ protocol_tags (has_trojan node) node.label (ip_versions node) "-trojan"))

-- `updated[tag] = { … }` for each tag.
unfoldable pub insert_tags : List String → Dict CoreApiProxy → Dict CoreApiProxy
insert_tags [] proxies = proxies
insert_tags (t ∷ ts) proxies = insert_tags ts (insert t (new_proxy "Proxy" t) proxies)

-- Without a usable address the copy is returned as it is.
unfoldable pub add_tags : List String → List String → Dict CoreApiProxy → Dict CoreApiProxy
add_tags [] tags proxies = proxies
add_tags (_ ∷ _) tags proxies = map_values (add_to_group tags) (insert_tags tags proxies)

unfoldable pub add_cloud_node_to_kernel_groups :
    Dict CoreApiProxy → CloudNodeLike → Dict CoreApiProxy
unfolding add_tags
add_cloud_node_to_kernel_groups proxies node = add_tags (ip_versions node) (proxy_tags node) proxies
