-- ===== src/Kernel/ProxyGroups/Tests.antt =====
-- A small map of proxies.
use private_deploy.Base.{
  ◌≡◌, refl, true, Option, none, some, List, [], ◌∷◌, String, arith, one_of, if◌then◌else◌, str_eq,
  is_some, split, trim,
}
use private_deploy.Base.Dict.{Dict, lookup, insert, erase, map_values, over, AllValues}
use private_deploy.Cloud.Address.{is_public_ipv4_number, is_private_start, to_number}
use private_deploy.Kernel.ProxyGroups.{
  CoreApiProxy, CloudNodeLike, remove_from_group, remove_proxy_from_kernel_groups,
  add_proxy_to_kernel_groups, add_cloud_node_to_kernel_groups, proxy_tags,
}
use private_deploy.Kernel.ProxyGroups.Removal.{IsFree, remove_proxy_from_kernel_groups-IsFree}
use private_deploy.Kernel.ProxyGroups.Addition.{Offers}
use private_deploy.Kernel.ProxyGroups.Nodes.{add_cloud_node_to_kernel_groups-Offers}

groups : Unit {0}
unfolding remove_proxy_from_kernel_groups add_proxy_to_kernel_groups add_cloud_node_to_kernel_groups
    proxy_tags lookup insert erase map_values is_public_ipv4_number is_private_start to_number split
    trim
groups = tt

abbrev group : String → Option (List String) → String → CoreApiProxy
group kind members now = record {
  alive = true;
  all = members;
  name = "g";
  now = now;
  type = kind;
  udp = true;
  history = [];
}

abbrev sample : Dict CoreApiProxy
sample =
    ("pick", group "Selector" (some ("cloud-a" ∷ "direct" ∷ [])) "cloud-a")
    ∷ ("direct", group "Direct" none "")
    ∷ []

abbrev node : CloudNodeLike
node = record {
  label = "tokyo";
  ipv4 = some "203.0.113.7";
  ipv6 = none;
  ss_port = some 8388;
  ss_password = some "secret";
  hysteria_port = some 0;
  hysteria_password = some "secret";
  vless_port = none;
  vless_uuid = none;
  vless_public_key = none;
  vless_short_id = none;
  trojan_port = some 443;
  trojan_password = some "";
}

removed :
    remove_proxy_from_kernel_groups sample "cloud-a"
    ≡ ("pick", group "Selector" (some ("direct" ∷ [])) "direct")
      ∷ ("direct", group "Direct" none "")
      ∷ []
unfolding groups
removed = refl

tags : proxy_tags node ≡ "tokyo-ss-v4" ∷ []
unfolding groups
tags = refl

remove_proxy_from_kernel_groups-IsFree_example :
    AllValues (IsFree "cloud-a") (remove_proxy_from_kernel_groups sample "cloud-a")
    × ((j : String)
        → lookup j (remove_proxy_from_kernel_groups sample "cloud-a") ≡ (
            if str_eq "cloud-a" j
            then none
            else over (remove_from_group "cloud-a") (lookup j sample)))
remove_proxy_from_kernel_groups-IsFree_example =
    remove_proxy_from_kernel_groups-IsFree sample "cloud-a"

add_cloud_node_to_kernel_groups-Offers_example :
    AllValues (Offers (proxy_tags node)) (add_cloud_node_to_kernel_groups sample node)
    × ((t : String)
        → one_of t (proxy_tags node) ≡ true
        → is_some (lookup t (add_cloud_node_to_kernel_groups sample node)) ≡ true)
unfolding groups
add_cloud_node_to_kernel_groups-Offers_example =
    add_cloud_node_to_kernel_groups-Offers sample node (λ e. ground arith)
