-- ===== src/Cloud/SmartRouting/Fresh.antt =====
-- The outbound that is made for a node.
use private_deploy.Base.{
  ◌≡◌, refl, true, false, List, [], ◌∷◌, ◌++◌, String, str_eq, eq_refl, arith,
}
use private_deploy.Cloud.Ids.{node_smart_outbound_id}
use private_deploy.Cloud.SmartRouting.{
  IOutbound, CloudSubscriptionEntry, default_test_url, default_outbound, proxy_of, update_first,
  has_outbound, ensure_outbound, sync_subscription_entries,
}
use private_deploy.Cloud.SmartRouting.Routes.{node_best, node_tag, add_node_outbound}

pub update_first-last :
    (id : String) (f : IOutbound → IOutbound) (os : List IOutbound) (o : IOutbound)
    → has_outbound id os ≡ false
    → str_eq o.id id ≡ true
    → update_first id f (os ++ (o ∷ [])) ≡ os ++ (f o ∷ [])
unfolding update_first
update_first-last id f [] o h e = rw e refl
update_first-last id f (x ∷ os) o h e = ground (arith, update_first-last id f os o)

-- Where no outbound has the id made for a node, its outbound is appended: a group by delay over the
-- subscription alone that excludes the unhealthy protocols, with the interval of three minutes and
-- the tolerance of 150 milliseconds that every new outbound has.
pub add_node_outbound-fresh :
    (e : CloudSubscriptionEntry) (os : List IOutbound)
    → has_outbound (node_smart_outbound_id e.instance_id) os ≡ false
    → add_node_outbound e os
      ≡ os
        ++ (record {
          id = node_smart_outbound_id e.instance_id;
          tag = node_tag e;
          type = "urltest";
          outbounds = proxy_of e ∷ [];
          url = default_test_url;
          interval = "3m";
          tolerance = 150;
          interrupt_exist_connections = true;
          include = node_best;
          exclude = e.managed_exclude;
        }
            ∷ [])
unfolding add_node_outbound ensure_outbound sync_subscription_entries
add_node_outbound-fresh e os h =
    let id : String = node_smart_outbound_id e.instance_id in
    rw h (update_first-last id _ os (default_outbound id) h (eq_refl id))
