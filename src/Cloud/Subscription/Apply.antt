-- ===== src/Cloud/Subscription/Apply.antt =====
-- The handlers that keep the subscription of a node: `ensureSubscriptionForNode`,
-- `removeSubscriptionForNode` and `loadProtocolHealth` with the refs and the stores that they change.
use private_deploy.Base.{ℕ, Bool, true, Option, none, some, List, [], ◌∷◌, String, if◌then◌else◌}
use private_deploy.Cloud.Ids.{ProtocolHealthMap, subscription_id, subscription_path}
use private_deploy.Cloud.Nodes.{CloudNode, has_usable_address}
use private_deploy.Cloud.SmartRouting.Apply.{ensure_smart_auto_routing}
use private_deploy.Cloud.Subscription.Payload.{IpVersion, ip_versions, node_outbounds}
use private_deploy.Cloud.Subscription.Profiles.{prune_subscription}
use private_deploy.Cloud.Subscription.Record.{
  Subscription, apply_managed_exclude, new_subscription, refreshed, should_write,
}
use private_deploy.Stores.Lists.{ListDeps, add_item, edit_item, delete_item}
pub use private_deploy.Cloud.Subscription.Calls.{
  Progress, finished, failed, waiting, StoredProfile, ApplyStore, ApplyDeps, Handler, then_run,
  ◌>>=◌, ◌>>◌, return, finish, lifted, call, call_ignored, settled_subscribes, on_subscribes,
}
unfoldable pub use private_deploy.Cloud.Subscription.Calls.{get_subscribe_by_id}
pub use private_deploy.Cloud.Subscription.Edits.{is_profile, replaced_at}
unfoldable pub use private_deploy.Cloud.Subscription.Edits.{
  replace_profile, restore_profile, edit_profiles,
}

-- A profile without the subscription, and whether it changed.
abbrev pub pruned_profile : ProtocolHealthMap → String → StoredProfile → Bool × StoredProfile
pruned_profile health id p =
    let (changed, outbounds) = prune_subscription id p.profile.outbounds in
    (
      changed,
      record p {
        profile = ensure_smart_auto_routing (record p.profile { outbounds = outbounds }) health;
      },
    )

-- `toPrune`
unfoldable pub profiles_to_prune :
    ProtocolHealthMap → String → List StoredProfile → List StoredProfile
unfolding prune_subscription
profiles_to_prune health id [] = []
profiles_to_prune health id (p ∷ ps) =
    let (changed, next) = pruned_profile health id p in
    let rest = profiles_to_prune health id ps in if changed then next ∷ rest else rest

module _ {W : Type 0} (deps : ApplyDeps W) where
  unfoldable pub load_protocol_health : Handler W (Unit {0})
  load_protocol_health s =
      let (health, w) = deps.read_health s.world in
      if s.protocol_health_loaded then (finished tt, s) else (
        finished tt,
        record s { protocol_health = health; protocol_health_loaded = true; world = w },
      )

  abbrev pub subscribes_deps : ListDeps Subscription W
  subscribes_deps = record { id_of = λ x. x.id; save = deps.save_subscribes }

  abbrev pub reload_if_running : Handler W (Unit {0})
  reload_if_running s =
      if deps.running s.world
      then call_ignored (deps.reload_kernel "remove-subscription") s
      else (finished tt, s)

  abbrev pub prune_profiles : List StoredProfile → Handler W (Unit {0})
  prune_profiles [] = finish
  prune_profiles (p ∷ ps) = edit_profiles deps (p ∷ ps) >> reload_if_running

  unfoldable pub remove_subscription_for_node : String → Handler W (Unit {0})
  unfolding delete_item edit_profiles profiles_to_prune
  remove_subscription_for_node instance_id =
      let id = subscription_id instance_id in
      on_subscribes (delete_item subscribes_deps id)
      >> call_ignored (deps.remove_file (subscription_path instance_id))
      >> (λ s. (finished tt, record s { world = deps.remove_proxy_from_groups id s.world }))
      >> λ s. prune_profiles (profiles_to_prune s.protocol_health id s.profiles) s

  -- The record of a node's subscription, at the time that is read behind the write of its file.
  abbrev pub subscription_of :
      CloudNode → Option Subscription → ProtocolHealthMap → ℕ → Subscription
  subscription_of node none health now = apply_managed_exclude health node.instance_id (
      refreshed deps.default_script node.label (subscription_path node.instance_id) now (
        new_subscription deps.default_script (subscription_id node.instance_id) node.label
          (subscription_path node.instance_id) now))
  subscription_of node (some existing) health now =
      apply_managed_exclude health node.instance_id
        (refreshed deps.default_script node.label (subscription_path node.instance_id) now existing)

  abbrev pub store_subscription : CloudNode → Option Subscription → Handler W (Unit {0})
  store_subscription node none s =
      on_subscribes
        (add_item subscribes_deps (subscription_of node none s.protocol_health (deps.now s.world)))
        s
  store_subscription node (some existing) s =
      on_subscribes
        (edit_item subscribes_deps (subscription_id node.instance_id)
          (subscription_of node (some existing) s.protocol_health (deps.now s.world)))
        s

  -- The file of the node, written for a new subscription or one that is older than five minutes.
  abbrev pub write_node_file : CloudNode → Option Subscription → Handler W (Unit {0})
  write_node_file node existing s =
      if should_write existing (deps.now s.world)
      then call
          (deps.write_file (subscription_path node.instance_id)
            (node_outbounds node (deps.cdn_deployment_for node.instance_id s.world)))
          s
      else (finished tt, s)

  unfoldable pub write_subscription : CloudNode → Handler W (Unit {0})
  unfolding node_outbounds apply_managed_exclude refreshed add_item edit_item get_subscribe_by_id
  write_subscription node s =
      let existing = get_subscribe_by_id (subscription_id node.instance_id) s.subscribes in
      (write_node_file node existing >> store_subscription node existing) s

  abbrev pub with_versions : CloudNode → List IpVersion → Handler W (Unit {0})
  with_versions node [] = remove_subscription_for_node node.instance_id
  with_versions node (v ∷ vs) = write_subscription node

  unfoldable pub ensure_subscription_for_node : CloudNode → Handler W (Unit {0})
  unfolding load_protocol_health has_usable_address remove_subscription_for_node write_subscription
  ensure_subscription_for_node node =
      load_protocol_health
      >> (if has_usable_address node
          then with_versions node (ip_versions node)
          else remove_subscription_for_node node.instance_id)
