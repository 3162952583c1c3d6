-- ===== src/Cloud/Subscription/Move.antt =====
-- The handler that moves the subscription of a node to a new id: `migrateManagedNodeIdentity`, with
-- `migrateProtocolHealthEntry` and `replaceSubscriptionReferences`.
use private_deploy.Base.{
  Bool, true, false, ◌||◌, Option, none, some, List, [], ◌∷◌, String, str_eq, is_empty, text_or,
  if◌then◌else◌,
}
use private_deploy.Cloud.Ids.{ProtocolHealthMap, subscription_id, subscription_path}
use private_deploy.Cloud.Nodes.{CloudNode}
use private_deploy.Cloud.SmartRouting.Apply.{ensure_smart_auto_routing}
use private_deploy.Cloud.Subscription.Health.{migrate_protocol_health_entry}
use private_deploy.Cloud.Subscription.Profiles.{Replacement, replace_references}
use private_deploy.Cloud.Subscription.Record.{
  Subscription, request_of, response_of, apply_managed_exclude,
}
use private_deploy.Cloud.Subscription.Apply.{
  finished, StoredProfile, ApplyStore, ApplyDeps, Handler, ◌>>=◌, ◌>>◌, return, call, call_ignored,
  on_subscribes, get_subscribe_by_id, edit_profiles, subscribes_deps, load_protocol_health,
  ensure_subscription_for_node,
}
use private_deploy.Stores.Lists.{edit_item, delete_item}

-- A profile with the reference replaced, and whether it changed.
abbrev pub moved_profile : ProtocolHealthMap → Replacement → StoredProfile → Bool × StoredProfile
moved_profile health r p =
    let (changed, outbounds) = replace_references r p.profile.outbounds in
    (
      changed,
      record p {
        profile = ensure_smart_auto_routing (record p.profile { outbounds = outbounds }) health;
      },
    )

unfoldable pub profiles_to_move :
    ProtocolHealthMap → Replacement → List StoredProfile → List StoredProfile
unfolding replace_references
profiles_to_move health r [] = []
profiles_to_move health r (p ∷ ps) =
    let (changed, next) = moved_profile health r p in
    let rest = profiles_to_move health r ps in if changed then next ∷ rest else rest

abbrev pub some_updates : List StoredProfile → Bool
some_updates [] = false
some_updates (p ∷ ps) = true

module _ {W : Type 0} (deps : ApplyDeps W) where
  abbrev pub move_profiles : List StoredProfile → Handler W Bool
  move_profiles updates = edit_profiles deps updates >> return (some_updates updates)

  unfoldable pub replace_subscription_references : Replacement → Handler W Bool
  unfolding profiles_to_move edit_profiles
  replace_subscription_references r s =
      if is_empty r.old || is_empty r.new || str_eq r.old r.new
      then (finished false, s)
      else move_profiles (profiles_to_move s.protocol_health r s.profiles) s

  abbrev pub store_health : Bool × ProtocolHealthMap → Handler W Bool
  store_health (false, health) s = (finished false, s)
  store_health (true, health) s =
      (call (deps.save_health health) >> return true) (record s { protocol_health = health })

  unfoldable pub migrate_health : String → String → Handler W Bool
  unfolding load_protocol_health migrate_protocol_health_entry
  migrate_health old new s =
      if is_empty old || is_empty new || str_eq old new
      then (finished false, s)
      else (load_protocol_health deps >> λ t.
            store_health (migrate_protocol_health_entry old new t.protocol_health) t)
          s

  -- `migratedSubscription`
  abbrev pub migrated : CloudNode → Subscription → Subscription → ApplyStore W → Subscription
  migrated node old new s = apply_managed_exclude s.protocol_health node.instance_id (record old {
    id = subscription_id node.instance_id;
    name = node.label;
    path = subscription_path node.instance_id;
    update_time = deps.now s.world;
    script = text_or (some new.script) (text_or (some old.script) deps.default_script);
    proxies = new.proxies;
    header = some (record {
      request = some (request_of old.header);
      response = some (response_of old.header);
    });
  })

  abbrev pub keep_settings :
      CloudNode → Option Subscription → Option Subscription → Bool → Handler W Bool
  keep_settings node (some new) (some old) changed s =
      (on_subscribes (
            edit_item (subscribes_deps deps) (subscription_id node.instance_id)
              (migrated node old new s))
          >> return true)
        s
  keep_settings node none old changed s = return changed s
  keep_settings node (some new) none changed s = return changed s

  abbrev pub tag_of : CloudNode → Option Subscription → String
  tag_of node none = node.label
  tag_of node (some new) = text_or (some new.name) node.label

  abbrev pub delete_old : String → Option Subscription → Bool → Handler W Bool
  delete_old id none changed = return changed
  delete_old id (some old) changed =
      on_subscribes (delete_item (subscribes_deps deps) id) >> return true

  abbrev pub clean_up : String → Bool → Handler W Bool
  clean_up from changed = call_ignored (deps.remove_file (subscription_path from)) >> λ t. (
    finished changed,
    record t { world = deps.remove_proxy_from_groups (subscription_id from) t.world },
  )

  abbrev pub forget_old : String → Option Subscription → Bool → Bool → Handler W Bool
  forget_old from old changed replaced =
      delete_old (subscription_id from) old (replaced || changed) >>= clean_up from

  abbrev pub relink : String → Option Subscription → Replacement → Bool → Handler W Bool
  relink from old r changed = replace_subscription_references r >>= forget_old from old changed

  -- What follows where the node has its new subscription.
  abbrev pub move_references : String → CloudNode → Option Subscription → Bool → Handler W Bool
  move_references from node old changed s =
      let new_id = subscription_id node.instance_id in
      let new = get_subscribe_by_id new_id s.subscribes in
      (keep_settings node new old changed
          >>= relink from old
              (record { old = subscription_id from; new = new_id; tag = tag_of node new }))
        s

  abbrev pub ensure_new : String → CloudNode → Option Subscription → Bool → Handler W Bool
  ensure_new from node old changed =
      ensure_subscription_for_node deps node >> move_references from node old changed

  unfoldable pub migrate_managed_node_identity : String → CloudNode → Handler W Bool
  unfolding migrate_health ensure_subscription_for_node replace_subscription_references
      apply_managed_exclude get_subscribe_by_id edit_item delete_item
  migrate_managed_node_identity from node s =
      let old = get_subscribe_by_id (subscription_id from) s.subscribes in
      if is_empty from || str_eq from node.instance_id
      then (finished false, s)
      else (migrate_health from node.instance_id >>= ensure_new from node old) s
