-- ===== src/Cloud/Subscription/Probe.antt =====
-- The handlers that take the result of a probe: `updateProtocolHealthFromConnectivity` with
-- `setProtocolHealthEntry`, `applyProtocolHealthToNode` and `syncManagedCloudProfiles`.
use private_deploy.Base.{
  Bool, true, false, not, ◌&&◌, ◌||◌, Option, none, some, List, [], ◌∷◌, String, if◌then◌else◌,
}
use private_deploy.Base.Dict.{Dict}
use private_deploy.Cloud.Ids.{ProtocolHealthMap, subscription_id}
use private_deploy.Cloud.Nodes.{CloudNode}
use private_deploy.Cloud.SmartRouting.Apply.{ensure_smart_auto_routing}
use private_deploy.Cloud.Subscription.Health.{Verdict, verdicts, set_protocol_health_entry}
use private_deploy.Cloud.Subscription.Record.{Subscription}
use private_deploy.Cloud.Subscription.Apply.{
  finished, StoredProfile, ApplyDeps, Handler, then_run, ◌>>=◌, ◌>>◌, return, finish, call,
  call_ignored, get_subscribe_by_id, edit_profiles, load_protocol_health,
  ensure_subscription_for_node,
}
use private_deploy.Cloud.Subscription.Move.{store_health}

module _ {W : Type 0} (deps : ApplyDeps W) where
  abbrev pub set_entry : String → Verdict → Handler W Bool
  set_entry id v = load_protocol_health deps >> λ s.
      store_health deps (set_protocol_health_entry id v (deps.now s.world) s.protocol_health) s

  -- The loop over the verdicts, with what was changed before.
  unfoldable pub store_verdicts : String → List Verdict → Bool → Handler W Bool
  unfolding load_protocol_health set_protocol_health_entry
  store_verdicts id [] changed s = (finished changed, s)
  store_verdicts id (v ∷ vs) changed s =
      then_run (λ more. store_verdicts id vs (more || changed)) (set_entry id v s)

  abbrev pub rerouted : ProtocolHealthMap → StoredProfile → StoredProfile
  rerouted health p = record p { profile = ensure_smart_auto_routing p.profile health }

  unfoldable pub profiles_to_reroute : ProtocolHealthMap → List StoredProfile → List StoredProfile
  profiles_to_reroute health [] = []
  profiles_to_reroute health (p ∷ ps) =
      let rest = profiles_to_reroute health ps in
      if deps.same_json (rerouted health p).profile p.profile
      then rest
      else rerouted health p ∷ rest

  abbrev pub reroute : String → List StoredProfile → Handler W Bool
  reroute reason [] = return false
  reroute reason (p ∷ ps) =
      edit_profiles deps (p ∷ ps) >> call (deps.reload_kernel reason) >> return true

  unfoldable pub sync_managed_cloud_profiles : String → Handler W Bool
  unfolding edit_profiles profiles_to_reroute
  sync_managed_cloud_profiles reason s =
      reroute reason (profiles_to_reroute s.protocol_health s.profiles) s

  -- The proxies are read again where no profile changed.
  abbrev pub refresh_unless : Bool → Handler W (Unit {0})
  refresh_unless changed s =
      if not changed && deps.running s.world
      then call_ignored deps.refresh_provider_proxies s
      else (finished tt, s)

  abbrev pub apply_to : CloudNode → Option Subscription → Handler W (Unit {0})
  apply_to node none = finish
  apply_to node (some existing) =
      ensure_subscription_for_node deps node
      >> (sync_managed_cloud_profiles "protocol-health-update" >>= refresh_unless)

  unfoldable pub apply_protocol_health_to_node : CloudNode → Handler W (Unit {0})
  unfolding load_protocol_health ensure_subscription_for_node sync_managed_cloud_profiles
      get_subscribe_by_id
  apply_protocol_health_to_node node = load_protocol_health deps >> λ s.
      apply_to node (get_subscribe_by_id (subscription_id node.instance_id) s.subscribes) s

  abbrev pub apply_if : CloudNode → Bool → Handler W (Unit {0})
  apply_if node false = finish
  apply_if node true = apply_protocol_health_to_node node

  unfoldable pub update_protocol_health_from_connectivity :
      CloudNode → Dict String → Handler W (Unit {0})
  unfolding load_protocol_health verdicts store_verdicts apply_protocol_health_to_node
  update_protocol_health_from_connectivity node target_status =
      load_protocol_health deps
      >> (store_verdicts node.instance_id (verdicts node target_status) false >>= apply_if node)
