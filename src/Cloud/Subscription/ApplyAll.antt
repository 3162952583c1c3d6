-- ===== src/Cloud/Subscription/ApplyAll.antt =====
-- The handler that offers all usable nodes: `applyAllNodesToProfile`. Its arguments, which read the
-- manual nodes, take them among the instances and mark a node, are the record `NodeCalls`.
use private_deploy.Base.{
  Bool, false, not, ◌&&◌, Option, none, some, List, [], ◌∷◌, ◌++◌, map, filter, String, one_of,
  is_empty, length, ltb, if◌then◌else◌, Action,
}
use private_deploy.Cloud.Ids.{subscription_id}
use private_deploy.Cloud.Nodes.{CloudNode, has_usable_address}
use private_deploy.Cloud.SmartRouting.{IOutbound}
use private_deploy.Cloud.Subscription.Calls.{caught, get_profile_by_id}
use private_deploy.Cloud.Subscription.Apply.{
  finished, StoredProfile, ApplyStore, ApplyDeps, Handler, then_run, ◌>>=◌, ◌>>◌, return, call,
  call_ignored,
}
use private_deploy.Cloud.Subscription.Probe.{sync_managed_cloud_profiles}
use private_deploy.Cloud.Subscription.ApplyNode.{apply_node_to_profile}

pub record NodeCalls (W : Type 0) : Type 0 where
  pub load_manual_nodes : Action W (Unit {0})
  pub sync_manual_nodes_into_instances : W → W
  -- `instancesRef.value`
  pub instances : W → List CloudNode
  pub mark_node_status : String → String → W → W

abbrev pub child_ids : IOutbound → List String
child_ids o = filter (λ id. not (is_empty id)) (map (λ c. c.id) o.outbounds)

abbrev pub all_child_ids : List IOutbound → List String
all_child_ids [] = []
all_child_ids (o ∷ os) = child_ids o ++ all_child_ids os

abbrev pub ids_in : Option StoredProfile → List String
ids_in none = []
ids_in (some p) = all_child_ids p.profile.outbounds

-- `existingSubscriptionIds`, as they are before the loop.
unfoldable pub existing_subscription_ids : {W : Type 0} → ApplyStore W → List String
unfolding get_profile_by_id
existing_subscription_ids s =
    if is_empty s.kernel_profile then [] else ids_in (get_profile_by_id s.kernel_profile s.profiles)

-- What the loop keeps: the ids that are offered, and the nodes that were applied.
pub record Applying : Type 0 where
  pub existing : List String
  pub applied : List String

module _ {W : Type 0} (deps : ApplyDeps W) (calls : NodeCalls W) where
  -- Behind an application of the node that returned, or threw.
  abbrev pub mark_applied : CloudNode → Applying → Option String → Handler W Applying
  mark_applied node a none s = (finished a, s)
  mark_applied node a (some id) s = (
    finished (record {
      existing = subscription_id node.instance_id ∷ a.existing;
      applied = a.applied ++ (node.instance_id ∷ []);
    }),
    record s { world = calls.mark_node_status node.instance_id "connected" s.world },
  )

  abbrev pub apply_one : CloudNode → Applying → Handler W Applying
  apply_one node a s =
      if one_of (subscription_id node.instance_id) a.existing
      then (finished a, s)
      else (caught (apply_node_to_profile deps node none) >>= mark_applied node a) s

  unfoldable pub apply_each : List CloudNode → Applying → Handler W Applying
  unfolding apply_node_to_profile
  apply_each [] a s = (finished a, s)
  apply_each (n ∷ ns) a s = then_run (λ b. apply_each ns b) (apply_one n a s)

  -- `repaired`
  abbrev pub was_repaired : Option Bool → Bool
  was_repaired none = false
  was_repaired (some b) = b

  abbrev pub reload_after : List CloudNode → List String → Bool → Handler W (Unit {0})
  reload_after candidates (id ∷ ids) repaired s =
      if repaired
      then (finished tt, s)
      else call_ignored (deps.reload_or_start_kernel "apply-all-nodes") s
  reload_after candidates [] repaired s =
      if not repaired && (not (deps.running s.world) && ltb 0 (length candidates))
      then call_ignored (deps.reload_or_start_kernel "apply-existing-ready-nodes") s
      else (finished tt, s)

  abbrev pub repair : Handler W Bool
  repair = caught (sync_managed_cloud_profiles deps "apply-all-nodes-repair") >>= λ r.
      return (was_repaired r)

  abbrev pub apply_candidates : List String → List CloudNode → Handler W (List String)
  apply_candidates existing candidates =
      apply_each candidates (record { existing = existing; applied = [] }) >>= λ a.
      repair >>= λ repaired. reload_after candidates a.applied repaired >> return a.applied

  unfoldable pub apply_all_nodes_to_profile : Handler W (List String)
  unfolding existing_subscription_ids has_usable_address apply_each sync_managed_cloud_profiles
  apply_all_nodes_to_profile =
      call calls.load_manual_nodes
      >> (λ s. (finished tt, record s { world = calls.sync_manual_nodes_into_instances s.world }))
      >> λ s.
          apply_candidates (existing_subscription_ids s)
            (filter (λ n. has_usable_address n) (calls.instances s.world)) s
