-- ===== src/Cloud/InstanceSync.antt =====
-- The list of instances after a refresh, and the probe of a node:
-- frontend/src/stores/cloud/instanceSync.ts. A set of texts is the list of its members.
-- The provider's nodes are taken as `normalizeCloudNode` gives them.
pub mod Status
pub mod Merge
pub mod InUse
pub mod Probe
mod Tests
use private_deploy.Base.{
  ℕ, ◌-◌, ltb, zero, suc, Bool, true, false, not, ◌&&◌, ◌||◌, ◌==◌, Option, none, some, List, [],
  ◌∷◌, ◌++◌, map, filter, find, String, str_eq, one_of, is_empty, starts_with, codes, lower_codes,
  has_text, or_else, if◌then◌else◌, any,
}
use private_deploy.Cloud.Ids.{subscription_id, slice_from}

pub data CloudNodeStatus : Type 0 where
  unknown : CloudNodeStatus
  pending : CloudNodeStatus
  applying : CloudNodeStatus
  connected : CloudNodeStatus
  error : CloudNodeStatus

-- `ManagedCloudNode`: what the refresh reads or carries over; `R` is the type of probe results.
pub record ManagedCloudNode (R : Type 0) : Type 0 where
  pub instance_id : String
  pub replaced_instance_id : String
  pub status : Option String
  pub status_text : CloudNodeStatus
  pub connectivity_status : Option String
  pub connectivity_testing : Bool
  pub last_connectivity_result : Option R
  pub speed_ms : Option ℕ
  pub speed_mbps : Option ℕ
  pub speed_error : Option String
  pub speed_testing : Bool

abbrev codes_eq : List ℕ → List ℕ → Bool
codes_eq [] [] = true
codes_eq (c ∷ cs) (d ∷ ds) = c == d && codes_eq cs ds
codes_eq _ _ = false

-- `list.includes(s.toLowerCase())`, for lists of ASCII texts.
unfoldable pub lower_one_of : String → List String → Bool
lower_one_of s ts = any (λ t. codes_eq (lower_codes (codes s)) (codes t)) ts

-- For a status that is there.
abbrev named_status : String → CloudNodeStatus
named_status s =
    if lower_one_of s ("active" ∷ "running" ∷ "ok" ∷ "online" ∷ "started" ∷ [])
    then connected
    else if lower_one_of s ("pending" ∷ "installing" ∷ "starting" ∷ "booting" ∷ "provisioning" ∷ [])
    then pending
    else if lower_one_of s ("applying" ∷ "deploying" ∷ "configuring" ∷ [])
    then applying
    else if lower_one_of s ("failed" ∷ "error" ∷ "stopped" ∷ "poweroff" ∷ "locked" ∷ "blocked" ∷ [])
    then error
    else unknown

unfoldable pub provider_status_to_node_status : Option String → CloudNodeStatus
provider_status_to_node_status none = unknown
provider_status_to_node_status (some s) = if is_empty s then unknown else named_status s

-- The status after a refresh, from the one before and the provider's.
unfoldable pub next_status : CloudNodeStatus → CloudNodeStatus → CloudNodeStatus
next_status previous connected = connected
next_status unknown provider = provider
next_status pending applying = applying
next_status error error = error
next_status previous error = error
next_status previous provider = previous

-- `value ? value : mine`
abbrev keep_text : Option String → Option String → Option String
keep_text none mine = mine
keep_text (some s) mine = if is_empty s then mine else some s

abbrev keep_some : {A : Type 0} → Option A → Option A → Option A
keep_some none mine = mine
keep_some (some a) mine = some a

-- What an active profile that uses the node makes of its status.
abbrev pub used_status : CloudNodeStatus → CloudNodeStatus
used_status applying = applying
used_status pending = pending
used_status _ = connected

abbrev lost_status : CloudNodeStatus → CloudNodeStatus
lost_status error = error
lost_status _ = unknown

module _ {R : Type 0} where
  -- `new Map(nodes.map((node) => [node.instanceId, node])).get(id)`: the last node with the id.
  unfoldable pub previous_by_id : String → List (ManagedCloudNode R) → Option (ManagedCloudNode R)
  previous_by_id id [] = none
  previous_by_id id (n ∷ ns) =
      let found = previous_by_id id ns in
      elim found [ some m ↦ some m | none ↦ if str_eq n.instance_id id then some n else none ]

  -- The node before, under its id or the id that it replaces.
  abbrev or_replaced :
      Option (ManagedCloudNode R)
      → ManagedCloudNode R
      → List (ManagedCloudNode R)
      → Option (ManagedCloudNode R)
  or_replaced (some p) node prevs = some p
  or_replaced none node prevs =
      if is_empty node.replaced_instance_id
      then none
      else previous_by_id node.replaced_instance_id prevs

  abbrev pub previous_of :
      List (ManagedCloudNode R) → ManagedCloudNode R → Option (ManagedCloudNode R)
  previous_of prevs node = or_replaced (previous_by_id node.instance_id prevs) node prevs

  -- With the measurements of the node before.
  abbrev pub enriched_from : ManagedCloudNode R → ManagedCloudNode R → ManagedCloudNode R
  enriched_from prev node = record node {
    status_text = next_status prev.status_text (provider_status_to_node_status node.status);
    connectivity_status = keep_text prev.connectivity_status node.connectivity_status;
    connectivity_testing = prev.connectivity_testing || node.connectivity_testing;
    last_connectivity_result =
        keep_some prev.last_connectivity_result node.last_connectivity_result;
    speed_ms = keep_some prev.speed_ms node.speed_ms;
    speed_mbps = keep_some prev.speed_mbps node.speed_mbps;
    speed_error = keep_text prev.speed_error node.speed_error;
    speed_testing = prev.speed_testing || node.speed_testing;
  }

  abbrev enriched : Option (ManagedCloudNode R) → ManagedCloudNode R → ManagedCloudNode R
  enriched none node = record node {
    status_text = next_status unknown (provider_status_to_node_status node.status);
  }
  enriched (some prev) node = enriched_from prev node

  unfoldable pub enrich : List (ManagedCloudNode R) → ManagedCloudNode R → ManagedCloudNode R
  unfolding previous_by_id next_status provider_status_to_node_status
  enrich prevs node = enriched (previous_of prevs node) node

  abbrev in_profile : List String → ManagedCloudNode R → Bool
  in_profile children node =
      one_of (subscription_id node.instance_id) children
      || (not (is_empty node.replaced_instance_id)
          && one_of (subscription_id node.replaced_instance_id) children)

  -- With the ids of the children of the active profile's outbounds, if there is a profile.
  unfoldable pub mark_used : Option (List String) → ManagedCloudNode R → ManagedCloudNode R
  mark_used none node = node
  mark_used (some children) node =
      if in_profile children node
      then record node { status_text = used_status node.status_text }
      else node

  -- `refreshInstances` up to the status of every node that the provider lists.
  abbrev pub provider_nodes :
      Option (List String)
      → List (ManagedCloudNode R)
      → List (ManagedCloudNode R)
      → List (ManagedCloudNode R)
  provider_nodes children prevs nodes =
      map (λ n. mark_used children (enrich prevs n))
        (filter (λ n. not (is_empty n.instance_id)) nodes)

  abbrev pub ids : List (ManagedCloudNode R) → List String
  ids ns = map ManagedCloudNode.instance_id ns

  abbrev pub mark_lost : ManagedCloudNode R → ManagedCloudNode R
  mark_lost node = record node { status_text = lost_status node.status_text }

-- `sub.id.slice('cloud-'.length)` of the ids that begin with it.
unfoldable pub sliced_ids : List String → List String
unfolding slice_from
sliced_ids [] = []
sliced_ids (id ∷ rest) =
    let sliced = sliced_ids rest in
    if starts_with id "cloud-" then slice_from 6 id ∷ sliced else sliced

-- With the ids of all subscriptions, and of the children of the active profile's outbounds.
unfoldable pub is_in_use : List String → List String → String → Bool
unfolding sliced_ids
is_in_use subscriptions children id =
    not (is_empty id) && (one_of id (sliced_ids subscriptions) || one_of id (sliced_ids children))

module _ {R : Type 0} (subscriptions : List String) (profile : Option (List String)) where
  -- A node before that the provider did not list, but that is in use.
  abbrev pub is_retained : List String → List String → ManagedCloudNode R → Bool
  is_retained listed migrated prev =
      not (is_empty prev.instance_id)
      && (not (one_of prev.instance_id listed)
          && (not (one_of prev.instance_id migrated)
              && is_in_use subscriptions (or_else profile []) prev.instance_id))

  -- `instances.value` after the refresh, from the one before, the provider's nodes and the ids that
  -- were moved to another node.
  unfoldable pub merge_instances :
      List String
      → List (ManagedCloudNode R)
      → List (ManagedCloudNode R)
      → List (ManagedCloudNode R)
  unfolding is_in_use enrich mark_used
  merge_instances migrated prevs nodes =
      let enriched_nodes = provider_nodes profile prevs nodes in
      enriched_nodes ++ map mark_lost (filter (is_retained (ids enriched_nodes) migrated) prevs)
