-- ===== src/Cloud/Subscription/ApplyNode.antt =====
-- The handler that offers a node in a profile: `applyNodeToProfile`. The name of a profile and its
-- fields that routing does not read are left out, as are the ids that are sampled and overwritten at
-- once, and the save of the settings, which another store makes once the chosen profile has changed.
use private_deploy.Base.{
  Bool, true, false, not, Option, none, some, List, [], ◌∷◌, any, String, ◌<>◌, text_or, is_empty,
  if◌then◌else◌,
}
use private_deploy.Cloud.Ids.{subscription_id}
use private_deploy.Cloud.Nodes.{CloudNode}
use private_deploy.Cloud.SmartRouting.{IProxy, IRule, IProfile}
use private_deploy.Cloud.SmartRouting.Apply.{fallback_id, ensure_smart_auto_routing}
use private_deploy.Cloud.Subscription.Defaults.{default_rules, default_profile}
use private_deploy.Cloud.Subscription.Profiles.{is_type, offer_subscription}
use private_deploy.Cloud.Subscription.Record.{Subscription}
use private_deploy.Cloud.Subscription.Calls.{settled_profiles, get_profile_by_id}
use private_deploy.Cloud.Subscription.Apply.{
  finished, failed, StoredProfile, ApplyStore, ApplyDeps, Handler, ◌>>=◌, ◌>>◌, return,
  get_subscribe_by_id, edit_profiles, ensure_subscription_for_node,
}
use private_deploy.Stores.Lists.{ListDeps, add_item}

-- `proxyEntry`
abbrev pub proxy_entry : CloudNode → Subscription → IProxy
proxy_entry node sub = record {
  id = sub.id;
  tag = text_or (some sub.name) node.label;
  type = "Subscription";
}

-- The profile with the node, where `fresh` and `fresh'` are sampled ids.
unfoldable pub with_node : String → String → IProxy → IProfile → IProfile
unfolding offer_subscription
with_node fresh fresh' entry p = record p {
  outbounds = offer_subscription fresh fresh' entry p.outbounds;
  final = text_or (some p.final) fallback_id;
}

abbrev pub lacks : String → StoredProfile → Bool
lacks type p = not (any (is_type type) p.profile.outbounds)

module _ {W : Type 0} (deps : ApplyDeps W) where
  abbrev pub sample : Handler W String
  sample s = let (id, w) = deps.sample_id s.world in (finished id, record s { world = w })

  unfoldable pub sample_rules : List (String → IRule) → Handler W (List IRule)
  sample_rules [] s = (finished [], s)
  sample_rules (r ∷ rs) s = (sample >>= λ id. sample_rules rs >>= λ rest. return (r id ∷ rest)) s

  unfoldable pub new_profile : Handler W StoredProfile
  unfolding sample_rules default_rules default_profile
  new_profile = sample >>= λ id. sample_rules default_rules >>= λ rules.
      return (record { id = id; profile = default_profile deps.translate rules })

  -- `baseProfile`, and whether it was created.
  abbrev pub create : Handler W (Bool × StoredProfile)
  create = new_profile >>= λ p. return (true, p)

  abbrev pub base_profile : Option StoredProfile → Handler W (Bool × StoredProfile)
  base_profile none = create
  base_profile (some p) = if lacks "selector" p then create else return (false, p)

  -- An id for a new outbound, where there is none of the type.
  abbrev pub sample_for : String → StoredProfile → Handler W String
  sample_for type p = if lacks type p then sample else return ""

  abbrev pub profiles_deps : ListDeps StoredProfile W
  profiles_deps = record { id_of = λ p. p.id; save = deps.save_profiles }

  unfoldable pub add_profile : StoredProfile → Handler W (Unit {0})
  unfolding add_item
  add_profile p s =
      settled_profiles s (add_item profiles_deps p (record { items = s.profiles; world = s.world }))

  abbrev pub store_profile : Bool → StoredProfile → Handler W (Unit {0})
  store_profile true p = add_profile p
  store_profile false p = edit_profiles deps (p ∷ [])

  abbrev pub choose_profile : String → Handler W String
  choose_profile id s = (finished id, record s { kernel_profile = id })

  abbrev pub keep_profile : Bool → StoredProfile → Handler W String
  keep_profile created p = store_profile created p >> choose_profile p.id

  abbrev pub offer_in : IProxy → Bool × StoredProfile → Handler W String
  offer_in entry (created, p) = sample_for "selector" p >>= λ fresh.
      sample_for "urltest" p >>= λ fresh' s.
      keep_profile created
        (record p {
          profile =
              ensure_smart_auto_routing (with_node fresh fresh' entry p.profile) s.protocol_health;
        })
        s

  -- `targetProfileId` and the profile that it names.
  abbrev pub target : Option String → ApplyStore W → Option StoredProfile
  target profile_id s =
      let id = text_or profile_id s.kernel_profile in
      if is_empty id then none else get_profile_by_id id s.profiles

  abbrev pub with_subscription : CloudNode → Option String → Option Subscription → Handler W String
  with_subscription node profile_id none s =
      (failed ("Subscription for " <> (node.label <> " is missing")), s)
  with_subscription node profile_id (some sub) s =
      (base_profile (target profile_id s) >>= offer_in (proxy_entry node sub)) s

  unfoldable pub apply_node_to_profile : CloudNode → Option String → Handler W String
  unfolding ensure_subscription_for_node get_subscribe_by_id get_profile_by_id new_profile with_node
      add_profile edit_profiles
  apply_node_to_profile node profile_id = ensure_subscription_for_node deps node >> λ s.
      with_subscription node profile_id
        (get_subscribe_by_id (subscription_id node.instance_id) s.subscribes) s
