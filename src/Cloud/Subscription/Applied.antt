-- ===== src/Cloud/Subscription/Applied.antt =====
-- A node after it was applied to a profile.
use private_deploy.Base.{
  ◌≡◌, refl, ap, ◌∙◌, sym, subst, ◌⊎◌, inl, inr, Bool, true, false, Option, none, some, List, All,
  Memᴰ, String, is_empty, text_or, threw, if◌then◌else◌,
}
use private_deploy.Cloud.Ids.{subscription_id, is_managed_cloud_outbound_id}
use private_deploy.Cloud.Nodes.{CloudNode, has_usable_address}
use private_deploy.Cloud.SmartRouting.{IProxy}
use private_deploy.Cloud.SmartRouting.Closed.{RulesClosed-routed}
use private_deploy.Cloud.Subscription.Kept.{AllOffer, AllOffer-route}
use private_deploy.Cloud.Subscription.Stored.{IsClosedProfile, Stored, store_profile-Stored}
use private_deploy.Cloud.Subscription.Calls.{get_profile_by_id}
use private_deploy.Cloud.Subscription.Apply.{
  Progress, finished, failed, waiting, StoredProfile, ApplyStore, ApplyDeps, then_run,
  get_subscribe_by_id, subscription_of, ensure_subscription_for_node,
}
use private_deploy.Cloud.Subscription.ApplyNode.{
  proxy_entry, base_profile, with_subscription, apply_node_to_profile, with_node, store_profile,
  choose_profile, keep_profile, offer_in, target,
}
use private_deploy.Cloud.Subscription.Ensured.{
  IsEnsured, id-subscription_of, ensure_subscription_for_node-IsEnsured,
}
use private_deploy.Cloud.Subscription.Untouched.{SameProfiles, ensure-SameProfiles}
use private_deploy.Cloud.Subscription.Bases.{
  Draws-then, IsBase, with_node-closed, with_node-AllOffer, found-closed, base_profile-Draws,
  sample_for-Draws,
}

-- The profile with the id is chosen and stored, its selectors offer the subscription, and the rules of
-- every profile name outbounds that it has.
pub record AppliedTo (id sub_id chosen : String) (ps : List StoredProfile) : Type 0 where
  pub chosen_id : chosen ≡ id
  pub closed : All IsClosedProfile ps
  pub stored :
      (p : StoredProfile) × ((p.id ≡ id) × (Memᴰ p ps × AllOffer sub_id p.profile.outbounds))

-- A call that throws leaves the profiles and the choice, and throws the error of a save.
abbrev pub Applied :
    {W : Type 0} → ApplyDeps W → String → ApplyStore W → Progress String × ApplyStore W → Type 0
Applied deps sub_id s (finished id, t) = AppliedTo id sub_id t.kernel_profile t.profiles
Applied deps sub_id s (failed e, t) =
    (t.profiles ≡ s.profiles)
    × (t.kernel_profile ≡ s.kernel_profile)
    × ((ps : List StoredProfile) × ((w : _) × ((deps.save_profiles ps w).0 ≡ threw e)))
Applied deps sub_id s (waiting, t) = ⊥

module _ {W : Type 0} (deps : ApplyDeps W) (s : ApplyStore W) (sub_id : String)
    (own : is_managed_cloud_outbound_id sub_id ≡ false) where
  kept-Applied :
      (p : StoredProfile) (r : Progress (Unit {0}) × ApplyStore W)
      → AllOffer sub_id p.profile.outbounds
      → Stored deps p s r
      → Applied deps sub_id s (then_run (λ _. choose_profile deps p.id) r)
  kept-Applied p (finished u, t) h k = record {
    chosen_id = refl;
    closed = k.0;
    stored = (p, (refl, (k.1, h)));
  }
  kept-Applied p (failed e, t) h k = k
  kept-Applied p (waiting, t) h k = k

  keep-Applied :
      (created : Bool) (o p : StoredProfile)
      → All IsClosedProfile s.profiles
      → IsClosedProfile p
      → AllOffer sub_id p.profile.outbounds
      → (created ≡ false → get_profile_by_id p.id s.profiles ≡ some o)
      → Applied deps sub_id s (keep_profile deps created p s)
  keep-Applied created o p all c h f =
      kept-Applied p (store_profile deps created p s) h
        (store_profile-Stored deps p c created o s all f)

module _ {W : Type 0} (deps : ApplyDeps W) (entry : IProxy)
    (own : is_managed_cloud_outbound_id entry.id ≡ false) where
  offer_in-Applied :
      (s : ApplyStore W) (b : Bool × StoredProfile)
      → All IsClosedProfile s.profiles
      → IsBase s b
      → Applied deps entry.id s (offer_in deps entry b s)
  offer_in-Applied s (created, p) all h =
      Draws-then (λ _. Unit {0}) (Applied deps entry.id s) _ s _
        (sample_for-Draws deps "selector" p s)
        λ fresh w _.
          Draws-then (λ _. Unit {0}) (Applied deps entry.id s) _ (record s { world = w }) _
            (sample_for-Draws deps "urltest" p _)
            λ fresh' v _.
              keep-Applied deps (record s { world = v }) entry.id own created p _ all
                (RulesClosed-routed (with_node fresh fresh' entry p.profile) s.protocol_health
                  (with_node-closed fresh fresh' entry p.profile h.0))
                (AllOffer-route entry.id own (with_node fresh fresh' entry p.profile)
                  s.protocol_health (with_node-AllOffer fresh fresh' entry p.profile))
                h.1

  target-IsBase :
      (s : ApplyStore W) (profile_id : Option String) (p : StoredProfile)
      → All IsClosedProfile s.profiles
      → target deps profile_id s ≡ some p
      → IsBase s (false, p)
  target-IsBase s profile_id p all h =
      let id = text_or profile_id s.kernel_profile in go (is_empty id) id h
    where
      none_is_some : ◌≡◌ {A = Option StoredProfile} none (some p) → ⊥
      none_is_some q = cc

      go :
          (b : Bool) (id : String)
          → (if b then none else get_profile_by_id id s.profiles) ≡ some p
          → IsBase s (false, p)
      go true id q = absurd (none_is_some q)
      go false id q =
          let (c, same) = found-closed deps id s.profiles p q all in
          (c, λ _. ap (λ i. get_profile_by_id i s.profiles) same ∙ q)

  based-Applied :
      (s : ApplyStore W) (profile_id : Option String)
      → All IsClosedProfile s.profiles
      → Applied deps entry.id s
          (then_run (λ b. offer_in deps entry b) (base_profile deps (target deps profile_id s) s))
  based-Applied s profile_id all =
      Draws-then (IsBase s) (Applied deps entry.id s) (λ b. offer_in deps entry b) s
        (base_profile deps (target deps profile_id s) s)
        (base_profile-Draws deps (target deps profile_id s) s
          (λ p. target-IsBase s profile_id p all))
        λ b w h. offer_in-Applied (record s { world = w }) b all h

-- The outcome of the whole call: one that throws leaves the profiles and the choice, and throws what
-- keeping the subscription or saving a profile threw; none waits for ever.
abbrev pub IsApplied :
    {W : Type 0} → ApplyDeps W → CloudNode → ApplyStore W → Progress String × ApplyStore W → Type 0
IsApplied deps node s (finished id, t) =
    AppliedTo id (subscription_id node.instance_id) t.kernel_profile t.profiles
IsApplied deps node s (failed e, t) =
    (t.profiles ≡ s.profiles)
    × (t.kernel_profile ≡ s.kernel_profile)
    × ((ensure_subscription_for_node deps node s).0 ≡ failed e
        ⊎ ((ps : List StoredProfile) × ((w : _) × ((deps.save_profiles ps w).0 ≡ threw e))))
IsApplied deps node s (waiting, t) = ⊥

module _ {W : Type 0} (deps : ApplyDeps W) (node : CloudNode) (profile_id : Option String) where
  from_ensured :
      (s t : ApplyStore W) (sub_id : String) (r : Progress String × ApplyStore W)
      → sub_id ≡ subscription_id node.instance_id
      → t.profiles ≡ s.profiles
      → t.kernel_profile ≡ s.kernel_profile
      → Applied deps sub_id t r
      → IsApplied deps node s r
  from_ensured s t sub_id (finished id, u) e p c h =
      subst (λ i. AppliedTo id i u.kernel_profile u.profiles) e h
  from_ensured s t sub_id (failed x, u) e p c h = (h.0 ∙ p, h.1 ∙ c, inr h.2)
  from_ensured s t sub_id (waiting, u) e p c h = h

  ensured-IsApplied :
      (s : ApplyStore W) (r : Progress (Unit {0}) × ApplyStore W)
      → ensure_subscription_for_node deps node s ≡ r
      → is_managed_cloud_outbound_id (subscription_id node.instance_id) ≡ false
      → All IsClosedProfile s.profiles
      → IsEnsured deps node s.subscribes r
      → SameProfiles s r
      → IsApplied deps node s (
          then_run
            (λ _ t.
              with_subscription deps node profile_id
                (get_subscribe_by_id (subscription_id node.instance_id) t.subscribes)
                t)
            r)
  ensured-IsApplied s (finished u, t) e own all ((time, found), _) (p, c) =
      let id = subscription_id node.instance_id in
      let before = get_subscribe_by_id id s.subscribes in
      let sub = subscription_of deps node before t.protocol_health time in
      let same : sub.id ≡ id =
        id-subscription_of deps node before s.subscribes t.protocol_health time refl in
      rw found (
        from_ensured s t sub.id _ same p c (
          based-Applied deps (proxy_entry node sub) (ap is_managed_cloud_outbound_id same ∙ own) t
            profile_id (subst (All IsClosedProfile) (sym p) all)))
  ensured-IsApplied s (failed x, t) e own all h (p, c) = (p, c, inl (ap (λ r. r.0) e))
  ensured-IsApplied s (waiting, t) e own all h f = h

  -- Applying a node with a usable address, whose subscription has no managed id, to profiles whose
  -- rules name outbounds that they have: a call that returns an id has chosen and stored the profile
  -- with it, all selectors of which offer the subscription, and the rules of every profile name
  -- outbounds that it has; a call that throws leaves the profiles and the choice as they were and
  -- throws what keeping the subscription or saving a profile threw; none waits for ever.
  pub apply_node_to_profile-IsApplied :
      (s : ApplyStore W)
      → has_usable_address node ≡ true
      → is_managed_cloud_outbound_id (subscription_id node.instance_id) ≡ false
      → All IsClosedProfile s.profiles
      → IsApplied deps node s (apply_node_to_profile deps node profile_id s)
  unfolding apply_node_to_profile
  apply_node_to_profile-IsApplied s usable own all =
      ensured-IsApplied s _ refl own all (ensure_subscription_for_node-IsEnsured deps node s usable)
        (ensure-SameProfiles deps node s usable)
