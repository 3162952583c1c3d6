-- ===== src/Cloud/Subscription/Refers.antt =====
-- The profiles that `removeSubscriptionForNode` changes are those that refer to the subscription.
use private_deploy.Base.{
  ◌≡◌, refl, ap, ◌∙◌, Bool, not, ◌||◌, ◌==◌, inl, inr, List, [], ◌∷◌, map, filter, any, length,
  length-filter-le, String, str_eq, arith, Bool-cases,
}
use private_deploy.Cloud.Ids.{ProtocolHealthMap}
use private_deploy.Cloud.SmartRouting.{IProxy, IOutbound}
use private_deploy.Cloud.Subscription.Apply.{StoredProfile, profiles_to_prune}
use private_deploy.Cloud.Subscription.Profiles.{prune_children, loses_child, prune_subscription}

-- An outbound that is the subscription's, or offers it.
abbrev pub offers_id : String → IOutbound → Bool
offers_id id o = any (λ c. str_eq c.id id) o.outbounds || str_eq o.id id

-- A profile one of whose outbounds is the subscription's, or offers it.
abbrev pub refers_to : String → StoredProfile → Bool
refers_to id p = any (offers_id id) p.profile.outbounds

loses_child-any :
    (id : String) (cs : List IProxy)
    → not (length cs == length (filter (λ c. not (str_eq c.id id)) cs))
      ≡ any (λ c. str_eq c.id id) cs
loses_child-any id [] = refl
loses_child-any id (c ∷ cs) =
    ground
      (arith, loses_child-any id cs, length-filter-le (λ (d : IProxy). not (str_eq d.id id)) cs)

shorter-any :
    (id : String) (os : List IOutbound)
    → not (
        length (map (prune_children id) os)
        == length (filter (λ o. not (str_eq o.id id)) (map (prune_children id) os)))
      ≡ any (λ o. str_eq o.id id) os
shorter-any id [] = refl
shorter-any id (o ∷ os) = ground (
  arith,
  shorter-any id os,
  length-filter-le (λ (p : IOutbound). not (str_eq p.id id)) (map (prune_children id) os),
)

offers-or :
    (id : String) (os : List IOutbound)
    → (any (loses_child id) os || any (λ o. str_eq o.id id) os) ≡ any (offers_id id) os
offers-or id [] = refl
offers-or id (o ∷ os) =
    rw (loses_child-any id o.outbounds)
      (or_swap (any (λ c. str_eq c.id id) o.outbounds) _ (str_eq o.id id) _ _ (offers-or id os))
  where
    or_swap : (a x b y z : Bool) → (x || y) ≡ z → ((a || x) || (b || y)) ≡ ((a || b) || z)
    or_swap a x b y z h = ground arith

changed-refers :
    (id : String) (os : List IOutbound) → (prune_subscription id os).0 ≡ any (offers_id id) os
unfolding prune_subscription
changed-refers id os = ap (λ b. any (loses_child id) os || b) (shorter-any id os) ∙ offers-or id os

-- As many profiles are changed as refer to the subscription.
pub length-profiles_to_prune :
    (health : ProtocolHealthMap) (id : String) (ps : List StoredProfile)
    → length (profiles_to_prune health id ps) ≡ length (filter (refers_to id) ps)
unfolding profiles_to_prune
length-profiles_to_prune health id [] = refl
length-profiles_to_prune health id (p ∷ ps) =
    rw (changed-refers id p.profile.outbounds) (elim (Bool-cases (refers_to id p)) [
      | inl e ↦ rw e (rw (length-profiles_to_prune health id ps) refl)
      | inr e ↦ rw e (length-profiles_to_prune health id ps)
    ])
