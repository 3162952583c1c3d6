-- ===== src/Cloud/Subscription/Pruning.antt =====
-- Removing a subscription from a profile agrees with the repair before a start of the kernel.
use private_deploy.Base.{
  ◌≡◌, refl, ap, Bool, true, not, ◌||◌, ◌==◌, inl, inr, List, [], ◌∷◌, map, filter, any, length,
  length-filter-le, String, str_eq, one_of, arith, Bool-cases,
}
use private_deploy.Cloud.SmartRouting.{IProxy, IOutbound}
use private_deploy.Kernel.Runtime.{is_removed, without_children, loses_children, prune_outbounds}
use private_deploy.Cloud.Subscription.Profiles.{prune_children, loses_child, prune_subscription}

one_of_one : (s id : String) → one_of s (id ∷ []) ≡ str_eq s id
one_of_one s id = ground arith

kept_children :
    (id : String) (cs : List IProxy)
    → filter (λ c. not (one_of c.id (id ∷ []))) cs ≡ filter (λ c. not (str_eq c.id id)) cs
kept_children id [] = refl
kept_children id (c ∷ cs) = ground (arith, kept_children id cs)

-- The outbounds agree.
kept_outbounds :
    (id : String) (os : List IOutbound)
    → filter (λ o. not (str_eq o.id id)) (map (prune_children id) os)
      ≡ map (without_children (id ∷ [])) (filter (λ o. not (is_removed (id ∷ []) o)) os)
kept_outbounds id [] = refl
kept_outbounds id (o ∷ os) = elim (Bool-cases (str_eq o.id id)) [
  | inl e ↦ rw e (kept_outbounds id os)
  | inr e ↦
      rw e (
        rw (kept_children id o.outbounds)
          (ap (λ r. prune_children id o ∷ r) (kept_outbounds id os)))
]

-- A shorter list shows that an outbound was removed.
shorter :
    (id : String) (os : List IOutbound)
    → not (
        length (map (prune_children id) os)
        == length (filter (λ o. not (str_eq o.id id)) (map (prune_children id) os)))
      ≡ any (is_removed (id ∷ [])) os
shorter id [] = refl
shorter id (o ∷ os) = ground (
  arith,
  shorter id os,
  length-filter-le (λ (p : IOutbound). not (str_eq p.id id)) (map (prune_children id) os),
)

loses_same : (id : String) (o : IOutbound) → loses_children (id ∷ []) o ≡ loses_child id o
loses_same id o = rw (kept_children id o.outbounds) refl

-- An outbound that loses a child is removed or kept.
any_change :
    (id : String) (os : List IOutbound)
    → (any (loses_child id) os || any (is_removed (id ∷ [])) os) ≡ (
        any (is_removed (id ∷ [])) os
        || any (loses_children (id ∷ [])) (filter (λ o. not (is_removed (id ∷ []) o)) os))
any_change id [] = refl
any_change id (o ∷ os) = elim (Bool-cases (str_eq o.id id)) [
  | inl e ↦ rw e (or_true (loses_child id o) _)
  | inr e ↦ rw e (rw (loses_same id o) (or_swap (loses_child id o) _ _ _ (any_change id os)))
]
  where
    or_true : (a b : Bool) → ((a || b) || true) ≡ true
    or_true a b = ground arith

    or_swap : (a x y z : Bool) → (x || y) ≡ (y || z) → ((a || x) || y) ≡ (y || (a || z))
    or_swap a x y z h = ground arith

-- Removing a subscription from a profile leaves the same outbounds, and reports a change exactly where
-- the repair before a start of the kernel does that removes this subscription alone.
pub prune_subscription-prune_outbounds :
    (id : String) (os : List IOutbound) → prune_subscription id os ≡ prune_outbounds (id ∷ []) os
unfolding prune_subscription prune_outbounds
prune_subscription-prune_outbounds id os =
    rw (shorter id os, any_change id os, kept_outbounds id os) refl
