-- ===== src/Cloud/Subscription/Offering.antt =====
-- A profile after a node was applied to it.
use private_deploy.Base.{
  false≢true, ◌≡◌, refl, sym, ap, ◌∙◌, Bool, true, false, ◌||◌, inl, inr, List, [], ◌∷◌, ◌++◌, map,
  any, All, All-append, String, ◌<>◌, str_eq, arith, eq_refl, Bool-cases, if◌then◌else◌,
}
use private_deploy.Cloud.SmartRouting.{IProxy, IOutbound}
use private_deploy.Cloud.Subscription.Profiles.{
  has_child, append_proxy, is_type, new_outbound, offer, offer_subscription,
}

-- The outbound offers the subscription, if it is of the type.
abbrev pub Offers : String → String → IOutbound → Type 0
Offers type id o = is_type type o ≡ true → has_child id o.outbounds ≡ true

pub has_child-append :
    (id : String) (xs ys : List IProxy)
    → has_child id (xs ++ ys) ≡ (has_child id xs || has_child id ys)
has_child-append id [] ys = refl
has_child-append id (c ∷ xs) ys = ground (arith, has_child-append id xs ys)

append_proxy-has_child :
    (entry : IProxy) (o : IOutbound) → has_child entry.id (append_proxy entry o).outbounds ≡ true
unfolding append_proxy
append_proxy-has_child entry o = elim (Bool-cases (has_child entry.id o.outbounds)) [
  | inl e ↦ rw e e
  | inr e ↦
      rw e
        (rw (has_child-append entry.id o.outbounds (entry ∷ []), eq_refl entry.id) (ground arith))
]

append_proxy-type : (entry : IProxy) (o : IOutbound) → (append_proxy entry o).type ≡ o.type
unfolding append_proxy
append_proxy-type entry o = ground arith

-- One outbound of the type.
abbrev pub offered : String → IProxy → IOutbound → IOutbound
offered type entry o = if is_type type o then append_proxy entry o else o

offered-type :
    (type : String) (entry : IProxy) (o : IOutbound) → (offered type entry o).type ≡ o.type
offered-type type entry o = ground (arith, append_proxy-type entry o)

any-offered :
    (type t : String) (entry : IProxy) (os : List IOutbound)
    → any (is_type t) (map (offered type entry) os) ≡ any (is_type t) os
any-offered type t entry [] = refl
any-offered type t entry (o ∷ os) = rw (offered-type type entry o, any-offered type t entry os) refl

has_type :
    (type fresh tag : String) (entry : IProxy)
    → has_child entry.id (new_outbound type fresh tag entry).outbounds ≡ true
has_type type fresh tag entry = ground (arith, eq_refl entry.id)

any-append :
    (p : IOutbound → Bool) (os : List IOutbound) (o : IOutbound)
    → any p (os ++ (o ∷ [])) ≡ (any p os || p o)
any-append p [] o = ground arith
any-append p (x ∷ os) o = ground (arith, any-append p os o)

any-offer :
    (type fresh tag : String) (entry : IProxy) (os : List IOutbound)
    → any (is_type type) (offer type fresh tag entry os) ≡ true
unfolding offer
any-offer type fresh tag entry os = elim (Bool-cases (any (is_type type) os)) [
  | inl e ↦ rw e (any-offered type type entry os ∙ e)
  | inr e ↦ rw e (
      rw (any-append (is_type type) os (new_outbound type fresh tag entry), eq_refl type)
        (ground arith))
]

offered-Offers :
    (type : String) (entry : IProxy) (o : IOutbound) → Offers type entry.id (offered type entry o)
offered-Offers type entry o h = elim (Bool-cases (is_type type o)) [
  | inl e ↦ rw e (append_proxy-has_child entry o)
  | inr e ↦
      absurd (false≢true (sym e ∙ sym (ap (λ t. str_eq t type) (offered-type type entry o)) ∙ h))
]

map-Offers :
    (type : String) (entry : IProxy) (os : List IOutbound)
    → All (Offers type entry.id) (map (offered type entry) os)
map-Offers type entry [] = tt
map-Offers type entry (o ∷ os) = (offered-Offers type entry o, map-Offers type entry os)

none_of_type :
    (type id : String) (os : List IOutbound)
    → any (is_type type) os ≡ false
    → All (Offers type id) os
none_of_type type id [] h = tt
none_of_type type id (o ∷ os) h = (λ e. ground arith, none_of_type type id os (ground arith))

pub offer-Offers :
    (type fresh tag : String) (entry : IProxy) (os : List IOutbound)
    → All (Offers type entry.id) (offer type fresh tag entry os)
unfolding offer
offer-Offers type fresh tag entry os = elim (Bool-cases (any (is_type type) os)) [
  | inl e ↦ rw e (map-Offers type entry os)
  | inr e ↦ rw e (
      All-append (Offers type entry.id) os _ (none_of_type type entry.id os e)
        (λ _. has_type type fresh tag entry, tt))
]

offered_mono :
    (t type : String) (entry : IProxy) (o : IOutbound)
    → Offers t entry.id o
    → Offers t entry.id (offered type entry o)
offered_mono t type entry o h q = elim (Bool-cases (is_type type o)) [
  | inl e ↦ rw e (append_proxy-has_child entry o)
  | inr e ↦ rw e (h (ap (λ s. str_eq s t) (sym (offered-type type entry o)) ∙ q))
]

map-offered_mono :
    (t type : String) (entry : IProxy) (os : List IOutbound)
    → All (Offers t entry.id) os
    → All (Offers t entry.id) (map (offered type entry) os)
map-offered_mono t type entry [] h = tt
map-offered_mono t type entry (o ∷ os) h =
    (offered_mono t type entry o h.0, map-offered_mono t type entry os h.1)

offer-keeps :
    (t type fresh tag : String) (entry : IProxy) (os : List IOutbound)
    → All (Offers t entry.id) os
    → All (Offers t entry.id) (offer type fresh tag entry os)
unfolding offer
offer-keeps t type fresh tag entry os h = elim (Bool-cases (any (is_type type) os)) [
  | inl e ↦ rw e (map-offered_mono t type entry os h)
  | inr e ↦ rw e (All-append (Offers t entry.id) os _ h (λ _. has_type type fresh tag entry, tt))
]

any-offer-keeps :
    (t type fresh tag : String) (entry : IProxy) (os : List IOutbound)
    → any (is_type t) os ≡ true
    → any (is_type t) (offer type fresh tag entry os) ≡ true
unfolding offer
any-offer-keeps t type fresh tag entry os h = elim (Bool-cases (any (is_type type) os)) [
  | inl e ↦ rw e (any-offered type t entry os ∙ h)
  | inr e ↦ rw e (rw (any-append (is_type t) os (new_outbound type fresh tag entry), h) refl)
]

offered-unchanged :
    (type : String) (entry : IProxy) (o : IOutbound)
    → Offers type entry.id o
    → offered type entry o ≡ o
unfolding append_proxy
offered-unchanged type entry o h = elim (Bool-cases (is_type type o)) [
  | inl e ↦ rw e (rw (h e) refl)
  | inr e ↦ rw e refl
]

map-unchanged :
    (type : String) (entry : IProxy) (os : List IOutbound)
    → All (Offers type entry.id) os
    → map (offered type entry) os ≡ os
map-unchanged type entry [] h = refl
map-unchanged type entry (o ∷ os) h =
    cc (offered-unchanged type entry o h.0, map-unchanged type entry os h.1)

offer-unchanged :
    (type fresh tag : String) (entry : IProxy) (os : List IOutbound)
    → any (is_type type) os ≡ true
    → All (Offers type entry.id) os
    → offer type fresh tag entry os ≡ os
unfolding offer
offer-unchanged type fresh tag entry os e h = rw e (map-unchanged type entry os h)

-- Applying a node's subscription to a profile leaves at least one selector and one urltest outbound,
-- and every outbound of these types offers the subscription; applying it again, whatever ids are
-- sampled, changes nothing.
pub offer_subscription-Offers :
    (fresh fresh' again again' : String) (entry : IProxy) (os : List IOutbound)
    → let next = offer_subscription fresh fresh' entry os in
      (any (is_type "selector") next ≡ true)
      × (any (is_type "urltest") next ≡ true)
      × All (Offers "selector" entry.id) next
      × All (Offers "urltest" entry.id) next
      × (offer_subscription again again' entry next ≡ next)
unfolding offer_subscription
offer_subscription-Offers fresh fresh' again again' entry os =
    let tag = entry.tag <> "-urltest" in
    let os1 = offer "selector" fresh entry.tag entry os in
    let next = offer "urltest" fresh' tag entry os1 in
    let s =
      any-offer-keeps "selector" "urltest" fresh' tag entry os1
        (any-offer "selector" fresh entry.tag entry os) in
    let u = any-offer "urltest" fresh' tag entry os1 in
    let all_s =
      offer-keeps "selector" "urltest" fresh' tag entry os1
        (offer-Offers "selector" fresh entry.tag entry os) in
    let all_u = offer-Offers "urltest" fresh' tag entry os1 in
    (
      s,
      u,
      all_s,
      all_u,
      ap (offer "urltest" again' tag entry)
            (offer-unchanged "selector" again entry.tag entry next s all_s)
          ∙ offer-unchanged "urltest" again' tag entry next u all_u,
    )
