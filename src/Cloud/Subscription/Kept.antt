-- ===== src/Cloud/Subscription/Kept.antt =====
-- What routing leaves of the selectors that offer a subscription.
use private_deploy.Base.{
  true≢false, ◌≡◌, refl, sym, ap, ◌∙◌, ℕ, zero, suc, true, false, not, ◌||◌, ◌&&◌, inl, inr, List,
  [], ◌∷◌, ◌++◌, filter, length, take, drop, leb, All, All-append, String, str_eq, eq_iff, eq_refl,
  arith, Bool-cases, if_cases, if◌then◌else◌,
}
use private_deploy.Cloud.Ids.{
  ProtocolHealthMap, is_managed_cloud_outbound_id, smart_auto, smart_tcp_primary,
  smart_tcp_secondary, smart_udp_auto, smart_hysteria_auto,
}
use private_deploy.Cloud.SmartRouting.{
  IProxy, IOutbound, IProfile, CloudSubscriptionEntry, default_outbound, update_first, has_outbound,
  ensure_outbound, has_type, sync_subscription_entries, sync_built_in_entries,
}
use private_deploy.Cloud.SmartRouting.Routes.{
  remove_built_in, upsert_built_in_child, ensure_link_aggregation, add_node_outbound,
  add_node_outbounds, add_global_outbounds,
}
use private_deploy.Cloud.SmartRouting.Apply.{
  clean_outbounds, smart_child, smart_outbound_refs, wire_children, wire_fallback, fallback_id,
  route_entries, clean_profile, ensure_smart_auto_routing,
}
use private_deploy.Cloud.SmartRouting.Fresh.{update_first-last}
use private_deploy.Cloud.SmartRouting.Outbounds.{managed-differ}
use private_deploy.Cloud.Subscription.Profiles.{has_child, is_type}
use private_deploy.Cloud.Subscription.Offering.{Offers, has_child-append}

-- Every selector offers the subscription.
abbrev pub AllOffer : String → List IOutbound → Type 0
AllOffer id os = All (Offers "selector" id) os

has_child-take-drop :
    (id : String) (n : ℕ) (xs : List IProxy)
    → (has_child id (take n xs) || has_child id (drop n xs)) ≡ has_child id xs
has_child-take-drop id zero xs = refl
has_child-take-drop id (suc n) [] = refl
has_child-take-drop id (suc n) (c ∷ xs) = ground (arith, has_child-take-drop id n xs)

AllOffer-update_first :
    (id k : String) (f : IOutbound → IOutbound) (os : List IOutbound)
    → ((o : IOutbound) → Offers "selector" id o → Offers "selector" id (f o))
    → AllOffer id os
    → AllOffer id (update_first k f os)
unfolding update_first
AllOffer-update_first id k f [] g h = tt
AllOffer-update_first id k f (o ∷ os) g h = elim (Bool-cases (str_eq o.id k)) [
  | inl e ↦ rw e (g o h.0, h.1)
  | inr e ↦ rw e (h.0, AllOffer-update_first id k f os g h.1)
]

module _ (id : String) (own : is_managed_cloud_outbound_id id ≡ false) where
  has_child-own :
      (cs : List IProxy)
      → has_child id (filter (λ c. not (is_managed_cloud_outbound_id c.id)) cs) ≡ has_child id cs
  has_child-own [] = refl
  has_child-own (c ∷ cs) = elim (Bool-cases (is_managed_cloud_outbound_id c.id)) [
    | inl e ↦ rw e (rw (managed-differ c.id id e own, has_child-own cs) refl)
    | inr e ↦ rw e (rw (has_child-own cs) refl)
  ]

  AllOffer-clean : (os : List IOutbound) → AllOffer id os → AllOffer id (clean_outbounds os)
  unfolding clean_outbounds
  AllOffer-clean [] h = tt
  AllOffer-clean (o ∷ os) h = elim (Bool-cases (is_managed_cloud_outbound_id o.id)) [
    | inl e ↦ rw e (AllOffer-clean os h.1)
    | inr e ↦ rw e (λ t. has_child-own o.outbounds ∙ h.0 t, AllOffer-clean os h.1)
  ]

  has_child-remove :
      (k : String) (cs : List IProxy)
      → is_managed_cloud_outbound_id k ≡ true
      → has_child id (remove_built_in k cs) ≡ has_child id cs
  unfolding remove_built_in
  has_child-remove k [] m = refl
  has_child-remove k (c ∷ cs) m =
      if_cases (str_eq c.id k && has_type "Built-in" c)
        (λ (l : List IProxy). has_child id l ≡ has_child id (c ∷ cs))
        (λ e. rw (differs (ground (arith, e))) refl) (λ _. rw (has_child-remove k cs m) refl)
    where
      differs : str_eq c.id k ≡ true → str_eq c.id id ≡ false
      differs e =
          managed-differ c.id id (ap is_managed_cloud_outbound_id ((eq_iff c.id k).0 e) ∙ m) own

  has_child-upsert :
      (child : IProxy) (i : ℕ) (cs : List IProxy)
      → is_managed_cloud_outbound_id child.id ≡ true
      → has_child id cs ≡ true
      → has_child id (upsert_built_in_child child i cs) ≡ true
  unfolding upsert_built_in_child
  has_child-upsert child i cs m h =
      let r = remove_built_in child.id cs in
      let k : has_child id r ≡ true = has_child-remove child.id cs m ∙ h in
      if_cases (leb i (length r)) (λ (l : List IProxy). has_child id l ≡ true)
        (λ _. has_child-append id (take i r) _ ∙ ground (arith, has_child-take-drop id i r, k))
        (λ _. has_child-append id r _ ∙ rw k refl)

  has_child-wire :
      (os : List IOutbound) (refs : List (String × ℕ)) (cs : List IProxy)
      → All (λ r. is_managed_cloud_outbound_id r.0 ≡ true) refs
      → has_child id cs ≡ true
      → has_child id (wire_children os refs cs) ≡ true
  unfolding wire_children
  has_child-wire os [] cs m h = h
  has_child-wire os ((k, i) ∷ refs) cs m h =
      has_child-wire os refs _ m.1 (has_child-upsert (smart_child os k) i cs m.0 h)

  -- One outbound of the fallback's place.
  Offers-wired :
      (os : List IOutbound) (o : IOutbound)
      → Offers "selector" id o
      → Offers "selector" id (
          if str_eq o.type "selector"
          then record o { outbounds = wire_children os smart_outbound_refs o.outbounds }
          else o)
  unfolding is_managed_cloud_outbound_id
  Offers-wired os o h =
      if_cases (str_eq o.type "selector") (λ (x : IOutbound). Offers "selector" id x)
        (λ e _.
          has_child-wire os smart_outbound_refs o.outbounds
            (refl, (refl, (refl, (refl, (refl, tt))))) (h e))
        (λ _. h)

  AllOffer-wire_fallback : (os : List IOutbound) → AllOffer id os → AllOffer id (wire_fallback os)
  unfolding wire_fallback
  AllOffer-wire_fallback os h = AllOffer-update_first id fallback_id _ os (Offers-wired os) h

AllOffer-last :
    (id k : String) (f : IOutbound → IOutbound) (os : List IOutbound) (o : IOutbound)
    → has_outbound k os ≡ false
    → str_eq o.id k ≡ true
    → is_type "selector" (f o) ≡ false
    → AllOffer id os
    → AllOffer id (update_first k f (os ++ (o ∷ [])))
AllOffer-last id k f os o n e t h =
    rw (update_first-last k f os o n e)
      (All-append _ os (f o ∷ []) h (λ q. absurd (true≢false (sym q ∙ t)), tt))

AllOffer-ensure :
    (id k tag : String) (configure : IOutbound → IOutbound) (os : List IOutbound)
    → ((o : IOutbound) → (configure o).type ≡ o.type)
    → AllOffer id os
    → AllOffer id (ensure_outbound k tag configure os)
unfolding ensure_outbound
AllOffer-ensure id k tag configure os c h =
    let f : IOutbound → IOutbound = λ o.
      configure
        (record o { id = k; tag = tag; type = "urltest"; interrupt_exist_connections = true }) in
    let no_selector : (o : IOutbound) → is_type "selector" (f o) ≡ false = λ o. rw (c _) refl in
    if_cases (has_outbound k os) (λ (l : List IOutbound). AllOffer id (update_first k f l))
      (λ _.
        AllOffer-update_first id k f os (λ o _ q. absurd (true≢false (sym q ∙ no_selector o))) h)
      λ e.
        AllOffer-last id k f os (default_outbound k) e (eq_refl k)
          (no_selector (default_outbound k)) h

AllOffer-add_nodes :
    (id : String) (es : List CloudSubscriptionEntry) (os : List IOutbound)
    → AllOffer id os
    → AllOffer id (add_node_outbounds es os)
unfolding add_node_outbounds add_node_outbound sync_subscription_entries
AllOffer-add_nodes id [] os h = h
AllOffer-add_nodes id (e ∷ es) os h =
    AllOffer-add_nodes id es (add_node_outbound e os) (AllOffer-ensure id _ _ _ os (λ o. refl) h)

AllOffer-add_global :
    (id : String) (es : List CloudSubscriptionEntry) (os : List IOutbound)
    → AllOffer id os
    → AllOffer id (add_global_outbounds es os)
unfolding add_global_outbounds sync_subscription_entries sync_built_in_entries
AllOffer-add_global id es os h =
    AllOffer-ensure id smart_hysteria_auto _ _ _ (λ o. refl)
      (AllOffer-ensure id smart_udp_auto _ _ _ (λ o. refl)
        (AllOffer-ensure id smart_tcp_secondary _ _ _ (λ o. refl)
          (AllOffer-ensure id smart_tcp_primary _ _ _ (λ o. refl)
            (AllOffer-ensure id smart_auto _ _ os (λ o. refl) h))))

module _ (id : String) (own : is_managed_cloud_outbound_id id ≡ false) where
  AllOffer-entries :
      (es : List CloudSubscriptionEntry) (p : IProfile)
      → AllOffer id p.outbounds
      → AllOffer id (route_entries es p).outbounds
  AllOffer-entries [] p h = h
  AllOffer-entries (e ∷ es) p h =
      AllOffer-wire_fallback id own _
        (AllOffer-add_global id (e ∷ es) _ (AllOffer-add_nodes id (e ∷ es) p.outbounds h))

  pub AllOffer-route :
      (p : IProfile) (health : ProtocolHealthMap)
      → AllOffer id p.outbounds
      → AllOffer id (ensure_smart_auto_routing p health).outbounds
  unfolding ensure_smart_auto_routing ensure_link_aggregation clean_profile
  AllOffer-route p health h = AllOffer-entries _ _ (AllOffer-clean id own p.outbounds h)
