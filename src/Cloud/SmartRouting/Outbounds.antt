-- ===== src/Cloud/SmartRouting/Outbounds.antt =====
-- Which outbounds a routed profile has.
use private_deploy.Base.{
  true≢false, ◌≡◌, refl, sym, ap, ◌∙◌, true, false, ◌||◌, inl, inr, List, [], ◌∷◌, ◌++◌, String,
  str_eq, str_eq_sym, arith, eq_iff, eq_refl, Bool-cases, if_cases,
}
use private_deploy.Cloud.Ids.{
  is_managed_cloud_outbound_id, smart_auto, smart_tcp_primary, smart_tcp_secondary, smart_udp_auto,
  smart_hysteria_auto, node_smart_outbound_id,
}
use private_deploy.Cloud.SmartRouting.{
  IOutbound, CloudSubscriptionEntry, default_outbound, update_first, has_outbound, ensure_outbound,
  sync_subscription_entries, sync_built_in_entries,
}
use private_deploy.Cloud.SmartRouting.Routes.{
  add_node_outbound, add_node_outbounds, add_global_outbounds,
}
use private_deploy.Cloud.SmartRouting.Apply.{clean_outbounds, wire_fallback, fallback_id}

-- An outbound of the list has the id.
abbrev pub Has : String → List IOutbound → Type 0
Has id os = has_outbound id os ≡ true

pub has-append :
    (id : String) (os : List IOutbound) (o : IOutbound)
    → has_outbound id (os ++ (o ∷ [])) ≡ (has_outbound id os || str_eq o.id id)
has-append id [] o = ground arith
has-append id (x ∷ os) o = ground (arith, has-append id os o)

has-update_first :
    (id k : String) (f : IOutbound → IOutbound) (os : List IOutbound)
    → ((o : IOutbound) → o.id ≡ k → (f o).id ≡ k)
    → has_outbound id (update_first k f os) ≡ has_outbound id os
unfolding update_first
has-update_first id k f [] h = refl
has-update_first id k f (o ∷ os) h = elim (Bool-cases (str_eq o.id k)) [
  | inl e ↦ let q = (eq_iff o.id k).0 e in rw (e, h o q, q) refl
  | inr e ↦ rw e (rw (has-update_first id k f os h) refl)
]

pub managed-differ :
    (a b : String)
    → is_managed_cloud_outbound_id a ≡ true
    → is_managed_cloud_outbound_id b ≡ false
    → str_eq a b ≡ false
managed-differ a b m n = elim (Bool-cases (str_eq a b)) [
  | inl e ↦ absurd (true≢false (sym m ∙ ap is_managed_cloud_outbound_id ((eq_iff a b).0 e) ∙ n))
  | inr e ↦ e
]

pub has-clean :
    (id : String) (os : List IOutbound)
    → is_managed_cloud_outbound_id id ≡ false
    → has_outbound id (clean_outbounds os) ≡ has_outbound id os
unfolding clean_outbounds
has-clean id [] h = refl
has-clean id (o ∷ os) h = elim (Bool-cases (is_managed_cloud_outbound_id o.id)) [
  | inl e ↦ rw e (rw (managed-differ o.id id e h, has-clean id os h) refl)
  | inr e ↦ rw e (rw (has-clean id os h) refl)
]

pub managed-clean :
    (id : String) (os : List IOutbound)
    → is_managed_cloud_outbound_id id ≡ true
    → has_outbound id (clean_outbounds os) ≡ false
unfolding clean_outbounds
managed-clean id [] h = refl
managed-clean id (o ∷ os) h = elim (Bool-cases (is_managed_cloud_outbound_id o.id)) [
  | inl e ↦ rw e (managed-clean id os h)
  | inr e ↦ rw e (rw (str_eq_sym o.id id ∙ managed-differ id o.id h e, managed-clean id os h) refl)
]

module _ (k tag : String) (configure : IOutbound → IOutbound)
    (c : (o : IOutbound) → (configure o).id ≡ o.id) where
  has-ensure_outbound :
      (id : String) (os : List IOutbound)
      → has_outbound id (ensure_outbound k tag configure os) ≡ (has_outbound id os || str_eq k id)
  unfolding ensure_outbound
  has-ensure_outbound id os =
      has-update_first id k _ _ (λ o e. c _)
      ∙ if_cases (has_outbound k os)
          (λ (l : List IOutbound). has_outbound id l ≡ (has_outbound id os || str_eq k id))
          (λ e. elim (Bool-cases (str_eq k id)) [
            | inl q ↦ rw (q, sym ((eq_iff k id).0 q), e) refl
            | inr q ↦ rw q (ground arith)
          ])
          (λ _. has-append id os (default_outbound k))

  ensure_outbound-keeps :
      (id : String) (os : List IOutbound) → Has id os → Has id (ensure_outbound k tag configure os)
  ensure_outbound-keeps id os h = has-ensure_outbound id os ∙ rw h refl

  ensure_outbound-Has : (os : List IOutbound) → Has k (ensure_outbound k tag configure os)
  ensure_outbound-Has os = has-ensure_outbound k os ∙ rw (eq_refl k) (ground arith)

Has-add_node_outbounds :
    (id : String) (es : List CloudSubscriptionEntry) (os : List IOutbound)
    → Has id os
    → Has id (add_node_outbounds es os)
unfolding add_node_outbounds add_node_outbound sync_subscription_entries
Has-add_node_outbounds id [] os h = h
Has-add_node_outbounds id (e ∷ es) os h =
    Has-add_node_outbounds id es (add_node_outbound e os)
      (ensure_outbound-keeps (node_smart_outbound_id e.instance_id) _ _ (λ o. refl) id os h)

-- The outbounds that the managed rules and the managed final name.
abbrev pub HasTargets : List IOutbound → Type 0
HasTargets os =
    Has smart_auto os
    × Has smart_tcp_primary os
    × Has smart_tcp_secondary os
    × Has smart_udp_auto os

Has-add_global_outbounds :
    (es : List CloudSubscriptionEntry) (os : List IOutbound)
    → HasTargets (add_global_outbounds es os)
      × ((id : String) → Has id os → Has id (add_global_outbounds es os))
unfolding add_global_outbounds sync_subscription_entries sync_built_in_entries
Has-add_global_outbounds es os = (
  (
    ensure_outbound-keeps smart_hysteria_auto _ _ (λ o. refl) _ _
        (ensure_outbound-keeps smart_udp_auto _ _ (λ o. refl) _ _
          (ensure_outbound-keeps smart_tcp_secondary _ _ (λ o. refl) _ _
            (ensure_outbound-keeps smart_tcp_primary _ _ (λ o. refl) _ _
              (ensure_outbound-Has smart_auto _ _ (λ o. refl) _)))),
    ensure_outbound-keeps smart_hysteria_auto _ _ (λ o. refl) _ _
        (ensure_outbound-keeps smart_udp_auto _ _ (λ o. refl) _ _
          (ensure_outbound-keeps smart_tcp_secondary _ _ (λ o. refl) _ _
            (ensure_outbound-Has smart_tcp_primary _ _ (λ o. refl) _))),
    ensure_outbound-keeps smart_hysteria_auto _ _ (λ o. refl) _ _
        (ensure_outbound-keeps smart_udp_auto _ _ (λ o. refl) _ _
          (ensure_outbound-Has smart_tcp_secondary _ _ (λ o. refl) _)),
    ensure_outbound-keeps smart_hysteria_auto _ _ (λ o. refl) _ _
        (ensure_outbound-Has smart_udp_auto _ _ (λ o. refl) _),
  ),
  λ id h.
      ensure_outbound-keeps smart_hysteria_auto _ _ (λ o. refl) id _
        (ensure_outbound-keeps smart_udp_auto _ _ (λ o. refl) id _
          (ensure_outbound-keeps smart_tcp_secondary _ _ (λ o. refl) id _
            (ensure_outbound-keeps smart_tcp_primary _ _ (λ o. refl) id _
              (ensure_outbound-keeps smart_auto _ _ (λ o. refl) id _ h)))),
)

has-wire_fallback :
    (id : String) (os : List IOutbound) → has_outbound id (wire_fallback os) ≡ has_outbound id os
unfolding wire_fallback
has-wire_fallback id os = has-update_first id fallback_id _ os λ o e. ground (arith, e)

-- The outbounds of a profile that serves cloud nodes.
abbrev pub routed : List CloudSubscriptionEntry → List IOutbound → List IOutbound
routed es os = wire_fallback (add_global_outbounds es (add_node_outbounds es os))

pub routed-Has :
    (es : List CloudSubscriptionEntry) (os : List IOutbound)
    → HasTargets (routed es os) × ((id : String) → Has id os → Has id (routed es os))
routed-Has es os =
    let (targets, keeps) = Has-add_global_outbounds es (add_node_outbounds es os) in
    let wired : (id : String)
        → Has id (add_global_outbounds es (add_node_outbounds es os))
        → Has id (routed es os) =
      λ id h. has-wire_fallback id _ ∙ h in
    (
      (wired _ targets.0, wired _ targets.1, wired _ targets.2, wired _ targets.3),
      λ id h. wired id (keeps id (Has-add_node_outbounds id es os h)),
    )
