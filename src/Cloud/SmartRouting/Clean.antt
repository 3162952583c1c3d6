-- ===== src/Cloud/SmartRouting/Clean.antt =====
-- What the function adds to a profile is what its first step takes out again.
use private_deploy.Base.{
  ℕ, zero, suc, ◌≡◌, refl, ◌∙◌, sym, ap, true, not, inl, inr, Option, none, some, List, [], ◌∷◌,
  ◌++◌, filter, length, take, drop, leb, String, str_eq, arith, eq_iff, if◌then◌else◌, if_cases,
  Bool-cases, filter-append, filter_idem, All, append-nil',
}
use private_deploy.Cloud.Ids.{
  smart_auto, smart_tcp_primary, smart_tcp_secondary, smart_udp_auto, smart_hysteria_auto,
  is_managed_cloud_outbound_id,
}
use private_deploy.Cloud.Ids.Lemmas.{node_smart_outbound_id-managed}
use private_deploy.Cloud.SmartRouting.{
  IProxy, IOutbound, IRule, CloudSubscriptionEntry, default_outbound, update_first, has_outbound,
  ensure_outbound, sync_subscription_entries, sync_built_in_entries,
}
use private_deploy.Cloud.SmartRouting.Routes.{
  remove_built_in, upsert_built_in_child, add_node_outbound, add_node_outbounds,
  add_global_outbounds,
}
use private_deploy.Cloud.SmartRouting.Apply.{
  keeps_children, clean_outbounds, is_own_rule, clean_rules, managed_rules, insert_after, splice,
  place_rules, fallback_id, smart_child, smart_outbound_refs, wire_children, wire_fallback,
}

abbrev Managed : String → Type 0
Managed id = is_managed_cloud_outbound_id id ≡ true

abbrev own_children : List IProxy → List IProxy
own_children cs = filter (λ c. not (is_managed_cloud_outbound_id c.id)) cs

-- One outbound, in front of a cleaned list.
abbrev clean_cons : IOutbound → List IOutbound → List IOutbound
clean_cons o os = if is_managed_cloud_outbound_id o.id then os else keeps_children o ∷ os

clean-cons :
    (o : IOutbound) (os : List IOutbound)
    → clean_outbounds (o ∷ os) ≡ clean_cons o (clean_outbounds os)
unfolding clean_outbounds
clean-cons o os = elim (Bool-cases (is_managed_cloud_outbound_id o.id)) [
  | inl e ↦ rw e refl
  | inr e ↦ rw e refl
]

-- An outbound that cleaning cannot tell from another may stand for it.
clean-update_first :
    (id : String) (f : IOutbound → IOutbound) (os : List IOutbound)
    → ((o : IOutbound) → o.id ≡ id → (d : List IOutbound) → clean_cons (f o) d ≡ clean_cons o d)
    → clean_outbounds (update_first id f os) ≡ clean_outbounds os
unfolding update_first
clean-update_first id f [] h = refl
clean-update_first id f (o ∷ os) h = elim (Bool-cases (str_eq o.id id)) [
  | inl e ↦ rw e (
      clean-cons (f o) os ∙ h o ((eq_iff o.id id).0 e) (clean_outbounds os) ∙ sym (clean-cons o os))
  | inr e ↦ rw e (
      clean-cons o (update_first id f os)
      ∙ ap (clean_cons o) (clean-update_first id f os h)
      ∙ sym (clean-cons o os))
]

clean-append-Managed :
    (o : IOutbound) (os : List IOutbound)
    → Managed o.id
    → clean_outbounds (os ++ (o ∷ [])) ≡ clean_outbounds os
clean-append-Managed o [] m = clean-cons o [] ∙ rw m refl
clean-append-Managed o (x ∷ os) m =
    clean-cons x (os ++ (o ∷ []))
    ∙ ap (clean_cons x) (clean-append-Managed o os m)
    ∙ sym (clean-cons x os)

clean-ensure_outbound :
    (id tag : String) (configure : IOutbound → IOutbound) (os : List IOutbound)
    → Managed id
    → ((o : IOutbound) → (configure o).id ≡ o.id)
    → clean_outbounds (ensure_outbound id tag configure os) ≡ clean_outbounds os
unfolding ensure_outbound
clean-ensure_outbound id tag configure os m k =
    clean-update_first id _ _ (λ o e d.
      rw
        (
          k (record o { id = id; tag = tag; type = "urltest"; interrupt_exist_connections = true }),
          m,
          e,
        )
        (rw m refl))
    ∙ if_cases (has_outbound id os) (λ (l : List IOutbound). clean_outbounds l ≡ clean_outbounds os)
        (λ _. refl) λ _. clean-append-Managed (default_outbound id) os m

clean-add_node_outbounds :
    (es : List CloudSubscriptionEntry) (os : List IOutbound)
    → clean_outbounds (add_node_outbounds es os) ≡ clean_outbounds os
unfolding add_node_outbounds add_node_outbound sync_subscription_entries
clean-add_node_outbounds [] os = refl
clean-add_node_outbounds (e ∷ es) os =
    clean-add_node_outbounds es (add_node_outbound e os)
    ∙ clean-ensure_outbound _ _ _ os (node_smart_outbound_id-managed e.instance_id) (λ o. refl)

clean-add_global_outbounds :
    (es : List CloudSubscriptionEntry) (os : List IOutbound)
    → clean_outbounds (add_global_outbounds es os) ≡ clean_outbounds os
unfolding add_global_outbounds sync_subscription_entries sync_built_in_entries
    is_managed_cloud_outbound_id
clean-add_global_outbounds es os =
    clean-ensure_outbound smart_hysteria_auto _ _ _ refl (λ o. refl)
    ∙ clean-ensure_outbound smart_udp_auto _ _ _ refl (λ o. refl)
    ∙ clean-ensure_outbound smart_tcp_secondary _ _ _ refl (λ o. refl)
    ∙ clean-ensure_outbound smart_tcp_primary _ _ _ refl (λ o. refl)
    ∙ clean-ensure_outbound smart_auto _ _ _ refl (λ o. refl)

own-remove_built_in :
    (id : String) (cs : List IProxy)
    → Managed id
    → own_children (remove_built_in id cs) ≡ own_children cs
unfolding remove_built_in
own-remove_built_in id [] m = refl
own-remove_built_in id (c ∷ cs) m = ground (arith, m, own-remove_built_in id cs, eq_iff c.id id)

own-insert :
    (c : IProxy) (index : ℕ) (cs : List IProxy)
    → Managed c.id
    → own_children (take index cs ++ (c ∷ drop index cs)) ≡ own_children cs
own-insert c zero cs m = rw m refl
own-insert c (suc i) [] m = rw m refl
own-insert c (suc i) (x ∷ cs) m = rw (own-insert c i cs m) refl

own-push :
    (c : IProxy) (cs : List IProxy) → Managed c.id → own_children (cs ++ (c ∷ [])) ≡ own_children cs
own-push c [] m = rw m refl
own-push c (x ∷ cs) m = rw (own-push c cs m) refl

own-upsert :
    (child : IProxy) (index : ℕ) (cs : List IProxy)
    → Managed child.id
    → own_children (upsert_built_in_child child index cs) ≡ own_children cs
unfolding upsert_built_in_child
own-upsert child index cs m =
    if_cases (leb index (length (remove_built_in child.id cs)))
      (λ (l : List IProxy). own_children l ≡ own_children cs)
      (λ _.
        own-insert child index (remove_built_in child.id cs) m ∙ own-remove_built_in child.id cs m)
      λ _. own-push child (remove_built_in child.id cs) m ∙ own-remove_built_in child.id cs m

own-wire_children :
    (os : List IOutbound) (refs : List (String × ℕ)) (cs : List IProxy)
    → All (λ r. Managed r.0) refs
    → own_children (wire_children os refs cs) ≡ own_children cs
unfolding wire_children
own-wire_children os [] cs h = refl
own-wire_children os ((id, index) ∷ refs) cs h =
    own-wire_children os refs (upsert_built_in_child (smart_child os id) index cs) h.1
    ∙ own-upsert (smart_child os id) index cs h.0

refs-Managed : All (λ r. Managed r.0) smart_outbound_refs
unfolding is_managed_cloud_outbound_id
refs-Managed = (refl, (refl, (refl, (refl, (refl, tt)))))

clean_cons-children :
    (o : IOutbound) (cs : List IProxy) (d : List IOutbound)
    → own_children cs ≡ own_children o.outbounds
    → clean_cons (record o { outbounds = cs }) d ≡ clean_cons o d
clean_cons-children o cs d h =
    ap (λ l. if is_managed_cloud_outbound_id o.id then d else record o { outbounds = l } ∷ d) h

clean-wire_fallback :
    (os : List IOutbound) → clean_outbounds (wire_fallback os) ≡ clean_outbounds os
unfolding wire_fallback
clean-wire_fallback os = clean-update_first fallback_id _ os λ o e d.
    if_cases (str_eq o.type "selector") (λ (x : IOutbound). clean_cons x d ≡ clean_cons o d)
      (λ _.
        clean_cons-children o (wire_children os smart_outbound_refs o.outbounds) d
          (own-wire_children os smart_outbound_refs o.outbounds refs-Managed))
      λ _. refl

pub clean_outbounds_idem :
    (os : List IOutbound) → clean_outbounds (clean_outbounds os) ≡ clean_outbounds os
unfolding clean_outbounds
clean_outbounds_idem [] = refl
clean_outbounds_idem (o ∷ os) = elim (Bool-cases (is_managed_cloud_outbound_id o.id)) [
  | inl e ↦ rw e (clean_outbounds_idem os)
  | inr e ↦ rw e (
      rw e (
        ap (λ cs. record o { outbounds = cs } ∷ clean_outbounds (clean_outbounds os))
          (filter_idem (λ (c : IProxy). not (is_managed_cloud_outbound_id c.id)) o.outbounds)
        ∙ ap (λ l. keeps_children o ∷ l) (clean_outbounds_idem os)))
]

-- What routing adds to the outbounds is what cleaning takes out.
pub clean-routed :
    (es : List CloudSubscriptionEntry) (os : List IOutbound)
    → clean_outbounds (wire_fallback (add_global_outbounds es (add_node_outbounds es os)))
      ≡ clean_outbounds os
clean-routed es os =
    clean-wire_fallback (add_global_outbounds es (add_node_outbounds es os))
    ∙ clean-add_global_outbounds es (add_node_outbounds es os)
    ∙ clean-add_node_outbounds es os

own-spliced :
    (i : ℕ) (rs : List IRule)
    → clean_rules (take i rs ++ (managed_rules ++ drop i rs)) ≡ clean_rules rs
unfolding clean_rules is_managed_cloud_outbound_id
own-spliced zero rs = refl
own-spliced (suc i) [] = refl
own-spliced (suc i) (r ∷ rs) = rw (own-spliced i rs) refl

own-splice : (at : Option ℕ) (rs : List IRule) → clean_rules (splice at rs) ≡ clean_rules rs
unfolding clean_rules is_managed_cloud_outbound_id
own-splice none rs = filter-append is_own_rule rs managed_rules ∙ append-nil' (clean_rules rs)
own-splice (some i) rs = own-spliced (suc i) rs

pub clean-place_rules : (rs : List IRule) → clean_rules (place_rules rs) ≡ clean_rules rs
unfolding place_rules
clean-place_rules rs = own-splice (insert_after rs) rs

pub clean_rules_idem : (rs : List IRule) → clean_rules (clean_rules rs) ≡ clean_rules rs
unfolding clean_rules
clean_rules_idem rs = filter_idem is_own_rule rs
