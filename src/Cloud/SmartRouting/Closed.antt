-- ===== src/Cloud/SmartRouting/Closed.antt =====
-- Whether the rules and the final outbound of a routed profile name outbounds that it has.
use private_deploy.Base.{
  ◌≡◌, refl, sym, ap, ◌∙◌, ℕ, suc, Option, none, some, Bool, true, false, not, ◌||◌, ◌⊎◌, inl, inr,
  List, [], ◌∷◌, take, drop, All, All-append, All-drop, All-take, String, str_eq, one_of, arith,
  Bool-cases, if_cases,
}
use private_deploy.Cloud.Ids.{ProtocolHealthMap, is_managed_cloud_outbound_id, smart_auto}
use private_deploy.Cloud.SmartRouting.{
  IOutbound, IRule, IProfile, CloudSubscriptionEntry, has_outbound,
}
use private_deploy.Cloud.SmartRouting.Routes.{collect_subscription_entries, ensure_link_aggregation}
use private_deploy.Cloud.SmartRouting.Apply.{
  clean_outbounds, is_own_rule, clean_rules, insert_after, splice, managed_rules, place_rules,
  choose_final, auto_managed_final_ids, route_entries, clean_profile, ensure_smart_auto_routing,
}
use private_deploy.Cloud.SmartRouting.Outbounds.{
  Has, HasTargets, managed-clean, has-clean, routed, routed-Has,
}

-- What the generator of the configuration looks up for a rule is there: a rule that routes names an
-- outbound of the list.
abbrev pub is_closed : List IOutbound → IRule → Bool
is_closed os r = not (str_eq r.action "route") || has_outbound r.outbound os

abbrev pub RulesClosed : List IOutbound → List IRule → Type 0
RulesClosed os rs = All (λ r. is_closed os r ≡ true) rs

is_closed_mono :
    (os os' : List IOutbound) (r : IRule)
    → ((id : String) → Has id os → Has id os')
    → is_closed os r ≡ true
    → is_closed os' r ≡ true
is_closed_mono os os' r k h = elim (Bool-cases (has_outbound r.outbound os)) [
  | inl e ↦ rw (k r.outbound e) (ground arith)
  | inr e ↦ ground arith
]

pub RulesClosed-mono :
    (os os' : List IOutbound) (rs : List IRule)
    → ((id : String) → Has id os → Has id os')
    → RulesClosed os rs
    → RulesClosed os' rs
RulesClosed-mono os os' [] k h = tt
RulesClosed-mono os os' (r ∷ rs) k h =
    (is_closed_mono os os' r k h.0, RulesClosed-mono os os' rs k h.1)

RulesClosed-clean :
    (os : List IOutbound) (rs : List IRule)
    → RulesClosed os rs
    → RulesClosed (clean_outbounds os) (clean_rules rs)
unfolding clean_rules
RulesClosed-clean os [] h = tt
RulesClosed-clean os (r ∷ rs) h = elim (Bool-cases (is_own_rule r)) [
  | inl e ↦
      rw e (rw (has-clean r.outbound os (ground (arith, e))) (h.0), RulesClosed-clean os rs h.1)
  | inr e ↦ rw e (RulesClosed-clean os rs h.1)
]

RulesClosed-splice :
    (os : List IOutbound) (at : Option ℕ) (rs : List IRule)
    → RulesClosed os managed_rules
    → RulesClosed os rs
    → RulesClosed os (splice at rs)
RulesClosed-splice os none rs m h = All-append _ rs managed_rules h m
RulesClosed-splice os (some i) rs m h =
    All-append _ (take (suc i) rs) _ (All-take _ (suc i) rs h)
      (All-append _ managed_rules (drop (suc i) rs) m (All-drop _ (suc i) rs h))

RulesClosed-managed : (os : List IOutbound) → HasTargets os → RulesClosed os managed_rules
RulesClosed-managed os h = (h.1, (h.2, (h.3, tt)))

-- Whether the profile offers a cloud node.
abbrev some_entries : List CloudSubscriptionEntry → Bool
some_entries [] = false
some_entries (e ∷ es) = true

abbrev pub serves : IProfile → ProtocolHealthMap → Bool
serves p health = some_entries (collect_subscription_entries (clean_outbounds p.outbounds) health)

-- A final outbound that the function replaces, or that it never takes out.
abbrev pub is_replaceable : String → Bool
is_replaceable final =
    not (is_managed_cloud_outbound_id final) || one_of final auto_managed_final_ids

-- The final outbound after routing: without a cloud node it stays, and is there unless it was a managed
-- one; with one it is there, unless it was a managed one that the function does not choose itself.
abbrev pub FinalRouted : String → Bool → IProfile → Type 0
FinalRouted final false q =
    (q.final ≡ final)
    × (has_outbound q.final q.outbounds ≡ not (is_managed_cloud_outbound_id final))
FinalRouted final true q = is_replaceable final ≡ false ⊎ Has q.final q.outbounds

-- What routing leaves of a profile whose rules and final outbound are there.
abbrev pub IsRouted : String → Bool → IProfile → Type 0
IsRouted final served q = RulesClosed q.outbounds q.rules × FinalRouted final served q

choose_final-Has :
    (f : String) (os os' : List IOutbound)
    → Has smart_auto os'
    → ((id : String) → Has id os → Has id os')
    → has_outbound f os ≡ not (is_managed_cloud_outbound_id f)
    → is_replaceable f ≡ true
    → Has (choose_final f) os'
unfolding choose_final
choose_final-Has f os os' a k l h =
    if_cases (one_of f auto_managed_final_ids) (λ (t : String). Has t os') (λ _. a)
      λ e. k f (l ∙ ground (arith, e))

route-RulesClosed :
    (c : IProfile) (es : List CloudSubscriptionEntry)
    → RulesClosed c.outbounds c.rules
    → RulesClosed (route_entries es c).outbounds (route_entries es c).rules
unfolding place_rules
route-RulesClosed c [] h = h
route-RulesClosed c (e ∷ es) h =
    let (targets, keeps) = routed-Has (e ∷ es) c.outbounds in
    let os' = routed (e ∷ es) c.outbounds in
    RulesClosed-splice os' (insert_after c.rules) c.rules (RulesClosed-managed os' targets)
      (RulesClosed-mono c.outbounds os' c.rules keeps h)

route-IsRouted :
    (c : IProfile) (es : List CloudSubscriptionEntry)
    → RulesClosed c.outbounds c.rules
    → has_outbound c.final c.outbounds ≡ not (is_managed_cloud_outbound_id c.final)
    → IsRouted c.final (some_entries es) (route_entries es c)
route-IsRouted c [] h l = (h, (refl, l))
route-IsRouted c (e ∷ es) h l =
    let (targets, keeps) = routed-Has (e ∷ es) c.outbounds in
    (
      route-RulesClosed c (e ∷ es) h,
      elim (Bool-cases (is_replaceable c.final)) [
        | inl m ↦ inr (choose_final-Has c.final c.outbounds _ targets.0 keeps l m)
        | inr m ↦ inl m
      ],
    )

final-clean :
    (f : String) (os : List IOutbound)
    → Has f os
    → has_outbound f (clean_outbounds os) ≡ not (is_managed_cloud_outbound_id f)
final-clean f os h = elim (Bool-cases (is_managed_cloud_outbound_id f)) [
  | inl e ↦ managed-clean f os e ∙ sym (ap not e)
  | inr e ↦ has-clean f os e ∙ h ∙ sym (ap not e)
]

pub RulesClosed-routed :
    (p : IProfile) (health : ProtocolHealthMap)
    → RulesClosed p.outbounds p.rules
    → let q = ensure_smart_auto_routing p health in RulesClosed q.outbounds q.rules
unfolding ensure_smart_auto_routing ensure_link_aggregation clean_profile
RulesClosed-routed p health h = route-RulesClosed _ _ (RulesClosed-clean p.outbounds p.rules h)

-- Routing a profile whose rules and final outbound name outbounds that it has leaves rules that do.
-- Where a cloud node is offered, the final outbound does too, unless it was a managed one that the
-- function does not choose itself; where none is, the final outbound stays, and names nothing where
-- it was a managed one.
pub ensure_smart_auto_routing-IsRouted :
    (p : IProfile) (health : ProtocolHealthMap)
    → RulesClosed p.outbounds p.rules
    → Has p.final p.outbounds
    → IsRouted p.final (serves p health) (ensure_smart_auto_routing p health)
unfolding ensure_smart_auto_routing ensure_link_aggregation clean_profile
ensure_smart_auto_routing-IsRouted p health h g =
    route-IsRouted _ _ (RulesClosed-clean p.outbounds p.rules h) (final-clean p.final p.outbounds g)
