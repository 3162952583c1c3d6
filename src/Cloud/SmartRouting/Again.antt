-- ===== src/Cloud/SmartRouting/Again.antt =====
-- Routing a profile again.
use private_deploy.Base.{
  ◌≡◌, refl, ap, Bool, false, inl, inr, Option, none, some, List, [], ◌∷◌, map, length, leb, String,
  str_eq, one_of, Bool-cases,
}
use private_deploy.Cloud.Ids.{ProtocolHealthMap}
use private_deploy.Cloud.SmartRouting.{
  InboundListen, IInbound, IOutbound, IRule, IProfile, CloudSubscriptionEntry,
}
use private_deploy.Cloud.SmartRouting.Routes.{
  set_multi_path, set_listen, collect_subscription_entries, ensure_link_aggregation,
}
use private_deploy.Cloud.SmartRouting.Apply.{
  clean_outbounds, clean_rules, choose_final, auto_managed_final_ids, route_entries, clean_profile,
  ensure_smart_auto_routing,
}
use private_deploy.Cloud.SmartRouting.Clean.{
  clean_outbounds_idem, clean_rules_idem, clean-routed, clean-place_rules,
}

set_listen_idem :
    (b : Bool) (l : Option InboundListen) → set_listen b (set_listen b l) ≡ set_listen b l
set_listen_idem b none = refl
set_listen_idem b (some l) = refl

set_multi_path_idem :
    (b : Bool) (i : IInbound) → set_multi_path b (set_multi_path b i) ≡ set_multi_path b i
unfolding set_multi_path
set_multi_path_idem b i = elim (Bool-cases (str_eq i.type "mixed")) [
  | inl e ↦ rw e (rw e (ap (λ l. record i { mixed = l }) (set_listen_idem b i.mixed)))
  | inr e ↦ elim (Bool-cases (str_eq i.type "socks")) [
    | inl f ↦ rw (e, f) (rw (e, f) (ap (λ l. record i { socks = l }) (set_listen_idem b i.socks)))
    | inr f ↦ elim (Bool-cases (str_eq i.type "http")) [
      | inl g ↦
          rw (e, f, g) (rw (e, f, g) (ap (λ l. record i { http = l }) (set_listen_idem b i.http)))
      | inr g ↦ rw (e, f, g) (rw (e, f, g) refl)
    ]
  ]
]

map-set_multi_path_idem :
    (b : Bool) (is : List IInbound)
    → map (set_multi_path b) (map (set_multi_path b) is) ≡ map (set_multi_path b) is
map-set_multi_path_idem b [] = refl
map-set_multi_path_idem b (i ∷ is) = rw (set_multi_path_idem b i, map-set_multi_path_idem b is) refl

choose_final_idem : (f : String) → choose_final (choose_final f) ≡ choose_final f
unfolding choose_final
choose_final_idem f = elim (Bool-cases (one_of f auto_managed_final_ids)) [
  | inl e ↦ rw e refl
  | inr e ↦ rw (e, e) refl
]

-- The profile that is routed, by its parts.
abbrev parts : List IInbound → List IOutbound → List IRule → String → IProfile
parts is os rs f = record {
  inbounds = is;
  outbounds = os;
  rules = rs;
  final = f;
  auto_detect_interface = false;
}

route-again :
    (es : List CloudSubscriptionEntry) (is : List IInbound) (os : List IOutbound) (rs : List IRule)
    (f : String)
    → let p : IProfile = route_entries es (parts is os rs f) in
      route_entries es (parts is os rs p.final) ≡ p
route-again [] is os rs f = refl
route-again (e ∷ es) is os rs f = rw (choose_final_idem f) refl

clean-route :
    (es : List CloudSubscriptionEntry) (p : IProfile)
    → clean_outbounds (route_entries es p).outbounds ≡ clean_outbounds p.outbounds
clean-route [] p = refl
clean-route (e ∷ es) p = clean-routed (e ∷ es) p.outbounds

clean-route_rules :
    (es : List CloudSubscriptionEntry) (p : IProfile)
    → clean_rules (route_entries es p).rules ≡ clean_rules p.rules
clean-route_rules [] p = refl
clean-route_rules (e ∷ es) p = clean-place_rules p.rules

inbounds-route :
    (es : List CloudSubscriptionEntry) (p : IProfile) → (route_entries es p).inbounds ≡ p.inbounds
inbounds-route [] p = refl
inbounds-route (e ∷ es) p = refl

-- Routing a profile a second time, with the same health of the protocols, changes nothing.
pub ensure_smart_auto_routing_idem :
    (p : IProfile) (health : ProtocolHealthMap)
    → ensure_smart_auto_routing (ensure_smart_auto_routing p health) health
      ≡ ensure_smart_auto_routing p health
unfolding ensure_smart_auto_routing ensure_link_aggregation clean_profile
ensure_smart_auto_routing_idem p health =
    let os : List IOutbound = clean_outbounds p.outbounds in
    let es : List CloudSubscriptionEntry = collect_subscription_entries os health in
    let is : List IInbound = map (set_multi_path (leb 2 (length es))) p.inbounds in
    let rs : List IRule = clean_rules p.rules in
    let q : IProfile = parts is os rs p.final in
    rw
      (
        clean-route es q,
        clean_outbounds_idem p.outbounds,
        clean-route_rules es q,
        clean_rules_idem p.rules,
        inbounds-route es q,
        map-set_multi_path_idem (leb 2 (length es)) p.inbounds,
      )
      (route-again es is os rs p.final)
