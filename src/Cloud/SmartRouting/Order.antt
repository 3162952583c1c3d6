-- ===== src/Cloud/SmartRouting/Order.antt =====
-- Where routing puts its rules and its children of the fallback.
use private_deploy.Base.{
  ℕ, zero, suc, ◌≡◌, refl, sym, ap, ◌+◌, length-append, Bool, true, false, inl, inr, ◌⊎◌, Option,
  none, some, List, [], ◌∷◌, ◌++◌, take, drop, length, leb, String, str_eq, arith, All, append-nil',
}
use private_deploy.Cloud.Ids.{
  ProtocolHealthMap, smart_auto, smart_tcp_primary, smart_tcp_secondary, smart_udp_auto,
  smart_hysteria_auto,
}
use private_deploy.Cloud.SmartRouting.{IProxy, IOutbound, IRule, IProfile, CloudSubscriptionEntry}
use private_deploy.Cloud.SmartRouting.Routes.{
  remove_built_in, upsert_built_in_child, ensure_link_aggregation,
}
use private_deploy.Cloud.SmartRouting.Apply.{
  clean_rules, managed_rules, is_direct, next, insert_after, splice, place_rules, smart_child,
  smart_outbound_refs, wire_children, route_entries, clean_profile, ensure_smart_auto_routing,
}

abbrev pub NotDirect : IRule → Type 0
NotDirect r = is_direct r ≡ false

-- After the place, if there is one, no rule is direct.
abbrev Behind : Option ℕ → List IRule → Type 0
Behind none rs = All NotDirect rs
Behind (some i) rs = All NotDirect (drop (suc i) rs)

Behind-next :
    (o : Option ℕ) (r : IRule) (rs : List IRule)
    → Behind o rs
    → Behind (next o (is_direct r)) (r ∷ rs)
Behind-next (some i) r rs h = h
Behind-next none r rs h = go (is_direct r) refl
  where
    go : (b : Bool) → is_direct r ≡ b → Behind (next none b) (r ∷ rs)
    go true e = h
    go false e = (e, h)

Behind-insert_after : (rs : List IRule) → Behind (insert_after rs) rs
unfolding insert_after
Behind-insert_after [] = tt
Behind-insert_after (r ∷ rs) = Behind-next (insert_after rs) r rs (Behind-insert_after rs)

append-take-drop : (n : ℕ) (rs : List IRule) → take n rs ++ drop n rs ≡ rs
append-take-drop zero rs = refl
append-take-drop (suc n) [] = refl
append-take-drop (suc n) (r ∷ rs) = ap (λ l. r ∷ l) (append-take-drop n rs)

-- The rules in front of a place and behind it.
abbrev pub Split : List IRule → List IRule → Type 0
Split rules placed =
    (before : List IRule) × ((after : List IRule) × ((rules ≡ before ++ after)
        × (placed ≡ before ++ (managed_rules ++ after))
        × All NotDirect after))

Split-splice : (o : Option ℕ) (rs : List IRule) → Behind o rs → Split rs (splice o rs)
Split-splice none rs h = (rs, ([], (sym (append-nil' rs), refl, tt)))
Split-splice (some i) rs h =
    (take (suc i) rs, (drop (suc i) rs, (sym (append-take-drop (suc i) rs), refl, h)))

-- The managed rules stand behind every rule that sends traffic directly, and the other rules keep
-- their order.
place_rules-Split : (rs : List IRule) → Split rs (place_rules rs)
unfolding place_rules
place_rules-Split rs = Split-splice (insert_after rs) rs (Behind-insert_after rs)

route-rules :
    (es : List CloudSubscriptionEntry) (p : IProfile)
    → (route_entries es p).rules ≡ p.rules ⊎ Split p.rules (route_entries es p).rules
route-rules [] p = inl refl
route-rules (e ∷ es) p = inr (place_rules-Split p.rules)

-- Routing leaves the profile's own rules in their order, and puts its rules, if it adds them, behind
-- every rule that sends traffic directly.
pub ensure_smart_auto_routing-rules :
    (p : IProfile) (health : ProtocolHealthMap)
    → (ensure_smart_auto_routing p health).rules ≡ clean_rules p.rules
      ⊎ Split (clean_rules p.rules) (ensure_smart_auto_routing p health).rules
unfolding ensure_smart_auto_routing ensure_link_aggregation clean_profile
ensure_smart_auto_routing-rules p health = route-rules _ _

leb-true : (a b : ℕ) → leb a (a + b) ≡ true
leb-true a b = ground arith

remove-behind :
    (id : String) (pre xs : List IProxy)
    → All (λ a. str_eq a.id id ≡ false) pre
    → remove_built_in id (pre ++ xs) ≡ pre ++ remove_built_in id xs
unfolding remove_built_in
remove-behind id [] xs h = refl
remove-behind id (a ∷ pre) xs h = rw (h.0, remove-behind id pre xs h.1) refl

insert-behind :
    (c : IProxy) (pre xs : List IProxy)
    → take (length pre) (pre ++ xs) ++ (c ∷ drop (length pre) (pre ++ xs)) ≡ pre ++ (c ∷ xs)
insert-behind c [] xs = refl
insert-behind c (a ∷ pre) xs = ap (λ l. a ∷ l) (insert-behind c pre xs)

upsert-behind :
    (c : IProxy) (pre xs : List IProxy)
    → All (λ a. str_eq a.id c.id ≡ false) pre
    → upsert_built_in_child c (length pre) (pre ++ xs) ≡ pre ++ (c ∷ remove_built_in c.id xs)
unfolding upsert_built_in_child
upsert-behind c pre xs h =
    rw
      (
        remove-behind c.id pre xs h,
        length-append pre (remove_built_in c.id xs),
        leb-true (length pre) (length (remove_built_in c.id xs)),
      )
      (insert-behind c pre (remove_built_in c.id xs))

-- The children of the fallback begin with the five smart outbounds, in the order of the list; the
-- children that were there follow in their order, without the first of each of these ids that was
-- built in.
pub wire_children-front :
    (os : List IOutbound) (cs : List IProxy)
    → wire_children os smart_outbound_refs cs
      ≡ smart_child os smart_auto
        ∷ smart_child os smart_tcp_primary
        ∷ smart_child os smart_tcp_secondary
        ∷ smart_child os smart_udp_auto
        ∷ smart_child os smart_hysteria_auto
        ∷ remove_built_in smart_hysteria_auto (
            remove_built_in smart_udp_auto (
              remove_built_in smart_tcp_secondary
                (remove_built_in smart_tcp_primary (remove_built_in smart_auto cs))))
unfolding wire_children
wire_children-front os cs =
    let a : IProxy = smart_child os smart_auto in
    let b : IProxy = smart_child os smart_tcp_primary in
    let c : IProxy = smart_child os smart_tcp_secondary in
    let d : IProxy = smart_child os smart_udp_auto in
    let e : IProxy = smart_child os smart_hysteria_auto in
    rw
      (
        upsert-behind a [] cs tt,
        upsert-behind b (a ∷ []) (remove_built_in smart_auto cs) (refl, tt),
        upsert-behind c (a ∷ b ∷ [])
            (remove_built_in smart_tcp_primary (remove_built_in smart_auto cs)) (refl, (refl, tt)),
      )
      (rw
        (upsert-behind d (a ∷ b ∷ c ∷ [])
          (remove_built_in smart_tcp_secondary
            (remove_built_in smart_tcp_primary (remove_built_in smart_auto cs)))
          (refl, (refl, (refl, tt))))
        (upsert-behind e (a ∷ b ∷ c ∷ d ∷ []) _ (refl, (refl, (refl, (refl, tt))))))
