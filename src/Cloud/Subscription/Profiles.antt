-- ===== src/Cloud/Subscription/Profiles.antt =====
-- The references to a subscription in a profile: what `removeSubscriptionForNode`,
-- `replaceSubscriptionReferences` and `applyNodeToProfile` do to the outbounds. A change is made on a
-- copy and reported with it.
use private_deploy.Base.{
  Bool, false, not, ◌&&◌, ◌||◌, ◌==◌, some, List, [], ◌∷◌, ◌++◌, map, filter, any, length, String,
  ◌<>◌, str_eq, one_of, is_empty, text_or, if◌then◌else◌,
}
use private_deploy.Cloud.SmartRouting.{IProxy, IOutbound, default_outbound}

-- `outbounds.filter(item => item?.id !== id)`
abbrev pub prune_children : String → IOutbound → IOutbound
prune_children id o = record o { outbounds = filter (λ c. not (str_eq c.id id)) o.outbounds }

-- `before !== outbound.outbounds.length`
abbrev pub loses_child : String → IOutbound → Bool
loses_child id o =
    not (length o.outbounds == length (filter (λ c. not (str_eq c.id id)) o.outbounds))

-- The outbounds without the subscription, and whether anything changed.
unfoldable pub prune_subscription : String → List IOutbound → Bool × List IOutbound
prune_subscription id os =
    let pruned = map (prune_children id) os in
    let kept = filter (λ o. not (str_eq o.id id)) pruned in
    (any (loses_child id) os || not (length pruned == length kept), kept)

-- What replaces the subscription with the id `old`.
pub record Replacement : Type 0 where
  pub old : String
  pub new : String
  pub tag : String

-- `nextItem`
abbrev pub replace_item : Replacement → IProxy → IProxy
replace_item r item =
    if str_eq item.id r.old
    then record item { id = r.new; tag = text_or (some r.tag) item.tag }
    else item

-- `dedupeKey && seenIds.has(dedupeKey)`
abbrev pub is_seen : List String → String → Bool
is_seen seen key = not (is_empty key) && one_of key seen

abbrev pub see : List String → String → List String
see seen key = if is_empty key then seen else key ∷ seen

-- The children without repeated ids, with the reference replaced.
unfoldable pub replace_items : Replacement → List String → List IProxy → List IProxy
replace_items r seen [] = []
replace_items r seen (item ∷ items) =
    let next = replace_item r item in
    let rest = replace_items r (see seen next.id) items in
    let skip = replace_items r seen items in if is_seen seen next.id then skip else next ∷ rest

-- Whether an item is replaced or left out.
unfoldable pub changes_items : Replacement → List String → List IProxy → Bool
changes_items r seen [] = false
changes_items r seen (item ∷ items) =
    let next = replace_item r item in
    let rest = changes_items r (see seen next.id) items in
    str_eq item.id r.old || is_seen seen next.id || rest

abbrev pub replace_outbound : Replacement → IOutbound → IOutbound
replace_outbound r o =
    let children = replace_items r [] o.outbounds in
    if str_eq o.id r.old
    then record o { id = r.new; tag = text_or (some r.tag) o.tag; outbounds = children }
    else record o { outbounds = children }

abbrev pub changes_outbound : Replacement → IOutbound → Bool
changes_outbound r o = str_eq o.id r.old || changes_items r [] o.outbounds

-- The outbounds after the replacement, and whether anything changed.
unfoldable pub replace_references : Replacement → List IOutbound → Bool × List IOutbound
unfolding replace_items changes_items
replace_references r os = (any (changes_outbound r) os, map (replace_outbound r) os)

abbrev pub has_child : String → List IProxy → Bool
has_child id [] = false
has_child id (c ∷ cs) = str_eq c.id id || has_child id cs

-- `appendProxy`
unfoldable pub append_proxy : IProxy → IOutbound → IOutbound
append_proxy entry o =
    if has_child entry.id o.outbounds
    then o
    else record o { outbounds = o.outbounds ++ (entry ∷ []) }

abbrev pub is_type : String → IOutbound → Bool
is_type type o = str_eq o.type type

-- A new outbound that offers the subscription alone, under a fresh id.
abbrev pub new_outbound : String → String → String → IProxy → IOutbound
new_outbound type fresh tag entry = record (default_outbound fresh) {
  tag = tag;
  type = type;
  outbounds = entry ∷ [];
}

-- The subscription in all outbounds of a type, or in a new one where there are none.
unfoldable pub offer : String → String → String → IProxy → List IOutbound → List IOutbound
unfolding append_proxy
offer type fresh tag entry os =
    if any (is_type type) os
    then map (λ o. if is_type type o then append_proxy entry o else o) os
    else os ++ (new_outbound type fresh tag entry ∷ [])

-- The profile's outbounds with the subscription; `fresh` and `fresh'` are sampled ids.
unfoldable pub offer_subscription : String → String → IProxy → List IOutbound → List IOutbound
unfolding offer
offer_subscription fresh fresh' entry os =
    offer "urltest" fresh' (entry.tag <> "-urltest") entry
      (offer "selector" fresh entry.tag entry os)
