-- ===== src/Kernel/ProxyGroups/Addition.antt =====
-- Offering tags in the groups.
use private_deploy.Base.{
  ◌≡◌, refl, ap, ◌∙◌, true, not, Option, none, some, List, [], ◌∷◌, ◌++◌, String, arith, eq_iff,
  eq_refl, one_of, filter, append-nil', Bool-cases, inl, inr, one_of-filter, one_of-append, All,
  Distinct, Distinct-filter, Distinct-append, Disjoint, All-mono,
}
use private_deploy.Base.Dict.{
  Dict, insert, map_values, map_values-map_values, AllValues, AllValues-map_values,
  AllValues-of_forall,
}
use private_deploy.Kernel.ProxyGroups.{
  CoreApiProxy, is_choice, with_tags, add_to_members, add_to_group, add_proxy_to_kernel_groups,
}

-- Each of the tags is among the members.
abbrev pub HasAll : List String → List String → Type 0
HasAll tags members = (t : String) → one_of t tags ≡ true → one_of t members ≡ true

with_tags-HasAll : (tags members : List String) → HasAll tags (with_tags tags members)
with_tags-HasAll tags members t h =
    rw
      (
        one_of-append t members (filter (λ x. not (one_of x members)) tags),
        one_of-filter t (λ x. not (one_of x members)) tags,
      )
      (ground arith)

-- Tags that are there already add nothing.
filter_of_HasAll :
    (ts members : List String)
    → All (λ t. one_of t members ≡ true) ts
    → filter (λ t. not (one_of t members)) ts ≡ []
filter_of_HasAll [] members h = refl
filter_of_HasAll (t ∷ ts) members h = ground (arith, filter_of_HasAll ts members h.1)

HasAll-All :
    (ts tags members : List String)
    → ((t : String) → one_of t ts ≡ true → one_of t tags ≡ true)
    → HasAll tags members
    → All (λ t. one_of t members ≡ true) ts
HasAll-All [] tags members sub h = tt
HasAll-All (t ∷ ts) tags members sub h = (
  h t (sub t (ground (arith, eq_refl t))),
  HasAll-All ts tags members (λ u q. sub u (ground arith)) h,
)

with_tags_idem :
    (tags members : List String) → with_tags tags (with_tags tags members) ≡ with_tags tags members
with_tags_idem tags members =
    ap (λ r. with_tags tags members ++ r)
      (filter_of_HasAll tags (with_tags tags members)
        (HasAll-All tags tags (with_tags tags members) (λ t h. h) (with_tags-HasAll tags members)))
    ∙ append-nil' _

-- A group for choosing offers every tag.
abbrev OffersMembers : List String → Option (List String) → Type 0
OffersMembers tags none = Unit
OffersMembers tags (some members) = HasAll tags members

abbrev pub Offers : List String → CoreApiProxy → Type 0
Offers tags group = is_choice group ≡ true → OffersMembers tags group.all

add_to_members-Offers :
    (tags : List String) (members : Option (List String)) (group : CoreApiProxy)
    → group.all ≡ members
    → Offers tags (add_to_members tags members group)
unfolding add_to_members
add_to_members-Offers tags none group e = rw e (λ _. tt)
add_to_members-Offers tags (some members) group e = elim (Bool-cases (is_choice group)) [
  | inl d ↦ rw d (λ _. with_tags-HasAll tags members)
  | inr d ↦ rw d (λ c. ground arith)
]

pub add_to_group-Offers :
    (tags : List String) (group : CoreApiProxy) → Offers tags (add_to_group tags group)
unfolding add_to_group
add_to_group-Offers tags group = add_to_members-Offers tags group.all group refl

add_to_members_idem :
    (tags : List String) (members : Option (List String)) (group : CoreApiProxy)
    → group.all ≡ members
    → add_to_group tags (add_to_members tags members group) ≡ add_to_members tags members group
unfolding add_to_group add_to_members
add_to_members_idem tags none group e = rw e refl
add_to_members_idem tags (some members) group e = elim (Bool-cases (is_choice group)) [
  | inl c ↦ rw c (rw c (λ i. record group { all = some (with_tags_idem tags members i) }))
  | inr c ↦ rw c (rw e (rw c refl))
]

pub add_to_group_idem :
    (tags : List String) (group : CoreApiProxy)
    → add_to_group tags (add_to_group tags group) ≡ add_to_group tags group
unfolding add_to_group
add_to_group_idem tags group = add_to_members_idem tags group.all group refl

insert-map_values-insert :
    (id : String) (v : CoreApiProxy) (f : CoreApiProxy → CoreApiProxy) (d : Dict CoreApiProxy)
    → f v ≡ v
    → insert id v (map_values f (insert id v d)) ≡ map_values f (insert id v d)
unfolding insert map_values
insert-map_values-insert id v f [] e = rw (eq_refl id) (ap (λ x. (id, x) ∷ []) (rw e))
insert-map_values-insert id v f ((j, w) ∷ d) e =
    ground (arith, eq_iff j id, insert-map_values-insert id v f d)

-- Adding a proxy a second time changes nothing, and every group for choosing offers it.
pub add_proxy_to_kernel_groups_idem :
    (proxies : Dict CoreApiProxy) (id : String)
    → (add_proxy_to_kernel_groups (add_proxy_to_kernel_groups proxies id) id
        ≡ add_proxy_to_kernel_groups proxies id)
      × AllValues (Offers (id ∷ [])) (add_proxy_to_kernel_groups proxies id)
unfolding add_proxy_to_kernel_groups
add_proxy_to_kernel_groups_idem proxies id = (
  ap (map_values (add_to_group (id ∷ []))) (insert-map_values-insert id _ _ proxies refl)
      ∙ map_values-map_values _ _ _ _ (add_to_group_idem (id ∷ [])),
  AllValues-map_values (λ _. Unit) (Offers (id ∷ [])) (add_to_group (id ∷ [])) _
      (λ g _. add_to_group-Offers (id ∷ []) g) (AllValues-of_forall (λ _. Unit) _ (λ _. tt)),
)

-- The members of a group for choosing stay distinct.
abbrev DistinctMembers : Option (List String) → Type 0
DistinctMembers none = Unit
DistinctMembers (some members) = Distinct members

abbrev pub HasDistinct : CoreApiProxy → Type 0
HasDistinct group = DistinctMembers group.all

Disjoint-filter : (ts ms : List String) → Disjoint ms (filter (λ t. not (one_of t ms)) ts)
Disjoint-filter ts ms =
    All-mono (λ m. one_of m ms ≡ true) _ ms
      (λ m h. one_of-filter m (λ t. not (one_of t ms)) ts ∙ ground arith)
      (HasAll-All ms ms ms (λ t h. h) (λ t h. h))

add_to_members-HasDistinct :
    (tags : List String) (members : Option (List String)) (group : CoreApiProxy)
    → group.all ≡ members
    → Distinct tags
    → DistinctMembers members
    → HasDistinct (add_to_members tags members group)
unfolding add_to_members
add_to_members-HasDistinct tags none group e d h = rw e tt
add_to_members-HasDistinct tags (some ms) group e d h = elim (Bool-cases (is_choice group)) [
  | inl c ↦ rw c (
      Distinct-append ms _ h (Distinct-filter (λ t. not (one_of t ms)) tags d)
        (Disjoint-filter tags ms))
  | inr c ↦ rw (c, e) h
]

pub add_to_group-HasDistinct :
    (tags : List String) (group : CoreApiProxy)
    → Distinct tags
    → HasDistinct group
    → HasDistinct (add_to_group tags group)
unfolding add_to_group
add_to_group-HasDistinct tags group d h = add_to_members-HasDistinct tags group.all group refl d h
