-- ===== src/Kernel/ProxyGroups/Removal.antt =====
-- Taking a proxy out of the groups.
use private_deploy.Base.{
  ◌≡◌, refl, sym, ap, ◌∙◌, ◌≢◌, false, not, Option, none, some, List, [], ◌∷◌, String, arith,
  eq_iff, eq_refl, if◌then◌else◌, str_eq, one_of, filter, filter-append, append-nil', Bool-cases,
  inl, inr, one_of-filter, str_eq_sym,
}
use private_deploy.Base.Dict.{
  Dict, lookup, erase, map_values, over, lookup-erase, lookup-map_values, map_values-map_values,
  erase-insert, AllValues, AllValues-erase, AllValues-map_values, AllValues-of_forall,
}
use private_deploy.Kernel.ProxyGroups.{
  CoreApiProxy, reselect, remove_from_members, remove_from_group, remove_proxy_from_kernel_groups,
  new_proxy, is_choice, with_tags, add_to_members, add_to_group, add_proxy_to_kernel_groups,
}

-- A group that neither lists nor selects the proxy, unless it has nothing left to select.
abbrev pub IsFreeOf : String → Option (List String) → CoreApiProxy → Type 0
IsFreeOf id none group = Unit
IsFreeOf id (some members) group = (one_of id members ≡ false) × (group.now ≡ id → members ≡ [])

reselect-IsFreeOf :
    (id : String) (kept : List String) (now : String)
    → one_of id kept ≡ false
    → reselect id kept now ≡ id
    → kept ≡ []
reselect-IsFreeOf id [] now f e = refl
reselect-IsFreeOf id (x ∷ xs) now f e = ground (arith, eq_iff now id, eq_iff id x, eq_iff x id)

remove_from_members-IsFreeOf :
    (id : String) (members : Option (List String)) (group : CoreApiProxy)
    → group.all ≡ members
    → IsFreeOf id (remove_from_members id members group).all (remove_from_members id members group)
unfolding remove_from_members
remove_from_members-IsFreeOf id none group e = rw e tt
remove_from_members-IsFreeOf id (some members) group e =
    let gone : one_of id (filter (λ m. not (str_eq m id)) members) ≡ false =
      one_of-filter id (λ m. not (str_eq m id)) members ∙ ground (arith, eq_refl id) in
    (gone, reselect-IsFreeOf id _ group.now gone)

abbrev pub IsFree : String → CoreApiProxy → Type 0
IsFree id group = IsFreeOf id group.all group

remove_from_group-IsFree :
    (id : String) (group : CoreApiProxy) → IsFree id (remove_from_group id group)
unfolding remove_from_group
remove_from_group-IsFree id group = remove_from_members-IsFreeOf id group.all group refl

-- After a removal the proxy has no entry, no group lists it, and a group that still selects it has
-- no member left. Every other entry is the old one, changed as a group at most.
pub remove_proxy_from_kernel_groups-IsFree :
    (proxies : Dict CoreApiProxy) (id : String)
    → AllValues (IsFree id) (remove_proxy_from_kernel_groups proxies id)
      × ((j : String)
          → lookup j (remove_proxy_from_kernel_groups proxies id)
            ≡ (if str_eq id j then none else over (remove_from_group id) (lookup j proxies)))
unfolding remove_proxy_from_kernel_groups
remove_proxy_from_kernel_groups-IsFree proxies id = (
  AllValues-erase (IsFree id) id _ (
      AllValues-map_values (λ _. Unit) (IsFree id) (remove_from_group id) proxies
        (λ g _. remove_from_group-IsFree id g) (AllValues-of_forall (λ _. Unit) proxies (λ _. tt))),
  λ j. rw (lookup-erase id j, lookup-map_values j (remove_from_group id) proxies) refl,
)

filter-with_tags :
    (id : String) (members : List String)
    → filter (λ m. not (str_eq m id)) (with_tags (id ∷ []) members)
      ≡ filter (λ m. not (str_eq m id)) members
filter-with_tags id members =
    filter-append (λ m. not (str_eq m id)) members _ ∙ elim (Bool-cases (one_of id members)) [
      | inl e ↦ rw e (append-nil' _)
      | inr e ↦ rw e (rw (eq_refl id) (append-nil' _))
    ]

remove_from_group-add_to_group :
    (id : String) (members : Option (List String)) (group : CoreApiProxy)
    → group.all ≡ members
    → remove_from_group id (add_to_members (id ∷ []) members group) ≡ remove_from_group id group
unfolding remove_from_group remove_from_members add_to_members
remove_from_group-add_to_group id none group e = refl
remove_from_group-add_to_group id (some members) group e = elim (Bool-cases (is_choice group)) [
  | inl c ↦ rw (c, e) (rw (filter-with_tags id members) refl)
  | inr c ↦ rw c refl
]

-- Adding a proxy and taking it out again leads to the same map as taking it out at once.
pub remove-add_proxy_to_kernel_groups :
    (proxies : Dict CoreApiProxy) (id : String)
    → remove_proxy_from_kernel_groups (add_proxy_to_kernel_groups proxies id) id
      ≡ remove_proxy_from_kernel_groups proxies id
unfolding remove_proxy_from_kernel_groups add_proxy_to_kernel_groups add_to_group
remove-add_proxy_to_kernel_groups proxies id =
    ap (erase id) (
      map_values-map_values (remove_from_group id) (add_to_group (id ∷ [])) (remove_from_group id) _
        λ g. remove_from_group-add_to_group id g.all g refl)
    ∙ erase-insert id (new_proxy "Subscription" id) (remove_from_group id) proxies

-- No group lists or selects the proxy.
abbrev pub Unmentioned : String → CoreApiProxy → Type 0
Unmentioned id group =
    (group.now ≢ id)
    × ((members : List String) → group.all ≡ some members → one_of id members ≡ false)

filter_of_absent :
    (id : String) (members : List String)
    → one_of id members ≡ false
    → filter (λ m. not (str_eq m id)) members ≡ members
filter_of_absent id [] h = refl
filter_of_absent id (m ∷ ms) h = ground (arith, filter_of_absent id ms, str_eq_sym id m)

reselect_of_ne :
    (id : String) (ms : List String) (now : String) → now ≢ id → reselect id ms now ≡ now
reselect_of_ne id [] now h = refl
reselect_of_ne id (m ∷ ms) now h = ground (arith, eq_iff now id)

remove_from_members_of_Unmentioned :
    (id : String) (members : Option (List String)) (group : CoreApiProxy)
    → group.all ≡ members
    → Unmentioned id group
    → remove_from_members id members group ≡ group
unfolding remove_from_members
remove_from_members_of_Unmentioned id none group e u = refl
remove_from_members_of_Unmentioned id (some members) group e (n, u) =
    rw (filter_of_absent id members (u members e), reselect_of_ne id members group.now n)
      (λ i. record group { all = sym e i })

erase-map_values_of_Unmentioned :
    (id : String) (proxies : Dict CoreApiProxy)
    → lookup id proxies ≡ none
    → AllValues (Unmentioned id) proxies
    → remove_proxy_from_kernel_groups proxies id ≡ proxies
unfolding remove_proxy_from_kernel_groups erase map_values lookup remove_from_group
erase-map_values_of_Unmentioned id [] f u = refl
erase-map_values_of_Unmentioned id ((j, g) ∷ d) f u =
    rw (remove_from_members_of_Unmentioned id g.all g refl u.0)
      (ground (arith, erase-map_values_of_Unmentioned id d))

-- So a proxy that the map did not know comes and goes without a trace.
pub add-remove_proxy_to_kernel_groups :
    (proxies : Dict CoreApiProxy) (id : String)
    → lookup id proxies ≡ none
    → AllValues (Unmentioned id) proxies
    → remove_proxy_from_kernel_groups (add_proxy_to_kernel_groups proxies id) id ≡ proxies
add-remove_proxy_to_kernel_groups proxies id f u =
    remove-add_proxy_to_kernel_groups proxies id ∙ erase-map_values_of_Unmentioned id proxies f u
