-- ===== src/Kernel/ProxyGroups/Nodes.antt =====
-- The tags of a cloud node, and the groups after it was added.
use text.Mathlib.TextLemmas.{append_cancel_left}
use mathlib.Core.List.{map-append}
use private_deploy.Base.{
  ◌≡◌, ◌≢◌, refl, ap, ◌∙◌, Bool, true, false, Option, none, some, List, [], ◌∷◌, ◌++◌, String, ◌<>◌,
  map, arith, eq_iff, eq_refl, if◌then◌else◌, str_eq, one_of, Bool-cases, inl, inr, is_some,
  Distinct, has_text,
}
use private_deploy.Base.Dict.{
  Dict, lookup, insert, over, lookup-insert, lookup-map_values, AllValues, AllValues-insert,
  AllValues-map_values, AllValues-of_forall,
}
use private_deploy.Cloud.Address.{is_public_ipv4_number}
use private_deploy.Kernel.ProxyGroups.{
  CoreApiProxy, CloudNodeLike, new_proxy, ip_versions, protocol_tags, proxy_tags, has_ss,
  has_hysteria, has_vless, has_trojan, insert_tags, add_to_group, add_tags,
  add_cloud_node_to_kernel_groups,
}
use private_deploy.Kernel.ProxyGroups.Addition.{
  Offers, HasDistinct, add_to_group-Offers, add_to_group-HasDistinct,
}

str_eq-append : (l s t : String) → str_eq (l <> s) (l <> t) ≡ str_eq s t
str_eq-append l s t = elim (Bool-cases (str_eq s t)) [
  | inl e ↦ rw (e, (eq_iff s t).0 e) (eq_refl (l <> t))
  | inr e ↦ elim (Bool-cases (str_eq (l <> s) (l <> t))) [
    | inl f ↦ absurd (clash e (append_cancel_left l s t ((eq_iff _ _).0 f)))
    | inr f ↦ rw e f
  ]
]
  where
    clash : str_eq s t ≡ false → s ≡ t → ⊥
    clash e p = ground (arith, eq_iff s t)

one_of-map_append :
    (l s : String) (ts : List String) → one_of (l <> s) (map (λ t. l <> t) ts) ≡ one_of s ts
one_of-map_append l s [] = refl
one_of-map_append l s (t ∷ ts) = rw (str_eq-append l s t, one_of-map_append l s ts)

pub Distinct-map_append :
    (l : String) (ts : List String) → Distinct ts → Distinct (map (λ t. l <> t) ts)
Distinct-map_append l [] h = tt
Distinct-map_append l (t ∷ ts) h = (one_of-map_append l t ts ∙ h.0, Distinct-map_append l ts h.1)

abbrev pub versions : Bool → Bool → List String
versions v4 v6 = (if v4 then "-v4" ∷ [] else []) ++ (if v6 then "-v6" ∷ [] else [])

abbrev pub suffixes_of : Bool → List String → String → List String
suffixes_of true vs protocol = map (λ v. protocol <> v) vs
suffixes_of false vs protocol = []

abbrev suffixes : List String → Bool → Bool → Bool → Bool → List String
suffixes vs ss hy vl tr =
    suffixes_of ss vs "-ss"
    ++ (suffixes_of hy vs "-hysteria2"
        ++ (suffixes_of vl vs "-vless" ++ suffixes_of tr vs "-trojan"))

suffixes-Distinct : (v4 v6 ss hy vl tr : Bool) → Distinct (suffixes (versions v4 v6) ss hy vl tr)
suffixes-Distinct v4 v6 ss hy vl tr = ground arith

pub protocol_tags-suffixes_of :
    (b : Bool) (label p : String) (vs : List String)
    → protocol_tags b label vs p ≡ map (λ s. label <> s) (suffixes_of b vs p)
protocol_tags-suffixes_of false label p vs = refl
protocol_tags-suffixes_of true label p [] = refl
protocol_tags-suffixes_of true label p (v ∷ vs) =
    ap (λ r. (label <> (p <> v)) ∷ r) (protocol_tags-suffixes_of true label p vs)

tags_of_suffixes :
    (label : String) (vs : List String) (ss hy vl tr : Bool)
    → protocol_tags ss label vs "-ss"
        ++ (protocol_tags hy label vs "-hysteria2"
            ++ (protocol_tags vl label vs "-vless" ++ protocol_tags tr label vs "-trojan"))
      ≡ map (λ s. label <> s) (suffixes vs ss hy vl tr)
tags_of_suffixes label vs ss hy vl tr = simp (map-append, protocol_tags-suffixes_of)

-- The tags of a node are distinct, whatever its label.
pub proxy_tags-Distinct : (node : CloudNodeLike) → Distinct (proxy_tags node)
unfolding proxy_tags
proxy_tags-Distinct node =
    rw
      (tags_of_suffixes node.label (ip_versions node) (has_ss node) (has_hysteria node)
        (has_vless node) (has_trojan node))
      (Distinct-map_append node.label _ (
        suffixes-Distinct (is_public_ipv4_number node.ipv4) (has_text node.ipv6) (has_ss node)
          (has_hysteria node) (has_vless node) (has_trojan node)))

insert_tags-keeps :
    (ts : List String) (t : String) (d : Dict CoreApiProxy)
    → is_some (lookup t d) ≡ true
    → is_some (lookup t (insert_tags ts d)) ≡ true
unfolding insert_tags
insert_tags-keeps [] t d h = h
insert_tags-keeps (u ∷ ts) t d h =
    insert_tags-keeps ts t (insert u (new_proxy "Proxy" u) d)
      (rw (lookup-insert u t (new_proxy "Proxy" u) d) (ground arith))

lookup-insert_tags :
    (ts : List String) (t : String) (d : Dict CoreApiProxy)
    → one_of t ts ≡ true
    → is_some (lookup t (insert_tags ts d)) ≡ true
unfolding insert_tags
lookup-insert_tags (u ∷ ts) t d h = elim (Bool-cases (str_eq t u)) [
  | inl e ↦
      insert_tags-keeps ts t (insert u (new_proxy "Proxy" u) d)
        (rw (lookup-insert u t (new_proxy "Proxy" u) d) (ground (arith, eq_iff t u, eq_iff u t)))
  | inr e ↦ lookup-insert_tags ts t (insert u (new_proxy "Proxy" u) d) (ground arith)
]
lookup-insert_tags [] t d h = cc

AllValues-insert_tags :
    (ts : List String) (d : Dict CoreApiProxy)
    → AllValues HasDistinct d
    → AllValues HasDistinct (insert_tags ts d)
unfolding insert_tags
AllValues-insert_tags [] d h = h
AllValues-insert_tags (t ∷ ts) d h =
    AllValues-insert_tags ts _ (AllValues-insert HasDistinct t (new_proxy "Proxy" t) d tt h)

is_some-over :
    (f : CoreApiProxy → CoreApiProxy) (o : Option CoreApiProxy)
    → is_some o ≡ true
    → is_some (over f o) ≡ true
is_some-over f (some v) h = refl
is_some-over f none h = cc

module _ (proxies : Dict CoreApiProxy) (node : CloudNodeLike) where
  add_tags-Offers :
      (vs tags : List String)
      → vs ≢ []
      → AllValues (Offers tags) (add_tags vs tags proxies)
        × ((t : String)
            → one_of t tags ≡ true
            → is_some (lookup t (add_tags vs tags proxies)) ≡ true)
  unfolding add_tags
  add_tags-Offers [] tags h = absurd (h refl)
  add_tags-Offers (_ ∷ _) tags h = (
    AllValues-map_values (λ _. Unit) (Offers tags) (add_to_group tags) _
        (λ g _. add_to_group-Offers tags g) (AllValues-of_forall (λ _. Unit) _ (λ _. tt)),
    λ t q.
        rw (lookup-map_values t (add_to_group tags) (insert_tags tags proxies))
          (is_some-over (add_to_group tags) _ (lookup-insert_tags tags t proxies q)),
  )

  -- A node with a usable address: each of its tags has an entry in the map, and every group for
  -- choosing offers each of them.
  pub add_cloud_node_to_kernel_groups-Offers :
      ip_versions node ≢ []
      → AllValues (Offers (proxy_tags node)) (add_cloud_node_to_kernel_groups proxies node)
        × ((t : String)
            → one_of t (proxy_tags node) ≡ true
            → is_some (lookup t (add_cloud_node_to_kernel_groups proxies node)) ≡ true)
  unfolding add_cloud_node_to_kernel_groups
  add_cloud_node_to_kernel_groups-Offers = add_tags-Offers (ip_versions node) (proxy_tags node)

  add_tags-HasDistinct :
      (vs tags : List String)
      → Distinct tags
      → AllValues HasDistinct proxies
      → AllValues HasDistinct (add_tags vs tags proxies)
  unfolding add_tags
  add_tags-HasDistinct [] tags d h = h
  add_tags-HasDistinct (_ ∷ _) tags d h =
      AllValues-map_values HasDistinct HasDistinct (add_to_group tags) _
        (λ g q. add_to_group-HasDistinct tags g d q) (AllValues-insert_tags tags proxies h)

  -- Adding a node keeps the members of every group distinct.
  pub add_cloud_node_to_kernel_groups-HasDistinct :
      AllValues HasDistinct proxies
      → AllValues HasDistinct (add_cloud_node_to_kernel_groups proxies node)
  unfolding add_cloud_node_to_kernel_groups
  add_cloud_node_to_kernel_groups-HasDistinct =
      add_tags-HasDistinct (ip_versions node) (proxy_tags node) (proxy_tags-Distinct node)
