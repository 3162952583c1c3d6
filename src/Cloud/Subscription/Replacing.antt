-- ===== src/Cloud/Subscription/Replacing.antt =====
-- A profile after the references to a subscription were replaced.
use private_deploy.Base.{
  ◌≡◌, refl, Bool, true, false, ◌||◌, inl, inr, List, [], ◌∷◌, map, any, All, All-mono, String,
  str_eq, is_empty, arith, eq_iff, Bool-cases,
}
use private_deploy.Cloud.SmartRouting.{IProxy, IOutbound}
use private_deploy.Cloud.Subscription.Profiles.{
  Replacement, replace_item, is_seen, see, replace_items, changes_items, replace_outbound,
  changes_outbound, replace_references,
}

-- No id that is there stands twice.
abbrev pub DistinctKeys : List IProxy → Type 0
DistinctKeys [] = Unit
DistinctKeys (c ∷ cs) = All (λ d. is_seen (c.id ∷ []) d.id ≡ false) cs × DistinctKeys cs

abbrev pub Unseen : List String → IProxy → Type 0
Unseen seen c = is_seen seen c.id ≡ false

-- What is unseen after an id was noted was unseen before, and has another id.
Unseen-see :
    (seen : List String) (key : String) (c : IProxy)
    → Unseen (see seen key) c
    → Unseen seen c × Unseen (key ∷ []) c
Unseen-see seen key c h = elim (Bool-cases (is_empty key)) [
  | inl e ↦ (rw e at h, Unseen-empty key c.id e)
  | inr e ↦ both c.id key seen (rw e at h)
]
  where
    Unseen-empty : (key id : String) → is_empty key ≡ true → is_seen (key ∷ []) id ≡ false
    Unseen-empty key id e = elim (Bool-cases (is_empty id)) [
      | inl f ↦ rw f refl
      | inr f ↦ ground (arith, eq_iff id key)
    ]

    both :
        (id key : String) (seen : List String)
        → is_seen (key ∷ seen) id ≡ false
        → (is_seen seen id ≡ false) × (is_seen (key ∷ []) id ≡ false)
    both id key seen h = ground arith

replace_items-Unseen :
    (r : Replacement) (seen : List String) (items : List IProxy)
    → All (Unseen seen) (replace_items r seen items)
unfolding replace_items
replace_items-Unseen r seen [] = tt
replace_items-Unseen r seen (item ∷ items) =
    elim (Bool-cases (is_seen seen (replace_item r item).id)) [
      | inl e ↦ rw e (replace_items-Unseen r seen items)
      | inr e ↦ rw e (
        e,
        All-mono _ _ _ (λ c h. (Unseen-see seen (replace_item r item).id c h).0)
            (replace_items-Unseen r (see seen (replace_item r item).id) items),
      )
    ]

replace_items-DistinctKeys :
    (r : Replacement) (seen : List String) (items : List IProxy)
    → DistinctKeys (replace_items r seen items)
unfolding replace_items
replace_items-DistinctKeys r seen [] = tt
replace_items-DistinctKeys r seen (item ∷ items) =
    elim (Bool-cases (is_seen seen (replace_item r item).id)) [
      | inl e ↦ rw e (replace_items-DistinctKeys r seen items)
      | inr e ↦ rw e (
        All-mono _ _ _ (λ c h. (Unseen-see seen (replace_item r item).id c h).1)
            (replace_items-Unseen r (see seen (replace_item r item).id) items),
        replace_items-DistinctKeys r (see seen (replace_item r item).id) items,
      )
    ]

replace_item-new :
    (r : Replacement) (item : IProxy)
    → str_eq r.new r.old ≡ false
    → str_eq (replace_item r item).id r.old ≡ false
replace_item-new r item h = elim (Bool-cases (str_eq item.id r.old)) [
  | inl e ↦ rw e h
  | inr e ↦ rw e e
]

replace_items-new :
    (r : Replacement) (seen : List String) (items : List IProxy)
    → str_eq r.new r.old ≡ false
    → All (λ c. str_eq c.id r.old ≡ false) (replace_items r seen items)
unfolding replace_items
replace_items-new r seen [] h = tt
replace_items-new r seen (item ∷ items) h =
    elim (Bool-cases (is_seen seen (replace_item r item).id)) [
      | inl e ↦ rw e (replace_items-new r seen items h)
      | inr e ↦ rw e (
        replace_item-new r item h,
        replace_items-new r (see seen (replace_item r item).id) items h,
      )
    ]

-- Nothing changes.
replace_items-same :
    (r : Replacement) (seen : List String) (items : List IProxy)
    → changes_items r seen items ≡ false
    → replace_items r seen items ≡ items
unfolding replace_items changes_items
replace_items-same r seen [] h = refl
replace_items-same r seen (item ∷ items) h =
    ground (arith, replace_items-same r (see seen item.id) items)

-- An outbound that is free of the old subscription and offers no id twice.
pub record IsReplaced (r : Replacement) (o : IOutbound) : Type 0 where
  pub own : str_eq o.id r.old ≡ false
  pub children : All (λ c. str_eq c.id r.old ≡ false) o.outbounds
  pub distinct : DistinctKeys o.outbounds

replace_outbound-IsReplaced :
    (r : Replacement) (o : IOutbound)
    → str_eq r.new r.old ≡ false
    → IsReplaced r (replace_outbound r o)
replace_outbound-IsReplaced r o h = elim (Bool-cases (str_eq o.id r.old)) [
  | inl e ↦ rw e (record {
    own = h;
    children = replace_items-new r [] o.outbounds h;
    distinct = replace_items-DistinctKeys r [] o.outbounds;
  })
  | inr e ↦ rw e (record {
    own = e;
    children = replace_items-new r [] o.outbounds h;
    distinct = replace_items-DistinctKeys r [] o.outbounds;
  })
]

all-IsReplaced :
    (r : Replacement) (os : List IOutbound)
    → str_eq r.new r.old ≡ false
    → All (IsReplaced r) (map (replace_outbound r) os)
all-IsReplaced r [] h = tt
all-IsReplaced r (o ∷ os) h = (replace_outbound-IsReplaced r o h, all-IsReplaced r os h)

replace_outbound-same :
    (r : Replacement) (o : IOutbound) → changes_outbound r o ≡ false → replace_outbound r o ≡ o
replace_outbound-same r o h = ground (arith, replace_items-same r [] o.outbounds)

both_false : (a b : Bool) → (a || b) ≡ false → (a ≡ false) × (b ≡ false)
both_false a b h = ground arith

all-same :
    (r : Replacement) (os : List IOutbound)
    → any (changes_outbound r) os ≡ false
    → map (replace_outbound r) os ≡ os
all-same r [] h = refl
all-same r (o ∷ os) h =
    let (a, b) = both_false (changes_outbound r o) (any (changes_outbound r) os) h in
    cc (replace_outbound-same r o a, all-same r os b)

-- After a subscription was replaced by one with another id, no outbound has its id and none offers it,
-- and no outbound offers an id twice.
pub replace_references-IsReplaced :
    (r : Replacement) (os : List IOutbound)
    → str_eq r.new r.old ≡ false
    → All (IsReplaced r) (replace_references r os).1
unfolding replace_references
replace_references-IsReplaced r os h = all-IsReplaced r os h

-- Where a replacement reports no change, the outbounds are as before.
pub replace_references-unchanged :
    (r : Replacement) (os : List IOutbound)
    → (replace_references r os).0 ≡ false
    → (replace_references r os).1 ≡ os
unfolding replace_references
replace_references-unchanged r os h = all-same r os h
