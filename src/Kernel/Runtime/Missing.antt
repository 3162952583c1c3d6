-- ===== src/Kernel/Runtime/Missing.antt =====
-- What pruning leaves of the references to subscriptions.
use private_deploy.Base.{
  ◌≡◌, refl, ◌∙◌, sym, ap, Bool, true, false, not, ◌||◌, inl, inr, List, [], ◌∷◌, map, filter, any,
  length, String, one_of, Action, arith, if_cases, Bool-cases, All, filter-All, length-filter-le,
  ==_iff,
}
use private_deploy.Cloud.SmartRouting.{IProxy, IOutbound}
use private_deploy.Kernel.Runtime.{
  PruneResult, is_removed, without_children, loses_children, prune_outbounds, find_missing,
  collect_cloud_ids, finish_prune, prune_missing_kernel_cloud_subscriptions,
}

-- An outbound that is none of the subscriptions and has none of them as a child.
abbrev pub FreeOf : List String → IOutbound → Type 0
FreeOf removed o =
    (one_of o.id removed ≡ false) × All (λ c. one_of c.id removed ≡ false) o.outbounds

not-true : {b : Bool} → not b ≡ true → b ≡ false
not-true {b = true} e = cc
not-true {b = false} e = refl

All-of-length :
    (p : IProxy → Bool) (xs : List IProxy)
    → length xs ≡ length (filter p xs)
    → All (λ x. p x ≡ true) xs
All-of-length p [] h = tt
All-of-length p (x ∷ xs) h = ground (arith, All-of-length p xs, length-filter-le p xs)

free_child :
    (removed : List String) (cs : List IProxy)
    → All (λ c. not (one_of c.id removed) ≡ true) cs
    → All (λ c. one_of c.id removed ≡ false) cs
free_child removed [] h = tt
free_child removed (c ∷ cs) h = (not-true h.0, free_child removed cs h.1)

FreeOf-pruned :
    (removed : List String) (os : List IOutbound)
    → All
        (FreeOf removed)
        (map (without_children removed) (filter (λ o. not (is_removed removed o)) os))
FreeOf-pruned removed [] = tt
FreeOf-pruned removed (o ∷ os) = elim (Bool-cases (one_of o.id removed)) [
  | inl e ↦ rw e (FreeOf-pruned removed os)
  | inr e ↦ rw e (
    (e, free_child removed _ (filter-All (λ c. not (one_of c.id removed)) o.outbounds)),
    FreeOf-pruned removed os,
  )
]

or_left : (a b : Bool) → (a || b) ≡ false → a ≡ false
or_left true b h = cc
or_left false b h = refl

or_right : (a b : Bool) → (a || b) ≡ false → b ≡ false
or_right true b h = cc
or_right false b h = h

not-false : (b : Bool) → not b ≡ false → b ≡ true
not-false true h = refl
not-false false h = cc

-- An outbound that is kept and loses no child had none to lose.
children-FreeOf :
    (removed : List String) (o : IOutbound)
    → loses_children removed o ≡ false
    → All (λ c. one_of c.id removed ≡ false) o.outbounds
children-FreeOf removed o h =
    free_child removed o.outbounds
      (All-of-length (λ c. not (one_of c.id removed)) o.outbounds ((==_iff _ _).0 (not-false _ h)))

FreeOf-unchanged :
    (removed : List String) (os : List IOutbound)
    → any (is_removed removed) os ≡ false
    → any (loses_children removed) os ≡ false
    → All (FreeOf removed) os
FreeOf-unchanged removed [] h k = tt
FreeOf-unchanged removed (o ∷ os) h k = (
  (
    or_left (is_removed removed o) _ h,
    children-FreeOf removed o
        (or_left (loses_children removed o) (any (loses_children removed) os) k),
  ),
  FreeOf-unchanged removed os (or_right (is_removed removed o) _ h)
      (or_right (loses_children removed o) (any (loses_children removed) os) k),
)

none_removed :
    (removed : List String) (os : List IOutbound)
    → any (is_removed removed) os ≡ false
    → filter (λ o. not (is_removed removed o)) os ≡ os
none_removed removed [] h = refl
none_removed removed (o ∷ os) h =
    rw (or_left (is_removed removed o) _ h)
      (ap (λ l. o ∷ l) (none_removed removed os (or_right (is_removed removed o) _ h)))

FreeOf-nothing : (os : List IOutbound) → All (FreeOf []) os
FreeOf-nothing [] = tt
FreeOf-nothing (o ∷ os) = ((refl, no_child o.outbounds), FreeOf-nothing os)
  where
    no_child : (cs : List IProxy) → All (λ c. one_of c.id [] ≡ false) cs
    no_child [] = tt
    no_child (c ∷ cs) = (refl, no_child cs)

finish-FreeOf :
    (removed : List String) (os : List IOutbound) → All (FreeOf removed) (finish_prune removed os).1
unfolding prune_outbounds
finish-FreeOf [] os = FreeOf-nothing os
finish-FreeOf (id ∷ ids) os =
    let removed : List String = id ∷ ids in
    let next : List IOutbound = filter (λ o. not (is_removed removed o)) os in
    if_cases (any (is_removed removed) os || any (loses_children removed) next)
      (All (FreeOf removed)) (λ _. FreeOf-pruned removed os)
      λ h.
        let none : any (is_removed removed) os ≡ false =
          or_left (any (is_removed removed) os) _ h in
        FreeOf-unchanged removed os none (
          ap (any (loses_children removed)) (sym (none_removed removed os none))
          ∙ or_right (any (is_removed removed) os) _ h)

finish-removed :
    (removed : List String) (os : List IOutbound) → (finish_prune removed os).0.removed ≡ removed
unfolding prune_outbounds
finish-removed [] os = refl
finish-removed (id ∷ ids) os = refl

-- Whatever files are there, after pruning no outbound is one of the subscriptions reported as
-- removed, nor has one of them as a child; also where the profile is reported as unchanged.
pub prune_missing_kernel_cloud_subscriptions-FreeOf :
    {W : Type 0} (file_exists : String → Action W Bool) (os : List IOutbound) (w : W)
    → let r : PruneResult × List IOutbound =
        (prune_missing_kernel_cloud_subscriptions file_exists os w).0 in
      All (FreeOf r.0.removed) r.1
unfolding prune_missing_kernel_cloud_subscriptions
prune_missing_kernel_cloud_subscriptions-FreeOf file_exists os w =
    let removed : List String = (find_missing file_exists (collect_cloud_ids [] os) w).0 in
    rw (finish-removed removed os) (finish-FreeOf removed os)
