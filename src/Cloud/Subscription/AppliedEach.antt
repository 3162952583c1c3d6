-- ===== src/Cloud/Subscription/AppliedEach.antt =====
-- The loop of `applyAllNodesToProfile` over the nodes.
use private_deploy.Base.{
  ◌≡◌, refl, sym, ◌∙◌, subst, true, false, inl, inr, ◌⊎◌, none, List, [], ◌∷◌, ◌++◌, append-nil',
  append_assoc, All, String, one_of, Bool-cases,
}
use private_deploy.Cloud.Ids.{subscription_id, is_managed_cloud_outbound_id}
use private_deploy.Cloud.Nodes.{CloudNode, has_usable_address}
use private_deploy.Cloud.Subscription.Calls.{caught_run}
use private_deploy.Cloud.Subscription.Apply.{
  Progress, finished, failed, waiting, ApplyStore, ApplyDeps, then_run,
}
use private_deploy.Cloud.Subscription.ApplyNode.{apply_node_to_profile}
use private_deploy.Cloud.Subscription.ApplyAll.{
  NodeCalls, Applying, mark_applied, apply_one, apply_each,
}
use private_deploy.Cloud.Subscription.Stored.{IsClosedProfile}
use private_deploy.Cloud.Subscription.Applied.{IsApplied, apply_node_to_profile-IsApplied}

-- The ids are those of some of the nodes, in their order.
abbrev pub IsPart : List String → List CloudNode → Type 0
IsPart ids [] = ids ≡ []
IsPart ids (n ∷ ns) =
    IsPart ids ns ⊎ ((rest : List String) × ((ids ≡ n.instance_id ∷ rest) × IsPart rest ns))

-- The turns of the nodes: a node that is offered is passed over, one whose application throws is not
-- among the applied ids and may be tried again under its id, and one whose application returns is
-- marked, is among the ids and is offered from then on.
pub data Turns {W : Type 0} (deps : ApplyDeps W) (calls : NodeCalls W)
    : List String → List CloudNode → ApplyStore W → List String → ApplyStore W → Type 0 where
  no_turn : (seen : List String) (s : ApplyStore W) → Turns deps calls seen [] s [] s
  passed :
      (seen : List String) (n : CloudNode) (ns : List CloudNode) (s : ApplyStore W)
      (ids : List String) (t : ApplyStore W)
      → one_of (subscription_id n.instance_id) seen ≡ true
      → Turns deps calls seen ns s ids t
      → Turns deps calls seen (n ∷ ns) s ids t
  thrown :
      (seen : List String) (n : CloudNode) (ns : List CloudNode) (s : ApplyStore W)
      (ids : List String) (t : ApplyStore W) (e : String) (u : ApplyStore W)
      → one_of (subscription_id n.instance_id) seen ≡ false
      → apply_node_to_profile deps n none s ≡ (failed e, u)
      → IsApplied deps n s (failed e, u)
      → Turns deps calls seen ns u ids t
      → Turns deps calls seen (n ∷ ns) s ids t
  enlisted :
      (seen : List String) (n : CloudNode) (ns : List CloudNode) (s : ApplyStore W)
      (ids : List String) (t : ApplyStore W) (id : String) (u : ApplyStore W)
      → one_of (subscription_id n.instance_id) seen ≡ false
      → apply_node_to_profile deps n none s ≡ (finished id, u)
      → IsApplied deps n s (finished id, u)
      → Turns deps calls
          (subscription_id n.instance_id ∷ seen)
          ns
          (record u { world = calls.mark_node_status n.instance_id "connected" u.world })
          ids
          t
      → Turns deps calls seen (n ∷ ns) s (n.instance_id ∷ ids) t

-- No subscription of the ids is seen before, or twice.
abbrev pub Unseen : List String → List String → Type 0
Unseen seen [] = Unit
Unseen seen (id ∷ ids) =
    (one_of (subscription_id id) seen ≡ false) × Unseen (subscription_id id ∷ seen) ids

pub Turns-IsPart :
    {W : Type 0} (deps : ApplyDeps W) (calls : NodeCalls W) (seen : List String)
    (ns : List CloudNode) (s : ApplyStore W) (ids : List String) (t : ApplyStore W)
    → Turns deps calls seen ns s ids t
    → IsPart ids ns
Turns-IsPart deps calls seen [] s [] t (no_turn _ _) = refl
Turns-IsPart deps calls seen [] s (i ∷ ids) t h = elim h [ ]
Turns-IsPart deps calls seen (n ∷ ns) s ids t (passed _ _ _ _ _ _ h k) =
    inl (Turns-IsPart deps calls seen ns s ids t k)
Turns-IsPart deps calls seen (n ∷ ns) s ids t (thrown _ _ _ _ _ _ e u h q a k) =
    inl (Turns-IsPart deps calls seen ns u ids t k)
Turns-IsPart deps calls seen (n ∷ ns) s (i ∷ ids) t (enlisted _ _ _ _ _ _ id u h q a k) = inr (
  ids,
  (
    refl,
    Turns-IsPart deps calls (subscription_id n.instance_id ∷ seen) ns
        (record u { world = calls.mark_node_status n.instance_id "connected" u.world }) ids t k,
  ),
)

pub Turns-Unseen :
    {W : Type 0} (deps : ApplyDeps W) (calls : NodeCalls W) (seen : List String)
    (ns : List CloudNode) (s : ApplyStore W) (ids : List String) (t : ApplyStore W)
    → Turns deps calls seen ns s ids t
    → Unseen seen ids
Turns-Unseen deps calls seen [] s [] t (no_turn _ _) = tt
Turns-Unseen deps calls seen [] s (i ∷ ids) t h = elim h [ ]
Turns-Unseen deps calls seen (n ∷ ns) s ids t (passed _ _ _ _ _ _ h k) =
    Turns-Unseen deps calls seen ns s ids t k
Turns-Unseen deps calls seen (n ∷ ns) s ids t (thrown _ _ _ _ _ _ e u h q a k) =
    Turns-Unseen deps calls seen ns u ids t k
Turns-Unseen deps calls seen (n ∷ ns) s (i ∷ ids) t (enlisted _ _ _ _ _ _ id u h q a k) = (
  h,
  Turns-Unseen deps calls (subscription_id n.instance_id ∷ seen) ns
      (record u { world = calls.mark_node_status n.instance_id "connected" u.world }) ids t k,
)

-- A node with a usable address and no managed id.
abbrev pub IsCandidate : CloudNode → Type 0
IsCandidate n =
    (has_usable_address n ≡ true)
    × (is_managed_cloud_outbound_id (subscription_id n.instance_id) ≡ false)

module _ {W : Type 0} (deps : ApplyDeps W) (calls : NodeCalls W) where
  -- One round of the loop ends, as the turn of its node.
  abbrev Rounds : CloudNode → Applying → ApplyStore W → Progress Applying × ApplyStore W → Type 0
  Rounds n a s (finished b, t) =
      ((ns : List CloudNode) (picked : List String) (u : ApplyStore W)
        → Turns deps calls b.existing ns t picked u
        → (ids : List String) × ((b.applied ++ picked ≡ a.applied ++ ids)
            × Turns deps calls a.existing (n ∷ ns) s ids u))
      × All IsClosedProfile t.profiles
  Rounds n a s (failed e, t) = ⊥
  Rounds n a s (waiting, t) = ⊥

  -- The loop ends, behind the turns of its nodes.
  abbrev pub Loops :
      List CloudNode → Applying → ApplyStore W → Progress Applying × ApplyStore W → Type 0
  Loops ns a s (finished b, t) =
      (picked : List String) × ((b.applied ≡ a.applied ++ picked)
        × Turns deps calls a.existing ns s picked t)
  Loops ns a s (failed e, t) = ⊥
  Loops ns a s (waiting, t) = ⊥

  caught-Rounds :
      (n : CloudNode) (a : Applying) (s : ApplyStore W) (r : Progress String × ApplyStore W)
      → one_of (subscription_id n.instance_id) a.existing ≡ false
      → All IsClosedProfile s.profiles
      → apply_node_to_profile deps n none s ≡ r
      → IsApplied deps n s r
      → Rounds n a s (then_run (λ o. mark_applied deps calls n a o) (caught_run r))
  caught-Rounds n a s (finished id, t) e all q h = (
    λ ns picked u k. (
      n.instance_id ∷ picked,
      (
        append_assoc a.applied (n.instance_id ∷ []) picked,
        enlisted a.existing n ns s picked u id t e q h k,
      ),
    ),
    h.closed,
  )
  caught-Rounds n a s (failed x, t) e all q h = (
    λ ns picked u k. (picked, (refl, thrown a.existing n ns s picked u x t e q h k)),
    subst (All IsClosedProfile) (sym h.0) all,
  )
  caught-Rounds n a s (waiting, t) e all q h = h

  apply_one-Rounds :
      (n : CloudNode) (a : Applying) (s : ApplyStore W)
      → IsCandidate n
      → All IsClosedProfile s.profiles
      → Rounds n a s (apply_one deps calls n a s)
  apply_one-Rounds n a s (usable, own) all =
      elim (Bool-cases (one_of (subscription_id n.instance_id) a.existing)) [
        | inl e ↦
            rw e ((λ ns picked u k. (picked, (refl, passed a.existing n ns s picked u e k))), all)
        | inr e ↦ rw e (
            caught-Rounds n a s _ e all refl
              (apply_node_to_profile-IsApplied deps n none s usable own all))
      ]

  extended :
      (n : CloudNode) (ns : List CloudNode) (a b : Applying) (s t : ApplyStore W)
      (r : Progress Applying × ApplyStore W)
      → ((picked : List String) (u : ApplyStore W)
          → Turns deps calls b.existing ns t picked u
          → (ids : List String) × ((b.applied ++ picked ≡ a.applied ++ ids)
              × Turns deps calls a.existing (n ∷ ns) s ids u))
      → Loops ns b t r
      → Loops (n ∷ ns) a s r
  extended n ns a b s t (finished c, u) h (picked, (q, k)) =
      let (ids, (p, l)) = h picked u k in (ids, (q ∙ p, l))
  extended n ns a b s t (failed x, u) h k = k
  extended n ns a b s t (waiting, u) h k = k

  next-Loops :
      (n : CloudNode) (ns : List CloudNode) (a : Applying) (s : ApplyStore W)
      (r : Progress Applying × ApplyStore W)
      → Rounds n a s r
      → ((b : Applying) (t : ApplyStore W)
          → All IsClosedProfile t.profiles
          → Loops ns b t (apply_each deps calls ns b t))
      → Loops (n ∷ ns) a s (then_run (λ b. apply_each deps calls ns b) r)
  next-Loops n ns a s (finished b, t) (h, all) k = extended n ns a b s t _ (h ns) (k b t all)
  next-Loops n ns a s (failed x, t) h k = h
  next-Loops n ns a s (waiting, t) h k = h

  pub apply_each-Loops :
      (ns : List CloudNode) (a : Applying) (s : ApplyStore W)
      → All IsCandidate ns
      → All IsClosedProfile s.profiles
      → Loops ns a s (apply_each deps calls ns a s)
  unfolding apply_each
  apply_each-Loops [] a s h all = ([], (sym (append-nil' a.applied), no_turn a.existing s))
  apply_each-Loops (n ∷ ns) a s h all =
      next-Loops n ns a s (apply_one deps calls n a s) (apply_one-Rounds n a s h.0 all)
        λ b t q. apply_each-Loops ns b t h.1 q
