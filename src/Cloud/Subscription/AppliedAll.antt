-- ===== src/Cloud/Subscription/AppliedAll.antt =====
-- The nodes that `applyAllNodesToProfile` applies.
use private_deploy.Base.{
  ◌≡◌, refl, sym, ap, ◌∙◌, subst, true, false, inl, inr, List, [], ◌∷◌, map, filter, All, All-mono,
  length, leb, threw, ok, Outcome, String, str_eq_sym, one_of, Distinct, Bool-cases, arith,
}
use private_deploy.Cloud.Ids.{subscription_id, is_managed_cloud_outbound_id}
use private_deploy.Cloud.Nodes.{CloudNode, has_usable_address}
use private_deploy.Cloud.Subscription.Apply.{
  Progress, finished, failed, waiting, ApplyStore, ApplyDeps, then_run, return, lifted,
}
use private_deploy.Cloud.Subscription.ApplyAll.{
  NodeCalls, Applying, reload_after, repair, apply_candidates, existing_subscription_ids,
  apply_all_nodes_to_profile,
}
use private_deploy.Cloud.Subscription.Repair.{Resolves, repair-Resolves}
use private_deploy.Cloud.Subscription.Stored.{IsClosedProfile}
use private_deploy.Cloud.Subscription.AppliedEach.{
  IsPart, Unseen, Turns, Turns-IsPart, Turns-Unseen, IsCandidate, Loops, apply_each-Loops,
}

Unseen-All :
    (seen ids : List String)
    → Unseen seen ids
    → All (λ i. one_of (subscription_id i) seen ≡ false) ids
Unseen-All seen [] h = tt
Unseen-All seen (i ∷ ids) h =
    (h.0, All-mono _ _ ids (λ j q. ground arith) (Unseen-All (subscription_id i ∷ seen) ids h.1))

none-map :
    (x : String) (seen ids : List String)
    → All (λ i. one_of (subscription_id i) (x ∷ seen) ≡ false) ids
    → one_of x (map subscription_id ids) ≡ false
none-map x seen [] h = refl
none-map x seen (i ∷ ids) h =
    ground (arith, h.0, none-map x seen ids h.1, str_eq_sym x (subscription_id i))

Unseen-Distinct : (seen ids : List String) → Unseen seen ids → Distinct (map subscription_id ids)
Unseen-Distinct seen [] h = tt
Unseen-Distinct seen (i ∷ ids) h = (
  none-map (subscription_id i) seen ids (Unseen-All (subscription_id i ∷ seen) ids h.1),
  Unseen-Distinct (subscription_id i ∷ seen) ids h.1,
)

-- The usable instances, once the manual nodes are among them.
abbrev pub candidates_of : {W : Type 0} → NodeCalls W → W → List CloudNode
candidates_of calls w =
    filter (λ n. has_usable_address n)
      (calls.instances (calls.sync_manual_nodes_into_instances (calls.load_manual_nodes w).1))

-- The store of the loop, once the manual nodes are among the instances.
abbrev pub with_manual_nodes : {W : Type 0} → NodeCalls W → ApplyStore W → ApplyStore W
with_manual_nodes calls s = record s {
  world = calls.sync_manual_nodes_into_instances (calls.load_manual_nodes s.world).1;
}

-- How a call ends.
abbrev pub AppliesAll :
    {W : Type 0}
    → ApplyDeps W
    → NodeCalls W
    → ApplyStore W
    → Progress (List String) × ApplyStore W
    → Type 0
AppliesAll deps calls s (finished applied, t) =
    ((u : _) × Turns deps calls (existing_subscription_ids s) (candidates_of calls s.world)
        (with_manual_nodes calls s) applied u)
    × (IsPart applied (candidates_of calls s.world)
        × (Distinct (map subscription_id applied)
            × All (λ i. one_of (subscription_id i) (existing_subscription_ids s) ≡ false) applied))
AppliesAll deps calls s (failed e, t) = (calls.load_manual_nodes s.world).0 ≡ threw e
AppliesAll deps calls s (waiting, t) = leb 2 (length t.profiles) ≡ true

resolved-AppliesAll :
    {W : Type 0} (deps : ApplyDeps W) (calls : NodeCalls W) (s u : ApplyStore W)
    (picked applied : List String) (r : Progress (List String) × ApplyStore W)
    → applied ≡ picked
    → Turns deps calls
        (existing_subscription_ids s)
        (candidates_of calls s.world)
        (with_manual_nodes calls s)
        picked
        u
    → Resolves applied r
    → AppliesAll deps calls s r
resolved-AppliesAll deps calls s u picked applied (finished ids, t) e h k =
    let new = Turns-Unseen deps calls _ _ _ picked u h in
    subst (λ l. AppliesAll deps calls s (finished l, t)) (sym (k ∙ e))
      (
        (u, h),
        (
          Turns-IsPart deps calls _ _ _ picked u h,
          (Unseen-Distinct _ picked new, Unseen-All _ picked new),
        ),
      )
resolved-AppliesAll deps calls s u picked applied (failed x, t) e h k = absurd k
resolved-AppliesAll deps calls s u picked applied (waiting, t) e h k = k

-- None of the nodes has an id under which its subscription would be taken for a managed outbound.
abbrev pub AllOwn : List CloudNode → Type 0
AllOwn ns = All (λ n. is_managed_cloud_outbound_id (subscription_id n.instance_id) ≡ false) ns

AllOwn-candidates :
    (ns : List CloudNode) → AllOwn ns → All IsCandidate (filter (λ n. has_usable_address n) ns)
AllOwn-candidates [] h = tt
AllOwn-candidates (n ∷ ns) h = elim (Bool-cases (has_usable_address n)) [
  | inl e ↦ rw e ((e, h.0), AllOwn-candidates ns h.1)
  | inr e ↦ rw e (AllOwn-candidates ns h.1)
]

module _ {W : Type 0} (deps : ApplyDeps W) (calls : NodeCalls W)
    (own : (w : W) → AllOwn (calls.instances w)) where
  looped-AppliesAll :
      (s : ApplyStore W) (r : Progress Applying × ApplyStore W)
      → Loops deps calls
          (candidates_of calls s.world)
          (record { existing = existing_subscription_ids s; applied = [] })
          (with_manual_nodes calls s)
          r
      → AppliesAll deps calls s (
          then_run
            (λ a t.
              then_run
                (λ b u.
                  then_run
                    (λ _. return a.applied)
                    (reload_after deps calls (candidates_of calls s.world) a.applied b u))
                (repair deps calls t))
            r)
  looped-AppliesAll s (finished b, t) (picked, (q, h)) =
      resolved-AppliesAll deps calls s t picked b.applied _ q h
        (repair-Resolves deps calls (candidates_of calls s.world) b.applied t)
  looped-AppliesAll s (failed x, t) h = absurd h
  looped-AppliesAll s (waiting, t) h = absurd h

  loaded-AppliesAll :
      (s : ApplyStore W) (r : Outcome (Unit {0}) × W)
      → calls.load_manual_nodes s.world ≡ r
      → All IsClosedProfile s.profiles
      → AppliesAll deps calls s (
          then_run
            (λ _ t.
              apply_candidates deps calls
                (existing_subscription_ids t)
                (filter (λ n. has_usable_address n) (calls.instances t.world))
                t)
            (then_run
              (λ _ t.
                (finished tt, record t { world = calls.sync_manual_nodes_into_instances t.world }))
              (lifted s r)))
  unfolding existing_subscription_ids
  loaded-AppliesAll s (ok u, w) e all =
      subst
        (λ x. AppliesAll deps calls s (
          apply_candidates deps calls (existing_subscription_ids s)
            (filter (λ n. has_usable_address n)
              (calls.instances (calls.sync_manual_nodes_into_instances x)))
            (record s { world = calls.sync_manual_nodes_into_instances x })))
        (ap (λ r. r.1) e)
        (looped-AppliesAll s _ (
          apply_each-Loops deps calls (candidates_of calls s.world)
            (record { existing = existing_subscription_ids s; applied = [] })
            (with_manual_nodes calls s) (AllOwn-candidates _ (own _)) all))
  loaded-AppliesAll s (threw x, w) e all = ap (λ r. r.0) e

  -- Applying all nodes, where the rules of all profiles name outbounds that they have and no instance
  -- has an id under which its subscription would be taken for a managed outbound: the call throws
  -- only what loading the manual nodes threw, whatever else fails, and waits for ever only with two
  -- profiles or more; where it returns, the usable instances took their turns in order, and the
  -- returned ids are those of exactly the instances that were not offered when it was their turn and
  -- whose application returned, with the chosen profile offering them; each was marked as connected,
  -- while an application that threw left the profiles and the choice and marked nothing. So none is
  -- returned twice, and none that the chosen profile offered before.
  pub apply_all_nodes_to_profile-AppliesAll :
      (s : ApplyStore W)
      → All IsClosedProfile s.profiles
      → AppliesAll deps calls s (apply_all_nodes_to_profile deps calls s)
  unfolding apply_all_nodes_to_profile
  apply_all_nodes_to_profile-AppliesAll s all =
      loaded-AppliesAll s (calls.load_manual_nodes s.world) refl all
