-- ===== src/Cloud/Subscription/Ensured.antt =====
-- The subscriptions after `ensureSubscriptionForNode`.
use private_deploy.Base.{
  ℕ, ◌≡◌, refl, sym, ap, ◌∙◌, subst, true, false, inl, inr, Option, none, some, List, [], ◌∷◌, ◌++◌,
  String, str_eq, Outcome, ok, threw, Bool-cases,
}
use private_deploy.Cloud.Ids.{ProtocolHealthMap, subscription_id, subscription_path}
use private_deploy.Cloud.Nodes.{CloudNode, has_usable_address}
use private_deploy.Cloud.Subscription.Payload.{node_outbounds}
use private_deploy.Cloud.Subscription.Record.{
  Subscription, apply_managed_exclude, refreshed, should_write,
}
use private_deploy.Cloud.Subscription.Apply.{
  Progress, finished, failed, waiting, ApplyStore, ApplyDeps, then_run, lifted, settled_subscribes,
  get_subscribe_by_id, subscribes_deps, subscription_of, store_subscription, write_subscription,
  ensure_subscription_for_node,
}
use private_deploy.Stores.Lists.{Done}
use private_deploy.Stores.Lists.Changes.{add, edit, with_first, IsAtomic, run_change-IsAtomic}
use private_deploy.Cloud.Subscription.Usable.{
  loaded, ensure_subscription_for_node-usable, subscribes-loaded,
}
use private_deploy.Cloud.Subscription.Found.{
  is_subscription, found-id, found-edited, found-added, others-edited, others-added,
}

-- The subscriptions `after` have that of the node, made at some time of what was there before, and the
-- others as before.
abbrev pub HasSubscription :
    {W : Type 0}
    → ApplyDeps W
    → CloudNode
    → ProtocolHealthMap
    → List Subscription
    → List Subscription
    → Type 0
HasSubscription deps node health before after =
    let id = subscription_id node.instance_id in
    ((time : ℕ) × (get_subscribe_by_id id after
        ≡ some (subscription_of deps node (get_subscribe_by_id id before) health time)))
    × ((j : String)
        → str_eq id j ≡ false
        → get_subscribe_by_id j after ≡ get_subscribe_by_id j before)

-- A call that returns has stored the subscription under the health that it has loaded; one that throws
-- leaves the subscriptions, and none waits for ever.
abbrev pub IsEnsured :
    {W : Type 0}
    → ApplyDeps W
    → CloudNode
    → List Subscription
    → Progress (Unit {0}) × ApplyStore W
    → Type 0
IsEnsured deps node before (finished u, s) =
    HasSubscription deps node s.protocol_health before s.subscribes
IsEnsured deps node before (failed e, s) = s.subscribes ≡ before
IsEnsured deps node before (waiting, s) = ⊥

module _ {W : Type 0} (deps : ApplyDeps W) (node : CloudNode) where
  pub id-subscription_of :
      (o : Option Subscription) (xs : List Subscription) (health : ProtocolHealthMap) (t : ℕ)
      → get_subscribe_by_id (subscription_id node.instance_id) xs ≡ o
      → (subscription_of deps node o health t).id ≡ subscription_id node.instance_id
  unfolding apply_managed_exclude refreshed
  id-subscription_of none xs health t h = refl
  id-subscription_of (some e) xs health t h = found-id (subscription_id node.instance_id) xs e h

  settled-IsEnsured :
      (s : ApplyStore W) (after : List Subscription) (r : Done Subscription W)
      → IsAtomic s.subscribes after r
      → HasSubscription deps node s.protocol_health s.subscribes after
      → IsEnsured deps node s.subscribes (settled_subscribes s r)
  settled-IsEnsured s after (ok u, l) a h =
      subst (HasSubscription deps node s.protocol_health s.subscribes) (sym a) h
  settled-IsEnsured s after (threw e, l) a h = a

  added-HasSubscription :
      (s : ApplyStore W) (t : ℕ)
      → get_subscribe_by_id (subscription_id node.instance_id) s.subscribes ≡ none
      → HasSubscription deps node s.protocol_health s.subscribes
          (s.subscribes ++ (subscription_of deps node none s.protocol_health t ∷ []))
  added-HasSubscription s t h =
      let id = subscription_id node.instance_id in
      let x = subscription_of deps node none s.protocol_health t in
      let p = id-subscription_of none s.subscribes s.protocol_health t h in
      (
        (
          t,
          found-added id x s.subscribes p h
              ∙ ap (λ o. some (subscription_of deps node o s.protocol_health t)) (sym h),
        ),
        λ j d. others-added id j x s.subscribes p d,
      )

  edited-HasSubscription :
      (s : ApplyStore W) (t : ℕ) (e : Subscription)
      → get_subscribe_by_id (subscription_id node.instance_id) s.subscribes ≡ some e
      → HasSubscription deps node s.protocol_health s.subscribes (
          with_first
            (is_subscription (subscription_id node.instance_id))
            (subscription_of deps node (some e) s.protocol_health t ∷ [])
            s.subscribes)
  edited-HasSubscription s t e h =
      let id = subscription_id node.instance_id in
      let x = subscription_of deps node (some e) s.protocol_health t in
      let p = id-subscription_of (some e) s.subscribes s.protocol_health t h in
      (
        (
          t,
          found-edited id x e s.subscribes p h
              ∙ ap (λ o. some (subscription_of deps node o s.protocol_health t)) (sym h),
        ),
        λ j d. others-edited id j x s.subscribes p d,
      )

  store-IsEnsured :
      (s : ApplyStore W) (o : Option Subscription)
      → get_subscribe_by_id (subscription_id node.instance_id) s.subscribes ≡ o
      → IsEnsured deps node s.subscribes (store_subscription deps node o s)
  store-IsEnsured s none h =
      let t = deps.now s.world in
      let x = subscription_of deps node none s.protocol_health t in
      settled-IsEnsured s (s.subscribes ++ (x ∷ [])) _
        (run_change-IsAtomic (subscribes_deps deps)
          (record { items = s.subscribes; world = s.world }) (add x))
        (added-HasSubscription s t h)
  store-IsEnsured s (some e) h =
      let t = deps.now s.world in
      let x = subscription_of deps node (some e) s.protocol_health t in
      let id = subscription_id node.instance_id in
      settled-IsEnsured s (with_first (is_subscription id) (x ∷ []) s.subscribes) _
        (run_change-IsAtomic (subscribes_deps deps)
          (record { items = s.subscribes; world = s.world }) (edit id x))
        (edited-HasSubscription s t e h)

  written-IsEnsured :
      (s : ApplyStore W) (o : Option Subscription) (r : Outcome (Unit {0}) × W)
      → get_subscribe_by_id (subscription_id node.instance_id) s.subscribes ≡ o
      → IsEnsured deps node s.subscribes
          (then_run (λ _. store_subscription deps node o) (lifted s r))
  written-IsEnsured s o (ok u, w) h = store-IsEnsured (record s { world = w }) o h
  written-IsEnsured s o (threw e, w) h = refl

  write_subscription-IsEnsured :
      (s : ApplyStore W) → IsEnsured deps node s.subscribes (write_subscription deps node s)
  unfolding write_subscription
  write_subscription-IsEnsured s =
      let id = subscription_id node.instance_id in
      let o = get_subscribe_by_id id s.subscribes in
      elim (Bool-cases (should_write o (deps.now s.world))) [
        | inl e ↦ rw e (
            written-IsEnsured s o
              (deps.write_file (subscription_path node.instance_id)
                (node_outbounds node (deps.cdn_deployment_for node.instance_id s.world)) s.world)
              refl)
        | inr e ↦ rw e (store-IsEnsured s o refl)
      ]

  pub ensure_subscription_for_node-IsEnsured :
      (s : ApplyStore W)
      → has_usable_address node ≡ true
      → IsEnsured deps node s.subscribes (ensure_subscription_for_node deps node s)
  ensure_subscription_for_node-IsEnsured s h =
      subst (IsEnsured deps node s.subscribes)
        (sym (ensure_subscription_for_node-usable deps node s h))
        (subst
          (λ before. IsEnsured deps node before (write_subscription deps node (loaded deps node s)))
          (subscribes-loaded deps node s) (write_subscription-IsEnsured (loaded deps node s)))
