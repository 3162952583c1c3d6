-- ===== src/Cloud/Subscription/Unwritten.antt =====
-- The file of a node whose subscription was run within the last five minutes.
use private_deploy.Base.{
  ℕ, ◌+◌, ltb, ◌≡◌, refl, sym, ap, ◌∙◌, subst, true, false, some, List, [], ◌∷◌, String, ok, threw,
  Action,
}
use private_deploy.Cloud.Ids.{subscription_id}
use private_deploy.Cloud.Nodes.{CloudNode, has_usable_address}
use private_deploy.Cloud.Subscription.Payload.{NodeOutbound}
use private_deploy.Cloud.Subscription.Record.{Subscription, apply_managed_exclude, refreshed}
use private_deploy.Cloud.Subscription.Apply.{
  Progress, finished, failed, waiting, ApplyStore, ApplyDeps, settled_subscribes,
  get_subscribe_by_id, subscribes_deps, load_protocol_health, subscription_of, store_subscription,
  write_subscription, ensure_subscription_for_node,
}
use private_deploy.Cloud.Subscription.Found.{is_subscription, found-id, found-edited}
use private_deploy.Cloud.Subscription.Usable.{
  loaded, ensure_subscription_for_node-usable, subscribes-loaded,
}
use private_deploy.Stores.Lists.{Done}
use private_deploy.Stores.Lists.Changes.{edit, with_first, IsAtomic, run_change-IsAtomic}

-- Other calls that write a file.
abbrev pub with_write_file :
    {W : Type 0} → (String → List NodeOutbound → Action W (Unit {0})) → ApplyDeps W → ApplyDeps W
with_write_file write deps = record deps { write_file = write }

-- Where the call returned, the subscription was updated at the time.
abbrev pub WasUpdated : {W : Type 0} → String → ℕ → Progress (Unit {0}) × ApplyStore W → Type 0
WasUpdated id time (finished u, s) =
    (x : Subscription) × (get_subscribe_by_id id s.subscribes ≡ some x) × (x.update_time ≡ time)
WasUpdated id time (failed e, s) = Unit
WasUpdated id time (waiting, s) = Unit

module _ {W : Type 0} (deps : ApplyDeps W) (node : CloudNode) (s : ApplyStore W)
    (existing : Subscription)
    (found : get_subscribe_by_id (subscription_id node.instance_id) s.subscribes
      ≡ some existing) where
  settled-WasUpdated :
      (id : String) (x : Subscription) (after : List Subscription) (time : ℕ)
      (r : Done Subscription W)
      → get_subscribe_by_id id after ≡ some x
      → x.update_time ≡ time
      → IsAtomic s.subscribes after r
      → WasUpdated id time (settled_subscribes s r)
  settled-WasUpdated id x after time (ok u, l) h t a = (x, ap (get_subscribe_by_id id) a ∙ h, t)
  settled-WasUpdated id x after time (threw e, l) h t a = tt

  store-WasUpdated :
      WasUpdated
        (subscription_id node.instance_id)
        (deps.now s.world)
        (store_subscription deps node (some existing) s)
  unfolding apply_managed_exclude refreshed
  store-WasUpdated =
      let id = subscription_id node.instance_id in
      let x = subscription_of deps node (some existing) s.protocol_health (deps.now s.world) in
      settled-WasUpdated id x (with_first (is_subscription id) (x ∷ []) s.subscribes) _ _
        (found-edited id x existing s.subscribes (found-id id s.subscribes existing found) found)
        refl
        (run_change-IsAtomic (subscribes_deps deps)
          (record { items = s.subscribes; world = s.world }) (edit id x))

  write_subscription-unwritten :
      (write : String → List NodeOutbound → Action W (Unit {0}))
      → ltb (existing.update_time + 300000) (deps.now s.world) ≡ false
      → write_subscription (with_write_file write deps) node s
        ≡ store_subscription deps node (some existing) s
  unfolding write_subscription
  write_subscription-unwritten write h = rw (found, h) refl

-- For a node with a usable address whose subscription is not older than five minutes when the health of
-- the protocols has been loaded, the call writes no file, as the calls that would write it do not
-- matter, and it updates the time of the subscription, so that the five minutes start again.
pub ensure_subscription_for_node-unwritten :
    {W : Type 0} (deps : ApplyDeps W) (node : CloudNode) (s : ApplyStore W)
    (existing : Subscription) (write : String → List NodeOutbound → Action W (Unit {0}))
    → has_usable_address node ≡ true
    → get_subscribe_by_id (subscription_id node.instance_id) s.subscribes ≡ some existing
    → ltb (existing.update_time + 300000) (deps.now (loaded deps node s).world) ≡ false
    → (ensure_subscription_for_node (with_write_file write deps) node s
        ≡ ensure_subscription_for_node deps node s)
      × WasUpdated
          (subscription_id node.instance_id)
          (deps.now (loaded deps node s).world)
          (ensure_subscription_for_node deps node s)
unfolding load_protocol_health
ensure_subscription_for_node-unwritten deps node s existing write h f t =
    let after = loaded deps node s in
    let id = subscription_id node.instance_id in
    let found = ap (get_subscribe_by_id id) (subscribes-loaded deps node s) ∙ f in
    let stored =
      ensure_subscription_for_node-usable deps node s h
      ∙ write_subscription-unwritten deps node after existing found deps.write_file t in
    (
      ensure_subscription_for_node-usable (with_write_file write deps) node s h
          ∙ write_subscription-unwritten deps node after existing found write t
          ∙ sym stored,
      subst (WasUpdated id (deps.now after.world)) (sym stored)
          (store-WasUpdated deps node after existing found),
    )
