-- ===== src/Cloud/Subscription/Untouched.antt =====
-- What `ensureSubscriptionForNode` leaves alone for a usable node.
use private_deploy.Base.{
  ◌≡◌, refl, ◌∙◌, true, inl, inr, Option, none, some, Outcome, ok, threw, Bool-cases,
}
use private_deploy.Cloud.Ids.{subscription_id}
use private_deploy.Cloud.Nodes.{CloudNode, has_usable_address}
use private_deploy.Cloud.Subscription.Record.{Subscription, should_write}
use private_deploy.Cloud.Subscription.Apply.{
  Progress, finished, failed, waiting, ApplyStore, ApplyDeps, Handler, then_run, lifted,
  settled_subscribes, get_subscribe_by_id, load_protocol_health, write_node_file,
  store_subscription, write_subscription, ensure_subscription_for_node,
}
use private_deploy.Cloud.Subscription.Usable.{loaded, ensure_subscription_for_node-usable}
use private_deploy.Stores.Lists.{Done}

-- The profiles and the choice of one are as before.
abbrev pub SameProfiles : {W A : Type 0} → ApplyStore W → Progress A × ApplyStore W → Type 0
SameProfiles s r = (r.1.profiles ≡ s.profiles) × (r.1.kernel_profile ≡ s.kernel_profile)

lifted-SameProfiles :
    {W : Type 0} (s : ApplyStore W) (r : Outcome (Unit {0}) × W) → SameProfiles s (lifted s r)
lifted-SameProfiles s (ok u, w) = (refl, refl)
lifted-SameProfiles s (threw e, w) = (refl, refl)

settled-SameProfiles :
    {W : Type 0} (s : ApplyStore W) (r : Done Subscription W)
    → SameProfiles s (settled_subscribes s r)
settled-SameProfiles s (ok u, l) = (refl, refl)
settled-SameProfiles s (threw e, l) = (refl, refl)

then-SameProfiles :
    {W A B : Type 0} (f : A → Handler W B) (s : ApplyStore W) (r : Progress A × ApplyStore W)
    → SameProfiles s r
    → ((a : A) (t : ApplyStore W) → SameProfiles t (f a t))
    → SameProfiles s (then_run f r)
then-SameProfiles f s (finished a, t) h k = let (p, c) = k a t in (p ∙ h.0, c ∙ h.1)
then-SameProfiles f s (failed e, t) h k = h
then-SameProfiles f s (waiting, t) h k = h

module _ {W : Type 0} (deps : ApplyDeps W) (node : CloudNode) where
  store-SameProfiles :
      (o : Option Subscription) (s : ApplyStore W)
      → SameProfiles s (store_subscription deps node o s)
  store-SameProfiles none s = settled-SameProfiles s _
  store-SameProfiles (some e) s = settled-SameProfiles s _

  write-SameProfiles :
      (o : Option Subscription) (s : ApplyStore W) → SameProfiles s (write_node_file deps node o s)
  write-SameProfiles o s = elim (Bool-cases (should_write o (deps.now s.world))) [
    | inl e ↦ rw e (lifted-SameProfiles s _)
    | inr e ↦ rw e (refl, refl)
  ]

  loaded-SameProfiles : (s : ApplyStore W) → SameProfiles s (load_protocol_health deps s)
  unfolding load_protocol_health
  loaded-SameProfiles s = elim (Bool-cases s.protocol_health_loaded) [
    | inl e ↦ rw e (refl, refl)
    | inr e ↦ rw e (refl, refl)
  ]

  write_subscription-SameProfiles :
      (s : ApplyStore W) → SameProfiles s (write_subscription deps node s)
  unfolding write_subscription
  write_subscription-SameProfiles s =
      let o : Option Subscription =
        get_subscribe_by_id (subscription_id node.instance_id) s.subscribes in
      then-SameProfiles (λ _. store_subscription deps node o) s (write_node_file deps node o s)
        (write-SameProfiles o s) (λ _ u. store-SameProfiles o u)

  pub ensure-SameProfiles :
      (s : ApplyStore W)
      → has_usable_address node ≡ true
      → SameProfiles s (ensure_subscription_for_node deps node s)
  ensure-SameProfiles s h =
      let (p, c) = loaded-SameProfiles s in
      let (q, d) = write_subscription-SameProfiles (loaded deps node s) in
      rw (ensure_subscription_for_node-usable deps node s h) (q ∙ p, d ∙ c)
