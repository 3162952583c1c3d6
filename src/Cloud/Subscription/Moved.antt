-- ===== src/Cloud/Subscription/Moved.antt =====
-- The subscriptions of other nodes over the move of a node.
use private_deploy.Base.{
  ◌≡◌, refl, Bool, true, false, ◌||◌, inl, inr, Option, none, some, List, String, str_eq, is_empty,
  Bool-cases, if◌then◌else◌,
}
use private_deploy.Cloud.Ids.{ProtocolHealthMap, subscription_id}
use private_deploy.Cloud.Nodes.{CloudNode}
use private_deploy.Cloud.Subscription.Health.{migrate_protocol_health_entry}
use private_deploy.Cloud.Subscription.Record.{Subscription, apply_managed_exclude}
use private_deploy.Cloud.Subscription.Apply.{
  Progress, finished, StoredProfile, ApplyStore, ApplyDeps, return, call, on_subscribes,
  get_subscribe_by_id, edit_profiles, subscribes_deps, load_protocol_health,
  ensure_subscription_for_node,
}
use private_deploy.Cloud.Subscription.Found.{others-edited}
use private_deploy.Stores.Lists.{edit_item, delete_item}
use private_deploy.Stores.Lists.Changes.{delete, edit, changed}
use private_deploy.Cloud.Subscription.Profiles.{Replacement}
use private_deploy.Cloud.Subscription.Move.{
  some_updates, store_health, migrate_health, replace_subscription_references, profiles_to_move,
  move_profiles, migrated, keep_settings, tag_of, delete_old, clean_up, forget_old, relink,
  move_references, ensure_new, migrate_managed_node_identity,
}
use private_deploy.Cloud.Subscription.Frame.{
  Keeps, others-deleted, then-Keeps, lifted-Keeps, change-Keeps, edit_profiles-Keeps,
  load_protocol_health-Keeps, ensure_subscription_for_node-Keeps,
}

module _ {W : Type 0} (deps : ApplyDeps W) (j : String) where
  if-Keeps :
      (b : Bool) (s : ApplyStore W) (x y : Progress Bool × ApplyStore W)
      → Keeps j s x
      → Keeps j s y
      → Keeps j s (if b then x else y)
  if-Keeps true s x y h k = h
  if-Keeps false s x y h k = k

  store_health-Keeps :
      (r : Bool × ProtocolHealthMap) (s : ApplyStore W) → Keeps j s (store_health deps r s)
  store_health-Keeps (false, health) s = refl
  store_health-Keeps (true, health) s =
      let next = record s { protocol_health = health } in
      then-Keeps deps j (λ _. return true) next (call (deps.save_health health) next)
        (lifted-Keeps deps j next (deps.save_health health s.world)) (λ u t. refl)

  migrate_health-Keeps :
      (old new : String) (s : ApplyStore W) → Keeps j s (migrate_health deps old new s)
  unfolding migrate_health
  migrate_health-Keeps old new s =
      if-Keeps (is_empty old || is_empty new || str_eq old new) s (finished false, s) _ refl
        (then-Keeps deps j
          (λ _ t. store_health deps (migrate_protocol_health_entry old new t.protocol_health) t) s
          (load_protocol_health deps s) (load_protocol_health-Keeps deps j s)
          (λ u t. store_health-Keeps (migrate_protocol_health_entry old new t.protocol_health) t))

  replace_subscription_references-Keeps :
      (r : Replacement) (s : ApplyStore W) → Keeps j s (replace_subscription_references deps r s)
  unfolding replace_subscription_references
  replace_subscription_references-Keeps r s =
      elim (Bool-cases (is_empty r.old || is_empty r.new || str_eq r.old r.new)) [
        | inl e ↦ rw e refl
        | inr e ↦ rw e (moved (profiles_to_move s.protocol_health r s.profiles))
      ]
    where
      moved : (ps : List StoredProfile) → Keeps j s (move_profiles deps ps s)
      moved ps =
          then-Keeps deps j (λ _. return (some_updates ps)) s (edit_profiles deps ps s)
            (edit_profiles-Keeps deps j ps s) (λ u t. refl)

  keep_settings-Keeps :
      (node : CloudNode) (new old : Option Subscription) (changed : Bool) (s : ApplyStore W)
      → str_eq (subscription_id node.instance_id) j ≡ false
      → Keeps j s (keep_settings deps node new old changed s)
  unfolding apply_managed_exclude
  keep_settings-Keeps node (some new) (some old) changed s d =
      let id = subscription_id node.instance_id in
      let x = migrated deps node old new s in
      then-Keeps deps j (λ _. return true) s
        (on_subscribes (edit_item (subscribes_deps deps) id x) s)
        (change-Keeps deps j (edit id x) s (others-edited id j x s.subscribes refl d)) (λ u t. refl)
  keep_settings-Keeps node none old changed s d = refl
  keep_settings-Keeps node (some new) none changed s d = refl

  delete_old-Keeps :
      (id : String) (old : Option Subscription) (changed : Bool) (s : ApplyStore W)
      → str_eq id j ≡ false
      → Keeps j s (delete_old deps id old changed s)
  delete_old-Keeps id none changed s d = refl
  delete_old-Keeps id (some old) changed s d =
      then-Keeps deps j (λ _. return true) s
        (on_subscribes (delete_item (subscribes_deps deps) id) s)
        (change-Keeps deps j (delete id) s (others-deleted id j s.subscribes d)) (λ u t. refl)

  -- Moving a node to another id keeps the subscriptions of all other ids than the two, on every path:
  -- whether it returns, throws or waits for ever.
  pub migrate_managed_node_identity-Keeps :
      (from : String) (node : CloudNode) (s : ApplyStore W)
      → str_eq (subscription_id from) j ≡ false
      → str_eq (subscription_id node.instance_id) j ≡ false
      → Keeps j s (migrate_managed_node_identity deps from node s)
  unfolding migrate_managed_node_identity
  migrate_managed_node_identity-Keeps from node s d d' =
      elim (Bool-cases (is_empty from || str_eq from node.instance_id)) [
        | inl e ↦ rw e refl
        | inr e ↦ rw e (
            then-Keeps deps j (ensure_new deps from node old) s
              (migrate_health deps from node.instance_id s)
              (migrate_health-Keeps from node.instance_id s) ensured)
      ]
    where
      old : Option Subscription
      old = get_subscribe_by_id (subscription_id from) s.subscribes

      forgot :
          (c replaced : Bool) (t : ApplyStore W) → Keeps j t (forget_old deps from old c replaced t)
      forgot c replaced t =
          then-Keeps deps j (clean_up deps from) t
            (delete_old deps (subscription_id from) old (replaced || c) t)
            (delete_old-Keeps (subscription_id from) old (replaced || c) t d) (λ a u. refl)

      moved : (c : Bool) (t : ApplyStore W) → Keeps j t (move_references deps from node old c t)
      moved c t =
          let new = get_subscribe_by_id (subscription_id node.instance_id) t.subscribes in
          let r : Replacement = record {
            old = subscription_id from;
            new = subscription_id node.instance_id;
            tag = tag_of deps node new;
          } in
          then-Keeps deps j (relink deps from old r) t (keep_settings deps node new old c t)
            (keep_settings-Keeps node new old c t d')
            (λ c' u.
              then-Keeps deps j (forget_old deps from old c') u
                (replace_subscription_references deps r u)
                (replace_subscription_references-Keeps r u) (forgot c'))

      ensured : (c : Bool) (t : ApplyStore W) → Keeps j t (ensure_new deps from node old c t)
      ensured c t =
          then-Keeps deps j (λ _. move_references deps from node old c) t
            (ensure_subscription_for_node deps node t)
            (ensure_subscription_for_node-Keeps deps j node t d') (λ u v. moved c v)
