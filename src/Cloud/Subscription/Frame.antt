-- ===== src/Cloud/Subscription/Frame.antt =====
-- The subscriptions that a handler leaves alone.
use private_deploy.Base.{
  ◌≡◌, refl, sym, ap, ◌∙◌, subst, Bool, true, false, inl, inr, Option, none, some, List, [], ◌∷◌,
  String, str_eq, Outcome, ok, threw, eq_iff, Bool-cases,
}
use private_deploy.Cloud.Ids.{subscription_id, subscription_path}
use private_deploy.Cloud.Nodes.{CloudNode, has_usable_address}
use private_deploy.Cloud.Subscription.Payload.{IpVersion, ip_versions, node_outbounds}
use private_deploy.Cloud.Subscription.Record.{Subscription, should_write}
use private_deploy.Cloud.Subscription.Apply.{
  Progress, finished, failed, waiting, StoredProfile, ApplyStore, ApplyDeps, Handler, then_run,
  lifted, call_ignored, settled_subscribes, on_subscribes, get_subscribe_by_id, edit_profiles,
  replace_profile, subscribes_deps, load_protocol_health, prune_profiles, reload_if_running,
  profiles_to_prune, remove_subscription_for_node, subscription_of, store_subscription,
  write_subscription, with_versions, ensure_subscription_for_node,
}
use private_deploy.Cloud.Subscription.Edits.{Edit, saved_edit}
use private_deploy.Cloud.Subscription.Edited.{waits, edits_in_turn, edit_profiles-in_turn}
use private_deploy.Cloud.Subscription.Found.{is_subscription, others-edited, others-added}
use private_deploy.Cloud.Subscription.Ensured.{id-subscription_of}
use private_deploy.Stores.Lists.{Done, delete_item}
use private_deploy.Stores.Lists.Changes.{
  Change, add, delete, edit, with_first, changed, IsAtomic, run_change, run_change-IsAtomic,
}

-- On every path the subscription with the id is as before.
abbrev pub Keeps : {W A : Type 0} → String → ApplyStore W → Progress A × ApplyStore W → Type 0
Keeps j s r = get_subscribe_by_id j r.1.subscribes ≡ get_subscribe_by_id j s.subscribes

pub others-deleted :
    (id j : String) (xs : List Subscription)
    → str_eq id j ≡ false
    → get_subscribe_by_id j (with_first (is_subscription id) [] xs) ≡ get_subscribe_by_id j xs
unfolding get_subscribe_by_id
others-deleted id j [] d = refl
others-deleted id j (y ∷ xs) d = elim (Bool-cases (str_eq y.id id)) [
  | inl q ↦ rw q (rw ((eq_iff y.id id).0 q, d) refl)
  | inr q ↦ rw q (rw (others-deleted id j xs d) refl)
]

module _ {W : Type 0} (deps : ApplyDeps W) (j : String) where
  pub then-Keeps :
      {A B : Type 0} (f : A → Handler W B) (s : ApplyStore W) (r : Progress A × ApplyStore W)
      → Keeps j s r
      → ((a : A) (t : ApplyStore W) → Keeps j t (f a t))
      → Keeps j s (then_run f r)
  then-Keeps f s (finished a, t) h k = k a t ∙ h
  then-Keeps f s (failed e, t) h k = h
  then-Keeps f s (waiting, t) h k = h

  pub lifted-Keeps : (s : ApplyStore W) (r : Outcome (Unit {0}) × W) → Keeps j s (lifted s r)
  lifted-Keeps s (ok u, w) = refl
  lifted-Keeps s (threw e, w) = refl

  settled-Keeps :
      (s : ApplyStore W) (after : List Subscription) (r : Done Subscription W)
      → get_subscribe_by_id j after ≡ get_subscribe_by_id j s.subscribes
      → IsAtomic s.subscribes after r
      → Keeps j s (settled_subscribes s r)
  settled-Keeps s after (ok u, l) h a = ap (get_subscribe_by_id j) a ∙ h
  settled-Keeps s after (threw e, l) h a = ap (get_subscribe_by_id j) a

  -- A change of another subscription.
  pub change-Keeps :
      (c : Change Subscription) (s : ApplyStore W)
      → get_subscribe_by_id j (changed (λ x. x.id) c s.subscribes)
        ≡ get_subscribe_by_id j s.subscribes
      → Keeps j s (on_subscribes (run_change (subscribes_deps deps) c) s)
  change-Keeps c s h = settled-Keeps s (changed (λ x. x.id) c s.subscribes) _ h (
      run_change-IsAtomic (subscribes_deps deps) (record { items = s.subscribes; world = s.world })
        c)

  saved_edit-Keeps :
      (e : Option Edit) (s : ApplyStore W) (r : Outcome (Unit {0}) × W)
      → Keeps j s (saved_edit e s r)
  saved_edit-Keeps e s (ok u, w) = refl
  saved_edit-Keeps none s (threw x, w) = refl
  saved_edit-Keeps (some e) s (threw x, w) = refl

  waits-Keeps :
      (alone : Bool) (s : ApplyStore W) (r : Progress (Unit {0}) × ApplyStore W)
      → Keeps j s r
      → Keeps j s (waits alone r)
  waits-Keeps true s (r, t) h = h
  waits-Keeps false s (r, t) h = h

  in_turn-Keeps :
      (alone : Bool) (ps : List StoredProfile) (s : ApplyStore W)
      → Keeps j s (edits_in_turn deps alone ps s)
  in_turn-Keeps alone [] s = refl
  in_turn-Keeps alone (p ∷ []) s =
      let (profiles, backup) = replace_profile p s.profiles in
      waits-Keeps alone s _ (
        saved_edit-Keeps (some (record { id = p.id; backup = backup }))
          (record s { profiles = profiles }) (deps.save_profiles profiles s.world))
  in_turn-Keeps alone (p ∷ (q ∷ qs)) s =
      in_turn-Keeps false (q ∷ qs) (record s { profiles = (replace_profile p s.profiles).0 })

  pub edit_profiles-Keeps :
      (ps : List StoredProfile) (s : ApplyStore W) → Keeps j s (edit_profiles deps ps s)
  edit_profiles-Keeps ps s =
      subst (Keeps j s) (sym (edit_profiles-in_turn deps ps s)) (in_turn-Keeps true ps s)

  reload-Keeps : (s : ApplyStore W) → Keeps j s (reload_if_running deps s)
  reload-Keeps s = elim (Bool-cases (deps.running s.world)) [
    | inl e ↦ rw e refl
    | inr e ↦ rw e refl
  ]

  prune_profiles-Keeps :
      (ps : List StoredProfile) (s : ApplyStore W) → Keeps j s (prune_profiles deps ps s)
  prune_profiles-Keeps [] s = refl
  prune_profiles-Keeps (p ∷ ps) s =
      then-Keeps _ s (edit_profiles deps (p ∷ ps) s) (edit_profiles-Keeps (p ∷ ps) s)
        (λ u t. reload-Keeps t)

  pub load_protocol_health-Keeps : (s : ApplyStore W) → Keeps j s (load_protocol_health deps s)
  unfolding load_protocol_health
  load_protocol_health-Keeps s = elim (Bool-cases s.protocol_health_loaded) [
    | inl e ↦ rw e refl
    | inr e ↦ rw e refl
  ]

  pub remove_subscription_for_node-Keeps :
      (instance_id : String) (s : ApplyStore W)
      → str_eq (subscription_id instance_id) j ≡ false
      → Keeps j s (remove_subscription_for_node deps instance_id s)
  unfolding remove_subscription_for_node
  remove_subscription_for_node-Keeps instance_id s d =
      let id = subscription_id instance_id in
      let removed = on_subscribes (delete_item (subscribes_deps deps) id) s in
      let unlinked =
        then_run (λ _. call_ignored (deps.remove_file (subscription_path instance_id))) removed in
      let ungrouped = then_run (λ _. ungroup id) unlinked in
      then-Keeps (λ _ t. prune_profiles deps (profiles_to_prune t.protocol_health id t.profiles) t)
        s ungrouped
        (then-Keeps (λ _. ungroup id) s unlinked
          (then-Keeps (λ _. call_ignored (deps.remove_file (subscription_path instance_id))) s
            removed (change-Keeps (delete id) s (others-deleted id j s.subscribes d)) (λ u t. refl))
          (λ u t. refl))
        (λ u t. prune_profiles-Keeps (profiles_to_prune t.protocol_health id t.profiles) t)
    where
      ungroup : String → Handler W (Unit {0})
      ungroup id t = (finished tt, record t { world = deps.remove_proxy_from_groups id t.world })

  write_subscription-Keeps :
      (node : CloudNode) (s : ApplyStore W)
      → str_eq (subscription_id node.instance_id) j ≡ false
      → Keeps j s (write_subscription deps node s)
  unfolding write_subscription
  write_subscription-Keeps node s d =
      let id = subscription_id node.instance_id in
      let o = get_subscribe_by_id id s.subscribes in
      elim (Bool-cases (should_write o (deps.now s.world))) [
        | inl e ↦ rw e (
            written (
              deps.write_file (subscription_path node.instance_id)
                (node_outbounds node (deps.cdn_deployment_for node.instance_id s.world)) s.world))
        | inr e ↦ rw e (stored s o refl)
      ]
    where
      stored :
          (t : ApplyStore W) (o : Option Subscription)
          → get_subscribe_by_id (subscription_id node.instance_id) t.subscribes ≡ o
          → Keeps j t (store_subscription deps node o t)
      stored t none h =
          change-Keeps (add (subscription_of deps node none t.protocol_health (deps.now t.world))) t
            (others-added (subscription_id node.instance_id) j _ t.subscribes
              (id-subscription_of deps node none t.subscribes t.protocol_health (deps.now t.world)
                h)
              d)
      stored t (some e) h =
          change-Keeps
            (edit (subscription_id node.instance_id)
              (subscription_of deps node (some e) t.protocol_health (deps.now t.world)))
            t
            (others-edited (subscription_id node.instance_id) j _ t.subscribes
              (id-subscription_of deps node (some e) t.subscribes t.protocol_health
                (deps.now t.world) h)
              d)

      written :
          (r : Outcome (Unit {0}) × W)
          → Keeps j s (
              then_run
                (λ _.
                  store_subscription deps node
                    (get_subscribe_by_id (subscription_id node.instance_id) s.subscribes))
                (lifted s r))
      written (ok u, w) = stored (record s { world = w }) _ refl
      written (threw e, w) = refl

  with_versions-Keeps :
      (node : CloudNode) (vs : List IpVersion) (s : ApplyStore W)
      → str_eq (subscription_id node.instance_id) j ≡ false
      → Keeps j s (with_versions deps node vs s)
  with_versions-Keeps node [] s d = remove_subscription_for_node-Keeps node.instance_id s d
  with_versions-Keeps node (v ∷ vs) s d = write_subscription-Keeps node s d

  -- Whatever its address, a node's call keeps the subscriptions of the others.
  pub ensure_subscription_for_node-Keeps :
      (node : CloudNode) (s : ApplyStore W)
      → str_eq (subscription_id node.instance_id) j ≡ false
      → Keeps j s (ensure_subscription_for_node deps node s)
  unfolding ensure_subscription_for_node
  ensure_subscription_for_node-Keeps node s d = elim (Bool-cases (has_usable_address node)) [
    | inl e ↦ rw e (
        then-Keeps (λ _. with_versions deps node (ip_versions node)) s (load_protocol_health deps s)
          (load_protocol_health-Keeps s) (λ u t. with_versions-Keeps node (ip_versions node) t d))
    | inr e ↦ rw e (
        then-Keeps (λ _. remove_subscription_for_node deps node.instance_id) s
          (load_protocol_health deps s) (load_protocol_health-Keeps s)
          (λ u t. remove_subscription_for_node-Keeps node.instance_id t d))
  ]
