-- ===== src/Cloud/Subscription/Waiting.antt =====
-- Whether `removeSubscriptionForNode` comes to its end.
use private_deploy.Base.{
  ℕ, suc, arith, leb, length, ◌≡◌, refl, ap, ◌∙◌, filter, Bool, true, false, Option, none, some,
  List, [], ◌∷◌, String, Outcome, ok, threw, Action, if◌then◌else◌, inl, inr, Bool-cases,
}
use private_deploy.Cloud.Ids.{subscription_id, subscription_path}
use private_deploy.Stores.Lists.{
  ListStore, ListDeps, Done, find_index, splice_out, put_in, after_save, delete_item, delete_at,
  has_id,
}
use private_deploy.Cloud.Subscription.Record.{Subscription}
use private_deploy.Cloud.Subscription.Apply.{
  Progress, finished, failed, waiting, StoredProfile, ApplyStore, ApplyDeps, then_run,
  settled_subscribes, call_ignored, replace_profile, profiles_to_prune, edit_profiles,
  subscribes_deps, reload_if_running, prune_profiles, remove_subscription_for_node,
}
use private_deploy.Cloud.Subscription.Edits.{Edit, saved_edit}
use private_deploy.Cloud.Subscription.Edited.{waits, edits_in_turn, edit_profiles-in_turn}
use private_deploy.Cloud.Subscription.Refers.{refers_to, length-profiles_to_prune}

-- A call of the world returns.
abbrev pub Returns : {A W : Type 0} → (A → Action W (Unit {0})) → Type 0
Returns m = (x : _) (w : _) → (m x w).0 ≡ ok tt

after_save-ok :
    {A W : Type 0} (undo : List A → List A) (items : List A) (r : Outcome (Unit {0}) × W)
    → r.0 ≡ ok tt
    → (after_save undo items r).0 ≡ ok tt
after_save-ok undo items (ok u, w) e = refl
after_save-ok undo items (threw x, w) e = e

delete_at-ok :
    {A W : Type 0} (deps : ListDeps A W) (o : Option ℕ) (l : ListStore A W)
    → Returns deps.save
    → (delete_at deps o l).0 ≡ ok tt
delete_at-ok deps none l h = refl
delete_at-ok deps (some i) l h =
    after_save-ok (put_in i (splice_out i l.items).1) (splice_out i l.items).0
      (deps.save (splice_out i l.items).0 l.world) (h (splice_out i l.items).0 l.world)

abbrev progress : {W : Type 0} → Progress (Unit {0}) × ApplyStore W → Progress (Unit {0})
progress r = r.0

module _ {W : Type 0} (deps : ApplyDeps W) where
  saved_edit-progress :
      (alone : Bool) (e : Option Edit) (s : ApplyStore W) (r : Outcome (Unit {0}) × W)
      → r.0 ≡ ok tt
      → progress (waits alone (saved_edit e s r)) ≡ (if alone then finished tt else waiting)
  saved_edit-progress true e s (ok u, w) h = refl
  saved_edit-progress false e s (ok u, w) h = refl
  saved_edit-progress alone e s (threw x, w) h = cc

  in_turn-waiting :
      (p : StoredProfile) (ps : List StoredProfile) (s : ApplyStore W)
      → Returns deps.save_profiles
      → progress (edits_in_turn deps false (p ∷ ps) s) ≡ waiting
  in_turn-waiting p [] s h =
      let (profiles, backup) = replace_profile p s.profiles in
      saved_edit-progress false (some (record { id = p.id; backup = backup }))
        (record s { profiles = profiles }) (deps.save_profiles profiles s.world)
        (h profiles s.world)
  in_turn-waiting p (q ∷ qs) s h =
      in_turn-waiting q qs (record s { profiles = (replace_profile p s.profiles).0 }) h

  in_turn-progress :
      (p : StoredProfile) (ps : List StoredProfile) (s : ApplyStore W)
      → Returns deps.save_profiles
      → progress (edits_in_turn deps true (p ∷ ps) s)
        ≡ (if leb (length (p ∷ ps)) 1 then finished tt else waiting)
  in_turn-progress p [] s h =
      let (profiles, backup) = replace_profile p s.profiles in
      saved_edit-progress true (some (record { id = p.id; backup = backup }))
        (record s { profiles = profiles }) (deps.save_profiles profiles s.world)
        (h profiles s.world)
  in_turn-progress p (q ∷ qs) s h =
      rw (many (length qs))
        (in_turn-waiting q qs (record s { profiles = (replace_profile p s.profiles).0 }) h)
    where
      many : (n : ℕ) → leb (suc (suc n)) 1 ≡ false
      many n = ground arith

  reload-finished : (s : ApplyStore W) → progress (reload_if_running deps s) ≡ finished tt
  reload-finished s = elim (Bool-cases (deps.running s.world)) [
    | inl e ↦ rw e refl
    | inr e ↦ rw e refl
  ]

  then-progress :
      (alone : Bool) (r : Progress (Unit {0}) × ApplyStore W)
      → r.0 ≡ (if alone then finished tt else waiting)
      → progress (then_run (λ _. reload_if_running deps) r)
        ≡ (if alone then finished tt else waiting)
  then-progress true (finished u, s) e = reload-finished s
  then-progress true (failed x, s) e = e
  then-progress true (waiting, s) e = e
  then-progress false (finished u, s) e = cc
  then-progress false (failed x, s) e = e
  then-progress false (waiting, s) e = e

  prune_profiles-progress :
      (ps : List StoredProfile) (s : ApplyStore W)
      → Returns deps.save_profiles
      → progress (prune_profiles deps ps s) ≡ (if leb (length ps) 1 then finished tt else waiting)
  prune_profiles-progress [] s h = refl
  prune_profiles-progress (p ∷ ps) s h =
      then-progress (leb (length (p ∷ ps)) 1) (edit_profiles deps (p ∷ ps) s)
        (ap progress (edit_profiles-in_turn deps (p ∷ ps) s) ∙ in_turn-progress p ps s h)

  -- The handler behind the call of the store of the subscriptions.
  removed-progress :
      (instance_id id : String) (s : ApplyStore W) (r : Done Subscription W)
      → Returns deps.save_profiles
      → r.0 ≡ ok tt
      → progress (
          then_run
            (λ _ t. prune_profiles deps (profiles_to_prune t.protocol_health id t.profiles) t)
            (then_run
              (λ _ t. (finished tt, record t { world = deps.remove_proxy_from_groups id t.world }))
              (then_run
                (λ _. call_ignored (deps.remove_file (subscription_path instance_id)))
                (settled_subscribes s r))))
        ≡ (if leb (length (profiles_to_prune s.protocol_health id s.profiles)) 1
            then finished tt
            else waiting)
  removed-progress instance_id id s (ok u, l) h e =
      prune_profiles-progress (profiles_to_prune s.protocol_health id s.profiles) _ h
  removed-progress instance_id id s (threw x, l) h e = cc

  -- Where every save returns, removing the subscription of a node comes to its end exactly where at
  -- most one profile refers to it, by an outbound of its id or by an outbound that offers it; with two
  -- or more it waits for ever.
  pub remove_subscription_for_node-waiting :
      (instance_id : String) (s : ApplyStore W)
      → Returns deps.save_subscribes
      → Returns deps.save_profiles
      → (remove_subscription_for_node deps instance_id s).0 ≡ (
          if leb (length (filter (refers_to (subscription_id instance_id)) s.profiles)) 1
          then finished tt
          else waiting)
  unfolding remove_subscription_for_node delete_item
  remove_subscription_for_node-waiting instance_id s h k =
      let id = subscription_id instance_id in
      removed-progress instance_id id s
        (delete_item (subscribes_deps deps) id (record { items = s.subscribes; world = s.world })) k
        (delete_at-ok (subscribes_deps deps)
          (find_index (has_id (subscribes_deps deps) id) s.subscribes)
          (record { items = s.subscribes; world = s.world }) h)
      ∙ ap (λ (n : ℕ). if leb n 1 then finished tt else waiting)
          (length-profiles_to_prune s.protocol_health id s.profiles)
