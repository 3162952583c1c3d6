-- ===== src/Cloud/Subscription/Exclude.antt =====
-- The excluding pattern of a subscription over changes of the protocols' health.
use private_deploy.Base.{
  ◌≡◌, refl, ap, ◌∙◌, false, some, [], String, str_eq, is_some, or_else, text_or,
}
use private_deploy.Base.Dict.{Dict, lookup, insert, lookup-insert, insert-insert_self, insert_comm}
use private_deploy.Cloud.Ids.{ProtocolHealthMap, derive_managed_exclude}
use private_deploy.Cloud.Subscription.Record.{
  Subscription, user_exclude_key, managed_exclude_key, response_of, preserved, with_excludes,
  apply_managed_exclude,
}

keys_differ : str_eq managed_exclude_key user_exclude_key ≡ false
keys_differ = refl

lookup-managed :
    (u m : String) (d : Dict String) → lookup managed_exclude_key (with_excludes u m d) ≡ some m
lookup-managed u m d =
    lookup-insert managed_exclude_key managed_exclude_key m (insert user_exclude_key u d)

lookup-user :
    (u m : String) (d : Dict String) → lookup user_exclude_key (with_excludes u m d) ≡ some u
lookup-user u m d =
    lookup-insert managed_exclude_key user_exclude_key m (insert user_exclude_key u d)
    ∙ lookup-insert user_exclude_key user_exclude_key u d

-- What the user excluded is read back.
preserved-with_excludes :
    (u m exclude : String) (d : Dict String) → preserved (with_excludes u m d) exclude ≡ u
preserved-with_excludes u m exclude d = rw (lookup-managed u m d, lookup-user u m d) (whole u)
  where
    whole : (u : String) → text_or (some u) "" ≡ u
    whole String.[] = refl
    whole (String.◌∷◌ c s) = refl

with_excludes-with_excludes :
    (u m n : String) (d : Dict String)
    → with_excludes u n (with_excludes u m d) ≡ with_excludes u n d
with_excludes-with_excludes u m n d =
    let e = insert user_exclude_key u d in
    ap (insert managed_exclude_key n) (
      insert_comm user_exclude_key managed_exclude_key m u e refl
        (ap is_some (lookup-insert user_exclude_key user_exclude_key u d))
      ∙ ap (insert managed_exclude_key m) (insert-insert_self user_exclude_key u u d))
    ∙ insert-insert_self managed_exclude_key n m e

-- Applying the health of the protocols again, after it changed and after the pattern was set to any
-- other text, gives what applying the new health to the first subscription gives: what the user
-- excluded at first is kept, and a pattern that the user sets afterwards is lost.
pub apply_managed_exclude-again :
    (before after : ProtocolHealthMap) (instance_id edited : String) (s : Subscription)
    → apply_managed_exclude after instance_id
        (record (apply_managed_exclude before instance_id s) { exclude = edited })
      ≡ apply_managed_exclude after instance_id s
unfolding apply_managed_exclude
apply_managed_exclude-again before after instance_id edited s =
    let m = derive_managed_exclude (some (or_else (lookup instance_id before) [])) in
    let n = derive_managed_exclude (some (or_else (lookup instance_id after) [])) in
    let d = response_of s.header in
    let u = preserved d s.exclude in
    rw (preserved-with_excludes u m edited d, with_excludes-with_excludes u m n d) refl
