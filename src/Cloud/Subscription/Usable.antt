-- ===== src/Cloud/Subscription/Usable.antt =====
-- The call of `ensureSubscriptionForNode` for a node with a usable address.
use private_deploy.Base.{
  ◌≡◌, refl, Bool, true, false, not, ◌&&◌, ◌||◌, inl, inr, Option, none, some, ◌++◌, String, arith,
  Bool-cases, has_text, is_empty,
}
use private_deploy.Cloud.Nodes.{CloudNode, has_ipv6_address, has_usable_address}
use private_deploy.Cloud.Address.{is_public_ipv4_address}
use private_deploy.Cloud.Subscription.Payload.{ip_versions, version_if}
use private_deploy.Cloud.Subscription.Apply.{
  ApplyStore, ApplyDeps, load_protocol_health, write_subscription, with_versions,
  ensure_subscription_for_node,
}

module _ {W : Type 0} (deps : ApplyDeps W) (node : CloudNode) where
  -- A usable address gives a version.
  with_versions-write :
      (s : ApplyStore W) (a b c : Bool)
      → ((a || b) && c) ≡ true
      → (not b || has_text node.ipv6) ≡ true
      → with_versions deps node
          (version_if a node.ipv4 "-v4" ++ version_if (has_text node.ipv6) node.ipv6 "-v6")
          s
        ≡ write_subscription deps node s
  with_versions-write s true b c h k = refl
  with_versions-write s false b c h k = rw (both b c (has_text node.ipv6) h k) refl
    where
      both : (b c t : Bool) → (b && c) ≡ true → (not b || t) ≡ true → t ≡ true
      both b c t h k = ground arith

  with_versions-usable :
      (s : ApplyStore W)
      → has_usable_address node ≡ true
      → with_versions deps node (ip_versions node) s ≡ write_subscription deps node s
  unfolding has_usable_address
  with_versions-usable s h =
      with_versions-write s (is_public_ipv4_address node.ipv4) (has_ipv6_address node.ipv6)
        (not (is_empty node.instance_id)) h (text_of_address node.ipv6)
    where
      text_of_address : (ip : Option String) → (not (has_ipv6_address ip) || has_text ip) ≡ true
      text_of_address none = refl
      text_of_address (some ip) = ground arith

  -- The store with the health of the protocols.
  abbrev pub loaded : ApplyStore W → ApplyStore W
  loaded s = (load_protocol_health deps s).1

  pub ensure_subscription_for_node-usable :
      (s : ApplyStore W)
      → has_usable_address node ≡ true
      → ensure_subscription_for_node deps node s ≡ write_subscription deps node (loaded s)
  unfolding ensure_subscription_for_node load_protocol_health
  ensure_subscription_for_node-usable s h = elim (Bool-cases s.protocol_health_loaded) [
    | inl e ↦ rw (e, h) (with_versions-usable (record s { protocol_health_loaded = true }) h)
    | inr e ↦ rw (e, h) (with_versions-usable _ h)
  ]

  pub subscribes-loaded : (s : ApplyStore W) → (loaded s).subscribes ≡ s.subscribes
  unfolding load_protocol_health
  subscribes-loaded s = elim (Bool-cases s.protocol_health_loaded) [
    | inl e ↦ rw e refl
    | inr e ↦ rw e refl
  ]
