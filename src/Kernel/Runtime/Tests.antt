-- ===== src/Kernel/Runtime/Tests.antt =====
-- A machine with one subscription file, whose next free port counts up from 20122.
use private_deploy.Base.{
  ℕ, suc, ◌≡◌, refl, Bool, true, some, List, [], ◌∷◌, String, str_eq, ok, Action, All, starts_with,
}
use private_deploy.Cloud.SmartRouting.{IProxy, IOutbound, default_outbound}
use private_deploy.Kernel.Runtime.{
  collect_cloud_ids, find_missing, prune_outbounds, prune_missing_kernel_cloud_subscriptions,
  allocate, allocate_port, update_port,
}
use private_deploy.Kernel.Runtime.Missing.{FreeOf, prune_missing_kernel_cloud_subscriptions-FreeOf}

abbrev file_exists : String → Action ℕ Bool
file_exists path w = (ok (str_eq path "data/subscribes/cloud-1.json"), suc w)

abbrev child : String → IProxy
child id = record { id = id; type = "Subscription"; tag = id }

abbrev outbounds : List IOutbound
outbounds =
    record (default_outbound "a") { outbounds = child "cloud-1" ∷ child "cloud-2" ∷ [] } ∷ []

pruned : prune_missing_kernel_cloud_subscriptions file_exists outbounds 0 ≡ (
  (
    record { changed = true; removed = "cloud-2" ∷ [] },
    record (default_outbound "a") { outbounds = child "cloud-1" ∷ [] } ∷ [],
  ),
  2,
)
unfolding prune_missing_kernel_cloud_subscriptions collect_cloud_ids find_missing prune_outbounds
    starts_with
pruned = refl

prune_missing_kernel_cloud_subscriptions-FreeOf_example :
    All
      (FreeOf (prune_missing_kernel_cloud_subscriptions file_exists outbounds 0).0.0.removed)
      (prune_missing_kernel_cloud_subscriptions file_exists outbounds 0).0.1
prune_missing_kernel_cloud_subscriptions-FreeOf_example =
    prune_missing_kernel_cloud_subscriptions-FreeOf file_exists outbounds 0

abbrev next_port : Action ℕ ℕ
next_port w = (ok w, suc w)

allocated :
    allocate_port next_port (20122 ∷ 20123 ∷ []) 20122
    ≡ (ok (20124, 20122 ∷ 20123 ∷ 20124 ∷ []), 20125)
unfolding allocate_port allocate
allocated = refl

moved :
    update_port next_port 20122 (20122 ∷ []) 20122 ≡ (ok (some 20123, 20122 ∷ 20123 ∷ []), 20124)
unfolding update_port allocate_port allocate
moved = refl
