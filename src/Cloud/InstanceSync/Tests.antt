-- ===== src/Cloud/InstanceSync/Tests.antt =====
-- A provider that forgets one node and lists a new one.
use private_deploy.Base.{
  ℕ, ◌≡◌, refl, false, none, some, Option, List, [], ◌∷◌, String, starts_with, lower_codes,
}
use private_deploy.Cloud.Ids.{subscription_id, slice_from}
use private_deploy.Cloud.InstanceSync.{
  CloudNodeStatus, unknown, pending, connected, error, ManagedCloudNode, lower_one_of,
  provider_status_to_node_status, next_status, previous_by_id, enrich, mark_used, sliced_ids,
  is_in_use, merge_instances,
}
use private_deploy.Cloud.InstanceSync.InUse.{is_in_use-subscription_id}
use private_deploy.Cloud.InstanceSync.Probe.{
  build_connectivity_probe, add_if, add_target, add_unique_port,
}

abbrev node : String → Option String → CloudNodeStatus → ManagedCloudNode ℕ
node id status text = record {
  instance_id = id;
  replaced_instance_id = "";
  status = status;
  status_text = text;
  connectivity_status = none;
  connectivity_testing = false;
  last_connectivity_result = none;
  speed_ms = some 40;
  speed_mbps = none;
  speed_error = none;
  speed_testing = false;
}

abbrev before : List (ManagedCloudNode ℕ)
before = node "a" none pending ∷ node "b" none connected ∷ node "c" none error ∷ []

abbrev answer : List (ManagedCloudNode ℕ)
answer = node "a" (some "Active") unknown ∷ node "d" (some "booting") unknown ∷ []

abbrev refreshed : List (ManagedCloudNode ℕ)
refreshed = merge_instances ("cloud-b" ∷ []) none [] before answer

merged :
    refreshed
    ≡ node "a" (some "Active") connected
      ∷ node "d" (some "booting") pending
      ∷ node "b" none unknown
      ∷ []
unfolding merge_instances enrich mark_used previous_by_id next_status provider_status_to_node_status
    lower_one_of lower_codes is_in_use sliced_ids slice_from starts_with
merged = refl

is_in_use-subscription_id_example :
    is_in_use (subscription_id "cloud-ssh-9" ∷ []) [] "cloud-ssh-9" ≡ false
unfolding starts_with
is_in_use-subscription_id_example = is_in_use-subscription_id "cloud-ssh-9"

probed : (build_connectivity_probe (some 443) (some 443) none (some 443)).tcp_ports ≡ 443 ∷ []
unfolding build_connectivity_probe add_if add_target add_unique_port
probed = refl
