-- ===== src/Cloud/Ids/Tests.antt =====
-- The ids of instances of three providers.
use private_deploy.Base.{◌≡◌, refl, starts_with}
use private_deploy.Cloud.Ids.{subscription_id, slice_from, cloud_instance_id_from_subscription_ref}
use private_deploy.Cloud.Ids.Lemmas.{cloud_instance_id-subscription_id}

digital_ocean :
    cloud_instance_id_from_subscription_ref (subscription_id "cloud-do-12") ≡ "cloud-do-12"
unfolding subscription_id cloud_instance_id_from_subscription_ref starts_with
digital_ocean = refl

-- The instance `cloud-ssh-9` is looked up as `ssh-9`.
cloud_instance_id-subscription_id_example :
    cloud_instance_id_from_subscription_ref (subscription_id "cloud-ssh-9") ≡ "ssh-9"
unfolding starts_with slice_from
cloud_instance_id-subscription_id_example = cloud_instance_id-subscription_id "cloud-ssh-9"
