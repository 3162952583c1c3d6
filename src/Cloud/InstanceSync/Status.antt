-- ===== src/Cloud/InstanceSync/Status.antt =====
-- How a refresh changes the status of a node.
use private_deploy.Base.{◌≡◌, refl}
use private_deploy.Cloud.InstanceSync.{
  CloudNodeStatus, unknown, pending, applying, connected, error, next_status,
}

-- The steps that a refresh may make.
pub data StatusStep : CloudNodeStatus → CloudNodeStatus → Type 0 where
  stays : {p : CloudNodeStatus} → StatusStep p p
  -- The first status known.
  appears : {q : CloudNodeStatus} → StatusStep unknown q
  deploys : StatusStep pending applying
  connects : {p : CloudNodeStatus} → StatusStep p connected
  fails : {p : CloudNodeStatus} → StatusStep p error

-- A refresh makes one of these steps, so that a known status is left only for a later one: a failed
-- node becomes connected or stays, and a connected one fails or stays. A second refresh with the
-- same answer of the provider changes nothing.
pub next_status-StatusStep :
    (p q : CloudNodeStatus)
    → StatusStep p (next_status p q) × (next_status (next_status p q) q ≡ next_status p q)
unfolding next_status
next_status-StatusStep unknown unknown = (stays, refl)
next_status-StatusStep unknown pending = (appears, refl)
next_status-StatusStep unknown applying = (appears, refl)
next_status-StatusStep unknown connected = (connects, refl)
next_status-StatusStep unknown error = (fails, refl)
next_status-StatusStep pending unknown = (stays, refl)
next_status-StatusStep pending pending = (stays, refl)
next_status-StatusStep pending applying = (deploys, refl)
next_status-StatusStep pending connected = (connects, refl)
next_status-StatusStep pending error = (fails, refl)
next_status-StatusStep applying unknown = (stays, refl)
next_status-StatusStep applying pending = (stays, refl)
next_status-StatusStep applying applying = (stays, refl)
next_status-StatusStep applying connected = (connects, refl)
next_status-StatusStep applying error = (fails, refl)
next_status-StatusStep connected unknown = (stays, refl)
next_status-StatusStep connected pending = (stays, refl)
next_status-StatusStep connected applying = (stays, refl)
next_status-StatusStep connected connected = (connects, refl)
next_status-StatusStep connected error = (fails, refl)
next_status-StatusStep error unknown = (stays, refl)
next_status-StatusStep error pending = (stays, refl)
next_status-StatusStep error applying = (stays, refl)
next_status-StatusStep error connected = (connects, refl)
next_status-StatusStep error error = (stays, refl)
