-- ===== src/Cloud/Subscription/Calls.antt =====
-- The refs and stores of frontend/src/stores/cloud/subscriptionApply.ts, and how its handlers call
-- them. An await runs the call it waits for at once.
use private_deploy.Base.{
  ℕ, Bool, Option, none, some, List, [], ◌∷◌, String, str_eq, Outcome, ok, threw, Action,
  if◌then◌else◌,
}
use private_deploy.Cloud.Ids.{ProtocolHealthMap}
use private_deploy.Cloud.SmartRouting.{IProfile}
use private_deploy.Cloud.Subscription.Payload.{CdnDeployment, NodeOutbound}
use private_deploy.Cloud.Subscription.Record.{Subscription}
use private_deploy.Stores.Lists.{ListStore, Done}

-- A promise that is never settled keeps its handler waiting.
pub data Progress (A : Type 0) : Type 0 where
  finished : A → Progress A
  failed : String → Progress A
  waiting : Progress A

-- A profile under its id.
pub record StoredProfile : Type 0 where
  pub id : String
  pub profile : IProfile

pub record ApplyStore (W : Type 0) : Type 0 where
  pub protocol_health : ProtocolHealthMap
  pub protocol_health_loaded : Bool
  pub subscribes : List Subscription
  pub profiles : List StoredProfile
  -- The profile that is chosen in the settings of the app.
  pub kernel_profile : String
  pub world : W

pub record ApplyDeps (W : Type 0) : Type 0 where
  -- `parseJSON` of the file's text, or nothing where that is empty or was not read.
  pub read_health : W → ProtocolHealthMap × W
  pub write_file : String → List NodeOutbound → Action W (Unit {0})
  pub remove_file : String → Action W (Unit {0})
  pub save_health : ProtocolHealthMap → Action W (Unit {0})
  -- The function behind the debounced `saveSubscribes`, and that behind `saveProfiles`.
  pub save_subscribes : List Subscription → Action W (Unit {0})
  pub save_profiles : List StoredProfile → Action W (Unit {0})
  pub remove_proxy_from_groups : String → W → W
  pub running : W → Bool
  -- `reloadKernel` with `allowStartWhenStopped: false`.
  pub reload_kernel : String → Action W (Unit {0})
  -- `reloadKernel` without options, which may start the kernel.
  pub reload_or_start_kernel : String → Action W (Unit {0})
  pub refresh_provider_proxies : Action W (Unit {0})
  -- Whether `JSON.stringify` gives the same text for both.
  pub same_json : IProfile → IProfile → Bool
  pub cdn_deployment_for : String → W → Option CdnDeployment
  pub now : W → ℕ
  pub sample_id : W → String × W
  pub translate : String → String
  pub default_script : String

abbrev pub Handler : Type 0 → Type 0 → Type 0
Handler W A = ApplyStore W → Progress A × ApplyStore W

-- What follows a call.
abbrev pub then_run :
    {W A B : Type 0} → (A → Handler W B) → Progress A × ApplyStore W → Progress B × ApplyStore W
then_run f (finished a, s) = f a s
then_run f (failed e, s) = (failed e, s)
then_run f (waiting, s) = (waiting, s)

infixl 5 ◌>>=◌ ◌>>◌
abbrev pub ◌>>=◌ : {W A B : Type 0} → Handler W A → (A → Handler W B) → Handler W B
(m >>= f) s = then_run f (m s)

abbrev pub ◌>>◌ : {W A B : Type 0} → Handler W A → Handler W B → Handler W B
(m >> k) s = then_run (λ _. k) (m s)

abbrev pub return : {W A : Type 0} → A → Handler W A
return a s = (finished a, s)

abbrev pub finish : {W : Type 0} → Handler W (Unit {0})
finish s = (finished tt, s)

abbrev pub lifted :
    {W : Type 0} → ApplyStore W → Outcome (Unit {0}) × W → Progress (Unit {0}) × ApplyStore W
lifted s (ok u, w) = (finished tt, record s { world = w })
lifted s (threw e, w) = (failed e, record s { world = w })

abbrev pub call : {W : Type 0} → Action W (Unit {0}) → Handler W (Unit {0})
call m s = lifted s (m s.world)

-- `.catch(() => undefined)`
abbrev pub call_ignored : {W : Type 0} → Action W (Unit {0}) → Handler W (Unit {0})
call_ignored m s = (finished tt, record s { world = (m s.world).1 })

-- A call within `try`, whose error is logged.
abbrev pub caught_run :
    {W A : Type 0} → Progress A × ApplyStore W → Progress (Option A) × ApplyStore W
caught_run (finished a, s) = (finished (some a), s)
caught_run (failed e, s) = (finished none, s)
caught_run (waiting, s) = (waiting, s)

abbrev pub caught : {W A : Type 0} → Handler W A → Handler W (Option A)
caught m s = caught_run (m s)

abbrev pub settled_subscribes :
    {W : Type 0} → ApplyStore W → Done Subscription W → Progress (Unit {0}) × ApplyStore W
settled_subscribes s (ok u, l) = (finished tt, record s { subscribes = l.items; world = l.world })
settled_subscribes s (threw e, l) = (failed e, record s { subscribes = l.items; world = l.world })

-- A call of the store of the subscriptions.
abbrev pub on_subscribes :
    {W : Type 0} → (ListStore Subscription W → Done Subscription W) → Handler W (Unit {0})
on_subscribes f s = settled_subscribes s (f (record { items = s.subscribes; world = s.world }))

-- The same for the store of the profiles.
abbrev pub settled_profiles :
    {W : Type 0} → ApplyStore W → Done StoredProfile W → Progress (Unit {0}) × ApplyStore W
settled_profiles s (ok u, l) = (finished tt, record s { profiles = l.items; world = l.world })
settled_profiles s (threw e, l) = (failed e, record s { profiles = l.items; world = l.world })

unfoldable pub get_subscribe_by_id : String → List Subscription → Option Subscription
get_subscribe_by_id id [] = none
get_subscribe_by_id id (x ∷ xs) = if str_eq x.id id then some x else get_subscribe_by_id id xs

unfoldable pub get_profile_by_id : String → List StoredProfile → Option StoredProfile
get_profile_by_id id [] = none
get_profile_by_id id (p ∷ ps) = if str_eq p.id id then some p else get_profile_by_id id ps
