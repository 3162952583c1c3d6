-- ===== src/Kernel/Runtime.antt =====
-- Repairs of the profile before another start: frontend/src/stores/kernelApiRuntime.ts, on the
-- fields of a profile that Cloud.SmartRouting has. A set is the list of its members in the order in
-- which they came. The address of the controller is left out.
pub mod Missing
pub mod Ports
mod Tests
use private_deploy.Base.{
  ℕ, zero, suc, ltb, Bool, true, false, not, ◌&&◌, ◌||◌, ◌==◌, Option, none, some, or_else, List,
  [], ◌∷◌, ◌++◌, map, filter, any, length, String, ◌<>◌, str_eq, one_of, starts_with, Outcome, ok,
  threw, Action, ◌>>=◌, continue, done, if◌then◌else◌,
}
use private_deploy.Base.Dict.{Dict, insert}
use private_deploy.Cloud.SmartRouting.{InboundListen, IInbound, IProxy, IOutbound}

-- `addCloudID`
abbrev pub add_cloud_id : List String → String → List String
add_cloud_id ids id =
    if starts_with id "cloud-" && not (one_of id ids) then ids ++ (id ∷ []) else ids

abbrev add_child_ids : List String → List IProxy → List String
add_child_ids ids [] = ids
add_child_ids ids (c ∷ cs) = add_child_ids (add_cloud_id ids c.id) cs

unfoldable pub collect_cloud_ids : List String → List IOutbound → List String
collect_cloud_ids ids [] = ids
collect_cloud_ids ids (o ∷ os) =
    collect_cloud_ids (add_child_ids (add_cloud_id ids o.id) o.outbounds) os

-- `await FileExists(…).catch(() => false)`
abbrev pub is_there : Outcome Bool → Bool
is_there (ok b) = b
is_there (threw e) = false

pub record PruneResult : Type 0 where
  pub changed : Bool
  pub removed : List String

abbrev pub is_removed : List String → IOutbound → Bool
is_removed removed o = one_of o.id removed

abbrev pub without_children : List String → IOutbound → IOutbound
without_children removed o = record o {
  outbounds = filter (λ c. not (one_of c.id removed)) o.outbounds;
}

-- `before !== outbound.outbounds.length`
abbrev pub loses_children : List String → IOutbound → Bool
loses_children removed o =
    not (length o.outbounds == length (filter (λ c. not (one_of c.id removed)) o.outbounds))

-- The outbounds without the removed ids, and whether anything changed.
unfoldable pub prune_outbounds : List String → List IOutbound → Bool × List IOutbound
prune_outbounds removed os =
    let next = filter (λ o. not (is_removed removed o)) os in
    (
      any (is_removed removed) os || any (loses_children removed) next,
      map (without_children removed) next,
    )

abbrev pub finish_prune : List String → List IOutbound → PruneResult × List IOutbound
finish_prune [] os = (record { changed = false; removed = [] }, os)
finish_prune (id ∷ ids) os =
    let (changed, next) = prune_outbounds (id ∷ ids) os in
    (record { changed = changed; removed = id ∷ ids }, if changed then next else os)

module _ {W : Type 0} (file_exists : String → Action W Bool) where
  unfoldable pub find_missing : List String → W → List String × W
  find_missing [] w = ([], w)
  find_missing (id ∷ ids) w =
      let (r, w') = file_exists ("data/subscribes/" <> (id <> ".json")) w in
      let (rest, w'') = find_missing ids w' in (if is_there r then rest else id ∷ rest, w'')

  -- The result, the outbounds after it and the world.
  unfoldable pub prune_missing_kernel_cloud_subscriptions :
      List IOutbound → W → (PruneResult × List IOutbound) × W
  unfolding collect_cloud_ids find_missing prune_outbounds
  prune_missing_kernel_cloud_subscriptions os w =
      let (removed, w') = find_missing (collect_cloud_ids [] os) w in (finish_prune removed os, w')

abbrev pub has_port : ℕ → List ℕ → Bool
has_port port [] = false
has_port port (p ∷ ps) = p == port || has_port port ps

abbrev listen_port_of : Option InboundListen → ℕ
listen_port_of none = 0
listen_port_of (some l) = l.listen_port

-- `inbound[inbound.type]`
abbrev pub own_listen : IInbound → Option InboundListen
own_listen i =
    if str_eq i.type "mixed"
    then i.mixed
    else if str_eq i.type "socks"
    then i.socks
    else if str_eq i.type "http"
    then i.http
    else none

-- `collectPort`
abbrev collect_port : List ℕ → ℕ → List ℕ
collect_port used zero = used
collect_port used (suc n) = if has_port (suc n) used then used else used ++ (suc n ∷ [])

unfoldable pub collect_ports : List ℕ → List IInbound → List ℕ
collect_ports used [] = used
collect_ports used (i ∷ is) = collect_ports (collect_port used (listen_port_of (own_listen i))) is

-- `usedPorts.add(port)` and the return of the port.
abbrev pub taken : List ℕ → ℕ → Outcome (ℕ × List ℕ)
taken used port = ok (port, if has_port port used then used else used ++ (port ∷ []))

module _ {W : Type 0} (get_available_port : Action W ℕ) where
  -- The loop, with the attempts that are left; behind it the last answer is taken as it is.
  unfoldable pub allocate : ℕ → List ℕ → Action W (ℕ × List ℕ)
  allocate zero used = get_available_port >>= λ port w. (taken used port, w)
  allocate (suc left) used = get_available_port >>= λ port w. elim (has_port port used) [
    | true ↦ allocate left used w
    | false ↦ (taken used port, w)
  ]

  unfoldable pub allocate_port : List ℕ → Action W (ℕ × List ℕ)
  unfolding allocate
  allocate_port used = allocate 10 used

  -- The listener's port, with `none` where the port stays.
  unfoldable pub update_port : ℕ → List ℕ → Action W (Option ℕ × List ℕ)
  unfolding allocate_port
  update_port current used w =
      if ltb 0 current && not (has_port current used)
      then (ok (none, used ++ (current ∷ [])), w)
      else continue (λ r w'. (ok (some r.0, r.1), w')) (allocate_port used w)
