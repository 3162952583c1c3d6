-- ===== src/Cloud/Subscription/Health.antt =====
-- The health of a node's protocols: what a probe says of it, and how it is kept and moved.
use private_deploy.Base.{
  ℕ, Bool, true, false, not, ◌&&◌, ◌||◌, Option, none, some, List, [], ◌∷◌, ◌++◌, String, str_eq,
  is_empty, has_number, or_else, if◌then◌else◌,
}
use private_deploy.Base.Dict.{Dict, lookup, insert, erase}
use private_deploy.Cloud.Ids.{ProtocolHealthEntry, ProtocolHealthMap}
use private_deploy.Cloud.Nodes.{CloudNode, is_reachable_target_status}

-- What is to be written for a protocol: its name, its state and the reason.
pub record Verdict : Type 0 where
  pub protocol : String
  pub state : String
  pub reason : String

abbrev pub state_of : Bool → String
state_of true = "degraded"
state_of false = "healthy"

abbrev pub verdict_if : Bool → String → Bool → String → List Verdict
verdict_if false protocol degraded reason = []
verdict_if true protocol degraded reason =
    record { protocol = protocol; state = state_of degraded; reason = reason } ∷ []

abbrev pub udp_unreachable : String
udp_unreachable = "connectivity-udp-unreachable"

abbrev pub tcp_unreachable : String
tcp_unreachable = "connectivity-tcp-unreachable"

-- The verdicts, by the ports that the node has and the targets that were reached, each in the order
-- Hysteria2, Shadowsocks, VLESS, Trojan.
unfoldable pub verdicts_for : Bool → Bool → Bool → Bool → Bool → Bool → Bool → Bool → List Verdict
verdicts_for hysteria ss vless trojan udp_open ss_open vless_open trojan_open =
    verdict_if hysteria "hysteria2" ((ss_open || vless_open || trojan_open) && not udp_open)
      udp_unreachable
    ++ (verdict_if ss "shadowsocks" ((vless_open || trojan_open) && not ss_open) tcp_unreachable
        ++ (verdict_if vless "vless" ((ss_open || trojan_open) && not vless_open) tcp_unreachable
            ++ verdict_if trojan "trojan" ((ss_open || vless_open) && not trojan_open)
                tcp_unreachable))

abbrev pub reached : Dict String → String → Bool
reached target_status target = is_reachable_target_status (lookup target target_status)

-- `next` of `updateProtocolHealthFromConnectivity`
unfoldable pub verdicts : CloudNode → Dict String → List Verdict
unfolding verdicts_for
verdicts node target_status =
    verdicts_for (has_number node.hysteria_port) (has_number node.ss_port)
      (has_number node.vless_port) (has_number node.trojan_port) (reached target_status "hysteria2")
      (reached target_status "shadowsocks-tcp") (reached target_status "vless-reality")
      (reached target_status "trojan")

abbrev pub entry_of : String → ProtocolHealthMap → Dict ProtocolHealthEntry
entry_of instance_id health = or_else (lookup instance_id health) []

-- `existing?.state === nextState && existing.reason === reason`
abbrev pub agrees : Verdict → Option ProtocolHealthEntry → Bool
agrees v none = false
agrees v (some existing) = str_eq existing.state v.state && str_eq existing.reason v.reason

-- `setProtocolHealthEntry` on the loaded map, and whether it changed.
unfoldable pub set_protocol_health_entry :
    String → Verdict → ℕ → ProtocolHealthMap → Bool × ProtocolHealthMap
set_protocol_health_entry id v now health =
    let current = entry_of id health in
    if agrees v (lookup v.protocol current) then (false, health) else (
      true,
      insert id
          (insert v.protocol (record { state = v.state; reason = v.reason; updated_at = now })
            current)
          health,
    )

-- The loop over the verdicts.
unfoldable pub apply_verdicts :
    String → List Verdict → ℕ → ProtocolHealthMap → Bool × ProtocolHealthMap
unfolding set_protocol_health_entry
apply_verdicts id [] now health = (false, health)
apply_verdicts id (v ∷ vs) now health =
    let (changed, next) = set_protocol_health_entry id v now health in
    let (more, last) = apply_verdicts id vs now next in (changed || more, last)

-- `{ ...source, ...target }`
unfoldable pub spread :
    Dict ProtocolHealthEntry → Dict ProtocolHealthEntry → Dict ProtocolHealthEntry
spread source [] = source
spread source ((k, v) ∷ target) = spread (insert k v source) target

abbrev pub move_entry :
    String
    → String
    → Option (Dict ProtocolHealthEntry)
    → ProtocolHealthMap
    → Bool × ProtocolHealthMap
move_entry old new none health = (false, health)
move_entry old new (some source) health =
    (true, erase old (insert new (spread source (entry_of new health)) health))

-- `migrateProtocolHealthEntry` on the loaded map.
unfoldable pub migrate_protocol_health_entry :
    String → String → ProtocolHealthMap → Bool × ProtocolHealthMap
unfolding spread
migrate_protocol_health_entry old new health =
    if is_empty old || is_empty new || str_eq old new
    then (false, health)
    else move_entry old new (lookup old health) health
