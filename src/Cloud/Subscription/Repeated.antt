-- ===== src/Cloud/Subscription/Repeated.antt =====
-- A probe with the same result as the one before it.
use private_deploy.Base.{
  ℕ, ◌≡◌, refl, Bool, true, false, inl, inr, some, List, [], ◌∷◌, map, All, String, str_eq, one_of,
  Distinct, has_number, eq_iff, eq_refl, arith, Bool-cases,
}
use private_deploy.Base.Dict.{Dict, lookup, insert, lookup-insert}
use private_deploy.Cloud.Ids.{ProtocolHealthEntry, ProtocolHealthMap}
use private_deploy.Cloud.Nodes.{CloudNode}
use private_deploy.Cloud.Subscription.Health.{
  Verdict, reached, verdicts_for, verdicts, entry_of, agrees, set_protocol_health_entry,
  apply_verdicts,
}

-- The verdict is what is kept.
abbrev pub Kept : String → ProtocolHealthMap → Verdict → Type 0
Kept id health v = agrees v (lookup v.protocol (entry_of id health)) ≡ true

abbrev made : Verdict → ℕ → ProtocolHealthEntry
made v now = record { state = v.state; reason = v.reason; updated_at = now }

entry_of-insert :
    (id : String) (x : Dict ProtocolHealthEntry) (health : ProtocolHealthMap)
    → entry_of id (insert id x health) ≡ x
entry_of-insert id x health = rw (lookup-insert id id x health, eq_refl id) refl

agrees-made : (v : Verdict) (now : ℕ) → agrees v (some (made v now)) ≡ true
agrees-made v now = rw (eq_refl v.state, eq_refl v.reason) refl

pub set_protocol_health_entry-Kept :
    (id : String) (v : Verdict) (now : ℕ) (health : ProtocolHealthMap)
    → Kept id (set_protocol_health_entry id v now health).1 v
unfolding set_protocol_health_entry
set_protocol_health_entry-Kept id v now health =
    elim (Bool-cases (agrees v (lookup v.protocol (entry_of id health)))) [
      | inl e ↦ rw e e
      | inr e ↦ rw e (
          rw (entry_of-insert id (insert v.protocol (made v now) (entry_of id health)) health) (
            rw (lookup-insert v.protocol v.protocol (made v now) (entry_of id health))
              (rw (eq_refl v.protocol) (agrees-made v now))))
    ]

pub set_protocol_health_entry-keeps :
    (id : String) (v u : Verdict) (now : ℕ) (health : ProtocolHealthMap)
    → str_eq v.protocol u.protocol ≡ false
    → Kept id health u
    → Kept id (set_protocol_health_entry id v now health).1 u
unfolding set_protocol_health_entry
set_protocol_health_entry-keeps id v u now health d h =
    elim (Bool-cases (agrees v (lookup v.protocol (entry_of id health)))) [
      | inl e ↦ rw e h
      | inr e ↦ rw e (
          rw (entry_of-insert id (insert v.protocol (made v now) (entry_of id health)) health)
            (rw (lookup-insert v.protocol u.protocol (made v now) (entry_of id health)) (rw d h)))
    ]

abbrev pub protocol_of : Verdict → String
protocol_of v = v.protocol

apply_verdicts-keeps :
    (id : String) (vs : List Verdict) (u : Verdict) (now : ℕ) (health : ProtocolHealthMap)
    → one_of u.protocol (map protocol_of vs) ≡ false
    → Kept id health u
    → Kept id (apply_verdicts id vs now health).1 u
unfolding apply_verdicts
apply_verdicts-keeps id [] u now health d h = h
apply_verdicts-keeps id (v ∷ vs) u now health d h =
    apply_verdicts-keeps id vs u now (set_protocol_health_entry id v now health).1 (ground arith) (
      set_protocol_health_entry-keeps id v u now health
        (ground (arith, eq_iff v.protocol u.protocol, eq_iff u.protocol v.protocol)) h)

apply_verdicts-Kept :
    (id : String) (vs : List Verdict) (now : ℕ) (health : ProtocolHealthMap)
    → Distinct (map protocol_of vs)
    → All (Kept id (apply_verdicts id vs now health).1) vs
unfolding apply_verdicts
apply_verdicts-Kept id [] now health d = tt
apply_verdicts-Kept id (v ∷ vs) now health d =
    let next = (set_protocol_health_entry id v now health).1 in
    (
      apply_verdicts-keeps id vs v now next d.0 (set_protocol_health_entry-Kept id v now health),
      apply_verdicts-Kept id vs now next d.1,
    )

apply_verdicts-unchanged :
    (id : String) (vs : List Verdict) (now : ℕ) (health : ProtocolHealthMap)
    → All (Kept id health) vs
    → apply_verdicts id vs now health ≡ (false, health)
unfolding apply_verdicts
apply_verdicts-unchanged id [] now health h = refl
apply_verdicts-unchanged id (v ∷ vs) now health h =
    rw (same v h.0, apply_verdicts-unchanged id vs now health h.1) refl
  where
    same :
        (v : Verdict)
        → Kept id health v
        → set_protocol_health_entry id v now health ≡ (false, health)
    same v k = unfold set_protocol_health_entry in rw k refl

pub verdicts-Distinct :
    (node : CloudNode) (target_status : Dict String)
    → Distinct (map protocol_of (verdicts node target_status))
unfolding verdicts
verdicts-Distinct node target_status =
    protocols (has_number node.hysteria_port) (has_number node.ss_port) (has_number node.vless_port)
      (has_number node.trojan_port) (reached target_status "hysteria2")
      (reached target_status "shadowsocks-tcp") (reached target_status "vless-reality")
      (reached target_status "trojan")
  where
    protocols :
        (hysteria ss vless trojan udp_open ss_open vless_open trojan_open : Bool)
        → Distinct (
            map protocol_of
              (verdicts_for hysteria ss vless trojan udp_open ss_open vless_open trojan_open))
    protocols hysteria ss vless trojan udp_open ss_open vless_open trojan_open =
        unfold verdicts_for in ground arith

-- Once the verdicts of a probe were written, a probe with the same targets reached changes nothing at
-- any later time, so that the subscription is not written again for it.
pub apply_verdicts-again :
    (node : CloudNode) (target_status : Dict String) (id : String) (now later : ℕ)
    (health : ProtocolHealthMap)
    → let next = (apply_verdicts id (verdicts node target_status) now health).1 in
      apply_verdicts id (verdicts node target_status) later next ≡ (false, next)
apply_verdicts-again node target_status id now later health =
    apply_verdicts-unchanged id (verdicts node target_status) later _ (
      apply_verdicts-Kept id (verdicts node target_status) now health
        (verdicts-Distinct node target_status))
