-- ===== src/Cloud/Subscription/Stable.antt =====
-- What the verdicts of a probe leave of a node's protocols.
use private_deploy.Base.{
  ◌≡◌, refl, Bool, true, false, not, ◌&&◌, ◌||◌, List, [], ◌∷◌, ◌++◌, any, String, str_eq,
  has_number, arith,
}
use private_deploy.Base.Dict.{Dict}
use private_deploy.Cloud.Nodes.{CloudNode}
use private_deploy.Cloud.Subscription.Health.{Verdict, verdict_if, verdicts_for, reached, verdicts}

abbrev pub is_healthy : Verdict → Bool
is_healthy v = str_eq v.state "healthy"

-- A target that was reached is one that the node has a port for.
abbrev Configured : Bool → Bool → Type 0
Configured is_open port = (not is_open || port) ≡ true

any-append : (p : Verdict → Bool) (xs ys : List Verdict) → any p (xs ++ ys) ≡ (any p xs || any p ys)
any-append p [] ys = refl
any-append p (x ∷ xs) ys = ground (arith, any-append p xs ys)

any-verdict_if :
    (port degraded : Bool) (protocol reason : String)
    → any is_healthy (verdict_if port protocol degraded reason) ≡ (port && not degraded)
any-verdict_if false degraded protocol reason = refl
any-verdict_if true false protocol reason = refl
any-verdict_if true true protocol reason = refl

some_open :
    (hysteria ss vless trojan udp_open ss_open vless_open trojan_open : Bool)
    → Configured ss_open ss
    → Configured vless_open vless
    → Configured trojan_open trojan
    → (((hysteria && not ((ss_open || vless_open || trojan_open) && not udp_open))
          || ((ss && not ((vless_open || trojan_open) && not ss_open))
              || ((vless && not ((ss_open || trojan_open) && not vless_open))
                  || (trojan && not ((ss_open || vless_open) && not trojan_open)))))
        || not (hysteria || ss || vless || trojan))
      ≡ true
some_open hysteria ss vless trojan udp_open ss_open vless_open trojan_open a b c = ground arith

verdicts_for-healthy :
    (hysteria ss vless trojan udp_open ss_open vless_open trojan_open : Bool)
    → Configured ss_open ss
    → Configured vless_open vless
    → Configured trojan_open trojan
    → (any is_healthy
          (verdicts_for hysteria ss vless trojan udp_open ss_open vless_open trojan_open)
        || not (hysteria || ss || vless || trojan))
      ≡ true
unfolding verdicts_for
verdicts_for-healthy hysteria ss vless trojan udp_open ss_open vless_open trojan_open a b c =
    simp (any-append, any-verdict_if)
      (some_open hysteria ss vless trojan udp_open ss_open vless_open trojan_open a b c)

-- Where each TCP target that a probe reached is one that the node has a port for, and the node has the
-- port of any protocol, the verdicts call at least one of its protocols healthy.
pub verdicts-healthy :
    (node : CloudNode) (target_status : Dict String)
    → (not (reached target_status "shadowsocks-tcp") || has_number node.ss_port) ≡ true
    → (not (reached target_status "vless-reality") || has_number node.vless_port) ≡ true
    → (not (reached target_status "trojan") || has_number node.trojan_port) ≡ true
    → (has_number node.hysteria_port
        || has_number node.ss_port
        || has_number node.vless_port
        || has_number node.trojan_port)
      ≡ true
    → any is_healthy (verdicts node target_status) ≡ true
unfolding verdicts
verdicts-healthy node target_status a b c h =
    some_healthy _ _
      (verdicts_for-healthy (has_number node.hysteria_port) (has_number node.ss_port)
        (has_number node.vless_port) (has_number node.trojan_port)
        (reached target_status "hysteria2") (reached target_status "shadowsocks-tcp")
        (reached target_status "vless-reality") (reached target_status "trojan") a b c)
      h
  where
    some_healthy : (x y : Bool) → (x || not y) ≡ true → y ≡ true → x ≡ true
    some_healthy x y p q = ground arith
