-- ===== src/Cloud/Nodes.antt =====
-- Nodes as the stores keep them (frontend/src/types/cloud.d.ts, with the status text of
-- frontend/src/stores/cloud/types.ts), and what frontend/src/stores/cloud/helpers.ts reads off them.
-- A field that is absent is `none`.
use private_deploy.Base.{
  ℕ, Bool, false, not, ◌&&◌, ◌||◌, Option, none, some, String, str_eq, is_empty, text_or, trim,
}
use private_deploy.Cloud.Address.{is_public_ipv4_address}

pub record CloudNode : Type 0 where
  pub instance_id : String
  pub label : String
  pub provider : Option String
  pub status : Option String
  pub status_text : Option String
  pub region : Option String
  pub plan : Option String
  pub ipv4 : Option String
  pub ipv6 : Option String
  pub port : Option ℕ
  pub password : Option String
  pub created_at : Option String
  pub ss_port : Option ℕ
  pub ss_password : Option String
  pub hysteria_port : Option ℕ
  pub hysteria_password : Option String
  pub hysteria_server_name : Option String
  pub hysteria_insecure : Option Bool
  pub vless_port : Option ℕ
  pub vless_uuid : Option String
  pub vless_public_key : Option String
  pub vless_short_id : Option String
  pub vless_server_name : Option String
  pub trojan_port : Option ℕ
  pub trojan_password : Option String
  pub trojan_server_name : Option String
  pub trojan_insecure : Option Bool
  pub vless_relay_port : Option ℕ

unfoldable pub normalize_server_name : Option String → String → String
normalize_server_name none fallback = fallback
normalize_server_name (some value) fallback = text_or (some (trim value)) fallback

-- `resolveTLSInsecure`, on the flag of the protocol that is asked for.
abbrev pub resolve_tls_insecure : Option Bool → Bool
resolve_tls_insecure none = false
resolve_tls_insecure (some insecure) = insecure

abbrev pub is_reachable_target_status : Option String → Bool
is_reachable_target_status none = false
is_reachable_target_status (some status) = str_eq status "open" || str_eq status "open_or_filtered"

-- `!!node.ipv6 && node.ipv6 !== '::'`
abbrev pub has_ipv6_address : Option String → Bool
has_ipv6_address none = false
has_ipv6_address (some ip) = not (is_empty ip) && not (str_eq ip "::")

unfoldable pub has_usable_address : CloudNode → Bool
has_usable_address node =
    (is_public_ipv4_address node.ipv4 || has_ipv6_address node.ipv6)
    && not (is_empty node.instance_id)
