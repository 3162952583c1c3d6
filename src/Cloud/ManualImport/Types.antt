-- ===== src/Cloud/ManualImport/Types.antt =====
-- The input of the user, the errors, and how a node is made of an input.
use private_deploy.Base.{
  ℕ, zero, suc, leb, Bool, false, not, ◌&&◌, ◌||◌, Option, none, some, List, [], ◌∷◌, String, ◌<>◌,
  str_eq, is_empty, starts_with, trim, has_text, has_number, text_or, text_or_none, if◌then◌else◌,
}
use private_deploy.Cloud.Nodes.{CloudNode}

-- A number of JavaScript by its sign, the integer below its magnitude and whether it has a fraction.
pub data JsNumber : Type 0 where
  not_a_number : JsNumber
  infinite : JsNumber
  finite : Bool → ℕ → Bool → JsNumber

abbrev pub whole : ℕ → JsNumber
whole n = finite false n false

abbrev pub in_range : ℕ → Option ℕ
in_range zero = none
in_range (suc n) = if leb (suc n) 65535 then some (suc n) else none

-- `Number(undefined)` is NaN; `Math.trunc` drops the fraction.
unfoldable pub sanitize_port : Option JsNumber → Option ℕ
sanitize_port (some (finite false n fraction)) = in_range n
sanitize_port _ = none

pub record ManualNodeInput : Type 0 where
  pub instance_id : Option String
  pub label : String
  pub ipv4 : Option String
  pub ipv6 : Option String
  pub region : Option String
  pub plan : Option String
  pub ss_port : Option JsNumber
  pub ss_password : Option String
  pub hysteria_port : Option JsNumber
  pub hysteria_password : Option String
  pub hysteria_server_name : Option String
  pub hysteria_insecure : Option Bool
  pub vless_port : Option JsNumber
  pub vless_uuid : Option String
  pub vless_public_key : Option String
  pub vless_short_id : Option String
  pub vless_server_name : Option String
  pub trojan_port : Option JsNumber
  pub trojan_password : Option String
  pub trojan_server_name : Option String
  pub trojan_insecure : Option Bool
  pub created_at : Option String

pub data ManualNodeConflictType : Type 0 where
  by_label : ManualNodeConflictType
  by_ipv4 : ManualNodeConflictType
  by_ipv6 : ManualNodeConflictType

pub record ManualNodeConflict : Type 0 where
  pub type : ManualNodeConflictType
  pub value : String
  pub existing : CloudNode

pub record ManualNodeSkipEntry : Type 0 where
  pub identifier : String
  pub reason : ManualNodeConflictType
  pub existing_label : String
  pub existing_provider : Option String

-- `ManualNodeError` by its code, with what its `meta` holds, and any other error.
pub data ManualError : Type 0 where
  label_required : ManualError
  address_required : ManualError
  protocol_required : ManualError
  duplicate : ManualNodeConflict → ManualError
  all_skipped : List ManualNodeSkipEntry → ManualError
  other : String → ManualError

-- What a call of this store gives.
pub data Result (A : Type 0) : Type 0 where
  ok : A → Result A
  failed : ManualError → Result A

-- `node.provider === 'manual'`
abbrev pub is_manual : CloudNode → Bool
is_manual node = str_eq (text_or node.provider "") "manual"

-- `value?.trim()`
abbrev pub trim? : Option String → Option String
trim? none = none
trim? (some s) = some (trim s)

-- `value?.trim() ?? ''`
abbrev pub trim_or_empty : Option String → String
trim_or_empty none = ""
trim_or_empty (some s) = trim s

-- `value?.trim() || undefined`
abbrev pub trimmed : Option String → Option String
trimmed none = none
trimmed (some s) = text_or_none (trim s)

abbrev pub is_current : String → Option String → Bool
is_current id none = false
is_current id (some current) = str_eq id current

-- `a && b && b === a`
abbrev pub same_address : Option String → Option String → Bool
same_address (some a) (some b) = not (is_empty a) && not (is_empty b) && str_eq b a
same_address _ _ = false

-- `conflictWith`, for the trimmed label and addresses.
unfoldable pub conflict_with :
    String → Option String → Option String → Option String → CloudNode → Option ManualNodeConflict
conflict_with label ipv4 ipv6 current node =
    if is_current node.instance_id current
    then none
    else if not (is_empty label) && str_eq node.label label
    then some (record { type = by_label; value = label; existing = node })
    else if same_address ipv4 node.ipv4
    then some (record { type = by_ipv4; value = text_or ipv4 ""; existing = node })
    else if same_address ipv6 node.ipv6
    then some (record { type = by_ipv6; value = text_or ipv6 ""; existing = node })
    else none

abbrev pub first_of_two : {A : Type 0} → Option A → Option A → Option A
first_of_two none b = b
first_of_two (some a) b = some a

-- The loop over the manual nodes.
unfoldable pub first_conflict :
    (CloudNode → Option ManualNodeConflict) → List CloudNode → Option ManualNodeConflict
first_conflict test [] = none
first_conflict test (node ∷ nodes) = first_of_two (test node) (first_conflict test nodes)

-- The loop over the instances, which passes over the manual ones.
unfoldable pub first_foreign_conflict :
    (CloudNode → Option ManualNodeConflict) → List CloudNode → Option ManualNodeConflict
first_foreign_conflict test [] = none
first_foreign_conflict test (node ∷ nodes) =
    let rest = first_foreign_conflict test nodes in
    if is_manual node then rest else first_of_two (test node) rest

unfoldable pub find_manual_conflict :
    List CloudNode → List CloudNode → ManualNodeInput → Option String → Option ManualNodeConflict
unfolding conflict_with first_conflict first_foreign_conflict
find_manual_conflict manual_nodes instances input current =
    let test = conflict_with (trim input.label) (trim? input.ipv4) (trim? input.ipv6) current in
    first_of_two (first_conflict test manual_nodes) (first_foreign_conflict test instances)

-- The node of an input, under the id that it gets and the time as a text.
unfoldable pub new_node : ManualNodeInput → String → String → CloudNode
unfolding sanitize_port
new_node input seed now = record {
  instance_id = if starts_with seed "cloud-" then seed else "cloud-" <> seed;
  label = trim input.label;
  provider = some "manual";
  status = some "active";
  status_text = some "connected";
  region = some (text_or input.region "");
  plan = some (text_or input.plan "");
  ipv4 = some (trim_or_empty input.ipv4);
  ipv6 = some (trim_or_empty input.ipv6);
  port = none;
  password = none;
  created_at = some (text_or input.created_at now);
  ss_port = sanitize_port input.ss_port;
  ss_password = trimmed input.ss_password;
  hysteria_port = sanitize_port input.hysteria_port;
  hysteria_password = trimmed input.hysteria_password;
  hysteria_server_name = trimmed input.hysteria_server_name;
  hysteria_insecure = input.hysteria_insecure;
  vless_port = sanitize_port input.vless_port;
  vless_uuid = trimmed input.vless_uuid;
  vless_public_key = trimmed input.vless_public_key;
  vless_short_id = trimmed input.vless_short_id;
  vless_server_name = trimmed input.vless_server_name;
  trojan_port = sanitize_port input.trojan_port;
  trojan_password = trimmed input.trojan_password;
  trojan_server_name = trimmed input.trojan_server_name;
  trojan_insecure = input.trojan_insecure;
  vless_relay_port = none;
}

-- `hasProtocol`
abbrev pub has_protocol : CloudNode → Bool
has_protocol node =
    (has_number node.ss_port && has_text node.ss_password)
    || (has_number node.hysteria_port && has_text node.hysteria_password)
    || (has_number node.vless_port && has_text node.vless_uuid && has_text node.vless_public_key)
    || (has_number node.trojan_port && has_text node.trojan_password)

abbrev pub checked_protocol : CloudNode → Result CloudNode
checked_protocol node = if has_protocol node then ok node else failed protocol_required
