-- ===== src/Cloud/Subscription/Record.antt =====
-- The subscription of a node, and the patterns that keep its unhealthy protocols out.
use private_deploy.Base.{
  ℕ, ◌+◌, ltb, Bool, true, false, Option, none, some, List, [], ◌∷◌, String, is_some, or_else,
  text_or, if◌then◌else◌,
}
use private_deploy.Base.Dict.{Dict, lookup, insert}
use private_deploy.Cloud.Ids.{ProtocolHealthMap, derive_managed_exclude, join_regex_alternatives}
use private_deploy.Cloud.SmartRouting.{IProxy}

-- `header`; each of its parts may be absent.
pub record Header : Type 0 where
  pub request : Option (Dict String)
  pub response : Option (Dict String)

-- `Subscription` of frontend/src/types/app.d.ts.
pub record Subscription : Type 0 where
  pub id : String
  pub name : String
  pub upload : ℕ
  pub download : ℕ
  pub total : ℕ
  pub expire : ℕ
  pub update_time : ℕ
  pub type : String
  pub url : String
  pub website : String
  pub path : String
  pub include : String
  pub exclude : String
  pub include_protocol : String
  pub exclude_protocol : String
  pub proxy_prefix : String
  pub disabled : Bool
  pub in_secure : Bool
  pub request_method : String
  pub header : Option Header
  pub proxies : Option (List IProxy)
  pub script : String

abbrev pub user_exclude_key : String
user_exclude_key = "x-privatedeploy-user-exclude"

abbrev pub managed_exclude_key : String
managed_exclude_key = "x-privatedeploy-managed-exclude"

-- `header || { request: {}, response: {} }`, and so for its parts.
abbrev pub request_of : Option Header → Dict String
request_of none = []
request_of (some header) = or_else header.request []

abbrev pub response_of : Option Header → Dict String
response_of none = []
response_of (some header) = or_else header.response []

-- `preservedUserExclude`
abbrev pub preserved : Dict String → String → String
preserved response exclude =
    if is_some (lookup managed_exclude_key response)
    then text_or (lookup user_exclude_key response) ""
    else exclude

abbrev pub with_excludes : String → String → Dict String → Dict String
with_excludes user managed response =
    insert managed_exclude_key managed (insert user_exclude_key user response)

unfoldable pub apply_managed_exclude : ProtocolHealthMap → String → Subscription → Subscription
apply_managed_exclude health instance_id s =
    let managed = derive_managed_exclude (some (or_else (lookup instance_id health) [])) in
    let response = response_of s.header in
    let user = preserved response s.exclude in
    record s {
      header = some (record {
        request = some (request_of s.header);
        response = some (with_excludes user managed response);
      });
      exclude = join_regex_alternatives (user ∷ managed ∷ []);
    }

-- `DefaultExcludeProtocols`
abbrev pub default_exclude_protocols : String
default_exclude_protocols = "direct|reject|selector|urltest|block|dns|shadowsocksr"

-- A new subscription under the default script.
abbrev pub new_subscription : String → String → String → String → ℕ → Subscription
new_subscription script id label path now = record {
  id = id;
  name = label;
  upload = 0;
  download = 0;
  total = 0;
  expire = 0;
  update_time = now;
  type = "Manual";
  url = "";
  website = "";
  path = path;
  include = "";
  exclude = "";
  include_protocol = "";
  exclude_protocol = default_exclude_protocols;
  proxy_prefix = "";
  disabled = false;
  in_secure = false;
  request_method = "GET";
  header = some (record { request = some []; response = some [] });
  proxies = some [];
  script = script;
}

-- The fields that every run sets, and those that it fills where they are empty.
unfoldable pub refreshed : String → String → String → ℕ → Subscription → Subscription
refreshed script label path now s = record s {
  name = label;
  type = "Manual";
  path = path;
  update_time = now;
  script = text_or (some s.script) script;
  request_method = text_or (some s.request_method) "GET";
  exclude_protocol = text_or (some s.exclude_protocol) default_exclude_protocols;
  header =
      some
        (record { request = some (request_of s.header); response = some (response_of s.header) });
  proxies = some (or_else s.proxies []);
}

-- `shouldWrite`: the file is written for a new subscription, and again after five minutes.
abbrev pub should_write : Option Subscription → ℕ → Bool
should_write none now = true
should_write (some existing) now = ltb (existing.update_time + 300000) now
