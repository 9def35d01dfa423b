-- ===== src/Config/Validation.antt =====
-- internal/config/validate.go: the checks of the three configurations. An error is named by its field
-- and message; the remedies are left out. url.Parse and os.Stat are arguments.
pub mod Accepted
use talkintent.Common.{
  ℕ, suc, String, Bool, true, false, ◌||◌, ◌&&◌, not, Option, none, some, List, [], ◌∷◌, ◌++◌,
  str_eq, ltb, if◌then◌else◌,
}
use talkintent.Common.Int.{ℤ, pos, negsuc, is_positive, clamp_zero}
use talkintent.Hub.Records.{HubConfig}
use talkintent.Config.Workspaces.{WorkspaceConfig}

pub record Url : Type 0 where
  pub scheme : String
  pub host : String

pub record Environment : Type 0 where
  pub parse_url : String → Option Url
  -- os.Stat finds the file
  pub exists : String → Bool

pub data Issue : Type 0 where
  empty malformed not_found negative : String → Issue
  unsupported_provider temperature_out_of_bounds default_exceeds_max : Issue
  -- a workspace, by its index
  nameless_workspace rootless_workspace : ℕ → Issue

-- `if bad { errs = append(errs, …) }`
abbrev pub issue : Bool → Issue → List Issue
issue true i = i ∷ []
issue false i = []

-- `x < 0`
abbrev pub is_negative : ℤ → Bool
is_negative (pos n) = false
is_negative (negsuc n) = true

-- `err != nil || u.Host == "" || …`
abbrev pub is_malformed : (String → Bool) → Option Url → Bool
is_malformed allowed none = true
is_malformed allowed (some u) = str_eq u.host "" || not (allowed u.scheme)

abbrev pub is_http : String → Bool
is_http scheme = str_eq scheme "http" || str_eq scheme "https"

abbrev pub is_http_or_ws : String → Bool
is_http_or_ws scheme = is_http scheme || (str_eq scheme "ws" || str_eq scheme "wss")

-- An address that may be missing.
abbrev pub optional_url : Environment → String → String → List Issue
optional_url env field url =
    issue (not (str_eq url "") && is_malformed is_http (env.parse_url url)) (malformed field)

abbrev pub optional_file : Environment → String → String → List Issue
optional_file env field path =
    issue (not (str_eq path "") && not (env.exists path)) (not_found field)

pub record LlmConfig : Type 0 where
  pub provider : String
  pub base_url : String
  pub max_tokens : ℤ
  -- `l.Temperature < 0.0 || l.Temperature > 2.0`, a comparison of float64
  pub temperature_is_out : Bool
  pub ca_file : String

unfoldable pub validate_llm : Environment → LlmConfig → List Issue
validate_llm env l =
    issue
      (not (str_eq l.provider "")
        && (not (str_eq l.provider "openai") && not (str_eq l.provider "anthropic")))
      unsupported_provider
    ++ optional_url env "llm.base_url" l.base_url
    ++ issue (is_negative l.max_tokens) (negative "llm.max_tokens")
    ++ issue l.temperature_is_out temperature_out_of_bounds
    ++ optional_file env "llm.ca_file" l.ca_file

pub record ClientConfig : Type 0 where
  pub hub_url : String
  pub hub_ca_file : String
  pub member_id : String
  pub token : String
  pub max_concurrency : ℤ
  pub heartbeat_interval_sec : ℤ
  pub probe_timeout_seconds : ℤ
  pub workspaces : List WorkspaceConfig
  pub llm : LlmConfig

abbrev pub validate_hub_url : Environment → String → List Issue
validate_hub_url env url =
    if str_eq url ""
    then empty "hub_url" ∷ []
    else issue (is_malformed is_http_or_ws (env.parse_url url)) (malformed "hub_url")

abbrev pub validate_workspaces : ℕ → List WorkspaceConfig → List Issue
validate_workspaces i [] = []
validate_workspaces i (ws ∷ rest) =
    issue (str_eq ws.id "" && str_eq ws.name "") (nameless_workspace i)
    ++ issue (str_eq ws.root_path "") (rootless_workspace i)
    ++ validate_workspaces (suc i) rest

unfoldable pub validate_client : Environment → ClientConfig → List Issue
validate_client env c =
    validate_hub_url env c.hub_url
    ++ optional_file env "hub_ca_file" c.hub_ca_file
    ++ issue (str_eq c.member_id "") (empty "member_id")
    ++ issue (str_eq c.token "") (empty "token")
    ++ issue (is_negative c.max_concurrency) (negative "max_concurrency")
    ++ issue (is_negative c.heartbeat_interval_sec) (negative "heartbeat_interval_sec")
    ++ issue (is_negative c.probe_timeout_seconds) (negative "probe_timeout_seconds")
    ++ validate_workspaces 0 c.workspaces
    ++ validate_llm env c.llm

pub record RateLimitConfig : Type 0 where
  pub queries_per_minute : ℤ
  pub burst : ℤ

-- The configuration of a hub: what the handlers read, and the rest of it.
pub record HubSettings : Type 0 where
  pub hub : HubConfig
  pub addr : String
  pub data_dir : String
  pub public_url : String
  pub rate_limits : RateLimitConfig

abbrev pub default_over_max : HubConfig → Bool
default_over_max c =
    is_positive c.default_query_ttl_sec
    && (is_positive c.max_query_ttl_sec
        && ltb (clamp_zero c.max_query_ttl_sec) (clamp_zero c.default_query_ttl_sec))

abbrev pub validate_times : HubConfig → List Issue
validate_times c =
    issue (is_negative c.heartbeat_interval_sec) (negative "heartbeat_interval_sec")
    ++ issue (is_negative c.default_query_ttl_sec) (negative "default_query_ttl_sec")
    ++ issue (is_negative c.max_query_ttl_sec) (negative "max_query_ttl_sec")
    ++ issue (default_over_max c) default_exceeds_max
    ++ issue (is_negative c.max_probe_timeout_sec) (negative "max_probe_timeout_sec")

unfoldable pub validate_hub : Environment → HubSettings → List Issue
validate_hub env c =
    issue (str_eq c.addr "") (empty "addr")
    ++ issue (str_eq c.data_dir "") (empty "data_dir")
    ++ optional_url env "public_url" c.public_url
    ++ validate_times c.hub
    ++ issue (is_negative c.rate_limits.queries_per_minute)
        (negative "rate_limits.queries_per_minute")
    ++ issue (is_negative c.rate_limits.burst) (negative "rate_limits.burst")
