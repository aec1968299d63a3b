-- ===== src/Common/Config.antt =====
-- `Settings` of src/gptlink/common/config.py: the fields with their bounds, and the validators. The
-- reading of the environment is left out; a number of seconds is one of microseconds, and a negative
-- number, which every bound refuses, is not represented. The reader of URLs is a parameter.
use gptlink.Agent.Paths.{FilePath}
use gptlink.Common.Types.{Capability_eq, PermissionLevel}
use gptlink.Common.Action.{Outcome, err, ok}
use gptlink.Common.Errors.{Exception, value_error}
use gptlink.Prelude.{
  Bool, Chars, Chars_eq, List, Option, String, String_eq, [], all_chars, any, codes, false,
  if◌then◌else◌, is_prefix, is_some, leb, length, lower_char, none, not, occurs, some, true, ℕ,
  ℕ_eq, ◌&&◌, ◌==◌, ◌||◌, ◌∷◌,
}

pub record Settings : Type 0 where
  pub production : Bool
  pub gateway_host : String
  pub gateway_port : ℕ
  pub gateway_url : Chars
  pub database_url : String
  pub agent_roots : List FilePath
  pub agent_wsl_roots : List Chars
  pub agent_permission_level : PermissionLevel
  pub max_concurrent_jobs : ℕ
  pub max_command_length : ℕ
  pub max_file_bytes : ℕ
  pub max_search_results : ℕ
  pub max_job_output_bytes : ℕ
  pub web2api_url : Chars
  pub local_max_actions_per_turn : ℕ
  pub heartbeat_interval : ℕ
  pub offline_threshold : ℕ
  pub handshake_timeout : ℕ
  pub mcp_token : Option Chars
  pub mcp_caller : Chars

-- the bounds of the fields
abbrev pub is_bounded : Settings → Bool
is_bounded s =
    leb 1 s.gateway_port
    && leb s.gateway_port 65535
    && leb 1 s.max_concurrent_jobs
    && leb 1 s.max_command_length
    && leb 1 s.max_file_bytes
    && leb 1 s.max_search_results
    && leb 1 s.max_job_output_bytes
    && leb 1 s.local_max_actions_per_turn
    && leb s.local_max_actions_per_turn 100
    && leb 1 s.heartbeat_interval
    && leb 1 s.offline_threshold
    && leb 1 s.handshake_timeout
    && leb 1 (length s.mcp_caller)
    && leb (length s.mcp_caller) 200

-- require_strong_mcp_token
abbrev pub is_strong : Option Chars → Bool
is_strong none = true
is_strong (some t) = leb 32 (length t)

-- as_posix().replace("/", "\\").rstrip("\\").casefold() == "c:"
abbrev is_separator : ℕ → Bool
is_separator c = c == b'/' || c == 92

abbrev drive_only : Chars → Bool
drive_only [] = false
drive_only (a ∷ []) = false
drive_only (a ∷ b ∷ s) = (lower_char a == b'c') && (b == b':') && all_chars is_separator s

-- root == Path("/")
abbrev is_universal : (FilePath → Chars) → FilePath → Bool
is_universal as_posix p = as_posix p == codes "/" || drive_only (as_posix p)

-- a root of a WSL that is refused
abbrev pub is_wsl_universal : Chars → Bool
is_wsl_universal s = s == codes "/" || not (is_prefix (codes "/") s) || occurs (92 ∷ []) s

-- require_tls_in_production, with the scheme of gateway_url
abbrev pub is_deployable : String → Settings → Bool
is_deployable scheme s =
    not s.production || ((scheme == "https" || scheme == "wss") && is_some s.mcp_token)

abbrev pub invalid : Exception
invalid = value_error "validation error"

module _ (as_posix : FilePath → Chars) (scheme_of : Chars → String)
    (loopback : Chars → Outcome Chars) where
  -- the settings, or the ValidationError of a field or of the model; `loopback` is the validator of the
  -- chat URL
  unfoldable pub validated : Settings → Outcome Settings
  validated s =
      if is_bounded s
        && is_strong s.mcp_token
        && not (any (is_universal as_posix) s.agent_roots)
        && not (any is_wsl_universal s.agent_wsl_roots)
        && is_deployable (scheme_of s.gateway_url) s
      then elim (loopback s.web2api_url) [
        | ok url ↦ ok (record s { web2api_url = url })
        | err e ↦ err invalid
      ]
      else err invalid
