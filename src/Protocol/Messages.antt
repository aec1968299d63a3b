-- ===== src/Protocol/Messages.antt =====
-- src/gptlink/protocol/messages.py: payloads, envelopes and what is required of them. A datetime is an
-- instant with its offset, if it has one; a timeout is a number of microseconds.
use gptlink.Common.Types.{
  Capability, Capability_eq, JobStatus, ShellKind, StreamKind, pending, running,
}
use gptlink.Common.Json.{Json}
use gptlink.Prelude.{
  Bool, Chars, Chars_eq, List, Option, String, String_eq, [], false, is_some, ltb_ℤ, negsuc, none,
  not, pos, some, true, ℕ, ℕ_eq, ℤ, ◌&&◌, ◌==◌, ◌∷◌,
}

-- PROTOCOL_VERSION
abbrev pub protocol_version : ℤ
protocol_version = pos 1

pub record Datetime : Type 0 where
  pub instant : ℕ
  pub offset : Option ℤ

pub record AgentHelloPayload : Type 0 where
  pub token : Chars
  pub versions : List ℤ
  pub capabilities : List Capability

pub record CommandStartPayload : Type 0 where
  pub command : Chars
  pub shell : ShellKind
  pub cwd : Chars
  pub timeout : ℤ

pub record CommandOutputPayload : Type 0 where
  pub sequence_number : ℤ
  pub stream : StreamKind
  pub timestamp : Datetime
  pub text : Chars

pub record CommandFinishedPayload : Type 0 where
  pub status : JobStatus
  pub exit_code : Option ℤ

pub record FilesystemWritePayload : Type 0 where
  pub path : Chars
  pub text : Chars

pub record FilesystemSearchPayload : Type 0 where
  pub path : Chars
  pub query : Chars

pub record GitDiffPayload : Type 0 where
  pub path : Chars
  pub revision : Option Chars

pub record ErrorPayload : Type 0 where
  pub code : String
  pub message : String
  pub retryable : Bool

-- The classes of ProtocolMessage with their payloads; those of a JobEnvelope have the job's id first.
pub data Body : Type 0 where
  agent_hello : AgentHelloPayload → Body
  agent_welcome : ℤ → Body
  heartbeat_ping heartbeat_pong : Datetime → Body
  command_start : CommandStartPayload → Body
  command_started : ℕ → ℤ → Body
  command_output : ℕ → CommandOutputPayload → Body
  command_finished : ℕ → CommandFinishedPayload → Body
  command_cancel : ℕ → Chars → Body
  command_status : ℕ → Body
  command_output_request : ℕ → ℤ → Body
  filesystem_list filesystem_read : Chars → Body
  filesystem_write : FilesystemWritePayload → Body
  filesystem_search : FilesystemSearchPayload → Body
  git_status : Chars → Body
  git_diff : GitDiffPayload → Body
  process_list : Body
  operation_result : Json → Body
  error : ErrorPayload → Body

-- Envelope
pub record Message : Type 0 where
  pub version : ℤ
  pub request_id : ℕ
  pub device_id : ℕ
  pub body : Body

abbrev same_ℤ : ℤ → ℤ → Bool
same_ℤ a b = not (ltb_ℤ a b) && not (ltb_ℤ b a)

-- require_protocol_version
abbrev require_protocol_version : ℤ → Bool
require_protocol_version v = same_ℤ v protocol_version

-- require_timezone_aware
abbrev require_timezone_aware : Datetime → Bool
require_timezone_aware t = is_some t.offset

-- min_length=1
abbrev filled : Chars → Bool
filled s = not (s == [])

abbrev named : String → Bool
named s = not (s == "")

-- versions != (PROTOCOL_VERSION,)
abbrev current_only : List ℤ → Bool
current_only (v ∷ []) = same_ℤ v protocol_version
current_only _ = false

abbrev pub is_terminal : JobStatus → Bool
is_terminal pending = false
is_terminal running = false
is_terminal _ = true

-- gt=0, le=86_400
abbrev timeout_allowed : ℤ → Bool
timeout_allowed t = ltb_ℤ (pos 0) t && not (ltb_ℤ (pos 86400000000) t)

-- the constraints of the payload's fields
unfoldable pub is_valid_body : Body → Bool
is_valid_body (agent_hello p) = filled p.token && current_only p.versions
is_valid_body (agent_welcome v) = require_protocol_version v
is_valid_body (heartbeat_ping t) = require_timezone_aware t
is_valid_body (heartbeat_pong t) = require_timezone_aware t
is_valid_body (command_start p) = filled p.command && filled p.cwd && timeout_allowed p.timeout
is_valid_body (command_started j pid) = not (ltb_ℤ pid (pos 1))
is_valid_body (command_output j p) =
    not (ltb_ℤ p.sequence_number (pos 0)) && require_timezone_aware p.timestamp
is_valid_body (command_finished j p) = is_terminal p.status
is_valid_body (command_cancel j reason) = filled reason
is_valid_body (command_status j) = true
is_valid_body (command_output_request j after) = not (ltb_ℤ after (negsuc 0))
is_valid_body (filesystem_list path) = filled path
is_valid_body (filesystem_read path) = filled path
is_valid_body (filesystem_write p) = filled p.path
is_valid_body (filesystem_search p) = filled p.path && filled p.query
is_valid_body (git_status path) = filled path
is_valid_body (git_diff p) = filled p.path && elim p.revision [ none ↦ true | some r ↦ filled r ]
is_valid_body process_list = true
is_valid_body (operation_result v) = true
is_valid_body (error p) = named p.code && named p.message

unfoldable pub is_valid : Message → Bool
unfolding is_valid_body
is_valid m = require_protocol_version m.version && is_valid_body m.body
