-- ===== src/Persistence/Models.antt =====
-- src/gptlink/persistence/models.py: the persisted entities, their tables and the constraints that
-- the schema declares. A UUID is a number, and a timestamp the microseconds since the epoch (UTC).
-- A table is the list of its rows in the order of insertion.
use gptlink.Prelude.{
  Bool, Chars, Chars_eq, List, Option, String, String_eq, any, false, is_none, leb, ltb, some, ℕ,
  ℕ_eq, ℤ, ◌&&◌, ◌==◌,
}
use gptlink.Common.Json.{Fields}
use gptlink.Common.Types.{
  ApprovalStatus, Capability, Capability_eq, DeviceStatus, JobStatus, PermissionLevel, ShellKind,
  StreamKind,
}

pub record Device : Type 0 where
  pub device_id : ℕ
  pub display_name : String
  pub platform : String
  pub hostname : String
  pub agent_version : String
  pub protocol_version : ℕ
  pub capabilities : List Capability
  pub status : DeviceStatus
  pub permission_level : PermissionLevel
  pub device_token_hash : Chars
  pub last_seen : Option ℕ
  pub created_at : ℕ
  pub revoked_at : Option ℕ

pub record PairingCode : Type 0 where
  pub code_hash : String
  pub locator : Option Chars
  pub expires_at : ℕ
  pub attempts : ℕ
  pub max_attempts : ℕ
  pub created_at : ℕ
  pub used_at : Option ℕ
  pub redeemed_device_id : Option ℕ

pub record RequestClaim : Type 0 where
  pub request_id : ℕ
  pub claimed_at : ℕ

pub record Job : Type 0 where
  pub job_id : ℕ
  pub request_id : ℕ
  pub device_id : ℕ
  pub command : String
  pub shell : ShellKind
  pub cwd : String
  pub status : JobStatus
  pub created_at : ℕ
  pub started_at : Option ℕ
  pub finished_at : Option ℕ
  pub exit_code : Option ℕ
  pub timeout_seconds : ℕ
  pub output_truncated : Bool

pub record JobOutput : Type 0 where
  pub job_id : ℕ
  pub sequence_number : ℕ
  pub stream : StreamKind
  pub timestamp : ℕ
  pub text : String
  pub bytes_count : ℕ

pub record Lease : Type 0 where
  pub lease_id : ℕ
  pub device_id : ℕ
  pub owner : String
  pub created_at : ℕ
  pub expires_at : ℕ
  pub released_at : Option ℕ

pub record Approval : Type 0 where
  pub approval_id : ℕ
  pub requested_action : String
  pub device_id : ℕ
  pub risk_level : String
  pub status : ApprovalStatus
  pub created_at : ℕ
  pub expires_at : ℕ

-- `details` is a JSON object
pub record AuditEvent : Type 0 where
  pub timestamp : ℕ
  pub request_id : Option ℕ
  pub device_id : Option ℕ
  pub action : String
  pub caller : String
  pub result : String
  pub duration : ℤ
  pub risk_level : String
  pub details : Fields

pub record Tables : Type 0 where
  pub devices : List Device
  pub pairing_codes : List PairingCode
  pub request_claims : List RequestClaim
  pub jobs : List Job
  pub job_outputs : List JobOutput
  pub leases : List Lease
  pub approvals : List Approval
  pub audit_events : List AuditEvent

-- CheckConstraint("attempts >= 0 AND attempts <= max_attempts AND max_attempts > 0") and
-- CheckConstraint("expires_at > created_at")
abbrev pub pairing_code_check : PairingCode → Bool
pairing_code_check c =
    leb c.attempts c.max_attempts && ltb 0 c.max_attempts && ltb c.created_at c.expires_at

-- CheckConstraint("timeout_seconds > 0")
abbrev pub job_check : Job → Bool
job_check j = ltb 0 j.timeout_seconds

-- CheckConstraint("expires_at > created_at")
abbrev pub lease_check : Lease → Bool
lease_check l = ltb l.created_at l.expires_at

-- the rows of the partial unique index `uq_unreleased_lease_device` for one device
abbrev pub is_unreleased : ℕ → Lease → Bool
is_unreleased d l = (l.device_id == d) && is_none l.released_at

abbrev pub same_locator : Option Chars → Option Chars → Bool
same_locator (some a) (some b) = a == b
same_locator _ _ = false

-- PRAGMA foreign_keys=ON: the device that a row refers to is there
abbrev pub device_exists : Tables → ℕ → Bool
device_exists t d = any (λ x. x.device_id == d) t.devices
