-- ===== src/Common/Types.antt =====
-- src/gptlink/common/types.py: the enumerations that every boundary shares.
use gptlink.Prelude.{Bool, Comparable, String, arith, eqb, false, true, ℕ, ◌↔◌, ◌≡◌}

pub data Capability : Type 0 where
  filesystem_read filesystem_write filesystem_search : Capability
  command_start git_read process_read : Capability
  shell_powershell shell_cmd shell_wsl : Capability

pub data PermissionLevel : Type 0 where
  read_only read_write full_access : PermissionLevel

pub data DeviceStatus : Type 0 where
  online offline busy degraded revoked : DeviceStatus

pub data JobStatus : Type 0 where
  pending running succeeded failed cancelled timed_out : JobStatus

pub data ApprovalStatus : Type 0 where
  pending approved rejected expired : ApprovalStatus

pub data ShellKind : Type 0 where
  bash powershell cmd wsl : ShellKind

pub data StreamKind : Type 0 where
  stdout stderr : StreamKind

-- The place of a member in its enumeration, to compare members.
abbrev pub index : Capability → ℕ
index filesystem_read = 0
index filesystem_write = 1
index filesystem_search = 2
index command_start = 3
index git_read = 4
index process_read = 5
index shell_powershell = 6
index shell_cmd = 7
index shell_wsl = 8

index_injective : (a b : Capability) → index a ≡ index b → a ≡ b
index_injective a b h = ground arith

pub Capability-same_iff : (a b : Capability) → (eqb (index a) (index b) ≡ true) ↔ (a ≡ b)
Capability-same_iff a b = ((λ h. index_injective a b (ground arith)), λ e. rw e (ground arith))

instance abbrev pub Capability_eq : Comparable Capability
Capability_eq = record { same = λ a b. eqb (index a) (index b); same_iff = Capability-same_iff }

abbrev pub is_revoked : DeviceStatus → Bool
is_revoked revoked = true
is_revoked _ = false

abbrev pub is_read_only : PermissionLevel → Bool
is_read_only read_only = true
is_read_only _ = false

-- `level in {READ_WRITE, FULL_ACCESS}`
abbrev pub may_mutate : PermissionLevel → Bool
may_mutate read_only = false
may_mutate read_write = true
may_mutate full_access = true

-- The text of a member.
abbrev pub capability_value : Capability → String
capability_value filesystem_read = "filesystem.read"
capability_value filesystem_write = "filesystem.write"
capability_value filesystem_search = "filesystem.search"
capability_value command_start = "command.start"
capability_value git_read = "git.read"
capability_value process_read = "process.read"
capability_value shell_powershell = "shell.powershell"
capability_value shell_cmd = "shell.cmd"
capability_value shell_wsl = "shell.wsl"

abbrev pub status_value : DeviceStatus → String
status_value online = "ONLINE"
status_value offline = "OFFLINE"
status_value busy = "BUSY"
status_value degraded = "DEGRADED"
status_value revoked = "REVOKED"

abbrev pub permission_value : PermissionLevel → String
permission_value read_only = "READ_ONLY"
permission_value read_write = "READ_WRITE"
permission_value full_access = "FULL_ACCESS"
