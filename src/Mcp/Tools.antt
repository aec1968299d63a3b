-- ===== src/Mcp/Tools.antt =====
-- The tools of src/gptlink/mcp/tools_filesystem.py, tools_commands.py, tools_git.py and
-- tools_processes.py: what each asks of the Gateway operations, over the registry of connections.
pub mod Delivered
use gptlink.Gateway.Operations.{Call, Readings, World, mutate, read}
use gptlink.Gateway.Registry.Requests.{Awaits}
use gptlink.Gateway.Registry.{Registry}
use gptlink.Common.Json.{Fields, Json, end, field, null, number, text}
use gptlink.Common.Types.{
  Capability, ShellKind, bash, cmd, command_start, filesystem_read, filesystem_search,
  filesystem_write, git_read, powershell, process_read, shell_cmd, shell_powershell, shell_wsl, wsl,
}
use gptlink.Common.Action.{Action}
use gptlink.Prelude.{
  Chars, List, Option, String, [], codes, length, none, over, pos, some, ℕ, ℤ, ◌∷◌,
}
use gptlink.Gateway.Remote as Remote

-- the registry works on the Gateway's database
unfoldable pub remotely : {A : Type 0} → Action Registry A → Action (World Registry) A
remotely m w = let (o, s) = m (record w.env { db = w.db }) in (o, record { db = s.db; env = s })

abbrev one : String → Json → Fields
one k v = field k v end

abbrev pub two : String → Json → String → Json → Fields
two k v k' v' = field k v (field k' v' end)

abbrev pub size_of : Chars → Json
size_of s = number (pos (length s))

abbrev pub shell_value : ShellKind → String
shell_value bash = "bash"
shell_value powershell = "powershell"
shell_value cmd = "cmd"
shell_value wsl = "wsl"

abbrev pub shell_capability : ShellKind → Capability
shell_capability bash = command_start
shell_capability powershell = shell_powershell
shell_capability cmd = shell_cmd
shell_capability wsl = shell_wsl

-- a call of `operations.read`, and of `operations.mutate`
abbrev read_call : String → ℕ → Capability → String → Option Fields → Call
read_call caller device_id capability action details = record {
  device_id = device_id;
  caller = caller;
  request_id = none;
  lease_id = 0;
  required = capability ∷ [];
  action = action;
  risk_level = "LOW";
  details = details;
}

abbrev pub mutate_call :
    String → ℕ → ℕ → ℕ → List Capability → String → String → Option Fields → Call
mutate_call caller device_id request_id lease_id required action risk_level details = record {
  device_id = device_id;
  caller = caller;
  request_id = some request_id;
  lease_id = lease_id;
  required = required;
  action = action;
  risk_level = risk_level;
  details = details;
}

-- of every call: who calls, the readings of the clock, the awaits and the id drawn for the request
module _ (caller : String) (r : Readings) (w : Awaits) (drawn : ℕ) where
  unfoldable pub filesystem_list : ℕ → String → Action (World Registry) Json
  filesystem_list device_id path =
      read
        (read_call caller device_id filesystem_read "filesystem.list"
          (some (one "path" (text path))))
        r (remotely (Remote.filesystem_list device_id w drawn (codes path)))

  unfoldable pub filesystem_read_tool : ℕ → String → Action (World Registry) Json
  filesystem_read_tool device_id path =
      read
        (read_call caller device_id filesystem_read "filesystem.read"
          (some (one "path" (text path))))
        r (remotely (Remote.filesystem_read device_id w drawn (codes path)))

  unfoldable pub filesystem_search_tool : ℕ → String → Chars → Action (World Registry) Json
  filesystem_search_tool device_id path query =
      read
        (read_call caller device_id filesystem_search "filesystem.search"
          (some (two "path" (text path) "query_length" (size_of query))))
        r (remotely (Remote.filesystem_search device_id w drawn (codes path) query))

  unfoldable pub command_status : ℕ → ℕ → Action (World Registry) Json
  command_status device_id job_id =
      read (read_call caller device_id command_start "command.status" none) r
        (remotely (Remote.command_status device_id w drawn job_id))

  unfoldable pub command_output : ℕ → ℕ → ℤ → Action (World Registry) Json
  command_output device_id job_id after_sequence =
      read (read_call caller device_id command_start "command.output" none) r
        (remotely (Remote.command_output device_id w drawn job_id after_sequence))

  unfoldable pub git_status : ℕ → String → Action (World Registry) Json
  git_status device_id path =
      read (read_call caller device_id git_read "git.status" (some (one "path" (text path)))) r
        (remotely (Remote.git_status device_id w drawn (codes path)))

  abbrev text_or_null : Option String → Json
  text_or_null none = null
  text_or_null (some t) = text t

  unfoldable pub git_diff : ℕ → String → Option String → Action (World Registry) Json
  git_diff device_id path revision =
      read
        (read_call caller device_id git_read "git.diff"
          (some (two "path" (text path) "revision" (text_or_null revision))))
        r (remotely (Remote.git_diff device_id w drawn (codes path) (over codes revision)))

  unfoldable pub process_list : ℕ → Action (World Registry) Json
  process_list device_id =
      read (read_call caller device_id process_read "process.list" none) r
        (remotely (Remote.process_list device_id w drawn))

-- a mutation names its request; `encode` is the UTF-8 of a text
module _ (caller : String) (r : Readings) (w : Awaits) (device_id request_id lease_id : ℕ) where
  unfoldable pub filesystem_write_tool :
      (Chars → List ℕ) → String → Chars → Action (World Registry) Json
  filesystem_write_tool encode path data' =
      mutate
        (mutate_call caller device_id request_id lease_id (filesystem_write ∷ []) "filesystem.write"
          "MEDIUM" (some (two "path" (text path) "bytes" (number (pos (length (encode data')))))))
        r (remotely (Remote.filesystem_write device_id w request_id (codes path) data'))

  unfoldable pub command_start_tool : Chars → ShellKind → String → ℤ → Action (World Registry) Json
  command_start_tool command shell cwd timeout =
      mutate
        (mutate_call caller device_id request_id lease_id
          (command_start ∷ shell_capability shell ∷ []) "command.start" "HIGH"
          (some (
            field "shell" (text (shell_value shell))
              (two "cwd" (text cwd) "command_length" (size_of command)))))
        r (remotely (Remote.command_start device_id w request_id command shell (codes cwd) timeout))

  unfoldable pub command_cancel : ℕ → Chars → Action (World Registry) Json
  command_cancel job_id reason =
      mutate
        (mutate_call caller device_id request_id lease_id (command_start ∷ []) "command.cancel"
          "HIGH" none)
        r (remotely (Remote.command_cancel device_id w request_id job_id reason))
