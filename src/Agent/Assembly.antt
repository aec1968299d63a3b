-- ===== src/Agent/Assembly.antt =====
-- src/gptlink/agent/runtime.py and `build_local_runtime` of src/gptlink/local/runtime.py: which
-- services with which limits and capabilities the settings make.
pub mod ReadOnly
mod Tests
use gptlink.Common.Config.{Settings}
use gptlink.Agent.Paths.{Disk, FilePath, sandbox}
use gptlink.Agent.Files as Files
use gptlink.Agent.Jobs.{Limits}
use gptlink.Common.Types.{
  Capability, PermissionLevel, ShellKind, bash, cmd, command_start, filesystem_read,
  filesystem_search, filesystem_write, git_read, may_mutate, powershell, process_read, read_write,
  shell_cmd, shell_powershell, shell_wsl, wsl,
}
use gptlink.Common.Action.{Action, pure, ◌>>=◌}
use gptlink.Prelude.{Bool, List, Option, [], false, if◌then◌else◌, none, some, true, ℕ, ◌++◌, ◌∷◌}

abbrev may_write : PermissionLevel → List Capability
may_write level = if may_mutate level then filesystem_write ∷ [] else []

unfoldable pub linux_capabilities : Settings → List Capability
linux_capabilities s = elim s.agent_roots [
  | [] ↦ []
  | r ∷ rs ↦
      filesystem_read
      ∷ filesystem_search
      ∷ command_start
      ∷ git_read
      ∷ process_read
      ∷ may_write s.agent_permission_level
]

-- shell_capabilities; a Windows executor has no bash
abbrev shells_of : List ShellKind → List Capability
shells_of [] = []
shells_of (powershell ∷ shells) = shell_powershell ∷ shells_of shells
shells_of (cmd ∷ shells) = shell_cmd ∷ shells_of shells
shells_of (wsl ∷ shells) = shell_wsl ∷ shells_of shells
shells_of (bash ∷ shells) = shells_of shells

unfoldable pub windows_capabilities : List ShellKind → Settings → List Capability
windows_capabilities shells s =
    filesystem_read
      ∷ filesystem_search
      ∷ git_read
      ∷ process_read
      ∷ command_start
      ∷ may_write s.agent_permission_level
    ++ shells_of shells

-- the services of a dispatcher
pub record Services : Type 0 where
  pub files : Files.Settings
  pub jobs : Limits
  pub git_capabilities : List Capability
  pub process_capabilities : List Capability
  pub max_processes : ℕ

-- an AgentClient: what it announces, and its dispatcher
pub record Built : Type 0 where
  pub capabilities : List Capability
  pub services : Option Services

abbrev pub bare : Built
bare = record { capabilities = []; services = none }

unfoldable pub services_of : List FilePath → PermissionLevel → List Capability → Settings → Services
services_of roots level held s = record {
  files = record {
    roots = roots;
    permission = level;
    capabilities = held;
    max_read_bytes = s.max_file_bytes;
    max_write_bytes = s.max_file_bytes;
    max_search_results = s.max_search_results;
  };
  jobs = record {
    max_output_bytes = s.max_job_output_bytes;
    max_concurrent_jobs = s.max_concurrent_jobs;
  };
  git_capabilities = held;
  process_capabilities = held;
  max_processes = s.max_search_results;
}

module _ (disk : Disk) {S : Type 0} where
  abbrev assembled : List Capability → Settings → List FilePath → Action S Built
  assembled held s [] = pure bare
  assembled held s (r ∷ rs) = sandbox disk (r ∷ rs) >>= λ roots. pure (record {
    capabilities = held;
    services = some (services_of roots s.agent_permission_level held s);
  })

  unfoldable pub build_linux_agent : Settings → Action S Built
  unfolding linux_capabilities
  build_linux_agent s = assembled (linux_capabilities s) s s.agent_roots

  -- with the shells of the executor
  unfoldable pub build_windows_agent : List ShellKind → Settings → Action S Built
  unfolding windows_capabilities
  build_windows_agent shells s = assembled (windows_capabilities shells s) s s.agent_roots

  -- `nt` where the Agent runs on Windows
  unfoldable pub build_agent : Bool → List ShellKind → Settings → Action S Built
  build_agent nt shells s = if nt then build_windows_agent shells s else build_linux_agent s

abbrev is_read_write : PermissionLevel → Bool
is_read_write read_write = true
is_read_write _ = false

-- build_local_runtime, with the roots of the workspace
unfoldable pub build_local_runtime : List FilePath → PermissionLevel → Settings → Services
build_local_runtime roots level s =
    services_of roots level
      (filesystem_read
        ∷ filesystem_search
        ∷ git_read
        ∷ process_read
        ∷ command_start
        ∷ (if is_read_write level then filesystem_write ∷ [] else []))
      s
