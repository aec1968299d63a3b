-- ===== src/Agent/Executors.antt =====
-- src/gptlink/agent/executors: which process a command becomes (linux.py, powershell.py, cmd.py and
-- windows_process.py), what is read of it, and how it is ended. The creation of processes, signals
-- and waiting are parameters.
pub mod Output
pub mod Ordered
mod Tests
use gptlink.Agent.Windows.JobObjects.{assign, close, finally}
use gptlink.Common.Types.{ShellKind, bash, cmd, powershell, wsl}
use gptlink.Common.Action.{Action, Outcome, catch, err, guarded, ok, raise, ◌>>=◌, ◌>>◌}
use gptlink.Common.Errors.{unexpected, value_error}
use gptlink.Prelude.{
  Bool, Chars, List, Option, [], codes, false, find, if◌then◌else◌, is_some, none, some, true, ℕ, ℤ,
  ◌∷◌,
}

abbrev pub same_shell : ShellKind → ShellKind → Bool
same_shell bash bash = true
same_shell powershell powershell = true
same_shell cmd cmd = true
same_shell wsl wsl = true
same_shell _ _ = false

-- what a run returns: the code of the process, and whether its output was truncated
abbrev pub RunResult : Type 0
RunResult = Option ℤ × Bool

-- the operating system, for a command with its arguments and its working directory: `gather` waits
-- for the readers and the end of the process
pub record Processes (S : Type 0) : Type 0 where
  pub spawn : List Chars → Option Chars → Action S ℕ
  pub kill : ℕ → S → S
  pub wait : ℕ → S → S
  pub on_process : ℕ → S → S
  pub gather : ℕ → Action S RunResult

abbrev pub either : Option Chars → Option Chars → Option Chars
either (some p) q = some p
either none q = q

-- PowerShellExecutor.__init__, where `pwsh` and `powershell` are what `which` finds
abbrev pub powershell_executable : Option Chars → Option Chars → Option Chars → Outcome Chars
powershell_executable (some given) pwsh old = ok given
powershell_executable none (some pwsh) old = ok pwsh
powershell_executable none none (some old) = ok old
powershell_executable none none none = err (unexpected "RuntimeError")

-- CmdExecutor.__init__
abbrev pub cmd_executable : Option Chars → Option Chars → Outcome Chars
cmd_executable (some given) found = ok given
cmd_executable none (some found) = ok found
cmd_executable none none = err (unexpected "RuntimeError")

abbrev pub powershell_argv : Chars → Chars → List Chars
powershell_argv executable command =
    executable ∷ codes "-NoProfile" ∷ codes "-NonInteractive" ∷ codes "-Command" ∷ command ∷ []

abbrev pub cmd_argv : Chars → Chars → List Chars
cmd_argv executable command = executable ∷ codes "/d" ∷ codes "/s" ∷ codes "/c" ∷ command ∷ []

abbrev bash_argv : Chars → List Chars
bash_argv command = codes "/bin/bash" ∷ codes "-lc" ∷ command ∷ []

-- the methods of an executor of Windows that its shell defines
pub record Shell (S : Type 0) : Type 0 where
  pub kind : ShellKind
  pub build_argv : Chars → Chars → Action S (List Chars)
  pub subprocess_cwd : Chars → Option Chars

module _ {S : Type 0} (os : Processes S) where
  -- LinuxExecutor.run
  unfoldable pub run_linux : Chars → ShellKind → Chars → Action S RunResult
  run_linux command shell cwd =
      guarded (same_shell shell bash) (value_error "Linux Agent accepts shell=linux/bash only")
        do pid ← os.spawn (bash_argv command) (some cwd); λ s. os.gather pid (os.on_process pid s)

  -- the Job Objects of the executor
  module _ (assign : ℕ → Action S Unit) (close : ℕ → S → S) where
    -- `jobs.assign`: where it fails the process is killed and awaited
    unfoldable pub assigned : ℕ → Action S Unit
    assigned pid = catch (assign pid) (λ e s. (err e, os.wait pid (os.kill pid s)))

    -- WindowsShellExecutor.run
    unfoldable pub run_windows : Shell S → Chars → ShellKind → Chars → Action S RunResult
    unfolding assigned finally
    run_windows x command shell cwd =
        guarded (same_shell shell x.kind) (value_error "executor does not match selected shell") do
          argv ← x.build_argv command cwd
          pid ← os.spawn argv (x.subprocess_cwd cwd)
          assigned pid
          λ s. finally (close pid) (os.gather pid) (os.on_process pid s)

    -- self.executors[shell]
    unfoldable pub executor_for : ShellKind → List (Shell S) → Option (Shell S)
    executor_for shell = find (λ x. same_shell shell x.kind)

    unfoldable pub dispatched : Option (Shell S) → Chars → ShellKind → Chars → Action S RunResult
    unfolding run_windows
    dispatched none command shell cwd = raise (value_error "shell is unavailable")
    dispatched (some x) command shell cwd = run_windows x command shell cwd

    -- WindowsExecutor.run
    unfoldable pub run_selected : List (Shell S) → Chars → ShellKind → Chars → Action S RunResult
    unfolding executor_for dispatched
    run_selected executors command shell cwd =
        dispatched (executor_for shell executors) command shell cwd

-- how a process of Linux is ended: `signal` is false where the process group is not there any more,
-- and `wait_for` where the grace is over
pub record Signals (S : Type 0) : Type 0 where
  pub returncode : S → Option ℤ
  pub sigterm : S → Bool × S
  pub sigkill : S → Bool × S
  pub wait_for : S → Bool × S
  pub wait : S → S

module _ {S : Type 0} (os : Signals S) where
  abbrev after_kill : Bool × S → S
  after_kill (true, s) = os.wait s
  after_kill (false, s) = s

  abbrev after_grace : Bool × S → S
  after_grace (true, s) = s
  after_grace (false, s) = after_kill (os.sigkill s)

  abbrev after_term : Bool × S → S
  after_term (true, s) = after_grace (os.wait_for s)
  after_term (false, s) = s

  -- LinuxExecutor.terminate
  unfoldable pub terminate : S → S
  terminate s = if is_some (os.returncode s) then s else after_term (os.sigterm s)
