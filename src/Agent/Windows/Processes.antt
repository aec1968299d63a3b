-- ===== src/Agent/Windows/Processes.antt =====
-- `WindowsProcessReadService` of src/gptlink/agent/executors/windows_process.py. The run of tasklist,
-- the reader of its CSV text and `int` are parameters.
use gptlink.Agent.Files.{require}
use gptlink.Common.Types.{Capability, Capability_eq, process_read}
use gptlink.Common.Action.{Action, Outcome, lift, pure, ◌>>=◌, ◌>>◌}
use gptlink.Prelude.{
  Chars, Chars_eq, List, Option, String_eq, [], if◌then◌else◌, leb, length, negsuc, none, pos, some,
  take, ℕ, ℕ_eq, ℤ, ◌++◌, ◌==◌, ◌∷◌,
}

-- WindowsProcessInfo
pub record WindowsProcessInfo : Type 0 where
  pub pid : ℕ
  pub command : Chars

-- pid <= 0 or not command: continue
abbrev pub info : Chars → Option ℤ → List WindowsProcessInfo
info command none = []
info [] (some n) = []
info (c ∷ s) (some (negsuc n)) = []
info (c ∷ s) (some (pos n)) = if n == 0 then [] else record { pid = n; command = c ∷ s } ∷ []

-- `int(text)`, which is none where it raises ValueError
module _ (int_of : Chars → Option ℤ) where
  -- one round of the loop: the process of a row, if it is one
  unfoldable pub process_of : List Chars → List WindowsProcessInfo
  process_of [] = []
  process_of (name ∷ []) = []
  process_of (name ∷ number ∷ more) = info (take 4096 name) (int_of number)

  unfoldable pub collect : ℕ → List (List Chars) → List WindowsProcessInfo → List WindowsProcessInfo
  collect max_results [] results = results
  collect max_results (row ∷ rows) results =
      let rest = collect max_results rows (results ++ process_of row) in
      if leb max_results (length results) then results else rest

  -- with what tasklist printed, as rows, or the error of its run
  unfoldable pub list_processes :
      {S : Type 0}
      → List Capability
      → ℕ
      → Outcome (List (List Chars))
      → Action S (List WindowsProcessInfo)
  unfolding collect
  list_processes held max_results completed =
      require held process_read >> lift completed >>= λ rows. pure (collect max_results rows [])
