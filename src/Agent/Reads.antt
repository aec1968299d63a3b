-- ===== src/Agent/Reads.antt =====
-- src/gptlink/agent/read_operations.py: reading a Git repository and the list of processes. Running git
-- and reading /proc are parameters.
use gptlink.Agent.Files.{is_os_error, quietly, require}
use gptlink.Agent.Paths.{Disk, FilePath, resolve_existing}
use gptlink.Common.Types.{Capability, Capability_eq, git_read, process_read}
use gptlink.Common.Action.{Action, Outcome, err, guarded, lift, ok, pure, raise, ◌>>=◌, ◌>>◌}
use gptlink.Common.Errors.{timeout_error, value_error}
use gptlink.Prelude.{
  Bool, Chars, Chars_eq, List, Option, String_eq, [], all_chars, codes, false, if◌then◌else◌,
  is_digit, is_prefix, leb, length, ltb, map, none, not, some, strip, take, ℕ, ℕ_eq, ◌*◌, ◌++◌, ◌+◌,
  ◌-◌, ◌==◌, ◌||◌, ◌∷◌,
}

-- a process that ended: its decoded output, the bytes of its two streams, and its code
pub record Ran : Type 0 where
  pub stdout : Chars
  pub out_bytes : ℕ
  pub err_bytes : ℕ
  pub succeeded : Bool

abbrev status_arguments : List Chars
status_arguments = codes "status" ∷ codes "--porcelain=v1" ∷ []

abbrev diff_arguments : List Chars
diff_arguments = codes "diff" ∷ codes "--no-ext-diff" ∷ codes "--no-textconv" ∷ []

abbrev dash : Chars
dash = codes "-"

-- `git -C repository`, with the timeout of `wait_for`
module _ (disk : Disk) (git : FilePath → List Chars → Outcome Ran) (roots : List FilePath) where
  module _ (capabilities : List Capability) (max_output_bytes : ℕ) {S : Type 0} where
    -- _repository
    unfoldable pub repository : FilePath → Action S FilePath
    repository path = require capabilities git_read >> resolve_existing disk roots path >>= λ found.
        guarded (disk.is_dir found) (value_error "Git path is not a directory") (pure found)

    finished : Outcome Ran → Action S Chars
    finished (err timeout_error) = raise (value_error "Git read timed out")
    finished (err e) = raise e
    finished (ok ran) =
        guarded (not (ltb max_output_bytes (ran.out_bytes + ran.err_bytes)))
          (value_error "Git output limit exceeded")
          (guarded ran.succeeded (value_error "Git read failed") (pure ran.stdout))

    -- _run
    unfoldable pub run : FilePath → List Chars → Action S Chars
    unfolding finished
    run found arguments = finished (git found arguments)

    unfoldable pub status : FilePath → Action S Chars
    status path = repository path >>= λ found. run found status_arguments

    unfoldable pub diff : FilePath → Option Chars → Action S Chars
    diff path none = repository path >>= λ found. run found diff_arguments
    diff path (some revision) =
        guarded (not (is_prefix dash revision || ltb 200 (length revision)))
          (value_error "invalid Git revision")
          (repository path >>= λ found. run found (diff_arguments ++ revision ∷ codes "--" ∷ []))

pub record ProcessInfo : Type 0 where
  pub pid : ℕ
  pub command : Chars

-- int(name) of decimal digits
abbrev number_of : ℕ → Chars → ℕ
number_of n [] = n
number_of n (c ∷ s) = number_of (n * 10 + (c - 48)) s

abbrev is_number : Chars → Bool
is_number [] = false
is_number (c ∷ s) = all_chars is_digit (c ∷ s)

-- raw.replace(b"\0", b" ").strip()
abbrev spaced : Chars → Chars
spaced s = strip (map (λ c. if c == 0 then 32 else c) s)

shown : Chars → Option Chars → List ProcessInfo
shown entry none = []
shown entry (some []) = []
shown entry (some (c ∷ s)) = record { pid = number_of 0 entry; command = take 4096 (c ∷ s) } ∷ []

-- The files of a directory of /proc; its names are in the order of `sorted`.
module _ (cmdline comm : Chars → Outcome Chars) {S : Type 0} where
  raw_command : Chars → Chars → Action S Chars
  raw_command entry [] = lift (comm entry) >>= λ s. pure (strip s)
  raw_command entry (c ∷ s) = pure (c ∷ s)

  -- one round of the loop, for an entry that is a number
  unfoldable pub process_at : Chars → Action S (List ProcessInfo)
  unfolding raw_command shown
  process_at entry =
      quietly is_os_error (lift (cmdline entry) >>= λ s. raw_command entry (spaced s)) >>= λ o.
      pure (shown entry o)

  unfoldable pub collect : ℕ → List Chars → List ProcessInfo → Action S (List ProcessInfo)
  unfolding process_at
  collect max_results [] found = pure found
  collect max_results (entry ∷ entries) found =
      let rest = collect max_results entries in
      if leb max_results (length found) || not (is_number entry)
      then rest found
      else (process_at entry >>= λ more. rest (found ++ more))

  unfoldable pub list_processes : List Capability → ℕ → List Chars → Action S (List ProcessInfo)
  unfolding collect
  list_processes capabilities max_results entries =
      require capabilities process_read >> collect max_results entries []
