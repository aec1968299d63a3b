-- ===== src/Agent/Files.antt =====
-- `FilesystemOperations` of src/gptlink/agent/filesystem/operations.py. What the file system answers
-- is a parameter; the contents of the files are the state of a write.
pub mod Write
pub mod Written
pub mod Found
mod Tests
use gptlink.Agent.Paths.{Disk, FilePath, resolve_existing}
use gptlink.Common.Types.{
  Capability, Capability_eq, PermissionLevel, command_start, filesystem_read, filesystem_search,
  filesystem_write, git_read, process_read, shell_cmd, shell_powershell, shell_wsl,
}
use gptlink.Common.Action.{Action, Outcome, err, guarded, lift, ok, pure, ◌>>=◌, ◌>>◌}
use gptlink.Common.Errors.{
  Exception, os_error, permission_error, sandbox_error, timeout_error, type_name, value_error,
}
use gptlink.Prelude.{
  Bool, Chars, Chars_eq, List, Option, String, String_eq, [], any, false, if◌then◌else◌, leb,
  length, ltb, none, not, occurs, some, sort, take, true, ℕ, ℕ_eq, ◌++◌, ◌==◌, ◌||◌, ◌∷◌,
}

pub record Settings : Type 0 where
  pub roots : List FilePath
  pub permission : PermissionLevel
  pub capabilities : List Capability
  pub max_read_bytes : ℕ
  pub max_write_bytes : ℕ
  pub max_search_results : ℕ

-- what the operations ask about files; `no_later` compares the casefolded names of a directory's items
pub record Reader : Type 0 where
  pub is_file : FilePath → Bool
  pub st_size : FilePath → Outcome ℕ
  pub read_text : FilePath → Outcome Chars
  pub iterdir : FilePath → Outcome (List FilePath)
  pub rglob : FilePath → List FilePath
  pub no_later : FilePath → FilePath → Bool

pub record FilesystemEntry : Type 0 where
  pub name : String
  pub path : FilePath
  pub kind : String
  pub size : ℕ

abbrev last : List String → String
last [] = ""
last (p ∷ []) = p
last (p ∷ q ∷ ps) = last (q ∷ ps)

abbrev front : List String → List String
front [] = []
front (p ∷ []) = []
front (p ∷ q ∷ ps) = p ∷ front (q ∷ ps)

abbrev pub parent : FilePath → FilePath
parent p = record p { parts = front p.parts }

-- PermissionError(f"capability denied: {capability.value}")
abbrev pub denied : Capability → Exception
denied filesystem_read = permission_error "capability denied: filesystem.read"
denied filesystem_write = permission_error "capability denied: filesystem.write"
denied filesystem_search = permission_error "capability denied: filesystem.search"
denied command_start = permission_error "capability denied: command.start"
denied git_read = permission_error "capability denied: git.read"
denied process_read = permission_error "capability denied: process.read"
denied shell_powershell = permission_error "capability denied: shell.powershell"
denied shell_cmd = permission_error "capability denied: shell.cmd"
denied shell_wsl = permission_error "capability denied: shell.wsl"

-- isinstance(error, OSError)
abbrev pub is_os_error : Exception → Bool
is_os_error os_error = true
is_os_error (permission_error m) = true
is_os_error timeout_error = true
is_os_error _ = false

abbrev pub is_unicode_error : Exception → Bool
is_unicode_error e = type_name e == "UnicodeDecodeError"

-- isinstance(error, (ValueError, OSError))
abbrev pub is_bad_path : Exception → Bool
is_bad_path (value_error m) = true
is_bad_path (sandbox_error m) = true
is_bad_path e = is_os_error e || is_unicode_error e

abbrev pub quiet : {A : Type 0} → (Exception → Bool) → Outcome A → Outcome (Option A)
quiet skipped (ok a) = ok (some a)
quiet skipped (err e) = if skipped e then ok none else err e

abbrev pub added : List FilesystemEntry → Option FilesystemEntry → List FilesystemEntry
added found none = found
added found (some e) = found ++ e ∷ []

module _ {S : Type 0} where
  -- _require
  unfoldable pub require : List Capability → Capability → Action S Unit
  require held c = guarded (any (λ x. x == c) held) (denied c) (pure tt)

  -- try: m  except the errors that pass the test: continue
  unfoldable pub quietly : {A : Type 0} → (Exception → Bool) → Action S A → Action S (Option A)
  quietly skipped m s = let (o, s') = m s in (quiet skipped o, s')

module _ (disk : Disk) (reader : Reader) where
  entry_of : FilePath → FilePath → ℕ → FilesystemEntry
  entry_of child resolved size = record {
    name = last child.parts;
    path = resolved;
    kind = if disk.is_dir resolved then "directory" else "file";
    size = if reader.is_file resolved then size else 0;
  }

module _ (disk : Disk) (reader : Reader) (c : Settings) {S : Type 0} where
  entries_of : List FilePath → Action S (List FilesystemEntry)
  unfolding entry_of
  entries_of [] = pure []
  entries_of (child ∷ children) =
      let rest = entries_of children in
      resolve_existing disk c.roots child >>= λ resolved. lift (reader.st_size resolved) >>= λ size.
      rest >>= λ entries. pure (entry_of disk reader child resolved size ∷ entries)

  unfoldable pub list : FilePath → Action S (List FilesystemEntry)
  unfolding entries_of
  list path =
      require c.capabilities filesystem_read >> resolve_existing disk c.roots path >>= λ directory.
      guarded (disk.is_dir directory) (value_error "path is not a directory") (
        lift (reader.iterdir directory) >>= λ items.
        entries_of (take c.max_search_results (sort reader.no_later items)))

  unfoldable pub read : FilePath → Action S Chars
  read path =
      require c.capabilities filesystem_read >> resolve_existing disk c.roots path >>= λ target.
      guarded (reader.is_file target) (value_error "path is not a file") (
        lift (reader.st_size target) >>= λ size.
        guarded (not (ltb c.max_read_bytes size)) (value_error "file read limit exceeded")
          (lift (reader.read_text target)))

  -- if query in content
  unfoldable pub matched :
      Chars → FilePath → FilePath → Option Chars → Action S (Option FilesystemEntry)
  matched query candidate resolved none = pure none
  matched query candidate resolved (some content) =
      if occurs query content
      then lift (reader.st_size resolved) >>= (λ size. pure (
          some
            (record { name = last candidate.parts; path = resolved; kind = "file"; size = size })))
      else pure none

  unfoldable pub readable : Chars → FilePath → FilePath → Action S (Option FilesystemEntry)
  unfolding matched
  readable query candidate resolved =
      quietly (λ e. is_os_error e || is_unicode_error e) (lift (reader.read_text resolved))
      >>= matched query candidate resolved

  unfoldable pub examine : Chars → FilePath → Option FilePath → Action S (Option FilesystemEntry)
  unfolding readable
  examine query candidate none = pure none
  examine query candidate (some resolved) =
      if reader.is_file resolved
      then lift (reader.st_size resolved) >>= (λ size.
        if ltb c.max_read_bytes size then pure none else readable query candidate resolved)
      else pure none

  -- one round of the loop of `search`; `none` is its `continue`
  unfoldable pub round : Chars → FilePath → Action S (Option FilesystemEntry)
  unfolding examine
  round query candidate =
      quietly is_bad_path (resolve_existing disk c.roots candidate) >>= examine query candidate

  unfoldable pub scan :
      Chars → List FilePath → List FilesystemEntry → Action S (List FilesystemEntry)
  unfolding round
  scan query [] found = pure found
  scan query (candidate ∷ candidates) found =
      let rest = scan query candidates in
      if leb c.max_search_results (length found)
      then pure found
      else (round query candidate >>= λ o. rest (added found o))

  unfoldable pub search : FilePath → Chars → Action S (List FilesystemEntry)
  unfolding scan
  search path query =
      require c.capabilities filesystem_search >> resolve_existing disk c.roots path >>= λ root.
      guarded (disk.is_dir root) (value_error "search path is not a directory")
        (scan query (reader.rglob root) [])
