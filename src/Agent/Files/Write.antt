-- ===== src/Agent/Files/Write.antt =====
-- `FilesystemOperations.write` of src/gptlink/agent/filesystem/operations.py, on the contents of files.
use gptlink.Agent.Paths.{Disk, FilePath, resolve}
use gptlink.Agent.Files.{Settings, parent, require}
use gptlink.Common.Types.{Capability_eq, filesystem_write, is_read_only}
use gptlink.Common.Action.{Action, Outcome, err, guarded, ok, raise, ◌>>=◌, ◌>>◌}
use gptlink.Common.Errors.{permission_error, value_error}
use gptlink.Prelude.{
  Bool, Chars, Chars_eq, List, Option, String, String_eq, [], false, if◌then◌else◌, length, ltb,
  none, not, some, true, ℕ, ℕ_eq, ◌&&◌, ◌==◌, ◌∷◌,
}

-- the bytes of each file; `none` where there is no file
abbrev pub Contents : Type 0
Contents = FilePath → Option (List ℕ)

abbrev pub same_parts : List String → List String → Bool
same_parts [] [] = true
same_parts (p ∷ ps) (q ∷ qs) = (p == q) && same_parts ps qs
same_parts _ _ = false

abbrev pub same_path : FilePath → FilePath → Bool
same_path p q = (if p.absolute then q.absolute else not q.absolute) && same_parts p.parts q.parts

abbrev pub set : FilePath → Option (List ℕ) → Contents → Contents
set p bytes files q = if same_path q p then bytes else files q

-- how the file system answers: creation of the temporary file, its writing and fsync, and the
-- replacement; and what a failed writing left in the temporary file
pub record Answers : Type 0 where
  pub created : Outcome {0} Unit
  pub stored : Outcome {0} Unit
  pub left : List ℕ
  pub replaced : Outcome {0} Unit

unfoldable pub replace_with : FilePath → FilePath → List ℕ → Outcome {0} Unit → Action Contents Unit
replace_with temporary target bytes (ok u) files =
    (ok tt, set temporary none (set target (some bytes) files))
replace_with temporary target bytes (err e) files = (err e, files)

unfoldable pub store :
    FilePath → FilePath → List ℕ → Answers → Outcome {0} Unit → Action Contents Unit
unfolding replace_with
store temporary target bytes a (ok u) files =
    replace_with temporary target bytes a.replaced (set temporary (some bytes) files)
store temporary target bytes a (err e) files = (err e, set temporary (some a.left) files)

-- finally: temporary.unlink(missing_ok=True)
unfoldable pub then_unlink : FilePath → Action Contents Unit → Action Contents Unit
then_unlink temporary m files = let (o, files') = m files in (o, set temporary none files')

unfoldable pub place :
    FilePath → FilePath → List ℕ → Answers → Outcome {0} Unit → Action Contents Unit
unfolding store then_unlink
place temporary target bytes a (ok u) =
    then_unlink temporary (store temporary target bytes a a.stored)
place temporary target bytes a (err e) = raise e

module _ (disk : Disk) (c : Settings) (encode : Chars → List ℕ) where
  -- with the name that is drawn for the temporary file beside a target
  unfoldable pub write : FilePath → Chars → (FilePath → FilePath) → Answers → Action Contents Unit
  unfolding place
  write path text temporary a =
      require c.capabilities filesystem_write
      >> guarded (not (is_read_only c.permission))
          (permission_error "READ_ONLY policy forbids filesystem.write")
          (guarded (not (ltb c.max_write_bytes (length (encode text))))
            (value_error "file write limit exceeded")
            (resolve disk c.roots path >>= λ target.
              resolve disk c.roots (parent target) >>= λ directory.
              guarded (disk.is_dir directory) (value_error "parent directory does not exist")
                (place (temporary target) target (encode text) a a.created)))
