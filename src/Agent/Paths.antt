-- ===== src/Agent/Paths.antt =====
-- SandboxPaths of src/gptlink/agent/filesystem/paths.py. A path is its parts after the root, and the
-- file system's answers (expanduser, resolve, exists, is_dir) are parameters.
pub mod Containment
pub mod Existing
use gptlink.Prelude.{
  Bool, Chars_eq, List, String, String_eq, [], any, false, if◌then◌else◌, not, true, ℕ_eq, ◌&&◌,
  ◌==◌, ◌∷◌,
}
use gptlink.Common.Action.{Action, Outcome, guarded, lift, pure, raise, ◌>>=◌}
use gptlink.Common.Errors.{sandbox_error, value_error}

pub record FilePath : Type 0 where
  pub absolute : Bool
  pub parts : List String

-- what `pathlib` asks the operating system
pub record Disk : Type 0 where
  pub expanduser : FilePath → Outcome FilePath
  pub resolve_strict : FilePath → Outcome FilePath
  pub resolve : FilePath → Outcome FilePath
  pub exists : FilePath → Bool
  pub is_dir : FilePath → Bool

abbrev is_empty : List String → Bool
is_empty [] = true
is_empty (p ∷ ps) = false

abbrev starts_with : List String → List String → Bool
starts_with [] ps = true
starts_with (q ∷ qs) [] = false
starts_with (q ∷ qs) (p ∷ ps) = (q == p) && starts_with qs ps

-- resolved.relative_to(root) raises no ValueError
unfoldable pub is_relative_to : FilePath → FilePath → Bool
is_relative_to root p =
    (if root.absolute then p.absolute else not p.absolute) && starts_with root.parts p.parts

module _ (disk : Disk) {S : Type 0} where
  -- _root
  unfoldable pub root_of : FilePath → Action S FilePath
  root_of root = lift (disk.expanduser root) >>= λ expanded.
      lift (disk.resolve_strict expanded) >>= λ resolved.
      guarded (disk.is_dir resolved) (sandbox_error "filesystem root must be a directory") (
        guarded (not (resolved.absolute && is_empty resolved.parts))
          (sandbox_error "universal filesystem roots are not allowed") (pure resolved))

  unfoldable pub roots_of : List FilePath → Action S (List FilePath)
  unfolding root_of
  roots_of [] = pure []
  roots_of (r ∷ rs) =
      let rest = roots_of rs in
      root_of r >>= λ resolved. rest >>= λ others. pure (resolved ∷ others)

  -- __init__
  unfoldable pub sandbox : List FilePath → Action S (List FilePath)
  unfolding roots_of
  sandbox [] = raise (value_error "at least one filesystem root is required")
  sandbox (r ∷ rs) = roots_of (r ∷ rs)

  unfoldable pub resolve : List FilePath → FilePath → Action S FilePath
  unfolding is_relative_to
  resolve roots path = lift (disk.expanduser path) >>= λ candidate.
      guarded candidate.absolute (sandbox_error "filesystem paths must be absolute") (
        lift (disk.resolve candidate) >>= λ resolved.
        guarded (any (λ root. is_relative_to root resolved) roots)
          (sandbox_error "path is outside an allowed filesystem root") (pure resolved))

  unfoldable pub resolve_existing : List FilePath → FilePath → Action S FilePath
  unfolding resolve
  resolve_existing roots path = resolve roots path >>= λ resolved.
      guarded (disk.exists resolved) (sandbox_error "path does not exist") (pure resolved)
