-- ===== src/Agent/Wsl.antt =====
-- `WslExecutor` of src/gptlink/agent/executors/wsl.py: the directory in which a command runs. What
-- readlink prints inside WSL, and the run of the process itself, are parameters.
pub mod Confined
use gptlink.Common.Action.{Action, Outcome, err, guarded, ok, pure, raise, ◌>>=◌, ◌>>◌}
use gptlink.Common.Errors.{value_error}
use gptlink.Prelude.{
  Bool, Chars, Chars_eq, List, Option, String_eq, [], any, codes, false, if◌then◌else◌, is_prefix,
  none, not, occurs, select, some, split, suc, true, zero, ℕ, ℕ_eq, ◌&&◌, ◌++◌, ◌==◌, ◌∷◌,
}

-- PurePosixPath: the leading slashes that count (none, one or exactly two), and the parts
pub record PosixPath : Type 0 where
  pub anchor : ℕ
  pub parts : List Chars

abbrev slash : ℕ
slash = b'/'

abbrev is_slash : ℕ → Bool
is_slash c = c == slash

abbrev anchor_of : Chars → ℕ
anchor_of [] = 0
anchor_of (a ∷ []) = if is_slash a then 1 else 0
anchor_of (a ∷ b ∷ []) = if is_slash a then (if is_slash b then 2 else 1) else 0
anchor_of (a ∷ b ∷ c ∷ s) =
    if is_slash a then (if is_slash b && not (is_slash c) then 2 else 1) else 0

abbrev is_part : Chars → Bool
is_part p = not (p == []) && not (p == codes ".")

unfoldable pub posix : Chars → PosixPath
posix s = record { anchor = anchor_of s; parts = select is_part (split slash s) }

abbrev joined : List Chars → Chars
joined [] = []
joined (p ∷ []) = p
joined (p ∷ q ∷ ps) = p ++ slash ∷ joined (q ∷ ps)

abbrev slashes : ℕ → Chars
slashes zero = []
slashes (suc n) = slash ∷ slashes n

-- as_posix
unfoldable pub as_posix : PosixPath → Chars
as_posix p =
    if (p.anchor == 0) && not (any (λ x. true) p.parts)
    then codes "."
    else slashes p.anchor ++ joined p.parts

abbrev starts_with : List Chars → List Chars → Bool
starts_with [] ps = true
starts_with (q ∷ qs) [] = false
starts_with (q ∷ qs) (p ∷ ps) = (q == p) && starts_with qs ps

-- candidate == root or candidate.is_relative_to(root)
abbrev pub is_within : PosixPath → PosixPath → Bool
is_within root p = (root.anchor == p.anchor) && starts_with root.parts p.parts

abbrev backslash : Chars
backslash = 92 ∷ []

abbrev pub is_absolute : Chars → Bool
is_absolute s = is_prefix (slash ∷ []) s

module _ (allowed_roots : List PosixPath) {S : Type 0} where
  -- _cwd
  unfoldable pub checked_cwd : Chars → Action S Chars
  checked_cwd cwd =
      guarded (is_absolute cwd && not (occurs backslash cwd))
        (value_error "WSL cwd must be a Linux absolute path")
        (guarded (any (λ root. is_within root (posix cwd)) allowed_roots)
          (value_error "WSL cwd is outside an allowed root") (pure (as_posix (posix cwd))))

  unfoldable pub build_argv : Chars → Chars → Option Chars → Action S (List Chars)
  unfolding checked_cwd
  build_argv executable command none = raise (value_error "WSL cwd is required")
  build_argv executable command (some cwd) = checked_cwd cwd >>= λ checked. pure (
      executable
      ∷ codes "--cd"
      ∷ checked
      ∷ codes "--exec"
      ∷ codes "/bin/bash"
      ∷ codes "-lc"
      ∷ command
      ∷ [])

  -- what readlink prints, stripped, or an error if it fails; `none` if it takes too long
  module _ (readlink : Chars → Option (Outcome Chars)) where
    resolved_by : Option (Outcome Chars) → Action S PosixPath
    resolved_by none = raise (value_error "WSL path resolution timed out")
    resolved_by (some (err e)) = raise (value_error "WSL cwd does not exist")
    resolved_by (some (ok s)) =
        guarded (is_absolute s) (value_error "WSL cwd does not exist") (pure (posix s))

    -- _realpath
    unfoldable pub realpath : Chars → Action S PosixPath
    unfolding resolved_by
    realpath path = resolved_by (readlink path)

    unfoldable pub real_roots : List PosixPath → Action S (List PosixPath)
    unfolding realpath
    real_roots [] = pure []
    real_roots (r ∷ rs) =
        let rest = real_roots rs in
        realpath (as_posix r) >>= λ root. rest >>= λ roots. pure (root ∷ roots)

    unfoldable pub run : {A : Type 0} → (Chars → Action S A) → Chars → Action S A
    unfolding checked_cwd real_roots
    run start cwd = do
      checked ← checked_cwd cwd
      candidate ← realpath checked
      roots ← real_roots allowed_roots
      guarded (any (λ root. is_within root candidate) roots)
          (value_error "WSL cwd resolves outside an allowed root") (start (as_posix candidate))
