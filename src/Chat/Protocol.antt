-- ===== src/Chat/Protocol.antt =====
-- src/gptlink/chat/protocol.py: action blocks and result blocks. Text is a list of code points; the
-- JSON reader and writer are parameters. A timeout is a number of microseconds.
pub mod Blocks
pub mod Results
pub mod Inert
pub mod Pure
use gptlink.Common.Types.{ShellKind}
use gptlink.Prelude.{
  Bool, Chars, Option, [], all_chars, eqb, false, is_digit, is_lower, is_upper, leb, length, ltb_ℤ,
  negsuc, none, not, pos, some, true, ℕ, ℤ, ◌&&◌, ◌||◌, ◌∷◌,
}

pub data ToolName : Type 0 where
  filesystem_list filesystem_read filesystem_search filesystem_write git_status git_diff : ToolName
  process_list command_start command_status command_output command_cancel : ToolName

pub record CommandStartArguments : Type 0 where
  pub command : Chars
  pub shell : ShellKind
  pub cwd : Chars
  pub timeout : ℤ

pub data ActionArguments : Type 0 where
  path_arguments : Chars → ActionArguments
  search_arguments : Chars → Chars → ActionArguments
  write_arguments : Chars → Chars → ActionArguments
  git_diff_arguments : Chars → Option Chars → ActionArguments
  empty_arguments : ActionArguments
  command_start_arguments : CommandStartArguments → ActionArguments
  job_arguments : Chars → ActionArguments
  command_output_arguments : Chars → ℤ → ActionArguments
  command_cancel_arguments : Chars → Chars → ActionArguments

pub record ChatAction : Type 0 where
  pub id : Chars
  pub tool : ToolName
  pub arguments : ActionArguments

abbrev between : ℕ → ℕ → Chars → Bool
between lo hi s = leb lo (length s) && leb (length s) hi

abbrev path_allowed : Chars → Bool
path_allowed = between 1 32768

abbrev revision_allowed : Option Chars → Bool
revision_allowed none = true
revision_allowed (some r) = between 1 200 r

-- the bounds of the fields of each class of arguments
unfoldable pub is_valid : ActionArguments → Bool
is_valid (path_arguments path) = path_allowed path
is_valid (search_arguments path query) = path_allowed path && between 1 4096 query
is_valid (write_arguments path content) = path_allowed path
is_valid (git_diff_arguments path revision) = path_allowed path && revision_allowed revision
is_valid empty_arguments = true
is_valid (command_start_arguments a) =
    path_allowed a.command
    && path_allowed a.cwd
    && ltb_ℤ (pos 0) a.timeout
    && not (ltb_ℤ (pos 86400000000) a.timeout)
is_valid (job_arguments j) = between 1 100 j
is_valid (command_output_arguments j after) = between 1 100 j && not (ltb_ℤ after (negsuc 0))
is_valid (command_cancel_arguments j reason) = between 1 100 j && between 1 500 reason

-- _SCHEMAS: the class of arguments of each tool
unfoldable pub fits : ToolName → ActionArguments → Bool
fits filesystem_list (path_arguments p) = true
fits filesystem_read (path_arguments p) = true
fits filesystem_search (search_arguments p q) = true
fits filesystem_write (write_arguments p d) = true
fits git_status (path_arguments p) = true
fits git_diff (git_diff_arguments p r) = true
fits process_list empty_arguments = true
fits command_start (command_start_arguments a) = true
fits command_status (job_arguments j) = true
fits command_output (command_output_arguments j a) = true
fits command_cancel (command_cancel_arguments j r) = true
fits _ _ = false

abbrev is_word : ℕ → Bool
is_word c = is_upper c || is_lower c || is_digit c

-- [A-Za-z0-9._:-]
abbrev pub is_id_char : ℕ → Bool
is_id_char c = is_word c || eqb c b'.' || eqb c b'_' || eqb c b':' || eqb c b'-'

-- _ACTION_ID.fullmatch
unfoldable pub is_action_id : Chars → Bool
is_action_id [] = false
is_action_id (c ∷ s) = is_word c && all_chars is_id_char s && leb (length s) 199
