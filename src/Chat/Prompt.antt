-- ===== src/Chat/Prompt.antt =====
-- src/gptlink/chat/prompt.py: the context that is collected of a workspace, and the prompt of a
-- session. The runtime, the writing of JSON and of numbers are parameters.
pub mod Offered
use gptlink.Chat.Protocol.{
  ChatAction, ToolName, command_cancel, command_output, command_start, command_status,
  filesystem_list, filesystem_read, filesystem_search, filesystem_write, git_diff, git_status,
  path_arguments, process_list,
}
use gptlink.Common.Json.{
  Fields, Items, Json, array, boolean, cons, end, field, get_key, is_hashable, is_text_of, nil,
  number, object, text,
}
use gptlink.Common.Types.{Capability_eq, PermissionLevel, permission_value, read_write}
use gptlink.Common.Action.{Action, catch, guarded, pure, raise, ◌>>=◌, ◌>>◌}
use gptlink.Common.Errors.{Exception, local_action_error, unexpected}
use gptlink.Prelude.{
  Bool, Chars, Chars_eq, List, Option, String, String_eq, [], codes, false, if◌then◌else◌, ltb_ℤ,
  none, not, pos, some, suc, true, ℕ, ℕ_eq, ◌&&◌, ◌++◌, ◌==◌, ◌||◌, ◌∷◌,
}

-- name in _CONTEXT_FILES
abbrev pub is_context_file : String → Bool
is_context_file n =
    n == "README.md"
    || n == "README.rst"
    || n == "README.txt"
    || n == "AGENTS.md"
    || n == "pyproject.toml"
    || n == "package.json"
    || n == "Cargo.toml"
    || n == "go.mod"

abbrev pub max_context_file_bytes : ℕ
max_context_file_bytes = 32768

-- isinstance(size, int) and size <= _MAX_CONTEXT_FILE_BYTES: a Boolean is an int
abbrev is_small : Option Json → Bool
is_small (some (number n)) = not (ltb_ℤ (pos max_context_file_bytes) n)
is_small (some (boolean b)) = true
is_small _ = false

abbrev if_file : Json → String → Option String
if_file item n =
    if is_context_file n
      && is_text_of (λ k. k == "file") (get_key "kind" item)
      && is_small (get_key "size" item)
    then some n
    else none

-- the name of an item that is read
abbrev pub wanted : Json → Option String
wanted item = elim (get_key "name" item) [ some (text n) ↦ if_file item n | _ ↦ none ]

abbrev pub items_of : Json → Items
items_of listing = elim (get_key "items" listing) [ some (array xs) ↦ xs | _ ↦ nil ]

-- what stands for a listing that failed
abbrev pub no_listing : Json
no_listing = object (field "items" (array nil) (field "truncated" (boolean false) end))

abbrev or_no_listing : Option Json → Json
or_no_listing none = no_listing
or_no_listing (some v) = v

-- files[name] = content
abbrev set_file : String → String → Fields → Fields
set_file n content end = field n (text content) end
set_file n content (field k v fs) =
    if k == n then field k (text content) fs else field k v (set_file n content fs)

abbrev fields_count : Fields → ℕ
fields_count end = 0
fields_count (field k v fs) = suc (fields_count fs)

abbrev keep : String → Fields → Option Json → Fields
keep n files o = elim o [
  | none ↦ files
  | some v ↦ elim (get_key "content" v) [ some (text c) ↦ set_file n c files | _ ↦ files ]
]

abbrev is_item : Json → Bool
is_item (object fs) = true
is_item _ = false

-- try: m  except LocalActionError: none
abbrev unless_local : {S : Type 0} → Exception → Action S (Option Json)
unless_local (local_action_error m) = pure none
unless_local e = raise e

abbrev with_git : Option Json → Fields
with_git none = end
with_git (some v) = field "git_status" v end

abbrev pub list_action : ChatAction
list_action = record {
  id = codes "context-list";
  tool = filesystem_list;
  arguments = path_arguments (codes ".");
}

abbrev pub read_action : (ℕ → Chars) → ℕ → String → ChatAction
read_action digits n name = record {
  id = codes "context-read-" ++ digits n;
  tool = filesystem_read;
  arguments = path_arguments (codes name);
}

abbrev pub git_action : ChatAction
git_action = record {
  id = codes "context-git-status";
  tool = git_status;
  arguments = path_arguments (codes ".");
}

-- `execute` of the runtime, with the conversation that is given
module _ (digits : ℕ → Chars) {S : Type 0} (execute : ChatAction → Action S Json) where
  unfoldable pub attempt : ChatAction → Action S (Option Json)
  attempt a = catch (execute a >>= λ v. pure (some v)) unless_local

  unfoldable pub read_file : Fields → Option String → Action S Fields
  unfolding attempt
  read_file files none = pure files
  read_file files (some n) =
      attempt (read_action digits (fields_count files) n) >>= λ o. pure (keep n files o)

  -- one round of the loop
  unfoldable pub round : Fields → Json → Action S Fields
  unfolding read_file
  round files item =
      if is_item item
      then guarded (is_hashable (get_key "name" item)) (unexpected "TypeError")
          (read_file files (wanted item))
      else pure files

  unfoldable pub key_files : Fields → Items → Action S Fields
  unfolding round
  key_files files nil = pure files
  key_files files (cons item items) =
      let rest = λ (found : Fields). key_files found items in round files item >>= rest

  -- collect_workspace_context, with the texts of the root and of its name
  unfoldable pub collect : String → String → Action S Json
  unfolding attempt key_files
  collect root name = do
    found ← attempt list_action
    let listing = or_no_listing found
    files ← key_files end (items_of listing)
    git ← attempt git_action
    pure (
        object (
          field "workspace" (text root) (
            field "name" (text name)
              (field "top_level" listing (field "key_files" (object files) (with_git git))))))

-- the tools of the prompt
unfoldable pub tools : PermissionLevel → List ToolName
tools permission =
    filesystem_list
    ∷ filesystem_read
    ∷ filesystem_search
    ∷ git_status
    ∷ git_diff
    ∷ process_list
    ∷ command_status
    ∷ command_output
    ∷ command_cancel
    ∷ elim permission [ read_write ↦ filesystem_write ∷ command_start ∷ [] | _ ↦ [] ]

-- the word of a tool
abbrev tool_name : ToolName → String
tool_name filesystem_list = "filesystem_list"
tool_name filesystem_read = "filesystem_read"
tool_name filesystem_search = "filesystem_search"
tool_name filesystem_write = "filesystem_write"
tool_name git_status = "git_status"
tool_name git_diff = "git_diff"
tool_name process_list = "process_list"
tool_name command_start = "command_start"
tool_name command_status = "command_status"
tool_name command_output = "command_output"
tool_name command_cancel = "command_cancel"

-- ", ".join
abbrev listed : List ToolName → Chars
listed [] = []
listed (t ∷ []) = codes (tool_name t)
listed (t ∷ u ∷ ts) = codes (tool_name t) ++ (codes ", " ++ listed (u ∷ ts))

module _ (dumps : Json → Chars) where
  -- build_session_prompt
  unfoldable pub build_session_prompt : Chars → PermissionLevel → Json → Chars
  unfolding tools
  build_session_prompt root permission context =
      codes "GPTLink local workspace is active.\n\nWorkspace root:\n"
      ++ (root
          ++ (codes "\n\nPermission mode: "
              ++ (codes (permission_value permission)
                  ++ (codes
                        "\n\nRequest at most one operation per response using exactly:\n<gptlink_action>\n{\"id\":\"action-unique\",\"tool\":\"filesystem_list\",\"arguments\":{\"path\":\".\"}}\n</gptlink_action>\n\nAvailable tools: "
                      ++ (listed (tools permission)
                          ++ (codes
                                "\nDo not invent tool results. Do not claim success until a correlated gptlink_result is returned. Paths must stay inside the workspace. Prefer reads before writes or commands. Write and command requests require local operator approval.\n\nBounded initial workspace context:\n"
                              ++ dumps context))))))
