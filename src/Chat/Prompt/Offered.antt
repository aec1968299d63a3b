-- ===== src/Chat/Prompt/Offered.antt =====
-- About the prompt and the context of src/gptlink/chat/prompt.py, with the policy of
-- src/gptlink/local/runtime.py.
use gptlink.Chat.Prompt.{
  collect, fields_count, git_action, key_files, list_action, read_action, read_file, round, tools,
  wanted,
}
use gptlink.Chat.Protocol.{
  ChatAction, ToolName, command_cancel, command_output, command_start, command_status,
  filesystem_list, filesystem_read, filesystem_search, filesystem_write, git_diff, git_status,
  process_list,
}
use gptlink.Local.Approvals.{is_granted}
use gptlink.Local.Runtime.{mutates}
use gptlink.Common.Json.{Fields, Items, Json, cons, nil}
use gptlink.Common.Types.{PermissionLevel, full_access, is_read_only, read_only, read_write}
use gptlink.Common.Action.{Action}
use gptlink.Prelude.{
  Chars, Option, String, false, fun_ext, none, not, refl, some, ℕ, ◌&&◌, ◌≡◌, ◌≢◌,
}

-- Under READ_ONLY and READ_WRITE the prompt offers a tool exactly if the runtime's policy does not
-- forbid it under that permission.
pub offered_lem :
    (t : ToolName) (permission : PermissionLevel)
    → permission ≢ full_access
    → is_granted t (tools permission) ≡ not (mutates t && is_read_only permission)
unfolding tools
offered_lem t full_access h = absurd (h refl)
offered_lem filesystem_list read_only h = refl
offered_lem filesystem_read read_only h = refl
offered_lem filesystem_search read_only h = refl
offered_lem filesystem_write read_only h = refl
offered_lem git_status read_only h = refl
offered_lem git_diff read_only h = refl
offered_lem process_list read_only h = refl
offered_lem command_start read_only h = refl
offered_lem command_status read_only h = refl
offered_lem command_output read_only h = refl
offered_lem command_cancel read_only h = refl
offered_lem filesystem_list read_write h = refl
offered_lem filesystem_read read_write h = refl
offered_lem filesystem_search read_write h = refl
offered_lem filesystem_write read_write h = refl
offered_lem git_status read_write h = refl
offered_lem git_diff read_write h = refl
offered_lem process_list read_write h = refl
offered_lem command_start read_write h = refl
offered_lem command_status read_write h = refl
offered_lem command_output read_write h = refl
offered_lem command_cancel read_write h = refl

module _ (digits : ℕ → Chars) {S : Type 0} (execute execute' : ChatAction → Action S Json)
    (agree : (a : ChatAction) (s : S) → mutates a.tool ≡ false → execute a s ≡ execute' a s) where
  same_action : (a : ChatAction) → mutates a.tool ≡ false → execute a ≡ execute' a
  same_action a h = fun_ext (λ s. agree a s h)

  read_file_agrees :
      (files : Fields) (o : Option String)
      → read_file digits execute files o ≡ read_file digits execute' files o
  unfolding read_file
  read_file_agrees files none = refl
  read_file_agrees files (some n) =
      rw (same_action (read_action digits (fields_count files) n) refl) refl

  round_agrees :
      (files : Fields) (item : Json)
      → round digits execute files item ≡ round digits execute' files item
  unfolding round
  round_agrees files item = rw (read_file_agrees files (wanted item)) refl

  key_files_agrees :
      (items : Items) (files : Fields)
      → key_files digits execute files items ≡ key_files digits execute' files items
  unfolding key_files
  key_files_agrees nil files = refl
  key_files_agrees (cons item items) files =
      rw (fun_ext (λ (found : Fields). key_files_agrees items found), round_agrees files item) refl

  -- Collecting the context of a workspace only reads: with two runtimes that agree on every action but
  -- writing a file and starting a command, it has the same outcome and leaves the same state.
  pub collect_reads :
      (root name : String) (s : S)
      → collect digits execute root name s ≡ collect digits execute' root name s
  unfolding collect
  collect_reads root name s =
      rw
        (
          same_action list_action refl,
          same_action git_action refl,
          fun_ext (λ (files : Fields). fun_ext (λ (items : Items). key_files_agrees items files)),
        )
        refl
