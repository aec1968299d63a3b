-- ===== src/Local/Approvals.antt =====
-- `SessionApprover` of src/gptlink/local/approvals.py. The prompt is a parameter: an action on the
-- rest of the world.
pub mod Grants
use gptlink.Chat.Protocol.{
  ChatAction, ToolName, command_cancel, command_output, command_start, command_status,
  filesystem_list, filesystem_read, filesystem_search, filesystem_write, git_diff, git_status,
  process_list,
}
use gptlink.Agent.Paths.{FilePath}
use gptlink.Prelude.{
  Bool, Chars, Chars_eq, List, String, String_eq, any, false, if◌then◌else◌, true, ℕ, ℕ_eq, ◌==◌,
  ◌∷◌,
}
use gptlink.Common.Action.{Action, ok, ◌>>=◌}

pub data ApprovalDecision : Type 0 where
  once session deny : ApprovalDecision

pub record ApprovalRequest : Type 0 where
  pub conversation_title : String
  pub workspace : FilePath
  pub action : ChatAction

-- LocalAuditEvent
pub record LocalAuditEvent : Type 0 where
  pub timestamp : ℕ
  pub conversation_id : String
  pub workspace : FilePath
  pub action : ToolName
  pub result : String
  pub duration_ms : ℕ
  pub request_id : Chars

-- the grants of the session, the lines of the audit file, and the rest of the world
pub record Session (E : Type 0) : Type 0 where
  pub session_tools : List ToolName
  pub audit : List LocalAuditEvent
  pub env : E

abbrev pub tool_index : ToolName → ℕ
tool_index filesystem_list = 0
tool_index filesystem_read = 1
tool_index filesystem_search = 2
tool_index filesystem_write = 3
tool_index git_status = 4
tool_index git_diff = 5
tool_index process_list = 6
tool_index command_start = 7
tool_index command_status = 8
tool_index command_output = 9
tool_index command_cancel = 10

-- `tool in tools`
abbrev pub is_granted : ToolName → List ToolName → Bool
is_granted tool tools = any (λ x. tool_index x == tool_index tool) tools

module _ {E : Type 0} where
  unfoldable pub on_env : {A : Type 0} → Action E A → Action (Session E) A
  on_env m w = let (r, e) = m w.env in (r, record w { env = e })

  module _ (prompt : ApprovalRequest → Action E ApprovalDecision) where
    unfoldable pub decided : ToolName → ApprovalDecision → Action (Session E) Bool
    decided tool session w = (ok true, record w { session_tools = tool ∷ w.session_tools })
    decided tool once w = (ok true, w)
    decided tool deny w = (ok false, w)

    unfoldable pub approve : ApprovalRequest → Action (Session E) Bool
    unfolding on_env decided
    approve request w =
        let asked = (on_env (prompt request) >>= decided request.action.tool) w in
        if is_granted request.action.tool w.session_tools then (ok true, w) else asked
