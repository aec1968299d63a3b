-- ===== src/Local/Runtime.antt =====
-- `LocalRuntime` of src/gptlink/local/runtime.py and `LocalWorkspace` of src/gptlink/local/workspace.py.
-- The dispatcher of the Agent, the file system, the reading of a path and of a UUID, fresh UUIDs and
-- clock readings are parameters; a line is taken to reach the audit file.
pub mod Gate
pub mod Parsed
pub mod ReadOnly
use gptlink.Common.Json.{Items, Json, array, boolean, cons, end, field, nil, object, text}
use gptlink.Chat.Protocol.{
  ActionArguments, ChatAction, ToolName, command_cancel, command_cancel_arguments, command_output,
  command_output_arguments, command_start, command_start_arguments, command_status, empty_arguments,
  filesystem_list, filesystem_read, filesystem_search, filesystem_write, git_diff,
  git_diff_arguments, git_status, job_arguments, path_arguments, process_list, search_arguments,
  write_arguments,
}
use gptlink.Agent.Paths as Sandbox
use gptlink.Agent.Paths.{Disk, FilePath}
use gptlink.Protocol.Messages as Messages
use gptlink.Protocol.Messages.{Body, Message, protocol_version}
use gptlink.Local.Approvals.{
  ApprovalDecision, ApprovalRequest, LocalAuditEvent, Session, approve, on_env,
}
use gptlink.Common.Types.{PermissionLevel, is_read_only}
use gptlink.Prelude.{
  Bool, Chars, List, Option, String, [], false, if◌then◌else◌, leb, length, none, not, some, true,
  ℕ, ◌&&◌, ◌++◌, ◌+◌, ◌∷◌,
}
use gptlink.Common.Action.{Action, Outcome, err, guarded, lift, ok, pure, raise, ◌>>=◌}
use gptlink.Common.Errors.{
  Exception, action_protocol_error, key_error, local_action_error, os_error, permission_error,
  sandbox_error, timeout_error, value_error,
}

-- LocalWorkspace: the frozen directory and the roots of its sandbox
pub record Workspace : Type 0 where
  pub root : FilePath
  pub roots : List FilePath

-- Path(str), str(Path) and UUID(str)
pub record Readers : Type 0 where
  pub disk : Disk
  pub path_of : Chars → FilePath
  pub path_text : FilePath → Chars
  pub uuid_of : Chars → Option ℕ

pub record Config : Type 0 where
  pub workspace : Workspace
  pub permission : PermissionLevel
  pub max_command_length : ℕ
  pub max_results : ℕ
  pub device_id : ℕ

abbrev joined : FilePath → FilePath → FilePath
joined root p =
    if p.absolute then p else record { absolute = root.absolute; parts = root.parts ++ p.parts }

-- UUID(value), or LocalActionError
id_or : Option ℕ → Action Unit ℕ
id_or none = raise (local_action_error "job_id must be a UUID")
id_or (some j) = pure j

module _ (read : Readers) (c : Config) where
  -- LocalWorkspace.resolve, as text
  unfoldable pub resolve : Chars → Bool → Action Unit Chars
  resolve value existing = lift (read.disk.expanduser (read.path_of value)) >>= λ expanded.
      (if existing
        then Sandbox.resolve_existing read.disk c.workspace.roots (joined c.workspace.root expanded)
        else Sandbox.resolve read.disk c.workspace.roots (joined c.workspace.root expanded))
      >>= λ p. pure (read.path_text p)

  -- `_message`, without the envelope
  unfoldable pub body : ToolName → ActionArguments → Action Unit Body
  unfolding id_or resolve
  body filesystem_list (path_arguments path) =
      resolve path true >>= λ p. pure (Messages.filesystem_list p)
  body filesystem_read (path_arguments path) =
      resolve path true >>= λ p. pure (Messages.filesystem_read p)
  body filesystem_search (search_arguments path query) = resolve path true >>= λ p.
      pure (Messages.filesystem_search (record { path = p; query = query }))
  body filesystem_write (write_arguments path content) = resolve path false >>= λ p.
      pure (Messages.filesystem_write (record { path = p; text = content }))
  body git_status (path_arguments path) = resolve path true >>= λ p. pure (Messages.git_status p)
  body git_diff (git_diff_arguments path revision) =
      resolve path true >>= λ p. pure (Messages.git_diff (record { path = p; revision = revision }))
  body process_list empty_arguments = pure Messages.process_list
  body command_start (command_start_arguments a) =
      guarded (leb (length a.command) c.max_command_length)
        (local_action_error "command length limit exceeded")
        (resolve a.cwd true >>= λ p. pure (
          Messages.command_start
            (record { command = a.command; shell = a.shell; cwd = p; timeout = a.timeout })))
  body command_status (job_arguments j) =
      id_or (read.uuid_of j) >>= λ i. pure (Messages.command_status i)
  body command_output (command_output_arguments j after) =
      id_or (read.uuid_of j) >>= λ i. pure (Messages.command_output_request i after)
  body command_cancel (command_cancel_arguments j reason) =
      id_or (read.uuid_of j) >>= λ i. pure (Messages.command_cancel i reason)
  body _ _ = raise (local_action_error "action arguments do not match the requested tool")

  -- `_message`
  unfoldable pub message : ℕ → ChatAction → Outcome Message
  message request_id a =
      ((body a.tool a.arguments >>= λ b. pure (record {
        version = protocol_version;
        request_id = request_id;
        device_id = c.device_id;
        body = b;
      }))
        tt).0

abbrev pub mutates : ToolName → Bool
mutates filesystem_write = true
mutates command_start = true
mutates _ = false

-- f"READ_ONLY policy forbids {action.tool}"
abbrev forbidden : ToolName → String
forbidden filesystem_write = "READ_ONLY policy forbids filesystem_write"
forbidden command_start = "READ_ONLY policy forbids command_start"
forbidden _ = ""

abbrev items_count : Items → ℕ
items_count nil = 0
items_count (cons x xs) = 1 + items_count xs

-- the tools whose results are wrapped
abbrev is_listing : ToolName → Bool
is_listing filesystem_list = true
is_listing filesystem_search = true
is_listing process_list = true
is_listing _ = false

wrapped : ℕ → Json → Json
wrapped max_results (array xs) =
    object (
      field "items" (array xs) (field "truncated" (boolean (leb max_results (items_count xs))) end))
wrapped max_results v = v

-- `_bounded_result`
unfoldable pub bounded_result : ℕ → ToolName → Json → Json
unfolding wrapped
bounded_result max_results tool v = if is_listing tool then wrapped max_results v else v

-- the response of the dispatcher
answer : ℕ → ToolName → Body → Outcome Json
answer max_results tool (Messages.operation_result v) = ok (bounded_result max_results tool v)
answer max_results tool (Messages.error p) = err (local_action_error p.message)
answer max_results tool _ = err (local_action_error "unexpected local runtime response")

-- the handlers of `execute`: what is raised
handled : Exception → Exception
handled (permission_error m) = local_action_error m
handled (local_action_error m) = local_action_error m
handled key_error = local_action_error "local action rejected"
handled os_error = local_action_error "local action rejected"
handled timeout_error = local_action_error "local action rejected"
handled (value_error m) = local_action_error "local action rejected"
handled (sandbox_error m) = local_action_error "local action rejected"
handled (action_protocol_error m) = local_action_error "local action rejected"
handled e = e

-- what `status` is when the audit line is written
status_of : Outcome Json → String
status_of (ok v) = "ok"
status_of (err (permission_error m)) = "denied"
status_of (err e) = "error"

settled : Outcome Json → Outcome Json
settled (ok v) = ok v
settled (err e) = err (handled e)

-- the clock and the fresh request id of a call
pub record Stamps : Type 0 where
  pub request_id : ℕ
  pub timestamp : ℕ
  pub duration_ms : ℕ

module _ {E : Type 0} (read : Readers) (prompt : ApprovalRequest → Action E ApprovalDecision)
    (dispatch : Message → Action E Message) (c : Config) where
  allowed : Bool → Action (Session E) Unit
  allowed true = pure tt
  allowed false = raise (permission_error "local operator denied the action")

  -- `_authorize`
  unfoldable pub authorize : ChatAction → String → Action (Session E) Unit
  unfolding allowed
  authorize a title =
      guarded (not (mutates a.tool && is_read_only c.permission))
        (permission_error (forbidden a.tool))
        (if mutates a.tool
          then approve prompt
              (record { conversation_title = title; workspace = c.workspace.root; action = a })
            >>= allowed
          else pure tt)

  -- the body of the `try`
  unfoldable pub attempt : ℕ → ChatAction → String → Action (Session E) Json
  unfolding answer
  attempt request_id a title = lift (message read c request_id a) >>= λ m.
      authorize a title >>= λ u.
      on_env (dispatch m) >>= λ response. lift (answer c.max_results a.tool response.body)

  line : ChatAction → String → Stamps → Outcome Json → LocalAuditEvent
  line a conversation_id now r = record {
    timestamp = now.timestamp;
    conversation_id = conversation_id;
    workspace = c.workspace.root;
    action = a.tool;
    result = status_of r;
    duration_ms = now.duration_ms;
    request_id = a.id;
  }

  unfoldable pub execute : ChatAction → String → String → Stamps → Action (Session E) Json
  unfolding line settled handled status_of
  execute a conversation_id title now w =
      let (r, w') = attempt now.request_id a title w in
      (settled r, record w' { audit = w'.audit ++ line a conversation_id now r ∷ [] })
