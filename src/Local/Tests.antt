-- ===== src/Local/Tests.antt =====
-- A command on a read-only machine, and a grant for the session.
use gptlink.Chat.Protocol.Blocks as Blocks
use gptlink.Protocol.Messages as Messages
use gptlink.Local.Runtime.Gate.{unauthorized_inert}
use gptlink.Local.Runtime.{Config, Readers, Stamps, authorize, execute}
use gptlink.Local.Approvals.{ApprovalDecision, ApprovalRequest, Session, approve, deny}
use gptlink.Chat.Protocol.{
  ActionArguments, ChatAction, command_start, command_start_arguments, git_status, path_arguments,
}
use gptlink.Agent.Paths.{FilePath}
use gptlink.Common.Types.{PermissionLevel, bash, read_write}
use gptlink.Common.Json.{end, null}
use gptlink.Protocol.Messages.{Message, operation_result}
use gptlink.Prelude.{Chars, [], codes, false, none, pos, refl, some, true, ℕ, ◌+◌, ◌∷◌, ◌≡◌}
use gptlink.Common.Action.{Action, err, ok, ◌>>=◌}
use gptlink.Common.Errors.{permission_error}

abbrev workdir : FilePath
workdir = record { absolute = true; parts = "work" ∷ [] }

abbrev readers : Readers
readers = record {
  disk = record {
    expanduser = λ p. ok p;
    resolve_strict = λ p. ok p;
    resolve = λ p. ok p;
    exists = λ p. true;
    is_dir = λ p. true;
  };
  path_of = λ s. record { absolute = false; parts = [] };
  path_text = λ p. codes "/work";
  uuid_of = λ s. none;
}

abbrev config : PermissionLevel → Config
config permission = record {
  workspace = record { root = workdir; roots = workdir ∷ [] };
  permission = permission;
  max_command_length = 100;
  max_results = 10;
  device_id = 1;
}

abbrev run_tests : ChatAction
run_tests = record {
  id = codes "a1";
  tool = command_start;
  arguments =
      command_start_arguments
        (record { command = codes "make"; shell = bash; cwd = codes "."; timeout = pos 30000000 });
}

abbrev now : Stamps
now = record { request_id = 9; timestamp = 100; duration_ms = 3 }

abbrev begin : Session ℕ
begin = record { session_tools = []; audit = []; env = 0 }

-- the operator's answer, counted
abbrev says : ApprovalDecision → ApprovalRequest → Action ℕ ApprovalDecision
says d q n = (ok d, n + 1)

-- a dispatcher that counts by `k`
abbrev counts : ℕ → Message → Action ℕ Message
counts k m n = (ok (record m { body = operation_result null }), n + k)

denied_error :
    (authorize readers (says deny) (counts 10) (config read_write) run_tests "t" begin).0
    ≡ err (permission_error "local operator denied the action")
unfolding authorize approve ◌>>=◌
denied_error = refl

unauthorized_inert_example :
    execute readers (says deny) (counts 10) (config read_write) run_tests "c" "t" now begin
    ≡ execute readers (says deny) (counts 20) (config read_write) run_tests "c" "t" now begin
unauthorized_inert_example =
    unauthorized_inert readers (config read_write) run_tests (says deny) (counts 10) (counts 20) "c"
      "t" now begin (permission_error "local operator denied the action") denied_error

abbrev dot : ActionArguments
dot = path_arguments (codes ".")

abbrev parser : Blocks.Readers
parser = record {
  loads = λ s. some null;
  envelope = λ v. some (record { id = codes "a1"; tool = git_status; arguments = end });
  arguments = λ t fs. some dot;
}

abbrev answer : Chars
answer = codes "ok <gptlink_action> {} </gptlink_action>"

abbrev git_action : ChatAction
git_action = record { id = codes "a1"; tool = git_status; arguments = dot }
