-- ===== src/Cli/Tests.antt =====
-- A device that is revoked, and a session without --write, for src/gptlink/cli/main.py.
use gptlink.Agent.Paths.{FilePath, resolve}
use gptlink.Persistence.Repositories.Devices as Devices
use gptlink.Cli.Session.{
  Options, Place, Terminal, attend, greeted, local_command, permission_of, selected, turns,
}
use gptlink.Cli.Confined.{Chat, read_only_session, rest_of}
use gptlink.Cli.Revoked.{revoke_ends_access}
use gptlink.Cli.{bad_parameter, devices_revoke}
use gptlink.Chat.Orchestrator.{run_turn}
use gptlink.Chat.Prompt.{build_session_prompt, collect}
use gptlink.Chat.Protocol.Blocks as Blocks
use gptlink.Local.Runtime.{Config, Readers, Stamps, body}
use gptlink.Local.Approvals.{ApprovalDecision, ApprovalRequest, Session, deny, once}
use gptlink.Local.Runtime.ReadOnly.{changes}
use gptlink.Protocol.Messages.{Message, operation_result}
use gptlink.Gateway.Auth.{authenticate}
use gptlink.Cli.Changes.{Change, run}
use gptlink.Persistence.Samples.{laptop, tables}
use gptlink.Common.Json.{null}
use gptlink.Common.Types.{Capability_eq, PermissionLevel}
use gptlink.Common.Action.{Action, err, ok, pure, raise, ◌>>=◌}
use gptlink.Common.Errors.{Exception, capability_unavailable}
use gptlink.Prelude.{
  Chars, Chars_eq, List, String_eq, [], codes, false, if◌then◌else◌, none, pos, refl, some, true, ℕ,
  ℕ_eq, ◌+◌, ◌==◌, ◌∷◌, ◌≡◌,
}

revoke_ends_access_example :
    let (o, t') = devices_revoke (some 1) 90 tables in
    (o ≡ ok tt)
    × ((cs : List Change) (token : Chars)
        → (e : Exception) × ((authenticate (λ m. m) 1 token (run t' cs)).0 ≡ err e))
revoke_ends_access_example = revoke_ends_access (λ m. m) 1 90 laptop tables refl

unknown_device : devices_revoke (some 7) 90 tables ≡ (err bad_parameter, tables)
unfolding devices_revoke ◌>>=◌ Devices.get
unknown_device = refl

abbrev begin : Session ℕ
begin = record { session_tools = []; audit = []; env = 0 }

abbrev terminal : Terminal (Session ℕ)
terminal = record {
  health = pure true;
  get_conversation = λ i. raise (capability_unavailable "conversation history");
  list_conversations = raise (capability_unavailable "conversation listing");
  ask_uuid = pure "c1";
  ask_number = pure (pos 1);
  uuid_text = λ s. if s == "" then none else some s;
}

abbrev chat : Chat ℕ
chat = record {
  send_message = λ m i w. (
    ok (record { content = m; conversation_id = i; model = none }),
    record w { env = w.env + 1 },
  );
  read = record { loads = λ s. none; envelope = λ v. none; arguments = λ t fs. none };
  dumps = λ v. [];
  digits = λ n. [];
}

abbrev workdir : FilePath
workdir = record { absolute = true; parts = "work" ∷ [] }

abbrev readers : Readers
readers = record {
  disk = record {
    expanduser = λ p. ok p;
    resolve_strict = λ p. ok p;
    resolve = λ p. ok p;
    exists = λ p. true;
    is_dir = λ p. true;
  };
  path_of = λ s. workdir;
  path_text = λ p. codes "/work";
  uuid_of = λ s. none;
}

abbrev config : Config
config = record {
  workspace = record { root = workdir; roots = workdir ∷ [] };
  permission = PermissionLevel.read_only;
  max_command_length = 100;
  max_results = 10;
  device_id = 1;
}

abbrev stamps : Session ℕ → Stamps
stamps w = record { request_id = w.env; timestamp = 5; duration_ms = 1 }

abbrev options : Options
options = record {
  chat = true;
  conversation = some "c1";
  read_only = false;
  write = false;
  chat_backend = "web2api";
}

abbrev place : Place
place = record { root = "/work"; name = "work" }

abbrev says : ApprovalDecision → ApprovalRequest → Action ℕ ApprovalDecision
says d q n = (ok d, n + 100)

-- a dispatcher that counts by `k` what would change something
abbrev counts : ℕ → Message → Action ℕ Message
counts k m n =
    (ok (record m { body = operation_result null }), n + (if changes m.body then k else 1))

abbrev typed : List Chars
typed = codes "hello" ∷ codes " /Exit " ∷ []

reads_agree : (m : Message) (t : ℕ) → changes m.body ≡ false → counts 10 m t ≡ counts 20 m t
reads_agree m t h = rw h refl

is_quiet : config.permission ≡ permission_of options
unfolding permission_of
is_quiet = refl

read_only_session_example :
    local_command terminal
      (rest_of chat readers (says once) (counts 10) config stamps)
      3
      place
      options
      typed
      begin
    ≡ local_command terminal
        (rest_of chat readers (says deny) (counts 20) config stamps)
        3
        place
        options
        typed
        begin
read_only_session_example =
    read_only_session terminal chat readers config stamps 3 place (says once) (says deny)
      (counts 10) (counts 20) options typed begin refl is_quiet reads_agree

-- the session is left
session_left :
    (local_command terminal
      (rest_of chat readers (says once) (counts 10) config stamps)
      3
      place
      options
      typed
      begin).0
    ≡ ok true
unfolding local_command attend selected turns run_turn collect build_session_prompt greeted ◌>>=◌
    gptlink.Local.Runtime.execute gptlink.Local.Runtime.attempt gptlink.Local.Runtime.message
    gptlink.Local.Runtime.body gptlink.Agent.Paths.resolve_existing gptlink.Local.Runtime.authorize
    gptlink.Local.Approvals.on_env gptlink.Local.Runtime.bounded_result
    gptlink.Chat.Orchestrator.send gptlink.Chat.Orchestrator.parsed Blocks.parse_action
    permission_of Blocks.count_of gptlink.Prelude.strip
session_left = refl
