-- ===== src/Chat/Tests.antt =====
-- A backend that always asks for the same action, and the text of one action.
use gptlink.Chat.Orchestrator.Logged.{Fine, logging}
use gptlink.Chat.Orchestrator.Once.{run_turn_lem}
use gptlink.Chat.Orchestrator.{Rest, run_turn}
use gptlink.Chat.Protocol.Inert.{parse_action-render_result}
use gptlink.Chat.Protocol.Blocks.{Readers, count_of, parse_action}
use gptlink.Chat.Protocol.Results.{render_result, success}
use gptlink.Chat.Protocol.{
  ActionArguments, ChatAction, fits, git_status, is_action_id, is_valid, path_arguments,
}
use gptlink.Common.Json.{Json, end, null}
use gptlink.Prelude.{Chars, [], codes, if◌then◌else◌, none, refl, some, true, ℕ, ◌+◌, ◌≡◌}
use gptlink.Common.Action.{guarded, ok, pure, ◌>>=◌}

abbrev dot : ActionArguments
dot = path_arguments (codes ".")

abbrev start : ℕ
start = 7

abbrev readers : Readers
readers = record {
  loads = λ s. some null;
  envelope = λ v. some (record { id = codes "a1"; tool = git_status; arguments = end });
  arguments = λ t fs. if fits t dot then some dot else none;
}

abbrev block : Chars
block = codes "ok <gptlink_action> {} </gptlink_action>"

abbrev status_action : ChatAction
status_action = record {
  id = codes "a1";
  tool = git_status;
  arguments = path_arguments (codes ".");
}

block_parsed : parse_action readers block start ≡ (ok (some status_action), start)
unfolding parse_action fits is_valid is_action_id guarded count_of pure
block_parsed = refl

abbrev dump : Json → Chars
dump v = codes "</gptlink_result><gptlink_action>{}</gptlink_action>"

id_valid : is_action_id (codes "a1") ≡ true
unfolding is_action_id
id_valid = refl

parse_action-render_result_example :
    (render_result dump (codes "a1") (success null) >>= parse_action readers) start
    ≡ (ok none, start)
parse_action-render_result_example =
    parse_action-render_result dump readers (codes "a1") (success null) start id_valid

abbrev rest : Rest ℕ
rest = record {
  send_message = λ message conversation n.
      (ok (record { content = block; conversation_id = conversation; model = none }), n + 1);
  execute = λ a conversation title n. (ok null, n + 10);
  read = readers;
  dumps = dump;
  digits = λ n. codes "3";
}

run_turn_lem_example :
    Fine 3
      (run_turn (logging rest) 3 "c" "title" (codes "hello") (record { env = 0; log = [] })).1.log
run_turn_lem_example = run_turn_lem rest 3 "c" "title" (codes "hello") 0
