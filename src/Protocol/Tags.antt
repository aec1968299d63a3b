-- ===== src/Protocol/Tags.antt =====
-- The discriminator `type` of the messages and MESSAGE_TYPES, of src/gptlink/protocol/messages.py.
use gptlink.Protocol.Messages.{
  Body, agent_hello, agent_welcome, command_cancel, command_finished, command_output,
  command_output_request, command_start, command_started, command_status, error, filesystem_list,
  filesystem_read, filesystem_search, filesystem_write, git_diff, git_status, heartbeat_ping,
  heartbeat_pong, operation_result, process_list,
}
use gptlink.Prelude.{
  All, Bool-cases, Chars_eq, List, Option, String, String_eq, [], eq_iff, if◌then◌else◌, inl, inr,
  none, refl, some, ℕ_eq, ◌==◌, ◌↔◌, ◌∷◌, ◌≡◌,
}

-- the class of a message, without its fields
pub data Class : Type 0 where
  agent_hello_class agent_welcome_class heartbeat_ping_class : Class
  heartbeat_pong_class command_start_class command_started_class : Class
  command_output_class command_finished_class command_cancel_class : Class
  command_status_class command_output_request_class filesystem_list_class : Class
  filesystem_read_class filesystem_write_class filesystem_search_class : Class
  git_status_class git_diff_class process_list_class : Class
  operation_result_class error_class : Class

unfoldable class_of : Body → Class
class_of (agent_hello a) = agent_hello_class
class_of (agent_welcome a) = agent_welcome_class
class_of (heartbeat_ping a) = heartbeat_ping_class
class_of (heartbeat_pong a) = heartbeat_pong_class
class_of (command_start a) = command_start_class
class_of (command_started a b) = command_started_class
class_of (command_output a b) = command_output_class
class_of (command_finished a b) = command_finished_class
class_of (command_cancel a b) = command_cancel_class
class_of (command_status a) = command_status_class
class_of (command_output_request a b) = command_output_request_class
class_of (filesystem_list a) = filesystem_list_class
class_of (filesystem_read a) = filesystem_read_class
class_of (filesystem_write a) = filesystem_write_class
class_of (filesystem_search a) = filesystem_search_class
class_of (git_status a) = git_status_class
class_of (git_diff a) = git_diff_class
class_of process_list = process_list_class
class_of (operation_result a) = operation_result_class
class_of (error a) = error_class

-- each class's `type: Literal[...]`
unfoldable pub tag : Class → String
tag agent_hello_class = "agent.hello"
tag agent_welcome_class = "agent.welcome"
tag heartbeat_ping_class = "heartbeat.ping"
tag heartbeat_pong_class = "heartbeat.pong"
tag command_start_class = "command.start"
tag command_started_class = "command.started"
tag command_output_class = "command.output"
tag command_finished_class = "command.finished"
tag command_cancel_class = "command.cancel"
tag command_status_class = "command.status"
tag command_output_request_class = "command.output.request"
tag filesystem_list_class = "filesystem.list"
tag filesystem_read_class = "filesystem.read"
tag filesystem_write_class = "filesystem.write"
tag filesystem_search_class = "filesystem.search"
tag git_status_class = "git.status"
tag git_diff_class = "git.diff"
tag process_list_class = "process.list"
tag operation_result_class = "operation.result"
tag error_class = "error"

-- MESSAGE_TYPES, as the list of its items
unfoldable message_types : List (String × Class)
message_types =
    ("agent.hello", agent_hello_class)
    ∷ ("agent.welcome", agent_welcome_class)
    ∷ ("heartbeat.ping", heartbeat_ping_class)
    ∷ ("heartbeat.pong", heartbeat_pong_class)
    ∷ ("command.start", command_start_class)
    ∷ ("command.started", command_started_class)
    ∷ ("command.output", command_output_class)
    ∷ ("command.finished", command_finished_class)
    ∷ ("command.cancel", command_cancel_class)
    ∷ ("command.status", command_status_class)
    ∷ ("command.output.request", command_output_request_class)
    ∷ ("filesystem.list", filesystem_list_class)
    ∷ ("filesystem.read", filesystem_read_class)
    ∷ ("filesystem.write", filesystem_write_class)
    ∷ ("filesystem.search", filesystem_search_class)
    ∷ ("git.status", git_status_class)
    ∷ ("git.diff", git_diff_class)
    ∷ ("process.list", process_list_class)
    ∷ ("operation.result", operation_result_class)
    ∷ ("error", error_class)
    ∷ []

-- dict.get
unfoldable pub lookup : String → List (String × Class) → Option Class
lookup k [] = none
lookup k ((j, c) ∷ rest) = if j == k then some c else lookup k rest

lookup-tag : (c : Class) → lookup (tag c) message_types ≡ some c
unfolding tag lookup message_types
lookup-tag agent_hello_class = refl
lookup-tag agent_welcome_class = refl
lookup-tag heartbeat_ping_class = refl
lookup-tag heartbeat_pong_class = refl
lookup-tag command_start_class = refl
lookup-tag command_started_class = refl
lookup-tag command_output_class = refl
lookup-tag command_finished_class = refl
lookup-tag command_cancel_class = refl
lookup-tag command_status_class = refl
lookup-tag command_output_request_class = refl
lookup-tag filesystem_list_class = refl
lookup-tag filesystem_read_class = refl
lookup-tag filesystem_write_class = refl
lookup-tag filesystem_search_class = refl
lookup-tag git_status_class = refl
lookup-tag git_diff_class = refl
lookup-tag process_list_class = refl
lookup-tag operation_result_class = refl
lookup-tag error_class = refl

found-All :
    (s : String) (c : Class) (l : List (String × Class))
    → All (λ e. e.0 ≡ tag e.1) l
    → lookup s l ≡ some c
    → s ≡ tag c
unfolding lookup
found-All s c [] a h = cc
found-All s c ((j, d) ∷ l) (e, a) h = elim (Bool-cases (j == s)) as (λ _. s ≡ tag c) [
  | inl same ↦ cc ((eq_iff j s).0 same, rw same at h)
  | inr other ↦ found-All s c l a (rw other at h)
]

lookup_only : (c : Class) (s : String) → lookup s message_types ≡ some c → s ≡ tag c
unfolding message_types tag
lookup_only c s h =
    found-All s c message_types
      ((
        refl,
        (
          refl,
          (
            refl,
            (
              refl,
              (
                refl,
                (
                  refl,
                  (
                    refl,
                    (
                      refl,
                      (
                        refl,
                        (
                          refl,
                          (
                            refl,
                            (
                              refl,
                              (refl, (refl, (refl, (refl, (refl, (refl, (refl, (refl, tt)))))))),
                            ),
                          ),
                        ),
                      ),
                    ),
                  ),
                ),
              ),
            ),
          ),
        ),
      ))
      h

-- The table finds a class under its own tag and under no other, so no two classes share a tag.
message_types_lem : (c : Class) (s : String) → (lookup s message_types ≡ some c) ↔ (s ≡ tag c)
message_types_lem c s = (lookup_only c s, λ e. rw e (lookup-tag c))
