-- ===== src/Chat/Orchestrator.antt =====
-- src/gptlink/chat/orchestrator.py: the bounded loop between a chat backend and the local runtime. The
-- backend, the runtime, the JSON reader and writer, and `str` of a number are parameters.
pub mod Logged
pub mod Once
use gptlink.Common.Json.{Json}
use gptlink.Chat.Protocol.Blocks.{Readers, parse_action}
use gptlink.Chat.Protocol.Results.{Reply, failure, render_result, success}
use gptlink.Chat.Protocol.{ChatAction}
use gptlink.Prelude.{
  Bool, Chars, Chars_eq, List, Option, String, String_eq, [], any, codes, if◌then◌else◌, none, some,
  suc, zero, ℕ, ℕ_eq, ◌++◌, ◌==◌, ◌∷◌,
}
use gptlink.Common.Action.{Action, catch, guarded, pure, raise, ◌>>=◌}
use gptlink.Common.Errors.{Exception, action_protocol_error, local_action_error, unexpected}

pub record ChatResponse : Type 0 where
  pub content : Chars
  pub conversation_id : String
  pub model : Option String

-- how a text was parsed: malformed, without an action, or with one
pub data Parsed : Type 0 where
  malformed : String → Parsed
  nothing : Parsed
  action : ChatAction → Parsed

abbrev of_option : Option ChatAction → Parsed
of_option none = nothing
of_option (some a) = action a

abbrev pub is_seen : Chars → List Chars → Bool
is_seen id seen = any (λ x. x == id) seen

-- the rest of the program: send_message, execute, json, str
pub record Rest (S : Type 0) : Type 0 where
  pub send_message : Chars → String → Action S ChatResponse
  pub execute : ChatAction → String → String → Action S Json
  pub read : Readers
  pub dumps : Json → Chars
  pub digits : ℕ → Chars

module _ {S : Type 0} (rest : Rest S) (max_actions_per_turn : ℕ)
    (conversation_id title : String) where
  -- except ActionProtocolError
  malformed_or : Exception → Action S Parsed
  malformed_or (action_protocol_error m) = pure (malformed m)
  malformed_or e = raise e

  unfoldable pub parsed : Chars → Action S Parsed
  unfolding malformed_or
  parsed content = catch (parse_action rest.read content >>= λ o. pure (of_option o)) malformed_or

  -- the handlers around `execute`
  explained : Exception → Action S Reply
  explained (local_action_error m) = pure (failure "local_action_error" m)
  explained e = pure (failure "internal_error" "local action failed")

  unfoldable pub carried_out : ChatAction → Action S Reply
  unfolding explained
  carried_out a =
      catch (rest.execute a conversation_id title >>= λ result. pure (success result)) explained

  -- a new id is remembered before its action is carried out
  unfoldable pub replied : List Chars → ChatAction → Action S Reply
  replied seen a =
      if is_seen a.id seen
      then pure (failure "duplicate_action" "action id was already handled in this turn")
      else carried_out a

  abbrev noted : List Chars → ChatAction → List Chars
  noted seen a = if is_seen a.id seen then seen else a.id ∷ seen

  -- _send
  unfoldable pub send : Chars → Action S ChatResponse
  send message = rest.send_message message conversation_id >>= λ response.
      guarded (response.conversation_id == conversation_id) (unexpected "RuntimeError")
        (pure response)

  abbrev told : ChatResponse → Chars → ChatResponse
  told response content = record {
    content = content;
    conversation_id = conversation_id;
    model = response.model;
  }

  -- one round of the loop, after which `next` goes on
  unfoldable pub round :
      (List Chars → ChatResponse → Action S ChatResponse)
      → List Chars
      → ChatResponse
      → Parsed
      → Action S ChatResponse
  round next seen response (malformed m) =
      pure (told response (codes "GPTLink rejected malformed action: " ++ codes m))
  round next seen response nothing = pure response
  round next seen response (action a) = replied seen a >>= λ reply.
      render_result rest.dumps a.id reply >>= λ rendered.
      send rendered >>= λ answer. next (noted seen a) answer

  -- for _ in range(n)
  unfoldable pub loop : ℕ → List Chars → ChatResponse → Action S ChatResponse
  unfolding round
  loop zero seen response = pure (
      told response
        (codes "GPTLink action limit reached (" ++ (rest.digits max_actions_per_turn ++ codes ")")))
  loop (suc n) seen response = parsed response.content >>= round (loop n) seen response

  unfoldable pub run_turn : Chars → Action S ChatResponse
  unfolding loop
  run_turn message = send message >>= loop max_actions_per_turn []
