-- ===== src/Chat/Protocol/Results.antt =====
-- `render_result` of src/gptlink/chat/protocol.py.
use gptlink.Common.Json.{Json, boolean, end, field, object, text}
use gptlink.Chat.Protocol.{is_action_id}
use gptlink.Prelude.{
  Chars, Chars_eq, String, String_eq, [], codes, eqb, false, if◌then◌else◌, true, ℕ, ℕ_eq, ◌++◌,
  ◌==◌, ◌∷◌,
}
use gptlink.Common.Action.{Action, guarded, pure}
use gptlink.Common.Errors.{action_protocol_error}

-- replace("&", "\\u0026").replace("<", "\\u003c").replace(">", "\\u003e"): no replacement text has
-- one of the three characters, so one pass does the same
abbrev escape_char : ℕ → Chars
escape_char c =
    if eqb c b'&'
    then codes "\\u0026"
    else if eqb c b'<'
    then codes "\\u003c"
    else if eqb c b'>'
    then codes "\\u003e"
    else c ∷ []

unfoldable pub escape : Chars → Chars
escape [] = []
escape (c ∷ s) = escape_char c ++ escape s

-- the arguments of render_result: a result, or an error's type and message
pub data Reply : Type 0 where
  success : Json → Reply
  failure : String → String → Reply

-- error_message or "action failed"
abbrev or_default : String → String
or_default message = if message == "" then "action failed" else message

unfoldable pub payload : Reply → Json
payload (success result) = object (field "ok" (boolean true) (field "result" result end))
payload (failure kind message) = object (
    field "ok" (boolean false) (
      field "error"
        (object (field "type" (text kind) (field "message" (text (or_default message)) end))) end))

-- json.dumps is a parameter
module _ (dumps : Json → Chars) {S : Type 0} where
  unfoldable pub render_result : Chars → Reply → Action S Chars
  unfolding escape payload
  render_result action_id reply =
      guarded (is_action_id action_id) (action_protocol_error "invalid result action id") (
        pure (
          codes "<gptlink_result id=\""
          ++ (action_id
              ++ (codes "\">\n"
                  ++ (escape (dumps (payload reply)) ++ codes "\n</gptlink_result>")))))
