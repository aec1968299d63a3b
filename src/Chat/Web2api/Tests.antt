-- ===== src/Chat/Web2api/Tests.antt =====
-- The adapter of src/gptlink/chat/web2api.py at concrete answers.
use gptlink.Chat.Web2api.{Http, health, send_message}
use gptlink.Chat.Orchestrator.{Rest}
use gptlink.Common.Json.{Json, array, cons, end, field, nil, null, object, text}
use gptlink.Common.Action.{err, ok, ◌>>=◌}
use gptlink.Common.Errors.{chat_backend_error, unexpected}
use gptlink.Prelude.{[], codes, none, refl, some, ℕ, ◌+◌, ◌≡◌}

-- the service answers in the conversation "c1"
abbrev answer : Json
answer = object (
    field "choices"
      (array (cons (object (field "message" (object (field "content" (text "hi") end)) end)) nil))
      (field "conversation_id" (text "c1") end))

abbrev service : Http ℕ
service = record { get = λ p n. (ok null, n + 1); post = λ p v n. (ok answer, n + 1) }

abbrev rest : Rest ℕ
rest = record {
  send_message = λ m c. send_message service "auto" (text "hello") (some c);
  execute = λ a c t n. (ok null, n);
  read = record { loads = λ s. none; envelope = λ v. none; arguments = λ t fs. none };
  dumps = λ v. [];
  digits = λ n. [];
}

kept_conversation :
    (rest.send_message [] "c1" 0).0
    ≡ ok (record { content = codes "hi"; conversation_id = "c1"; model = none })
unfolding send_message ◌>>=◌
kept_conversation = refl

other_conversation :
    (rest.send_message [] "c2" 0).0
    ≡ err (chat_backend_error "ChatGPT-Web2API did not preserve the attached conversation_id")
unfolding send_message ◌>>=◌
other_conversation = refl

-- a status that has no hash
abbrev broken : Http ℕ
broken = record {
  get = λ p n. (ok (object (field "status" (array nil) end)), n);
  post = λ p v n. (ok null, n);
}

health_raises : (health broken 0).0 ≡ err (unexpected "TypeError")
unfolding health ◌>>=◌
health_raises = refl
