-- ===== src/Agent/Client/Tests.antt =====
-- A short conversation, for src/gptlink/agent/client.py.
use gptlink.Agent.Client.{Exchange, Line, converse, of_bytes, of_text, reply_by}
use gptlink.Agent.Client.Conversation.{IsCorrelated, answered_ids, ids, one_reply_each}
use gptlink.Protocol.Messages.{Message, operation_result, process_list, protocol_version}
use gptlink.Common.Json.{null}
use gptlink.Prelude.{Chars, List, Option, [], none, refl, some, true, ℕ, ◌++◌, ◌+◌, ◌∷◌, ◌≡◌}

abbrev request_of : ℕ → Message
request_of n = record {
  version = protocol_version;
  request_id = n;
  device_id = 1;
  body = process_list;
}

-- the text is the request id in one character
abbrev decode : Chars → Option Message
decode [] = none
decode (c ∷ s) = some (request_of c)

abbrev dispatch : Message → ℕ → Message × ℕ
dispatch m n = (record m { body = operation_result null }, n + 1)

dispatch-IsCorrelated : IsCorrelated decode 1 (some dispatch)
unfolding reply_by
dispatch-IsCorrelated = record { same_request = λ m s. refl }

abbrev frames : List Exchange
frames =
    record { frame = of_text (5 ∷ []); sends = true }
    ∷ record { frame = of_text (6 ∷ []); sends = true }
    ∷ record { frame = of_bytes; sends = true }
    ∷ record { frame = of_text (7 ∷ []); sends = true }
    ∷ []

abbrev line : Line ℕ
line = record { services = 0; sent = [] }

one_reply_each_example :
    ids (converse decode (some dispatch) 1 frames line).1.sent
    ≡ ids [] ++ answered_ids decode 1 frames
one_reply_each_example = one_reply_each decode 1 (some dispatch) dispatch-IsCorrelated frames line
