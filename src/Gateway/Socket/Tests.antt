-- ===== src/Gateway/Socket/Tests.antt =====
-- A session without a credential, for src/gptlink/gateway/websocket.py.
use gptlink.Prelude.{
  Chars, List, Option, [], codes, false, pos, refl, some, split, true, ℕ, ◌∷◌, ◌≡◌,
}
use gptlink.Gateway.Socket.Handshake.{is_authenticated, unauthenticated_inert}
use gptlink.Gateway.Socket.{Ending, Opening, agent_websocket, finish, of_text, receive}
use gptlink.Gateway.Registry.Requests.{run}
use gptlink.Gateway.Registry.{Registry, waiting}
use gptlink.Protocol.Messages.{Message, agent_hello, protocol_version}
use gptlink.Persistence.Samples.{tables}
use gptlink.Common.Json.{Json, end, object}
use gptlink.Gateway.Auth as Auth

abbrev hello : Message
hello = record {
  version = protocol_version;
  request_id = 3;
  device_id = 1;
  body = agent_hello (record { token = codes "guess"; versions = pos 1 ∷ []; capabilities = [] });
}

abbrev loads : Chars → Option Json
loads s = some (object end)

abbrev decode : Chars → Option Message
decode s = some hello

abbrev no_digest : List ℕ → List ℕ
no_digest m = []

abbrev quiet_registry : Registry
quiet_registry = record {
  db = tables;
  connections = [];
  pending = [];
  futures = λ f. waiting;
  fresh = 0;
  closed = [];
}

abbrev opening : Opening
opening = record {
  ready = true;
  hello = some (of_text (codes "{}"));
  others = [];
  socket = 9;
  now = 100;
  clock = 100;
  sends = true;
  unstored = false;
}

guessed :
    is_authenticated loads decode no_digest opening.hello (run opening.others quiet_registry).db
    ≡ false
unfolding receive run Auth.verify_device_token split Auth.from_hex
guessed = refl

unauthenticated_inert_example :
    (e : Ending) × (agent_websocket loads decode no_digest opening [] quiet_registry
      ≡ finish loads decode opening (e, run [] quiet_registry))
unauthenticated_inert_example =
    unauthenticated_inert loads decode no_digest opening [] quiet_registry guessed
