-- ===== src/Agent/Client.antt =====
-- `AgentClient._connected` of src/gptlink/agent/client.py: one connection to the Gateway. The frames that
-- arrive, and whether a text can be sent, are arguments; the decoding of a message and the
-- capabilities in their order are parameters. Heartbeats are sent by another task.
pub mod Conversation
mod Tests
use gptlink.Protocol.Messages.{
  Body, Message, agent_hello, agent_welcome, error, heartbeat_pong, protocol_version,
}
use gptlink.Agent.Dispatcher.{dispatch}
use gptlink.Common.Types.{Capability, Capability_eq}
use gptlink.Common.Action.{Action, Outcome, err, guarded, ok, raise}
use gptlink.Common.Errors.{Exception, timeout_error, unexpected, value_error}
use gptlink.Prelude.{
  Bool, Chars, Chars_eq, List, Option, String, String_eq, [], false, if◌then◌else◌, none, not, some,
  true, ℕ, ℕ_eq, ◌&&◌, ◌++◌, ◌==◌, ◌∷◌,
}

-- what `_receive_text` waits for: nothing in time, an end of the connection, bytes, or a text
pub data Incoming : Type 0 where
  nothing : Incoming
  hung_up : Incoming
  of_bytes : Incoming
  of_text : Chars → Incoming

-- a frame, and whether the reply to it can be sent
pub record Exchange : Type 0 where
  pub frame : Incoming
  pub sends : Bool

pub record Credential : Type 0 where
  pub scheme : String
  pub device_id : ℕ
  pub token : Chars

-- ConnectionError, and an exception of the websocket library
abbrev pub connection_error : Exception
connection_error = unexpected "ConnectionError"

abbrev closed_error : Exception
closed_error = unexpected "ConnectionClosed"

-- wss for https; ws only outside production
unfoldable pub ws_scheme : Bool → String → Outcome String
ws_scheme production scheme =
    if scheme == "https"
    then ok "wss"
    else if (scheme == "http") && not production
    then ok "ws"
    else err (value_error "insecure Gateway URL is not allowed")

abbrev pub is_pong : Body → Bool
is_pong (heartbeat_pong t) = true
is_pong _ = false

abbrev is_welcome : Body → Bool
is_welcome (agent_welcome v) = true
is_welcome _ = false

-- the services' state, and the messages sent so far
pub record Line (S : Type 0) : Type 0 where
  pub services : S
  pub sent : List Message

abbrev unavailable : Body
unavailable = error (record {
  code = "operation_unavailable";
  message = "Agent operations are not configured";
  retryable = false;
})

module _ (decode : Chars → Option Message) where
  decoded : Option Message → Outcome Message
  decoded none = err (value_error "validation error")
  decoded (some m) = ok m

  unfoldable pub receive : Incoming → Outcome Message
  unfolding decoded
  receive nothing = err timeout_error
  receive hung_up = err closed_error
  receive of_bytes = err connection_error
  receive (of_text s) = decoded (decode s)

  module _ {S : Type 0} (dispatcher : Option (Message → S → Message × S)) (device_id : ℕ) where
    -- the reply to a message: of the dispatcher, if there is one
    unfoldable pub reply_by : Option (Message → S → Message × S) → Message → S → Message × S
    reply_by none m s = (
      record {
        version = protocol_version;
        request_id = m.request_id;
        device_id = device_id;
        body = unavailable;
      },
      s,
    )
    reply_by (some dispatch) m s = dispatch m s

    unfoldable pub answer : Message → Line S → Line S
    unfolding reply_by
    answer m w =
        let (reply, s) = reply_by dispatcher m w.services in
        record { services = s; sent = w.sent ++ reply ∷ [] }

    -- a reply that cannot be sent ends the connection, after the operation ran
    unfoldable pub unsent : Message → Line S → Line S
    unfolding reply_by
    unsent m w = record w { services = (reply_by dispatcher m w.services).1 }

    unfoldable pub heard : Exchange → Action (Line S) Unit → Outcome Message → Action (Line S) Unit
    unfolding answer unsent
    heard x rest (err e) w = (err e, w)
    heard x rest (ok m) w =
        if m.device_id == device_id
        then (if is_pong m.body
            then rest w
            else if x.sends
            then rest (answer m w)
            else (err closed_error, unsent m w))
        else (err connection_error, w)

    -- while not stop_event.is_set(): it is set when the frames are over
    unfoldable pub converse : List Exchange → Action (Line S) Unit
    unfolding heard
    converse [] w = (ok tt, w)
    converse (x ∷ xs) w = heard x (converse xs) (receive x.frame) w

    welcomed : List Exchange → Outcome Message → Action (Line S) Unit
    welcomed xs (err e) = raise e
    welcomed xs (ok m) =
        guarded (is_welcome m.body && (m.device_id == device_id)) connection_error (converse xs)

  module _ {S : Type 0} (dispatcher : Option (Message → S → Message × S)) where
    -- the hello with its fresh request id
    abbrev pub hello : Credential → ℕ → List Capability → Message
    hello c request_id capabilities = record {
      version = protocol_version;
      request_id = request_id;
      device_id = c.device_id;
      body = agent_hello (record {
        token = c.token;
        versions = protocol_version ∷ [];
        capabilities = capabilities;
      });
    }

    opened :
        Credential
        → ℕ
        → List Capability
        → Incoming
        → List Exchange
        → Outcome String
        → Action (Line S) Unit
    unfolding welcomed
    opened c request_id capabilities first xs (err e) w = (err e, w)
    opened c request_id capabilities first xs (ok scheme) w =
        welcomed dispatcher c.device_id xs (receive first)
          (record w { sent = w.sent ++ hello c request_id capabilities ∷ [] })

    unfoldable pub connected :
        Bool → Credential → ℕ → List Capability → Incoming → List Exchange → Action (Line S) Unit
    unfolding opened
    connected production c request_id capabilities first xs =
        opened c request_id capabilities first xs (ws_scheme production c.scheme)
