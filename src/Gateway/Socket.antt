-- ===== src/Gateway/Socket.antt =====
-- src/gptlink/gateway/websocket.py: the handshake and the loop of one Agent's socket. The peer's
-- frames, the clock, the outcome of each send and other tasks' sections at the awaits are arguments;
-- json.loads and the decoding of a message are parameters.
pub mod Handshake
mod Tests
use gptlink.Persistence.Models.{Device}
use gptlink.Gateway.Registry.Requests.{Event, register, resolve, run}
use gptlink.Gateway.Registry.{Connection, Registry, close_connection, disconnect, on_db, touch}
use gptlink.Protocol.Messages.{Body, Message, agent_hello, heartbeat_ping}
use gptlink.Common.Json.{Fields, Json, array, boolean, cons, end, field, nil, number, object, text}
use gptlink.Common.Action.{Outcome, err, ok}
use gptlink.Common.Errors.{Exception, authentication_error, connection_unavailable, timeout_error}
use gptlink.Prelude.{
  Bool, Chars, Chars_eq, List, Option, String, String_eq, [], false, if◌then◌else◌, ltb_ℤ, none,
  not, pos, some, true, ℕ, ℕ_eq, ◌&&◌, ◌==◌, ◌||◌, ◌∷◌,
}
use gptlink.Gateway.Auth as Auth

pub data Frame : Type 0 where
  gone : Frame
  without_text : Frame
  of_text : Chars → Frame

-- how a session ends: ProtocolClose, an exception, or the peer is gone
pub data Ending : Type 0 where
  closes : ℕ → Ending
  raises : Exception → Ending
  leaves : Ending

pub data Received : Type 0 where
  got : Message → Received
  stopped : Ending → Received

-- raw.get(key)
abbrev lookup : String → Fields → Option Json
lookup k end = none
lookup k (field j v fs) = if j == k then some v else lookup k fs

-- type(version) is int and version != 1
abbrev is_other_int : Option Json → Bool
is_other_int (some (number n)) = ltb_ℤ n (pos 1) || ltb_ℤ (pos 1) n
is_other_int _ = false

-- a list that is not [1]: True equals 1
abbrev is_one : Json → Bool
is_one (number n) = not (ltb_ℤ n (pos 1) || ltb_ℤ (pos 1) n)
is_one (boolean b) = b
is_one _ = false

abbrev lists_others : Option Json → Bool
lists_others (some (array (cons v nil))) = not (is_one v)
lists_others (some (array vs)) = true
lists_others _ = false

abbrev is_hello_type : Option Json → Bool
is_hello_type (some (text t)) = t == "agent.hello"
is_hello_type _ = false

abbrev offers_others : Option Json → Bool
offers_others (some (object payload)) = lists_others (lookup "versions" payload)
offers_others _ = false

-- the tests on the raw object before it is decoded
abbrev is_incompatible : Json → Bool
is_incompatible (object raw) =
    is_other_int (lookup "protocol_version" raw)
    || (is_hello_type (lookup "type" raw) && offers_others (lookup "payload" raw))
is_incompatible _ = false

abbrev pub is_hello : Body → Option Chars
is_hello (agent_hello p) = some p.token
is_hello _ = none

abbrev is_ping : Body → Bool
is_ping (heartbeat_ping t) = true
is_ping _ = false

-- the close code of each way to end
abbrev pub close_code : Ending → ℕ
close_code (closes code) = code
close_code (raises timeout_error) = 4408
close_code (raises authentication_error) = 4401
close_code (raises (connection_unavailable m)) = 4409
close_code (raises e) = 1000
close_code leaves = 1000

-- one frame of the loop: the sections of other tasks before it and before its reply is resolved, the
-- readings for the touch, and whether the pong can be sent
pub record Turn : Type 0 where
  pub frame : Frame
  pub others : List Event
  pub now : ℕ
  pub clock : ℕ
  pub between : List Event
  pub sends : Bool

-- the handshake: `hello` is `none` if it does not come in time; `unstored` where the presence update at
-- the end fails
pub record Opening : Type 0 where
  pub ready : Bool
  pub hello : Option Frame
  pub others : List Event
  pub socket : ℕ
  pub now : ℕ
  pub clock : ℕ
  pub sends : Bool
  pub unstored : Bool

-- Connection(device_id, socket)
abbrev pub socket_of : Opening → Message → Connection
socket_of o m = record { id = o.socket; device_id = m.device_id }

module _ (loads : Chars → Option Json) (decode : Chars → Option Message) where
  decoded : Option Message → Received
  decoded none = stopped (closes 4400)
  decoded (some m) = got m

  loaded : Chars → Option Json → Received
  unfolding decoded
  loaded s none = stopped (closes 4400)
  loaded s (some raw) = if is_incompatible raw then stopped (closes 4406) else decoded (decode s)

  -- receive_message
  unfoldable pub receive : Frame → Received
  unfolding loaded
  receive gone = stopped leaves
  receive without_text = stopped (closes 4400)
  receive (of_text s) = loaded s (loads s)

  -- the socket of a session; a session changes the registry and comes to an end
  abbrev Session : Type 0
  Session = Registry → Ending × Registry

  unanswered : Turn → Message → Session → Session
  unanswered t m rest s =
      if is_ping m.body then (if t.sends then rest s else (leaves, s)) else (closes 4400, s)

  resolved : Turn → Message → Session → Outcome Bool × Registry → Ending × Registry
  unfolding unanswered
  resolved t m rest (ok true, s) = rest s
  resolved t m rest (ok false, s) = unanswered t m rest s
  resolved t m rest (err e, s) = (raises e, s)

  touched : Connection → Turn → Message → Session → Outcome {0} Unit × Registry → Ending × Registry
  unfolding resolved
  touched c t m rest (err e, s) = (raises e, s)
  touched c t m rest (ok u, s) = resolved t m rest (resolve c m (run t.between s))

  received : Connection → Turn → Session → Received → Session
  unfolding touched
  received c t rest (stopped e) s = (e, s)
  received c t rest (got m) s =
      if m.device_id == c.device_id
      then touched c t m rest (touch c t.now t.clock s)
      else (closes 4401, s)

  -- while True; the peer is gone when it has sent its frames
  unfoldable pub loop : Connection → List Turn → Session
  unfolding received
  loop c [] s = (leaves, s)
  loop c (t ∷ ts) s = received c t (loop c ts) (receive t.frame) (run t.others s)

  -- the finally block, with a connection and without one
  unfoldable pub finish : Opening → Ending × Registry → Registry
  finish o (e, s) = close_connection (record { id = o.socket; device_id = 0 }) (close_code e) s

  -- where the disconnection raises, the socket is not closed here
  after_disconnect : Opening → Ending → Outcome {0} Unit × Registry → Registry
  after_disconnect o e (ok u, s) = finish o (e, s)
  after_disconnect o e (err x, s) = s

  unfoldable pub finish_connected : Opening → Connection → Ending × Registry → Registry
  unfolding finish after_disconnect
  finish_connected o c (e, s) = after_disconnect o e (disconnect o.unstored c s)

  module _ (sha256 : List ℕ → List ℕ) where
    unfoldable pub registered :
        Opening → List Turn → Connection → Outcome Connection × Registry → Registry
    unfolding finish_connected
    registered o ts c (err e, s) = finish o (raises e, s)
    registered o ts c (ok c', s) = finish_connected o c (loop c ts s)

    unfoldable pub welcomed : Opening → List Turn → Message → Outcome Device × Registry → Registry
    unfolding registered
    welcomed o ts m (err e, s) = finish o (raises e, s)
    welcomed o ts m (ok d, s) =
        if o.sends
        then registered o ts (socket_of o m) (register (socket_of o m) o.now o.clock s)
        else finish o (leaves, s)

    unfoldable pub greeted : Opening → List Turn → Message → Option Chars → Registry → Registry
    unfolding welcomed
    greeted o ts m none s = finish o (closes 4400, s)
    greeted o ts m (some token) s =
        welcomed o ts m (on_db (Auth.authenticate sha256 m.device_id token) s)

    unfoldable pub opened : Opening → List Turn → Received → Registry → Registry
    unfolding greeted
    opened o ts (stopped e) s = finish o (e, s)
    opened o ts (got m) s = greeted o ts m (is_hello m.body) s

    unfoldable pub awaited : Opening → List Turn → Option Frame → Registry → Registry
    unfolding opened
    awaited o ts none s = finish o (raises timeout_error, s)
    awaited o ts (some frame) s = opened o ts (receive frame) s

    -- agent_websocket
    unfoldable pub agent_websocket : Opening → List Turn → Registry → Registry
    unfolding awaited
    agent_websocket o ts s =
        if o.ready then awaited o ts o.hello (run o.others s) else finish o (closes 1013, s)
