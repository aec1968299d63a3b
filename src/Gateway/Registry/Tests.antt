-- ===== src/Gateway/Registry/Tests.antt =====
-- A device that connects, answers a request and leaves, in src/gptlink/gateway/registry.py.
use gptlink.Gateway.Registry.{
  Connection, Registry, connection_at, database_error, disconnect, is_current, is_waiting, publish,
  waiting,
}
use gptlink.Gateway.Registry.Requests.{
  Awaits, await_future, connected, deliver, disconnects, enter, enters, publishes, reply, request,
  resolve, resolves, run, send, step, touches,
}
use gptlink.Gateway.Registry.Lifecycle.{IsAwaited, no_forgotten_waiter}
use gptlink.Gateway.Registry.Answers.{IsBelow, request_replied}
use gptlink.Gateway.Registry.Replies.{SomeReplied}
use gptlink.Gateway.Registry.Release.{IsDropped, disconnect_releases}
use gptlink.Gateway.Registry.Shown.{IsShown, run-IsShown}
use gptlink.Common.Json.{Json, null, text}
use gptlink.Common.Action.{err, ok, ◌>>=◌}
use gptlink.Protocol.Messages.{Message, git_status, operation_result}
use gptlink.Persistence.Samples.{tables}
use gptlink.Prelude.{[], arith, false, pos, refl, some, true, ℕ, ◌&&◌, ◌++◌, ◌<◌, ◌∷◌, ◌≡◌, ◌⊎◌}
use gptlink.Persistence.Repositories.Devices as Devices

abbrev laptop : Connection
laptop = record { id = 40; device_id = 1 }

abbrev stranger : Connection
stranger = record { id = 41; device_id = 2 }

abbrev begin : Registry
begin = record {
  db = tables;
  connections = [];
  pending = [];
  futures = λ f. waiting;
  fresh = 0;
  closed = [];
}

abbrev ask : Message
ask = record { version = pos 1; request_id = 5; device_id = 1; body = git_status (0 ∷ []) }

abbrev reply_to : ℕ → Json → Message
reply_to r v = record { version = pos 1; request_id = r; device_id = 1; body = operation_result v }

-- a wrong device, a wrong id and at last the reply
abbrev quiet : Awaits
quiet = record {
  entering = touches laptop 10 20 ∷ [];
  sending = resolves stranger (reply_to 5 null) ∷ [];
  breaks = false;
  unstored = false;
  retiring = [];
  waiting_for =
      resolves laptop (reply_to 6 null) ∷ resolves laptop (reply_to 5 (text "clean")) ∷ [];
}

abbrev connected_start : Registry
connected_start = run (publishes laptop 5 6 ∷ []) begin

IsBelow-begin : IsBelow begin
IsBelow-begin = record { below = refl }

IsBelow-start : IsBelow connected_start
unfolding run step publish Devices.mark_online ◌>>=◌
IsBelow-start = record { below = refl }

answered_request : (request 1 ask quiet connected_start).0 ≡ ok (text "clean")
unfolding request connected run step ◌>>=◌ Devices.mark_online Devices.touch send await_future
answered_request = refl

request_replied_example :
    (c : Connection) × (connection_at 1 connected_start.connections ≡ some c)
    × (ask.device_id ≡ 1)
    × SomeReplied 1 5 c (text "clean") (quiet.sending ++ quiet.waiting_for)
request_replied_example =
    request_replied 1 ask quiet connected_start (text "clean") IsBelow-start answered_request

-- a request that is answered, and then a second reply and the disconnection
abbrev answered_once : Registry
answered_once =
    run (enters laptop 1 5 ∷ resolves laptop (reply_to 5 (text "clean")) ∷ []) connected_start

answered_fresh : 0 < answered_once.fresh
unfolding run step enter resolve reply deliver Devices.mark_online ◌>>=◌
answered_fresh = omega arith

answered_done : is_waiting (answered_once.futures 0) ≡ false
unfolding run step enter resolve reply deliver Devices.mark_online ◌>>=◌
answered_done = refl

begin-IsAwaited : IsAwaited begin
begin-IsAwaited = record { entry = λ g small w. absurd (omega (arith, small)) }

no_forgotten_waiter_example :
    IsAwaited (run (publishes laptop 5 6 ∷ enters laptop 1 5 ∷ disconnects false laptop ∷ []) begin)
no_forgotten_waiter_example =
    no_forgotten_waiter (publishes laptop 5 6 ∷ enters laptop 1 5 ∷ disconnects false laptop ∷ [])
      begin begin-IsAwaited

abbrev waiting_request : Registry
waiting_request = run (enters laptop 1 5 ∷ []) connected_start

disconnect_releases_example :
    let (o, t) = disconnect true laptop waiting_request in
    ((true && is_current laptop waiting_request ≡ true)
      × (o ≡ err database_error)
      × (t ≡ waiting_request))
    ⊎ ((true && is_current laptop waiting_request ≡ false)
        × (o ≡ ok tt)
        × IsDropped laptop waiting_request t)
disconnect_releases_example = disconnect_releases true laptop waiting_request

begin-IsShown : IsShown begin
begin-IsShown = record { shown = refl }

run-IsShown_example :
    IsShown
      (run (publishes laptop 5 6 ∷ disconnects true stranger ∷ disconnects false laptop ∷ []) begin)
run-IsShown_example =
    run-IsShown (publishes laptop 5 6 ∷ disconnects true stranger ∷ disconnects false laptop ∷ [])
      begin (tt, (tt, (tt, tt))) begin-IsShown
