-- ===== src/Gateway/Registry/Requests.antt =====
-- `send`, `request`, `resolve` and `register` of src/gptlink/gateway/registry.py: the sections between
-- awaits, and the operations made of them.
use gptlink.Gateway.Registry.{
  Connection, Entry, Future, Registry, cancelled, close, close_connection, connection_at,
  disconnect, expire, failed, has_key, is, is_that, publish, remove, result, settle, touch, waiting,
}
use gptlink.Protocol.Messages.{Body, Message, error, operation_result}
use gptlink.Common.Json.{Json}
use gptlink.Common.Action.{Action, Outcome, err, guarded, ok, pure, raise, ◌>>=◌, ◌>>◌}
use gptlink.Common.Errors.{
  connection_unavailable, remote_operation_error, timeout_error, value_error,
}
use gptlink.Prelude.{
  Bool, Chars_eq, List, Option, String_eq, [], false, find, if◌then◌else◌, is_some, none, some, suc,
  true, ℕ, ℕ_eq, ◌++◌, ◌==◌, ◌∷◌,
}

-- what a reply sets: the result, or the error's code without its message
abbrev pub answer : Body → Option Future
answer (operation_result v) = some (result v)
answer (error p) = some (failed (remote_operation_error p.code))
answer _ = none

abbrev pub entry_at : ℕ → ℕ → List Entry → Option Entry
entry_at d r es = find (has_key d r) es

unfoldable pub deliver : Connection → ℕ → Future → Option Entry → Registry → Registry
deliver c r a none s = s
deliver c r a (some e) s =
    if is e.owner c
    then record s {
      pending = remove c.device_id r s.pending;
      futures = settle e.future a s.futures;
    }
    else s

unfoldable pub reply : Connection → ℕ → Option Future → Action Registry Bool
reply c r none s = (ok false, s)
reply c r (some a) s = (ok true, deliver c r a (entry_at c.device_id r s.pending) s)

unfoldable pub resolve : Connection → Message → Action Registry Bool
unfolding deliver reply
resolve c m = reply c m.request_id (answer m.body)

-- the future is created, and stored unless the key is pending, in which case nothing refers to it
unfoldable pub enter : Connection → ℕ → ℕ → Action Registry ℕ
enter c d r s =
    if is_some (entry_at d r s.pending)
    then (err (value_error "request ID is already pending"), s)
    else (
      ok s.fresh,
      record s {
        pending =
            s.pending ++ record { device_id = d; request_id = r; owner = c; future = s.fresh } ∷ [];
        futures = λ g. if g == s.fresh then waiting else s.futures g;
        fresh = suc s.fresh;
      },
    )

-- asyncio.timeout: the awaited future is cancelled
unfoldable pub expire_wait : ℕ → Registry → Registry
expire_wait f s = record s { futures = settle f cancelled s.futures }

abbrev pub has_future : ℕ → Option Entry → Bool
has_future f none = false
has_future f (some e) = e.future == f

-- the finally block
unfoldable pub leave : ℕ → ℕ → ℕ → Registry → Registry
leave d r f s = record s {
  pending = if has_future f (entry_at d r s.pending) then remove d r s.pending else s.pending;
  futures = settle f cancelled s.futures;
}

-- A section of a task on the registry.
pub data Event : Type 0 where
  publishes : Connection → (now clock : ℕ) → Event
  touches : Connection → (now clock : ℕ) → Event
  disconnects : (fails : Bool) → Connection → Event
  enters : Connection → (device_id request_id : ℕ) → Event
  expires_wait : (future : ℕ) → Event
  leaves : (device_id request_id future : ℕ) → Event
  resolves : Connection → Message → Event
  expires : (threshold : ℕ) → (ℕ → ℕ) → Event
  closes : (ℕ → Bool) → Event

unfoldable pub step : Event → Registry → Registry
unfolding publish touch disconnect enter expire_wait leave resolve expire close
step (publishes c now clock) s = (publish c now clock s).1
step (touches c now clock) s = (touch c now clock s).1
step (disconnects fails c) s = (disconnect fails c s).1
step (enters c d r) s = (enter c d r s).1
step (expires_wait f) s = expire_wait f s
step (leaves d r f) s = leave d r f s
step (resolves c m) s = (resolve c m s).1
step (expires threshold clock) s = (expire threshold clock s).1
step (closes fails) s = (close fails s).1

-- other tasks, while one awaits
unfoldable pub run : List Event → Registry → Registry
unfolding step
run [] s = s
run (e ∷ es) s = run es (step e s)

-- what happens at the awaits of a request: before the lock, while the text is sent, whether the
-- transport fails and its presence update too, before the lock of the cleanup, and until the future is done or the time is over
pub record Awaits : Type 0 where
  pub entering : List Event
  pub sending : List Event
  pub breaks : Bool
  pub unstored : Bool
  pub retiring : List Event
  pub waiting_for : List Event

abbrev pub pause : List Event → Action Registry Unit
pause es s = (ok tt, run es s)

abbrev then_close : Connection → ℕ → Action Registry Unit
then_close c code s = (ok tt, close_connection c code s)

-- after send_text
unfoldable pub sent : ℕ → Connection → Awaits → Action Registry Unit
sent d c w s =
    if w.breaks
    then (pause w.retiring
          >> disconnect w.unstored c
          >> then_close c 1011
          >> raise (connection_unavailable "device disconnected during send"))
        s
    else guarded (is_that c (connection_at d s.connections))
        (connection_unavailable "connection replaced during send") (pure tt) s

unfoldable pub transmit : ℕ → Awaits → Option Connection → Action Registry Unit
unfolding sent
transmit d w none = raise (connection_unavailable "device is offline")
transmit d w (some c) = pause w.sending >> sent d c w

unfoldable pub send : ℕ → Message → Awaits → Action Registry Unit
unfolding transmit
send d m w s =
    guarded (m.device_id == d) (value_error "message device_id does not match destination")
      (transmit d w (connection_at d s.connections)) s

-- what awaiting a future gives; the timeout has cancelled one that is still waiting
abbrev pub outcome_of : Future → Outcome Json
outcome_of (result v) = ok v
outcome_of (failed e) = err e
outcome_of cancelled = err timeout_error
outcome_of waiting = err timeout_error

unfoldable pub await_future : ℕ → Action Registry Json
await_future f s = let s' = expire_wait f s in (outcome_of (s'.futures f), s')

-- try: ... finally: ...
unfoldable pub finally_leave : ℕ → ℕ → ℕ → Action Registry Json → Action Registry Json
finally_leave d r f m s = let (o, s') = m s in (o, leave d r f s')

unfoldable pub entered : ℕ → Message → Awaits → ℕ → Action Registry Json
unfolding finally_leave
entered d m w f =
    finally_leave d m.request_id f (send d m w >> pause w.waiting_for >> await_future f)

unfoldable pub connected : ℕ → Message → Awaits → Option Connection → Action Registry Json
unfolding entered
connected d m w none = raise (connection_unavailable "device is offline")
connected d m w (some c) = pause w.entering >> enter c d m.request_id >>= entered d m w

unfoldable pub request : ℕ → Message → Awaits → Action Registry Json
unfolding connected
request d m w s = connected d m w (connection_at d s.connections) s

-- register, when its caller is not cancelled
unfoldable pub register : Connection → ℕ → ℕ → Action Registry Connection
unfolding publish
register c now clock = publish c now clock >>= λ old.
    λ s. (ok c, elim old [ none ↦ s | some o ↦ close_connection o 4409 s ])
