-- ===== src/Gateway/Registry.antt =====
-- src/gptlink/gateway/registry.py: connections, presence and pending requests. A section under the
-- lock, with the code after it up to the next await, is one action. A connection is compared by its
-- identity, a future is a number, and the monotonic clock and UTC readings are arguments. The presence
-- updates of `expire` succeed here; Gateway.App has an expiry whose update fails.
pub mod Requests
pub mod Futures
pub mod Drops
pub mod Lifecycle
pub mod Replies
pub mod Answers
pub mod Slots
pub mod Presence
pub mod Release
pub mod Shown
mod Tests
use gptlink.Common.Json.{Json}
use gptlink.Common.Action.{Action, err, guarded, ok, pure, transaction, ◌>>=◌}
use gptlink.Common.Errors.{Exception, authentication_error, connection_unavailable, unexpected}
use gptlink.Persistence.Models.{Tables}
use gptlink.Prelude.{
  Bool, Chars_eq, List, Option, String_eq, [], any, false, find, if◌then◌else◌, leb, none, not,
  over, select, some, true, update, ℕ, ℕ_eq, ◌&&◌, ◌++◌, ◌+◌, ◌==◌, ◌∷◌,
}
use gptlink.Persistence.Repositories.Devices as Devices

-- eq=False: two connections are the same when they are one object
pub record Connection : Type 0 where
  pub id : ℕ
  pub device_id : ℕ

abbrev pub is : Connection → Connection → Bool
is a b = (a.id == b.id) && (a.device_id == b.device_id)

-- asyncio.Future
pub data Future : Type 0 where
  waiting : Future
  result : Json → Future
  failed : Exception → Future
  cancelled : Future

abbrev pub is_waiting : Future → Bool
is_waiting waiting = true
is_waiting _ = false

-- an item of _connections, stored under its connection's device_id
pub record Slot : Type 0 where
  pub connection : Connection
  pub last_seen : ℕ

-- an item of _pending
pub record Entry : Type 0 where
  pub device_id : ℕ
  pub request_id : ℕ
  pub owner : Connection
  pub future : ℕ

-- `futures` from `fresh` on are not created yet; `closed` lists the sockets closed, with their codes
pub record Registry : Type 0 where
  pub db : Tables
  pub connections : List Slot
  pub pending : List Entry
  pub futures : ℕ → Future
  pub fresh : ℕ
  pub closed : List (ℕ × ℕ)

abbrev pub of_device : ℕ → Slot → Bool
of_device d x = x.connection.device_id == d

-- self._connections.get(device_id)
abbrev pub connection_at : ℕ → List Slot → Option Connection
connection_at d xs = over (λ x. x.connection) (find (of_device d) xs)

abbrev is_that : Connection → Option Connection → Bool
is_that c none = false
is_that c (some x) = is x c

-- self._connections.get(connection.device_id) is connection
abbrev pub is_current : Connection → Registry → Bool
is_current c s = is_that c (connection_at c.device_id s.connections)

-- self._connections[slot.connection.device_id] = slot.connection
abbrev pub put : Slot → List Slot → List Slot
put x xs =
    if any (of_device x.connection.device_id) xs
    then update (of_device x.connection.device_id) (λ y. x) xs
    else xs ++ x ∷ []

abbrev pub has_key : ℕ → ℕ → Entry → Bool
has_key d r e = (e.device_id == d) && (e.request_id == r)

-- del self._pending[key]: the item that a lookup of the key finds
abbrev pub remove : ℕ → ℕ → List Entry → List Entry
remove d r [] = []
remove d r (e ∷ es) = if has_key d r e then es else e ∷ remove d r es

-- if not future.done(): the future is set
abbrev pub settle : ℕ → Future → (ℕ → Future) → ℕ → Future
settle f a futures g = if (g == f) && is_waiting (futures g) then a else futures g

-- for future in pending: if not future.done(): future.set_exception(error)
unfoldable pub fail_all : List Entry → Exception → (ℕ → Future) → ℕ → Future
fail_all [] e futures = futures
fail_all (x ∷ xs) e futures = fail_all xs e (settle x.future (failed e) futures)

unfoldable pub on_db : {A : Type 0} → Action Tables A → Action Registry A
on_db m s = let (r, t) = m s.db in (r, record s { db = t })

unfoldable pub found_or : Bool → Action Tables Unit
found_or found = guarded found authentication_error (pure tt)

unfoldable pub install : Connection → ℕ → Action Registry (Option Connection)
install c clock s = (
  ok (connection_at c.device_id s.connections),
  record s { connections = put (record { connection = c; last_seen = clock }) s.connections },
)

-- _publish: the connection that was current before
unfoldable pub publish : Connection → ℕ → ℕ → Action Registry (Option Connection)
unfolding on_db found_or install
publish c now clock =
    on_db (transaction (Devices.mark_online c.device_id now >>= found_or)) >>= λ u. install c clock

unfoldable pub saw : Connection → ℕ → Action Registry Unit
saw c clock s = (
  ok tt,
  record s {
    connections =
        update (λ x. is x.connection c) (λ x. record x { last_seen = clock }) s.connections;
  },
)

unfoldable pub touch : Connection → ℕ → ℕ → Action Registry Unit
unfolding on_db found_or saw
touch c now clock s =
    guarded (is_current c s) (connection_unavailable "connection replaced")
      (on_db (transaction (Devices.touch c.device_id now >>= found_or)) >>= λ u. saw c clock) s

-- mark_offline, del self._connections[device_id]
unfoldable pub retire : ℕ → Registry → Registry
retire d s = record s {
  db = (Devices.mark_offline d s.db).1;
  connections = select (λ x. not (of_device d x)) s.connections;
}

-- the presence of a connection that is current, and its pending items
unfoldable pub drop : Connection → Registry → Registry
unfolding retire fail_all
drop c s = record (if is_current c s then retire c.device_id s else s) {
  pending = select (λ e. not (is e.owner c)) s.pending;
  futures =
      fail_all (select (λ e. is e.owner c) s.pending) (connection_unavailable "device disconnected")
        s.futures;
}

-- what a failed transaction raises
abbrev pub database_error : Exception
database_error = unexpected "SQLAlchemyError"

-- `fails` where the presence update is not stored, which leaves all as it was
unfoldable pub disconnect : Bool → Connection → Action Registry Unit
unfolding drop
disconnect fails c s =
    if fails && is_current c s then (err database_error, s) else (ok tt, drop c s)

-- close_connection
unfoldable pub close_connection : Connection → ℕ → Registry → Registry
close_connection c code s = record s { closed = s.closed ++ (c.id, code) ∷ [] }

-- monotonic() - connection.last_seen >= threshold, the clock read when the loop is at the device
abbrev pub is_stale : ℕ → (ℕ → ℕ) → Slot → Bool
is_stale threshold clock x = leb (x.last_seen + threshold) (clock x.connection.device_id)

unfoldable pub retire_stale : ℕ → (ℕ → ℕ) → List Slot → Registry → Registry
unfolding retire
retire_stale threshold clock [] s = s
retire_stale threshold clock (x ∷ xs) s =
    retire_stale threshold clock xs
      (if is_stale threshold clock x then retire x.connection.device_id s else s)

unfoldable pub close_each : ℕ → List Slot → Registry → Registry
unfolding close_connection
close_each code [] s = s
close_each code (x ∷ xs) s = close_each code xs (close_connection x.connection code s)

unfoldable pub expire : ℕ → (ℕ → ℕ) → Action Registry Unit
unfolding retire_stale close_each
expire threshold clock s = (
  ok tt,
  close_each 4408 (select (is_stale threshold clock) s.connections)
      (retire_stale threshold clock s.connections s),
)

-- the shutdown of one connection: its presence update may fail, and the connection goes all the same
unfoldable pub shut : Bool → ℕ → Registry → Registry
unfolding retire
shut fails d s =
    if fails
    then record s { connections = select (λ x. not (of_device d x)) s.connections }
    else retire d s

unfoldable pub shut_each : (ℕ → Bool) → List Slot → Registry → Registry
unfolding shut
shut_each fails [] s = s
shut_each fails (x ∷ xs) s =
    shut_each fails xs (shut (fails x.connection.device_id) x.connection.device_id s)

unfoldable pub close : (ℕ → Bool) → Action Registry Unit
unfolding shut_each close_each fail_all
close fails s = (
  ok tt,
  close_each 1001 s.connections (record (shut_each fails s.connections s) {
    pending = [];
    futures = fail_all s.pending (connection_unavailable "Gateway is shutting down") s.futures;
  }),
)
