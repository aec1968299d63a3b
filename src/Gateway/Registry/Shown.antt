-- ===== src/Gateway/Registry/Shown.antt =====
-- About the presence that the database shows, as src/gptlink/gateway/registry.py keeps it.
use gptlink.Gateway.Registry.{
  Connection, Future, Registry, Slot, close, close_connection, close_each, connection_at, drop,
  expire, found_or, install, is, is_current, is_stale, is_that, of_device, on_db, publish, retire,
  retire_stale, saw, shut, shut_each, touch,
}
use gptlink.Gateway.Registry.Futures.{disconnect-outcome}
use gptlink.Gateway.Registry.Requests.{
  Event, answer, closes, deliver, disconnects, enter, enters, expire_wait, expires, expires_wait,
  leave, leaves, publishes, reply, resolve, resolves, run, step, touches,
}
use gptlink.Gateway.Registry.Presence.{enter-connections, reply-connections}
use gptlink.Gateway.Registry.Slots.{
  close_each-connections, find-put, seen, select_other, touched_view,
}
use gptlink.Common.Types.{Capability_eq, DeviceStatus, offline}
use gptlink.Common.Action.{guarded, pure, transaction, ◌>>=◌}
use gptlink.Persistence.Models.{Device}
use gptlink.Prelude.{
  All, Bool, Bool-cases, Chars_eq, List, Option, String_eq, [], any, arith, false, find, inl, inr,
  is_none, none, not, refl, select, some, sym, true, update, ℕ, ℕ_eq, ◌&&◌, ◌==◌, ◌∷◌, ◌≡◌,
}
use gptlink.Persistence.Repositories.Devices as Devices

abbrev is_offline : DeviceStatus → Bool
is_offline offline = true
is_offline _ = false

-- an active device that is not OFFLINE and has no connection
abbrev is_orphaned : List Slot → Device → Bool
is_orphaned xs x =
    Devices.is_active x && (not (is_offline x.status) && is_none (find (of_device x.device_id) xs))

-- no device is shown without a connection
pub record IsShown (s : Registry) : Type 0 where
  pub shown : any (is_orphaned s.connections) s.db.devices ≡ false

abbrev matched : ℕ → Device → Bool
matched d x = (x.device_id == d) && Devices.is_active x

updated :
    (xs xs' : List Slot) (i : ℕ) (f : Device → Device) (ds : List Device)
    → ((y : Device) → matched i y ≡ true → is_orphaned xs' (f y) ≡ false)
    → ((y : Device) → matched i y ≡ false → is_orphaned xs y ≡ false → is_orphaned xs' y ≡ false)
    → any (is_orphaned xs) ds ≡ false
    → any (is_orphaned xs') (update (matched i) f ds) ≡ false
updated xs xs' i f [] h k none' = refl
updated xs xs' i f (y ∷ ds) h k none' = elim (Bool-cases (matched i y)) [
  | inl m ↦ rw (m, h y m) (updated xs xs' i f ds h k (ground (arith, none')))
  | inr m ↦
      rw (m, k y m (ground (arith, none'))) (updated xs xs' i f ds h k (ground (arith, none')))
]

retire-IsShown : (d : ℕ) (s : Registry) → IsShown s → IsShown (retire d s)
unfolding retire Devices.mark_offline
retire-IsShown d s k = record {
  shown =
      updated s.connections _ d _ s.db.devices (λ y m. ground arith)
        (λ y m o. ground (arith, m, o, select_other y.device_id d s.connections)) k.shown;
}

same_map-IsShown :
    (s t : Registry) → t.db ≡ s.db → t.connections ≡ s.connections → IsShown s → IsShown t
same_map-IsShown s t d c k = record { shown = rw (d, c) k.shown }

stale-IsShown :
    (threshold : ℕ) (clock : ℕ → ℕ) (xs : List Slot) (s : Registry)
    → IsShown s
    → IsShown (retire_stale threshold clock xs s)
unfolding retire_stale
stale-IsShown threshold clock [] s k = k
stale-IsShown threshold clock (x ∷ xs) s k =
    stale-IsShown threshold clock xs _ (elim (Bool-cases (is_stale threshold clock x)) [
      | inl h ↦ rw h (retire-IsShown x.connection.device_id s k)
      | inr h ↦ rw h k
    ])

shut-IsShown :
    (fails : ℕ → Bool) (xs : List Slot) (s : Registry)
    → ((d : ℕ) → fails d ≡ false)
    → IsShown s
    → IsShown (shut_each fails xs s)
unfolding shut_each shut
shut-IsShown fails [] s never k = k
shut-IsShown fails (x ∷ xs) s never k =
    shut-IsShown fails xs _ never
      (rw (never x.connection.device_id) (retire-IsShown x.connection.device_id s k))

close_each-db : (code : ℕ) (xs : List Slot) (s : Registry) → (close_each code xs s).db ≡ s.db
unfolding close_each close_connection
close_each-db code [] s = refl
close_each-db code (x ∷ xs) s = close_each-db code xs _

publish-IsShown :
    (c : Connection) (now clock : ℕ) (s : Registry) → IsShown s → IsShown (publish c now clock s).1
unfolding publish on_db install found_or guarded pure Devices.mark_online ◌>>=◌ transaction
publish-IsShown c now clock s k = elim (Bool-cases (any (matched c.device_id) s.db.devices)) [
  | inl h ↦ rw h record {
    shown =
        updated s.connections _ c.device_id _ s.db.devices
          (λ y m. ground (
            arith,
            m,
            find-put y.device_id (record { connection = c; last_seen = clock }) s.connections,
          ))
          (λ y m o. ground (
            arith,
            o,
            find-put y.device_id (record { connection = c; last_seen = clock }) s.connections,
          ))
          k.shown;
  }
  | inr h ↦ rw h k
]

-- a touched connection's device has a connection
seen_current :
    (c : Connection) (clock d : ℕ) (xs : List Slot)
    → is_that c (connection_at c.device_id xs) ≡ true
    → (d == c.device_id) ≡ true
    → is_none (find (of_device d) (update (λ x. is x.connection c) (seen clock) xs)) ≡ false
seen_current c clock d xs cur e =
    let q : d ≡ c.device_id = ground (arith, e) in
    rw (touched_view c clock d xs cur) (ground (arith, e, rw (sym q) at cur))

touch-IsShown :
    (c : Connection) (now clock : ℕ) (s : Registry) → IsShown s → IsShown (touch c now clock s).1
unfolding touch on_db saw found_or guarded pure Devices.touch ◌>>=◌ transaction
touch-IsShown c now clock s k = elim (Bool-cases (is_current c s)) [
  | inl cur ↦ elim (Bool-cases (any (matched c.device_id) s.db.devices)) [
    | inl h ↦
        rw (cur, h)
          record {
            shown =
                updated s.connections _ c.device_id _ s.db.devices
                  (λ y m. ground (arith, m, seen_current c clock y.device_id s.connections cur))
                  (λ y m o. ground (arith, o, touched_view c clock y.device_id s.connections cur))
                  k.shown;
          }
    | inr h ↦ rw (cur, h) k
  ]
  | inr cur ↦ rw cur k
]

reply-db : (c : Connection) (r : ℕ) (o : Option Future) (s : Registry) → (reply c r o s).1.db ≡ s.db
unfolding reply deliver
reply-db c r none s = refl
reply-db c r (some a) s = ground arith

enter-db : (c : Connection) (d r : ℕ) (s : Registry) → (enter c d r s).1.db ≡ s.db
unfolding enter
enter-db c d r s = ground arith

-- at shutdown the presence updates are stored
abbrev pub Stores : Event → Type 0
Stores (closes fails) = (d : ℕ) → fails d ≡ false
Stores _ = Unit

drop-IsShown : (c : Connection) (s : Registry) → IsShown s → IsShown (drop c s)
unfolding drop
drop-IsShown c s k = elim (Bool-cases (is_current c s)) as (λ _. IsShown (drop c s)) [
  | inl h ↦
      rw h (same_map-IsShown (retire c.device_id s) _ refl refl (retire-IsShown c.device_id s k))
  | inr h ↦ rw h (same_map-IsShown s _ refl refl k)
]

step-IsShown : (e : Event) (s : Registry) → Stores e → IsShown s → IsShown (step e s)
unfolding step expire close enter expire_wait leave resolve
step-IsShown (publishes c now clock) s ok' k = publish-IsShown c now clock s k
step-IsShown (touches c now clock) s ok' k = touch-IsShown c now clock s k
step-IsShown (disconnects fails c) s ok' k = elim (disconnect-outcome fails c s) [
  | inl same ↦ rw same k
  | inr gone ↦ rw gone (drop-IsShown c s k)
]
step-IsShown (enters c i r) s ok' k =
    same_map-IsShown s _ (enter-db c i r s) (enter-connections c i r s) k
step-IsShown (expires_wait f) s ok' k = same_map-IsShown s _ refl refl k
step-IsShown (leaves i r f) s ok' k = same_map-IsShown s _ refl refl k
step-IsShown (resolves c m) s ok' k =
    same_map-IsShown s _ (reply-db c m.request_id (answer m.body) s)
      (reply-connections c m.request_id (answer m.body) s) k
step-IsShown (expires threshold clock) s ok' k =
    same_map-IsShown _ _ (close_each-db 4408 (select (is_stale threshold clock) s.connections) _)
      (close_each-connections 4408 (select (is_stale threshold clock) s.connections) _)
      (stale-IsShown threshold clock s.connections s k)
step-IsShown (closes fails) s ok' k =
    same_map-IsShown (shut_each fails s.connections s) _ (close_each-db 1001 s.connections _)
      (close_each-connections 1001 s.connections _) (shut-IsShown fails s.connections s ok' k)

-- If at first every active device that is not OFFLINE in the database has a current connection, this
-- holds after every sequence of sections: publications, touches, replacements, late disconnects,
-- expiry, and shutdowns whose presence updates are stored.
pub run-IsShown : (es : List Event) (s : Registry) → All Stores es → IsShown s → IsShown (run es s)
unfolding run
run-IsShown [] s os k = k
run-IsShown (e ∷ es) s os k = run-IsShown es (step e s) os.1 (step-IsShown e s os.0 k)
