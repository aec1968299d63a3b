-- ===== src/Gateway/App.antt =====
-- src/gptlink/gateway/app.py, pairing_api.py and health.py: the answers of the HTTP routes, the
-- monitor and the lifespan of the process. The framework, which checks a request's fields before a
-- route is called, the database's own calls and the server of MCP are parameters.
pub mod Ended
mod Tests
use gptlink.Gateway.Pairing.{DeviceCredential, DeviceMetadata, Redemption, redeem}
use gptlink.Gateway.Registry.{Registry, Slot, close, expire, is_stale, retire}
use gptlink.Gateway.Registry.Requests.{Event, run}
use gptlink.Persistence.Models.{Tables}
use gptlink.Common.Action.{Action, Outcome, catch, err, ok, pure, raise, ◌>>=◌}
use gptlink.Common.Errors.{Exception, pairing_error}
use gptlink.Prelude.{
  Bool, Chars, List, String, [], any, false, if◌then◌else◌, leb, length, true, ℕ, ◌&&◌, ◌∷◌,
}

-- the answer of POST /api/v1/pair: 201 with the credential, or 400 without a reason
pub data PairingAnswer : Type 0 where
  paired : DeviceCredential → String → PairingAnswer
  refused : PairingAnswer

-- PairingRequest: the length of the code
abbrev pub is_request : Chars → Bool
is_request code = leb 1 (length code) && leb (length code) 32

module _ (verify : String → Chars → Bool) where
  -- except PairingError
  abbrev pub unless_pairing : Exception → Action Tables PairingAnswer
  unless_pairing (pairing_error m) = pure refused
  unless_pairing e = raise e

  unfoldable pub redeem_pairing : Chars → DeviceMetadata → Redemption → Action Tables PairingAnswer
  redeem_pairing code m r =
      catch (redeem verify code m r >>= λ credential. pure (paired credential m.display_name))
        unless_pairing

-- app.state.ready, and the registry with its database
pub record App : Type 0 where
  pub ready : Bool
  pub registry : Registry

-- GET /ready: the status code
abbrev pub ready_status : App → ℕ
ready_status a = if a.ready then 200 else 503

-- GET /health: the status code
abbrev pub health_status : App → ℕ
health_status a = 200

-- one cycle of the monitor: what the check of the database raised, the clock of `expire`, and the
-- devices whose presence update `expire` cannot store
pub record Cycle : Type 0 where
  pub checked : Outcome {0} Unit
  pub clock : ℕ → ℕ
  pub fails : ℕ → Bool

-- the update of a device that is to go raises
abbrev pub breaks : ℕ → Cycle → Slot → Bool
breaks threshold c x = is_stale threshold c.clock x && c.fails x.connection.device_id

-- what `expire` has done when an update raises: the devices before it are gone, no socket is closed
unfoldable pub expire_until : ℕ → Cycle → List Slot → Registry → Registry
expire_until threshold c [] s = s
expire_until threshold c (x ∷ xs) s =
    let rest =
      expire_until threshold c xs
        (if is_stale threshold c.clock x then retire x.connection.device_id s else s) in
    if breaks threshold c x then s else rest

unfoldable pub cycle : ℕ → Cycle → App → App
unfolding expire_until
cycle threshold c a = elim c.checked [
  | ok u ↦
      if any (breaks threshold c) a.registry.connections
      then record a {
        ready = false;
        registry = expire_until threshold c a.registry.connections a.registry;
      }
      else record a { ready = true; registry = (expire threshold c.clock a.registry).1 }
  | err e ↦ record a { ready = false }
]

-- while the process serves: a cycle, or sections of the registry's tasks
pub data Work : Type 0 where
  monitors : Cycle → Work
  serves : List Event → Work

unfoldable pub work : ℕ → List Work → App → App
unfolding cycle
work threshold [] a = a
work threshold (monitors c ∷ ws) a = work threshold ws (cycle threshold c a)
work threshold (serves es ∷ ws) a = work threshold ws (record a { registry = run es a.registry })

-- the finally block: the presence updates for which `fails` holds fail
unfoldable pub ended : (ℕ → Bool) → App → App
ended fails a = record a { ready = false; registry = (close fails a.registry).1 }

-- lifespan, with what the set-up of the database raised
unfoldable pub lifespan :
    ℕ → (ℕ → Bool) → Outcome {0} Unit → List Work → App → Outcome {0} Unit × App
unfolding ended work
lifespan threshold fails (ok u) ws a =
    (ok u, ended fails (work threshold ws (record a { ready = true })))
lifespan threshold fails (err e) ws a = (err e, ended fails a)
