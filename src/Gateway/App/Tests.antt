-- ===== src/Gateway/App/Tests.antt =====
-- A process that serves one device and fails a check, for src/gptlink/gateway/app.py.
use gptlink.Gateway.App.{App, Work, lifespan, monitors, ready_status, serves, work}
use gptlink.Gateway.App.Ended.{IsReleased, lifespan_releases}
use gptlink.Gateway.Registry.{Connection, waiting}
use gptlink.Gateway.Registry.Requests.{enters, publishes, run}
use gptlink.Gateway.Registry.Lifecycle.{IsAwaited}
use gptlink.Persistence.Repositories.Devices as Devices
use gptlink.Persistence.Samples.{tables}
use gptlink.Common.Action.{err, ok, ◌>>=◌}
use gptlink.Common.Errors.{os_error}
use gptlink.Prelude.{List, [], false, length, refl, true, ◌∷◌, ◌≡◌}

abbrev begin : App
begin = record {
  ready = false;
  registry = record {
    db = tables;
    connections = [];
    pending = [];
    futures = λ f. waiting;
    fresh = 0;
    closed = [];
  };
}

begin-IsAwaited : IsAwaited begin.registry
begin-IsAwaited = record { entry = λ f h. elim h [ ] }

abbrev laptop : Connection
laptop = record { id = 40; device_id = 1 }

abbrev life : List Work
life =
    monitors (record { checked = ok tt; clock = λ d. 5; fails = λ d. false })
    ∷ serves (publishes laptop 5 6 ∷ enters laptop 1 5 ∷ [])
    ∷ monitors (record { checked = ok tt; clock = λ d. 40; fails = λ d. true })
    ∷ monitors (record { checked = err os_error; clock = λ d. 50; fails = λ d. false })
    ∷ []

-- the second cycle would retire the device, and cannot
still_there : length (work 30 life begin).registry.connections ≡ 1
unfolding work run ◌>>=◌ Devices.mark_online
still_there = refl

not_ready : ready_status (work 30 life begin) ≡ 503
unfolding work
not_ready = refl

lifespan_releases_example : IsReleased (lifespan 30 (λ d. true) (ok tt) life begin).1
lifespan_releases_example = lifespan_releases 30 (λ d. true) (ok tt) life begin begin-IsAwaited
