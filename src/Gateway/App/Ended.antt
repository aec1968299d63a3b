-- ===== src/Gateway/App/Ended.antt =====
-- About the life of the process in src/gptlink/gateway/app.py, with the registry of
-- src/gptlink/gateway/registry.py.
use gptlink.Gateway.App.{
  App, Cycle, Work, breaks, cycle, ended, expire_until, lifespan, monitors, serves, work,
}
use gptlink.Gateway.Registry.{Registry, Slot, is_stale, is_waiting, retire}
use gptlink.Gateway.Registry.Requests.{run}
use gptlink.Gateway.Registry.Futures.{SameRequests, expire-same, retire-same, same_refl, same_trans}
use gptlink.Gateway.Registry.Lifecycle.{IsAwaited, no_forgotten_waiter, same-IsAwaited}
use gptlink.Gateway.Registry.Presence.{view}
use gptlink.Gateway.Registry.Release.{shutdown_releases}
use gptlink.Common.Action.{Outcome, Outcome-cases, err, ok}
use gptlink.Prelude.{
  Bool, Bool-cases, List, [], any, false, inl, inr, none, refl, true, ℕ, ◌<◌, ◌∷◌, ◌≡◌,
}

expire_until-same :
    (threshold : ℕ) (c : Cycle) (xs : List Slot) (s : Registry)
    → SameRequests s (expire_until threshold c xs s)
unfolding expire_until
expire_until-same threshold c [] s = same_refl s
expire_until-same threshold c (x ∷ xs) s =
    elim (Bool-cases (breaks threshold c x))
      as (λ _. SameRequests s (expire_until threshold c (x ∷ xs) s)) [
        | inl b ↦ rw b (same_refl s)
        | inr b ↦ elim (Bool-cases (is_stale threshold c.clock x)) [
          | inl h ↦
              rw (b, h)
                (same_trans (retire-same x.connection.device_id s)
                  (expire_until-same threshold c xs (retire x.connection.device_id s)))
          | inr h ↦ rw (b, h) (expire_until-same threshold c xs s)
        ]
      ]

cycle-same :
    (threshold : ℕ) (c : Cycle) (a : App) → SameRequests a.registry (cycle threshold c a).registry
unfolding cycle
cycle-same threshold c a = elim (Outcome-cases c.checked) [
  | inl (u, e) ↦ rw e (elim (Bool-cases (any (breaks threshold c) a.registry.connections)) [
    | inl b ↦ rw b (expire_until-same threshold c a.registry.connections a.registry)
    | inr b ↦ rw b (expire-same threshold c.clock a.registry)
  ])
  | inr (x, e) ↦ rw e (same_refl a.registry)
]

work-IsAwaited :
    (threshold : ℕ) (ws : List Work) (a : App)
    → IsAwaited a.registry
    → IsAwaited (work threshold ws a).registry
unfolding work
work-IsAwaited threshold [] a k = k
work-IsAwaited threshold (monitors c ∷ ws) a k =
    work-IsAwaited threshold ws (cycle threshold c a) (same-IsAwaited (cycle-same threshold c a) k)
work-IsAwaited threshold (serves es ∷ ws) a k =
    work-IsAwaited threshold ws (record a { registry = run es a.registry })
      (no_forgotten_waiter es a.registry k)

-- what is left of a process that has ended
abbrev pub IsReleased : App → Type 0
IsReleased a =
    (a.ready ≡ false)
    × (a.registry.pending ≡ [])
    × ((d : ℕ) → view a.registry d ≡ none)
    × ((g : ℕ) → g < a.registry.fresh → is_waiting (a.registry.futures g) ≡ false)

ended_lem : (fails : ℕ → Bool) (a : App) → IsAwaited a.registry → IsReleased (ended fails a)
unfolding ended run
ended_lem fails a k =
    let (pending, gone, done) = shutdown_releases [] fails a.registry k in
    (refl, pending, gone, done)

-- When the process has ended, whether its set-up failed or it served, and after whatever cycles of the
-- monitor (its check of the database and any presence update may fail) and sections of the registry's
-- tasks, whichever presence updates of the shutdown fail: it is not ready, no pending item is left, no
-- device has a connection, and no created future waits, if at first every created future that waited
-- belonged to a pending item.
pub lifespan_releases :
    (threshold : ℕ) (fails : ℕ → Bool) (initial : Outcome {0} Unit) (ws : List Work) (a : App)
    → IsAwaited a.registry
    → IsReleased (lifespan threshold fails initial ws a).1
unfolding lifespan
lifespan_releases threshold fails (ok u) ws a k =
    ended_lem fails (work threshold ws (record a { ready = true }))
      (work-IsAwaited threshold ws (record a { ready = true }) k)
lifespan_releases threshold fails (err e) ws a k = ended_lem fails a k
