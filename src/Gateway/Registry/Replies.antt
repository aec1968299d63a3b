-- ===== src/Gateway/Registry/Replies.antt =====
-- About results of requests, in src/gptlink/gateway/registry.py: where they come from.
use gptlink.Gateway.Registry.{
  Connection, Entry, Future, Registry, cancelled, close, drop, has_key, is, is_waiting, result,
  settle,
}
use gptlink.Gateway.Registry.Requests.{
  Event, answer, closes, deliver, disconnects, enter, enters, entry_at, expire_wait, expires,
  expires_wait, leave, leaves, publishes, reply, resolve, resolves, step, touches,
}
use gptlink.Gateway.Registry.Drops.{Drops, step_keeps}
use gptlink.Gateway.Registry.Futures.{
  SameRequests, close_each-same, disconnect-outcome, expire-same, fail_all-result, publish-same,
  touch-same,
}
use gptlink.Common.Json.{Json}
use gptlink.Protocol.Messages.{Body, Message, operation_result}
use gptlink.Prelude.{
  Bool, Bool-cases, Chars_eq, List, Option, Option-cases, String_eq, [], any, any-append,
  any_of_find, ap, arith, false, find_passes, inl, inr, is_some, none, not, refl, select, some,
  true, ℕ, ℕ_eq, ◌&&◌, ◌<◌, ◌==◌, ◌∙◌, ◌∷◌, ◌≡◌, ◌⊎◌,
}
use gptlink.Common.Errors.{connection_unavailable}

-- an item of the future under another key or for another connection
abbrev pub is_stray : ℕ → ℕ → ℕ → Connection → Entry → Bool
is_stray f d r c e = (e.future == f) && not (has_key d r e && is e.owner c)

-- the future is created, and only the connection's reply to the request can set it
pub record IsOwned (f d r : ℕ) (c : Connection) (s : Registry) : Type 0 where
  pub created : f < s.fresh
  pub own : any (is_stray f d r c) s.pending ≡ false

-- the event is the reply of that connection to that request, with that result
unfoldable pub Replied : ℕ → ℕ → Connection → Json → Event → Type 0
Replied d r c v (resolves x m) =
    (is c x ≡ true) × (x.device_id ≡ d) × (m.request_id ≡ r) × (m.body ≡ operation_result v)
Replied d r c v _ = ⊥

unfoldable pub SomeReplied : ℕ → ℕ → Connection → Json → List Event → Type 0
unfolding Replied
SomeReplied d r c v [] = ⊥
SomeReplied d r c v (e ∷ es) = Replied d r c v e ⊎ SomeReplied d r c v es

module _ (f d r : ℕ) (c : Connection) where
  pub Drops-IsOwned : (s s' : Registry) → Drops s s' → IsOwned f d r c s → IsOwned f d r c s'
  Drops-IsOwned s s' h k = record {
    created = rw h.no_future k.created;
    own = h.no_item (is_stray f d r c) k.own;
  }

  enter-IsOwned :
      (x : Connection) (i q : ℕ) (s : Registry)
      → IsOwned f d r c s
      → IsOwned f d r c (enter x i q s).1
  unfolding enter
  enter-IsOwned x i q s k =
      elim (Bool-cases (is_some (entry_at i q s.pending)))
        as (λ _. IsOwned f d r c (enter x i q s).1) [
          | inl h ↦ rw h k
          | inr h ↦ rw h record {
            created = omega (arith, k.created);
            own = ground (
              arith,
              k.created,
              k.own,
              any-append (is_stray f d r c) s.pending
                  (record { device_id = i; request_id = q; owner = x; future = s.fresh } ∷ []),
            );
          }
        ]

  pub step-IsOwned : (e : Event) (s : Registry) → IsOwned f d r c s → IsOwned f d r c (step e s)
  step-IsOwned = step_keeps (IsOwned f d r c) Drops-IsOwned enter-IsOwned

  found_own :
      (g i q : ℕ) (y : Entry) (s : Registry)
      → IsOwned f d r c s
      → entry_at i q s.pending ≡ some y
      → is_stray f d r c y ≡ false
  found_own g i q y s k e = elim (Bool-cases (is_stray f d r c y)) [
    | inl b ↦ ground (arith, k.own, any_of_find (is_stray f d r c) (has_key i q) s.pending y e b)
    | inr b ↦ b
  ]

  module _ (v : Json) where
    settled : {o : Future} → is_waiting o ≡ true → o ≡ result v → ⊥
    settled w h = cc (rw h at w)

    same-result :
        {s s' : Registry} → SameRequests s s' → s'.futures f ≡ result v → s.futures f ≡ result v
    same-result h k = rw h.same_futures at k

    cancelled-result :
        (g : ℕ) (futures : ℕ → Future)
        → settle g cancelled futures f ≡ result v
        → futures f ≡ result v
    cancelled-result g futures h = ground arith

    entered-result :
        (x : Connection) (i q : ℕ) (s : Registry)
        → f < s.fresh
        → (enter x i q s).1.futures f ≡ result v
        → s.futures f ≡ result v
    unfolding enter
    entered-result x i q s small h = ground arith

    answered : (b : Body) → answer b ≡ some (result v) → b ≡ operation_result v
    answered b h = ground arith

    -- the entry that a reply finds is the one of the future
    delivered :
        (x : Connection) (m : Message) (a : Future) (y : Entry) (s : Registry)
        → answer m.body ≡ some a
        → IsOwned f d r c s
        → is_waiting (s.futures f) ≡ true
        → entry_at x.device_id m.request_id s.pending ≡ some y
        → is y.owner x ≡ true
        → settle y.future a s.futures f ≡ result v
        → Replied d r c v (resolves x m)
    unfolding Replied
    delivered x m a y s e k w found o h = elim (Bool-cases (f == y.future)) [
      | inl q ↦
          let key = find_passes (has_key x.device_id m.request_id) s.pending y found in
          let mine = found_own f x.device_id m.request_id y s k found in
          (
            ground (arith, key, mine),
            ground (arith, key, mine),
            ground (arith, key, mine),
            answered m.body (e ∙ ap some (rw (q, w) at h)),
          )
      | inr q ↦ absurd (settled w (rw q at h))
    ]

    reply-result :
        (x : Connection) (m : Message) (o : Option Future) (s : Registry)
        → answer m.body ≡ o
        → IsOwned f d r c s
        → is_waiting (s.futures f) ≡ true
        → (reply x m.request_id o s).1.futures f ≡ result v
        → Replied d r c v (resolves x m)
    unfolding reply deliver Replied
    reply-result x m none s e k w h = absurd (settled w h)
    reply-result x m (some a) s e k w h =
        elim (Option-cases (entry_at x.device_id m.request_id s.pending)) [
          | inl n ↦ absurd (settled w (rw n at h))
          | inr (y, n) ↦ elim (Bool-cases (is y.owner x)) [
            | inl o ↦ delivered x m a y s e k w n o (rw (n, o) at h)
            | inr o ↦ absurd (settled w (rw (n, o) at h))
          ]
        ]

    pub step-result :
        (e : Event) (s : Registry)
        → IsOwned f d r c s
        → is_waiting (s.futures f) ≡ true
        → (step e s).futures f ≡ result v
        → Replied d r c v e
    unfolding step drop close enter expire_wait leave resolve Replied
    step-result (publishes x now clock) s k w h =
        settled w (same-result (publish-same x now clock s) h)
    step-result (touches x now clock) s k w h = settled w (same-result (touch-same x now clock s) h)
    step-result (disconnects fails x) s k w h = settled w (elim (disconnect-outcome fails x s) [
      | inl same ↦ rw same at h
      | inr gone ↦
          fail_all-result f (select (λ (o : Entry). is o.owner x) s.pending)
            (connection_unavailable "device disconnected") s.futures v (rw gone at h)
    ])
    step-result (enters x i q) s k w h = settled w (entered-result x i q s k.created h)
    step-result (expires_wait g) s k w h = settled w (cancelled-result g s.futures h)
    step-result (leaves i q g) s k w h = settled w (cancelled-result g s.futures h)
    step-result (resolves x m) s k w h = reply-result x m (answer m.body) s refl k w h
    step-result (expires threshold clock) s k w h =
        settled w (same-result (expire-same threshold clock s) h)
    step-result (closes fails) s k w h = settled w (
        fail_all-result f s.pending _ s.futures v
          (same-result (close_each-same 1001 s.connections _) h))
