-- ===== src/Gateway/Registry/Answers.antt =====
-- About `request` of src/gptlink/gateway/registry.py, with other tasks' sections at its awaits.
use gptlink.Gateway.Registry.{
  Connection, Entry, Registry, connection_at, disconnect, is_that, is_waiting, result,
}
use gptlink.Gateway.Registry.Requests.{
  Awaits, Event, await_future, connected, enter, entered, entry_at, expire_wait, finally_leave,
  pause, request, run, send, sent, step, transmit,
}
use gptlink.Gateway.Registry.Lifecycle.{done_stays}
use gptlink.Gateway.Registry.Drops.{Drops, step_keeps}
use gptlink.Gateway.Registry.Replies.{IsOwned, SomeReplied, is_stray, step-IsOwned, step-result}
use gptlink.Common.Json.{Json}
use gptlink.Common.Action.{Outcome-cases, guarded, ok, pure, raise, ◌>>=◌, ◌>>◌}
use gptlink.Protocol.Messages.{Message}
use gptlink.Prelude.{
  Bool-cases, Chars_eq, List, Option-cases, String_eq, [], any, any-append, arith, eqb_iff, false,
  inl, inr, is_some, leb, refl, some, suc, sym, true, ℕ, ℕ_eq, ◌++◌, ◌==◌, ◌∙◌, ◌∷◌, ◌≡◌,
}

module _ (f d r : ℕ) (c : Connection) (v : Json) where
  -- A future that an item of the pending requests alone owns, and that waits, has a result v after some
  -- sections only if one of them is a reply with the result v, for that request id, that came over the
  -- very connection the request was entered for.
  pub result_is_replied :
      (es : List Event) (s : Registry)
      → IsOwned f d r c s
      → is_waiting (s.futures f) ≡ true
      → (run es s).futures f ≡ result v
      → SomeReplied d r c v es
  unfolding run SomeReplied
  result_is_replied [] s k w h = cc (rw h at w)
  result_is_replied (e ∷ es) s k w h = elim (Bool-cases (is_waiting ((step e s).futures f))) [
    | inl on ↦ inr (result_is_replied es (step e s) (step-IsOwned f d r c e s k) on h)
    | inr off ↦ inl (
        step-result f d r c v e s k w
          (sym (done_stays es (step e s) f (step-IsOwned f d r c e s k).created off) ∙ h))
  ]

pub run-append : (a b : List Event) (s : Registry) → run (a ++ b) s ≡ run b (run a s)
unfolding run
run-append [] b s = refl
run-append (e ∷ a) b s = run-append a b (step e s)

sent_ok :
    (d : ℕ) (c : Connection) (w : Awaits) (s : Registry)
    → (sent d c w s).0 ≡ ok tt
    → (sent d c w s).1 ≡ s
unfolding sent ◌>>=◌ guarded pure raise
sent_ok d c w s h = elim (Bool-cases w.breaks) [
  | inl b ↦ elim (Outcome-cases (disconnect w.unstored c (run w.retiring s)).0) [
    | inl (u, o) ↦ cc (rw (b, o) at h)
    | inr (e, o) ↦ cc (rw (b, o) at h)
  ]
  | inr b ↦ elim (Bool-cases (is_that c (connection_at d s.connections))) [
    | inl k ↦ rw (b, k) refl
    | inr k ↦ cc (rw (b, k) at h)
  ]
]

send_ok :
    (d : ℕ) (m : Message) (w : Awaits) (s : Registry)
    → (send d m w s).0 ≡ ok tt
    → (m.device_id ≡ d) × ((send d m w s).1 ≡ run w.sending s)
unfolding send transmit ◌>>=◌ guarded raise
send_ok d m w s h = elim (Bool-cases (m.device_id == d)) [
  | inl e ↦ elim (Option-cases (connection_at d s.connections)) [
    | inl n ↦ cc (rw (e, n) at h)
    | inr (c, n) ↦
        ((eqb_iff m.device_id d).0 e, rw (e, n) (sent_ok d c w (run w.sending s) (rw (e, n) at h)))
  ]
  | inr e ↦ cc (rw e at h)
]

await_ok : (f : ℕ) (v : Json) (s : Registry) → (await_future f s).0 ≡ ok v → s.futures f ≡ result v
unfolding await_future expire_wait
await_ok f v s h = ground (arith, h)

body_ok :
    (d f : ℕ) (m : Message) (w : Awaits) (v : Json) (s : Registry)
    → ((send d m w >> pause w.waiting_for >> await_future f) s).0 ≡ ok v
    → (m.device_id ≡ d) × ((run (w.sending ++ w.waiting_for) s).futures f ≡ result v)
unfolding ◌>>=◌
body_ok d f m w v s h = elim (Outcome-cases (send d m w s).0) [
  | inl (u, e) ↦
      let (same, ran) = send_ok d m w s e in
      (same, rw run-append (await_ok f v _ (rw (e, ran) at h)))
  | inr (x, e) ↦ cc (rw e at h)
]

-- the pending items' futures are created
pub record IsBelow (s : Registry) : Type 0 where
  pub below : any (λ (e : Entry). leb s.fresh e.future) s.pending ≡ false

below_more :
    (n : ℕ) (es : List Entry)
    → any (λ (e : Entry). leb n e.future) es ≡ false
    → any (λ (e : Entry). leb (suc n) e.future) es ≡ false
below_more n [] h = refl
below_more n (e ∷ es) h = ground (arith, below_more n es)

Drops-IsBelow : (s s' : Registry) → Drops s s' → IsBelow s → IsBelow s'
Drops-IsBelow s s' h k = record {
  below = rw h.no_future (h.no_item (λ (e : Entry). leb s.fresh e.future) k.below);
}

enter-IsBelow : (c : Connection) (d r : ℕ) (s : Registry) → IsBelow s → IsBelow (enter c d r s).1
unfolding enter
enter-IsBelow c d r s k =
    elim (Bool-cases (is_some (entry_at d r s.pending))) as (λ _. IsBelow (enter c d r s).1) [
      | inl h ↦ rw h k
      | inr h ↦ rw h record {
        below = ground (
          arith,
          below_more s.fresh s.pending k.below,
          any-append (λ (e : Entry). leb (suc s.fresh) e.future) s.pending
              (record { device_id = d; request_id = r; owner = c; future = s.fresh } ∷ []),
        );
      }
    ]

run-IsBelow : (es : List Event) (s : Registry) → IsBelow s → IsBelow (run es s)
unfolding run
run-IsBelow [] s k = k
run-IsBelow (e ∷ es) s k =
    run-IsBelow es (step e s) (step_keeps IsBelow Drops-IsBelow enter-IsBelow e s k)

below_own :
    (n d r : ℕ) (c : Connection) (es : List Entry)
    → any (λ (e : Entry). leb n e.future) es ≡ false
    → any (is_stray n d r c) es ≡ false
below_own n d r c [] h = refl
below_own n d r c (e ∷ es) h = ground (arith, below_own n d r c es)

-- the future of a request that `enter` stores
enter-IsOwned :
    (c : Connection) (d r f : ℕ) (s : Registry)
    → IsBelow s
    → (enter c d r s).0 ≡ ok f
    → IsOwned f d r c (enter c d r s).1 × (is_waiting ((enter c d r s).1.futures f) ≡ true)
unfolding enter
enter-IsOwned c d r f s k h =
    elim (Bool-cases (is_some (entry_at d r s.pending)))
      as (λ _.
        IsOwned f d r c (enter c d r s).1 × (is_waiting ((enter c d r s).1.futures f) ≡ true)) [
          | inl e ↦ cc (rw e at h)
          | inr e ↦
              let q : s.fresh ≡ f = ok_injective (rw e at h) in
              (
                rw e record {
                  created = omega (arith, q);
                  own = ground (
                    arith,
                    q,
                    below_own f d r c s.pending (rw q at k.below),
                    any-append (is_stray f d r c) s.pending (
                        record { device_id = d; request_id = r; owner = c; future = s.fresh } ∷ []),
                  );
                },
                rw e (ground (arith, q)),
              )
        ]
  where
    ok_injective : {a b : ℕ} → ok a ≡ ok b → a ≡ b
    ok_injective h = ground arith

abbrev elsewhere : Awaits → List Event
elsewhere w = w.sending ++ w.waiting_for

entered_ok :
    (d f : ℕ) (m : Message) (w : Awaits) (v : Json) (s : Registry)
    → (entered d m w f s).0 ≡ ok v
    → (m.device_id ≡ d) × ((run (elsewhere w) s).futures f ≡ result v)
unfolding entered finally_leave
entered_ok d f m w v s h = body_ok d f m w v s h

-- Where the pending items' futures are created: a request returns v only if the device was connected
-- when it began, the message names that device, and one of the sections while the text was sent or
-- the reply awaited was a reply with the result v, for its request id, over that very connection.
pub request_replied :
    (d : ℕ) (m : Message) (w : Awaits) (s : Registry) (v : Json)
    → IsBelow s
    → (request d m w s).0 ≡ ok v
    → (c : Connection) × (connection_at d s.connections ≡ some c)
      × (m.device_id ≡ d)
      × SomeReplied d m.request_id c v (w.sending ++ w.waiting_for)
unfolding request connected ◌>>=◌ raise
request_replied d m w s v k h = elim (Option-cases (connection_at d s.connections)) [
  | inl n ↦ cc (rw n at h)
  | inr (c, n) ↦ elim (Outcome-cases (enter c d m.request_id (run w.entering s)).0) [
    | inl (f, e) ↦
        let (owned, on) =
          enter-IsOwned c d m.request_id f (run w.entering s) (run-IsBelow w.entering s k) e in
        let (same, got) = entered_ok d f m w v _ (rw (n, e) at h) in
        (c, n, same, result_is_replied f d m.request_id c v (elsewhere w) _ owned on got)
    | inr (x, e) ↦ cc (rw (n, e) at h)
  ]
]
