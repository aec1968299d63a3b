-- ===== src/Gateway/Registry/Drops.antt =====
-- The sections of src/gptlink/gateway/registry.py add to the pending requests in one place only.
use gptlink.Gateway.Registry.{
  Connection, Entry, Future, Registry, close, disconnect, drop, is, is_current, remove,
}
use gptlink.Gateway.Registry.Requests.{
  Event, answer, closes, deliver, disconnects, enter, enters, entry_at, expire_wait, expires,
  expires_wait, has_future, leave, leaves, publishes, reply, resolve, resolves, step, touches,
}
use gptlink.Gateway.Registry.Futures.{
  SameRequests, close_each-same, disconnect-outcome, expire-same, publish-same, retire-same,
  shut_each-same, touch-same,
}
use gptlink.Prelude.{
  Bool, Bool-cases, List, Option, Option-cases, [], any, arith, false, inl, inr, none, refl, select,
  some, ℕ, ◌∙◌, ◌∷◌, ◌≡◌, ◌≤◌, ◌⊎◌,
}

-- no future is created, and no item is new
pub record Drops (s s' : Registry) : Type 0 where
  pub no_future : s'.fresh ≡ s.fresh
  pub no_item : (p : Entry → Bool) → any p s.pending ≡ false → any p s'.pending ≡ false

module _ (p : Entry → Bool) where
  any-select-false :
      (q : Entry → Bool) (es : List Entry) → any p es ≡ false → any p (select q es) ≡ false
  any-select-false q [] h = refl
  any-select-false q (e ∷ es) h = ground (arith, any-select-false q es)

  any-remove-false : (d r : ℕ) (es : List Entry) → any p es ≡ false → any p (remove d r es) ≡ false
  any-remove-false d r [] h = refl
  any-remove-false d r (e ∷ es) h = ground (arith, any-remove-false d r es)

same-Drops : {s s' : Registry} → SameRequests s s' → Drops s s'
same-Drops h = record { no_future = h.same_fresh; no_item = λ p k. rw h.same_pending k }

reply-Drops :
    (c : Connection) (r : ℕ) (o : Option Future) (s : Registry) → Drops s (reply c r o s).1
unfolding reply deliver
reply-Drops c r none s = record { no_future = refl; no_item = λ p k. k }
reply-Drops c r (some a) s =
    elim (Option-cases (entry_at c.device_id r s.pending))
      as (λ _. Drops s (reply c r (some a) s).1) [
        | inl e ↦ rw e record { no_future = refl; no_item = λ p k. k }
        | inr (y, e) ↦ elim (Bool-cases (is y.owner c)) [
          | inl o ↦
              rw (e, o)
                record {
                  no_future = refl;
                  no_item = λ p k. any-remove-false p c.device_id r s.pending k;
                }
          | inr o ↦ rw (e, o) record { no_future = refl; no_item = λ p k. k }
        ]
      ]

drop-Drops : (c : Connection) (s : Registry) → Drops s (drop c s)
unfolding drop
drop-Drops c s = elim (Bool-cases (is_current c s)) as (λ _. Drops s (drop c s)) [
  | inl h ↦ rw h record {
    no_future = (retire-same c.device_id s).same_fresh;
    no_item = λ p k. any-select-false p _ s.pending k;
  }
  | inr h ↦ rw h record { no_future = refl; no_item = λ p k. any-select-false p _ s.pending k }
]

disconnect-Drops : (fails : Bool) (c : Connection) (s : Registry) → Drops s (disconnect fails c s).1
disconnect-Drops fails c s = elim (disconnect-outcome fails c s) [
  | inl same ↦ rw same record { no_future = refl; no_item = λ p k. k }
  | inr gone ↦ rw gone (drop-Drops c s)
]

leave-Drops : (d r f : ℕ) (s : Registry) → Drops s (leave d r f s)
unfolding leave
leave-Drops d r f s = record {
  no_future = refl;
  no_item = λ p k. elim (Bool-cases (has_future f (entry_at d r s.pending))) [
    | inl h ↦ rw h (any-remove-false p d r s.pending k)
    | inr h ↦ rw h k
  ];
}

close-Drops : (fails : ℕ → Bool) (s : Registry) → Drops s (close fails s).1
unfolding close
close-Drops fails s =
    let after = close_each-same 1001 s.connections _ in
    record {
      no_future = after.same_fresh ∙ (shut_each-same fails s.connections s).same_fresh;
      no_item = λ p k. rw after.same_pending refl;
    }

-- what a section other than `enter` does to the pending requests
step-Drops :
    (e : Event) (s : Registry)
    → Drops s (step e s) ⊎ ((c : Connection) × (d : ℕ) × (r : ℕ) × (e ≡ enters c d r))
unfolding step expire_wait
step-Drops (publishes c now clock) s = inl (same-Drops (publish-same c now clock s))
step-Drops (touches c now clock) s = inl (same-Drops (touch-same c now clock s))
step-Drops (disconnects fails c) s = inl (disconnect-Drops fails c s)
step-Drops (enters c d r) s = inr (c, d, r, refl)
step-Drops (expires_wait f) s = inl record { no_future = refl; no_item = λ p k. k }
step-Drops (leaves d r f) s = inl (leave-Drops d r f s)
step-Drops (resolves c m) s = inl (unfold resolve in reply-Drops c m.request_id (answer m.body) s)
step-Drops (expires threshold clock) s = inl (same-Drops (expire-same threshold clock s))
step-Drops (closes fails) s = inl (close-Drops fails s)

-- A predicate of the count of futures and of the pending items is kept by every section, if it is
-- kept when nothing is new and by `enter`.
pub step_keeps :
    (P : Registry → Type 0)
    → ((s s' : Registry) → Drops s s' → P s → P s')
    → ((c : Connection) (d r : ℕ) (s : Registry) → P s → P (enter c d r s).1)
    → (e : Event) (s : Registry) → P s
    → P (step e s)
step_keeps P dropped kept e s k = elim (step-Drops e s) [
  | inl h ↦ dropped s (step e s) h k
  | inr (c, d, r, h) ↦ rw h (unfold step in kept c d r s k)
]

pub step-fresh : (e : Event) (s : Registry) → s.fresh ≤ (step e s).fresh
step-fresh e s = elim (step-Drops e s) [
  | inl h ↦ omega (arith, h.no_future)
  | inr (c, d, r, h) ↦ rw h (unfold step enter in ground arith)
]
