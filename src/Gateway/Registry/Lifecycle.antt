-- ===== src/Gateway/Registry/Lifecycle.antt =====
-- About the futures of pending requests, in src/gptlink/gateway/registry.py.
use gptlink.Gateway.Registry.{
  Connection, Entry, Future, Registry, cancelled, close, drop, fail_all, is, is_current, is_waiting,
  remove, settle,
}
use gptlink.Gateway.Registry.Requests.{
  Event, answer, closes, deliver, disconnects, enter, enters, entry_at, expire_wait, expires,
  expires_wait, has_future, leave, leaves, publishes, reply, resolve, resolves, run, step, touches,
}
use gptlink.Gateway.Registry.Drops.{step-fresh}
use gptlink.Gateway.Registry.Futures.{
  SameRequests, close_each-same, disconnect-outcome, expire-same, fail_all-done, fail_all-waiting,
  publish-same, shut_each-same, touch-same,
}
use gptlink.Protocol.Messages.{Body}
use gptlink.Prelude.{
  Bool, Bool-cases, Chars_eq, List, Option, Option-cases, String_eq, [], any, any-append, arith,
  before, false, if◌then◌else◌, inl, inr, is_some, none, not, refl, select, some, true, ℕ, ℕ_eq,
  ◌<◌, ◌==◌, ◌∙◌, ◌∷◌, ◌≡◌,
}
use gptlink.Common.Errors.{Exception}

same-done : {s s' : Registry} (g : ℕ) → SameRequests s s' → s'.futures g ≡ s.futures g
same-done g h = rw h.same_futures

reply-done :
    (c : Connection) (r : ℕ) (o : Option Future) (s : Registry) (g : ℕ)
    → is_waiting (s.futures g) ≡ false
    → (reply c r o s).1.futures g ≡ s.futures g
unfolding reply deliver
reply-done c r none s g h = refl
reply-done c r (some a) s g h = elim (Option-cases (entry_at c.device_id r s.pending)) [
  | inl e ↦ rw e refl
  | inr (x, e) ↦ elim (Bool-cases (is x.owner c)) [
    | inl o ↦ rw (e, o) (rw h (ground arith))
    | inr o ↦ rw (e, o) refl
  ]
]

step-done :
    (e : Event) (s : Registry) (g : ℕ)
    → g < s.fresh
    → is_waiting (s.futures g) ≡ false
    → (step e s).futures g ≡ s.futures g
unfolding step drop close enter expire_wait leave resolve
step-done (publishes c now clock) s g small h = same-done g (publish-same c now clock s)
step-done (touches c now clock) s g small h = same-done g (touch-same c now clock s)
step-done (disconnects fails c) s g small h = elim (disconnect-outcome fails c s) [
  | inl same ↦ rw same refl
  | inr gone ↦ rw gone (fail_all-done g (select (λ e. is e.owner c) s.pending) _ s.futures h)
]
step-done (enters c d r) s g small h = ground arith
step-done (expires_wait f) s g small h = rw h (ground arith)
step-done (leaves d r f) s g small h = rw h (ground arith)
step-done (resolves c m) s g small h = reply-done c m.request_id (answer m.body) s g h
step-done (expires threshold clock) s g small h = same-done g (expire-same threshold clock s)
step-done (closes fails) s g small h =
    same-done g (close_each-same 1001 s.connections _) ∙ fail_all-done g s.pending _ s.futures h

-- A created future that is done, by a result, a failure or a cancellation, keeps that outcome under
-- every sequence of sections of the registry's tasks: no late or second reply replaces it.
pub done_stays :
    (es : List Event) (s : Registry) (g : ℕ)
    → g < s.fresh
    → is_waiting (s.futures g) ≡ false
    → (run es s).futures g ≡ s.futures g
unfolding run
done_stays [] s g small h = refl
done_stays (e ∷ es) s g small h =
    let same = step-done e s g small h in
    done_stays es (step e s) g (omega (arith, small, step-fresh e s)) (rw same h) ∙ same

abbrev pub for_future : ℕ → Entry → Bool
for_future g e = e.future == g

-- every future that is created and waits belongs to a pending request
pub record IsAwaited (s : Registry) : Type 0 where
  pub entry :
      (g : ℕ) → g < s.fresh → is_waiting (s.futures g) ≡ true → any (for_future g) s.pending ≡ true

pub same-IsAwaited : {s s' : Registry} → SameRequests s s' → IsAwaited s → IsAwaited s'
same-IsAwaited h k = record {
  entry = λ g small w.
      rw h.same_pending (k.entry g (rw h.same_fresh at small) (rw h.same_futures at w));
}

-- an entry that does not go stays
any-remove :
    (g d r : ℕ) (es : List Entry)
    → any (for_future g) es ≡ true
    → has_future g (entry_at d r es) ≡ false
    → any (for_future g) (remove d r es) ≡ true
any-remove g d r [] h k = ground arith
any-remove g d r (e ∷ es) h k = ground (arith, any-remove g d r es)

any-select :
    (g : ℕ) (p : Entry → Bool) (es : List Entry)
    → any (for_future g) es ≡ true
    → any (for_future g) (select p es) ≡ false
    → any (for_future g) (select (λ e. not (p e)) es) ≡ true
any-select g p [] h k = ground arith
any-select g p (e ∷ es) h k = ground (arith, any-select g p es)

reply-IsAwaited :
    (c : Connection) (r : ℕ) (o : Option Future) (s : Registry)
    → ((a : Future) → o ≡ some a → is_waiting a ≡ false)
    → IsAwaited s
    → IsAwaited (reply c r o s).1
unfolding reply deliver
reply-IsAwaited c r none s done k = k
reply-IsAwaited c r (some a) s done k =
    elim (Option-cases (entry_at c.device_id r s.pending))
      as (λ _. IsAwaited (reply c r (some a) s).1) [
        | inl e ↦ rw e k
        | inr (x, e) ↦ elim (Bool-cases (is x.owner c)) [
          | inl o ↦
              rw (e, o)
                record {
                  entry = λ g small w.
                      let before = k.entry g small (ground (arith, done a refl)) in
                      any-remove g c.device_id r s.pending before
                        (rw e (ground (arith, done a refl)));
                }
          | inr o ↦ rw (e, o) k
        ]
      ]

answer-done : (b : Body) (a : Future) → answer b ≡ some a → is_waiting a ≡ false
answer-done b a h = ground arith

dropped :
    (c : Connection) (s : Registry) (e : Exception)
    → IsAwaited s
    → (g : ℕ) → g < s.fresh
    → is_waiting (fail_all (select (λ x. is x.owner c) s.pending) e s.futures g) ≡ true
    → any (for_future g) (select (λ x. not (is x.owner c)) s.pending) ≡ true
dropped c s e k g small w =
    let (before, out) = fail_all-waiting g (select (λ x. is x.owner c) s.pending) e s.futures w in
    any-select g (λ x. is x.owner c) s.pending (k.entry g small before) out

left :
    (d r f g : ℕ) (s : Registry)
    → IsAwaited s
    → g < s.fresh
    → is_waiting (settle f cancelled s.futures g) ≡ true
    → any
        (for_future g)
        (if has_future f (entry_at d r s.pending) then remove d r s.pending else s.pending)
      ≡ true
left d r f g s k small w = elim (Option-cases (entry_at d r s.pending)) [
  | inl e ↦ rw e (k.entry g small (ground arith))
  | inr (x, e) ↦ rw e (ground (arith, k.entry g small, any-remove g d r s.pending, e))
]

drop-IsAwaited : (c : Connection) (s : Registry) → IsAwaited s → IsAwaited (drop c s)
unfolding drop
drop-IsAwaited c s k = elim (Bool-cases (is_current c s)) as (λ _. IsAwaited (drop c s)) [
  | inl h ↦ rw h record { entry = λ g small w. dropped c s _ k g small w }
  | inr h ↦ rw h record { entry = λ g small w. dropped c s _ k g small w }
]

step-IsAwaited : (e : Event) (s : Registry) → IsAwaited s → IsAwaited (step e s)
unfolding step drop close enter expire_wait leave resolve
step-IsAwaited (publishes c now clock) s k = same-IsAwaited (publish-same c now clock s) k
step-IsAwaited (touches c now clock) s k = same-IsAwaited (touch-same c now clock s) k
step-IsAwaited (disconnects fails c) s k = elim (disconnect-outcome fails c s) [
  | inl same ↦ rw same k
  | inr gone ↦ rw gone (drop-IsAwaited c s k)
]
step-IsAwaited (enters c d r) s k =
    elim (Bool-cases (is_some (entry_at d r s.pending))) as (λ _. IsAwaited (enter c d r s).1) [
      | inl h ↦ rw h k
      | inr h ↦ rw h record {
        entry = λ g small w. ground (
          arith,
          k.entry g,
          any-append (for_future g) s.pending
              (record { device_id = d; request_id = r; owner = c; future = s.fresh } ∷ []),
        );
      }
    ]
step-IsAwaited (expires_wait f) s k = record { entry = λ g small w. k.entry g small (ground arith) }
step-IsAwaited (leaves d r f) s k = record { entry = λ g small w. left d r f g s k small w }
step-IsAwaited (resolves c m) s k =
    reply-IsAwaited c m.request_id (answer m.body) s (answer-done m.body) k
step-IsAwaited (expires threshold clock) s k = same-IsAwaited (expire-same threshold clock s) k
step-IsAwaited (closes fails) s k = same-IsAwaited (close_each-same 1001 s.connections _) record {
  entry = λ g small w. ground (
    arith,
    k.entry g,
    fail_all-waiting g s.pending _ s.futures w,
    (shut_each-same fails s.connections s).same_fresh,
  );
}

-- If every created future that still waits belongs to an item of the pending requests, this holds after
-- every sequence of sections: disconnects, shutdown, timeouts and replies leave no waiter forgotten.
pub no_forgotten_waiter : (es : List Event) (s : Registry) → IsAwaited s → IsAwaited (run es s)
unfolding run
no_forgotten_waiter [] s k = k
no_forgotten_waiter (e ∷ es) s k = no_forgotten_waiter es (step e s) (step-IsAwaited e s k)
