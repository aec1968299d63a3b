-- ===== src/Gateway/Registry/Release.antt =====
-- About requests whose connection ends, in src/gptlink/gateway/registry.py.
use gptlink.Gateway.Registry.{
  Connection, Entry, Future, Registry, close, database_error, disconnect, drop, fail_all, has_key,
  is, is_current, is_waiting,
}
use gptlink.Gateway.Registry.Requests.{Event, entry_at, run}
use gptlink.Gateway.Registry.Futures.{close_each-same, fail_all-waiting, shut_each-same}
use gptlink.Gateway.Registry.Lifecycle.{IsAwaited, for_future, no_forgotten_waiter}
use gptlink.Gateway.Registry.Slots.{held_view, holds}
use gptlink.Gateway.Registry.Presence.{closed_view, view}
use gptlink.Common.Errors.{Exception, connection_unavailable}
use gptlink.Prelude.{
  Bool, Bool-cases, List, [], any, arith, before, eqb_refl, false, find, if◌then◌else◌, inl, inr,
  none, not, refl, select, some, true, ℕ, ◌&&◌, ◌<◌, ◌∙◌, ◌∷◌, ◌≡◌, ◌⊎◌,
}
use gptlink.Common.Action.{err, ok}

closed_futures :
    (fails : ℕ → Bool) (s : Registry) (g : ℕ)
    → (close fails s).1.futures g
      ≡ fail_all s.pending (connection_unavailable "Gateway is shutting down") s.futures g
unfolding close
closed_futures fails s g = rw (close_each-same 1001 s.connections _).same_futures refl

-- a failed item's future is done, and so is one that was done before
failed_done :
    (g : ℕ) (xs : List Entry) (e : Exception) (futures : ℕ → Future)
    → (is_waiting (futures g) ≡ true → any (for_future g) xs ≡ true)
    → is_waiting (fail_all xs e futures g) ≡ false
failed_done g xs e futures h = elim (Bool-cases (is_waiting (fail_all xs e futures g))) [
  | inl w ↦ let (before, out) = fail_all-waiting g xs e futures w in cc (out, h before)
  | inr w ↦ w
]

close-same :
    (fails : ℕ → Bool) (s : Registry)
    → ((close fails s).1.pending ≡ []) × ((close fails s).1.fresh ≡ s.fresh)
unfolding close
close-same fails s =
    let after = close_each-same 1001 s.connections _ in
    (after.same_pending, after.same_fresh ∙ (shut_each-same fails s.connections s).same_fresh)

-- Shutdown after any sections, whichever presence updates fail: no pending item is left, no device has
-- a connection, and no created future waits any more, if at first every created future that waited
-- belonged to a pending item.
pub shutdown_releases :
    (es : List Event) (fails : ℕ → Bool) (s : Registry)
    → IsAwaited s
    → let t = (close fails (run es s)).1 in
      (t.pending ≡ [])
      × ((d : ℕ) → view t d ≡ none)
      × ((g : ℕ) → g < t.fresh → is_waiting (t.futures g) ≡ false)
shutdown_releases es fails s k =
    let (pending, fresh) = close-same fails (run es s) in
    (
      pending,
      λ d. closed_view fails d (run es s),
      λ g small. rw closed_futures (
          failed_done g (run es s).pending _ _
            ((no_forgotten_waiter es s k).entry g (rw fresh at small))),
    )

module _ (p : Entry → Bool) where
  any-select_owner :
      (q : Entry → Bool) (es : List Entry)
      → any p (select (λ e. not (q e)) es) ≡ any (λ e. p e && not (q e)) es
  any-select_owner q [] = refl
  any-select_owner q (e ∷ es) = ground (arith, any-select_owner q es)

  found_selected :
      (a q : Entry → Bool) (es : List Entry) (e : Entry)
      → find a es ≡ some e
      → q e ≡ true
      → p e ≡ true
      → any p (select q es) ≡ true
  found_selected a q [] e h qe pe = ground arith
  found_selected a q (x ∷ es) e h qe pe = ground (arith, found_selected a q es e)

none_left : (q : Entry → Bool) (es : List Entry) → any q (select (λ e. not (q e)) es) ≡ false
none_left q [] = refl
none_left q (e ∷ es) = ground (arith, none_left q es)

-- what a disconnection makes of the registry
abbrev pub IsDropped : Connection → Registry → Registry → Type 0
IsDropped c s t =
    ((d : ℕ) → view t d ≡ (if holds c (view s d) then none else view s d))
    × (any (λ e. is e.owner c) t.pending ≡ false)
    × ((p : Entry → Bool) → any p t.pending ≡ any (λ e. p e && not (is e.owner c)) s.pending)
    × ((e : Entry) (d r : ℕ)
        → entry_at d r s.pending ≡ some e
        → is e.owner c ≡ true
        → is_waiting (t.futures e.future) ≡ false)

drop-IsDropped : (c : Connection) (s : Registry) → IsDropped c s (drop c s)
unfolding drop view
drop-IsDropped c s = (
  λ d. held_view c d s,
  none_left (λ e. is e.owner c) s.pending,
  λ p. any-select_owner p (λ e. is e.owner c) s.pending,
  λ e d r found o.
      failed_done e.future (select (λ (x : Entry). is x.owner c) s.pending) _ s.futures (λ w.
        found_selected (for_future e.future) (has_key d r) (λ (x : Entry). is x.owner c) s.pending e
          found o (eqb_refl e.future)),
)

-- A disconnection raises and leaves the registry as it was exactly where the connection is current and
-- its presence update fails. In every other case it returns, and then the connection is not current
-- any more and no other's is ended, none of its pending items is left and the others are as before,
-- and the future of each of its items is done.
pub disconnect_releases :
    (fails : Bool) (c : Connection) (s : Registry)
    → let (o, t) = disconnect fails c s in
      ((fails && is_current c s ≡ true) × (o ≡ err database_error) × (t ≡ s))
      ⊎ ((fails && is_current c s ≡ false) × (o ≡ ok tt) × IsDropped c s t)
unfolding disconnect
disconnect_releases fails c s = elim (Bool-cases (fails && is_current c s)) [
  | inl h ↦ inl (h, rw h refl, rw h refl)
  | inr h ↦ inr (h, rw h refl, rw h (drop-IsDropped c s))
]
