-- ===== src/Gateway/Registry/Futures.antt =====
-- What the sections of src/gptlink/gateway/registry.py do to futures and pending requests.
use gptlink.Gateway.Registry.{
  Connection, Entry, Future, Registry, Slot, close_connection, close_each, disconnect, drop, expire,
  fail_all, failed, found_or, install, is_current, is_stale, is_waiting, on_db, publish, result,
  retire, retire_stale, saw, settle, shut, shut_each, touch,
}
use gptlink.Common.Action.{Action, transaction, ◌>>=◌}
use gptlink.Common.Json.{Json}
use gptlink.Prelude.{
  Bool, Bool-cases, Chars_eq, List, String_eq, [], any, arith, false, inl, inr, refl, select, true,
  ℕ, ℕ_eq, ◌&&◌, ◌==◌, ◌∙◌, ◌∷◌, ◌≡◌, ◌⊎◌,
}
use gptlink.Persistence.Repositories.Devices as Devices
use gptlink.Persistence.Models.{Tables}
use gptlink.Common.Action.Keeps.{Keeps, Keeps-bind, Keeps-guarded}
use gptlink.Common.Errors.{Exception, connection_unavailable}

-- the requests that wait are the same
pub record SameRequests (s s' : Registry) : Type 0 where
  pub same_pending : s'.pending ≡ s.pending
  pub same_futures : s'.futures ≡ s.futures
  pub same_fresh : s'.fresh ≡ s.fresh

pub same_refl : (s : Registry) → SameRequests s s
same_refl s = record { same_pending = refl; same_futures = refl; same_fresh = refl }

pub same_trans : {s t u : Registry} → SameRequests s t → SameRequests t u → SameRequests s u
same_trans h k = record {
  same_pending = k.same_pending ∙ h.same_pending;
  same_futures = k.same_futures ∙ h.same_futures;
  same_fresh = k.same_fresh ∙ h.same_fresh;
}

pub retire-same : (d : ℕ) (s : Registry) → SameRequests s (retire d s)
unfolding retire
retire-same d s = record { same_pending = refl; same_futures = refl; same_fresh = refl }

-- a disconnection drops the connection, or has failed and left everything
pub disconnect-outcome :
    (fails : Bool) (c : Connection) (s : Registry)
    → ((disconnect fails c s).1 ≡ s) ⊎ ((disconnect fails c s).1 ≡ drop c s)
unfolding disconnect
disconnect-outcome fails c s = elim (Bool-cases (fails && is_current c s)) [
  | inl h ↦ inl (rw h refl)
  | inr h ↦ inr (rw h refl)
]

shut-same : (fails : Bool) (d : ℕ) (s : Registry) → SameRequests s (shut fails d s)
unfolding shut
shut-same true d s = record { same_pending = refl; same_futures = refl; same_fresh = refl }
shut-same false d s = retire-same d s

retire_stale-same :
    (threshold : ℕ) (clock : ℕ → ℕ) (xs : List Slot) (s : Registry)
    → SameRequests s (retire_stale threshold clock xs s)
unfolding retire_stale
retire_stale-same threshold clock [] s = same_refl s
retire_stale-same threshold clock (x ∷ xs) s = elim (Bool-cases (is_stale threshold clock x)) [
  | inl h ↦ rw h (
      same_trans (retire-same x.connection.device_id s)
        (retire_stale-same threshold clock xs (retire x.connection.device_id s)))
  | inr h ↦ rw h (retire_stale-same threshold clock xs s)
]

pub shut_each-same :
    (fails : ℕ → Bool) (xs : List Slot) (s : Registry) → SameRequests s (shut_each fails xs s)
unfolding shut_each
shut_each-same fails [] s = same_refl s
shut_each-same fails (x ∷ xs) s =
    same_trans (shut-same (fails x.connection.device_id) x.connection.device_id s)
      (shut_each-same fails xs (shut (fails x.connection.device_id) x.connection.device_id s))

pub close_each-same :
    (code : ℕ) (xs : List Slot) (s : Registry) → SameRequests s (close_each code xs s)
unfolding close_each close_connection
close_each-same code [] s = same_refl s
close_each-same code (x ∷ xs) s =
    same_trans record { same_pending = refl; same_futures = refl; same_fresh = refl }
      (close_each-same code xs (close_connection x.connection code s))

module _ (s : Registry) where
  on_db-Keeps : {A : Type 0} (m : Action Tables A) → Keeps (SameRequests s) (on_db m)
  unfolding on_db
  on_db-Keeps m = record { after = λ t h. same_trans h same_db }
    where
      same_db : {t : Registry} {d : Tables} → SameRequests t (record t { db = d })
      same_db = record { same_pending = refl; same_futures = refl; same_fresh = refl }

  install-Keeps : (c : Connection) (clock : ℕ) → Keeps (SameRequests s) (install c clock)
  unfolding install
  install-Keeps c clock = record {
    after = λ t h. record {
      same_pending = h.same_pending;
      same_futures = h.same_futures;
      same_fresh = h.same_fresh;
    };
  }

  saw-Keeps : (c : Connection) (clock : ℕ) → Keeps (SameRequests s) (saw c clock)
  unfolding saw
  saw-Keeps c clock = record {
    after = λ t h. record {
      same_pending = h.same_pending;
      same_futures = h.same_futures;
      same_fresh = h.same_fresh;
    };
  }

pub publish-same :
    (c : Connection) (now clock : ℕ) (s : Registry) → SameRequests s (publish c now clock s).1
unfolding publish
publish-same c now clock s =
    (Keeps-bind (on_db (transaction (Devices.mark_online c.device_id now >>= found_or)))
        (λ u. install c clock) (on_db-Keeps s _) (λ u. install-Keeps s c clock)).after
      s (same_refl s)

pub touch-same :
    (c : Connection) (now clock : ℕ) (s : Registry) → SameRequests s (touch c now clock s).1
unfolding touch
touch-same c now clock s =
    (Keeps-guarded (is_current c s) (connection_unavailable "connection replaced") _ (λ h.
        Keeps-bind (on_db (transaction (Devices.touch c.device_id now >>= found_or)))
          (λ u. saw c clock) (on_db-Keeps s _) (λ u. saw-Keeps s c clock))).after
      s (same_refl s)

pub expire-same :
    (threshold : ℕ) (clock : ℕ → ℕ) (s : Registry) → SameRequests s (expire threshold clock s).1
unfolding expire
expire-same threshold clock s = same_trans (retire_stale-same threshold clock s.connections s) (
    close_each-same 4408 (select (is_stale threshold clock) s.connections)
      (retire_stale threshold clock s.connections s))

-- one lemma for each way a section treats them
module _ (g : ℕ) where
  pub fail_all-done :
      (xs : List Entry) (e : Exception) (futures : ℕ → Future)
      → is_waiting (futures g) ≡ false
      → fail_all xs e futures g ≡ futures g
  unfolding fail_all
  fail_all-done [] e futures h = refl
  fail_all-done (x ∷ xs) e futures h =
      let same : settle x.future (failed e) futures g ≡ futures g = rw h (ground arith) in
      fail_all-done xs e (settle x.future (failed e) futures) (rw same h) ∙ same

  pub fail_all-waiting :
      (xs : List Entry) (e : Exception) (futures : ℕ → Future)
      → is_waiting (fail_all xs e futures g) ≡ true
      → (is_waiting (futures g) ≡ true) × (any (λ x. x.future == g) xs ≡ false)
  unfolding fail_all
  fail_all-waiting [] e futures h = (h, refl)
  fail_all-waiting (x ∷ xs) e futures h =
      let (w, out) = fail_all-waiting xs e (settle x.future (failed e) futures) h in ground arith

  pub fail_all-result :
      (xs : List Entry) (e : Exception) (futures : ℕ → Future) (v : Json)
      → fail_all xs e futures g ≡ result v
      → futures g ≡ result v
  unfolding fail_all
  fail_all-result [] e futures v h = h
  fail_all-result (x ∷ xs) e futures v h =
      let k = fail_all-result xs e (settle x.future (failed e) futures) v h in ground arith
