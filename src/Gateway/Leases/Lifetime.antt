-- ===== src/Gateway/Leases/Lifetime.antt =====
-- About each call of src/gptlink/gateway/leases.py, branch by branch.
use gptlink.Prelude.{
  Chars_eq, List, Option, String, String_eq, [], any, arith, eq_iff, eqb_iff, eqb_refl, false, find,
  find-append, find-update, find_passes, if◌then◌else◌, is_none, leb, ltb, none, over, pos,
  pos_part, refl, some, suc, true, update, ℕ, ℕ_eq, ℤ, ◌&&◌, ◌++◌, ◌+◌, ◌==◌, ◌∷◌, ◌≡◌, ◌≢◌,
}
use gptlink.Common.Errors.{Exception, lease_conflict_error, lease_error}
use gptlink.Common.Action.{Outcome, err, ok, transaction, ◌>>=◌}
use gptlink.Persistence.Models.{Lease, Tables, device_exists, is_unreleased}
use gptlink.Gateway.Leases.Calls.{Call, acquires, raised, releases, step, validates}
use gptlink.Gateway.Leases.{accept, acquire, held_by, new_lease, release, validate}
use gptlink.Persistence.Repositories.Leases as Repository

-- the row that stands in the way of a lease of device `d`
abbrev pub active_lease : ℕ → ℕ → Tables → Option Lease
active_lease d now t = find (λ x. is_unreleased d x && ltb now x.expires_at) t.leases

abbrev pub retired : ℕ → ℕ → List Lease → List Lease
retired d now =
    update (λ x. is_unreleased d x && leb x.expires_at now)
      (λ x. record x { released_at = some x.expires_at })

find_active-retired :
    (d now : ℕ) (ls : List Lease)
    → find (λ x. is_unreleased d x && ltb now x.expires_at) (retired d now ls)
      ≡ find (λ x. is_unreleased d x && ltb now x.expires_at) ls
find_active-retired d now [] = refl
find_active-retired d now (x ∷ ls) = ground (arith, find_active-retired d now ls)

-- once the expired rows are retired, an unreleased row is an active one
any_unreleased-retired :
    (d now : ℕ) (ls : List Lease)
    → find (λ x. is_unreleased d x && ltb now x.expires_at) ls ≡ none
    → any (is_unreleased d) (retired d now ls) ≡ false
any_unreleased-retired d now [] h = refl
any_unreleased-retired d now (x ∷ ls) h = ground (arith, any_unreleased-retired d now ls)

any_id-retired :
    (i d now : ℕ) (ls : List Lease)
    → any (λ x. x.lease_id == i) (retired d now ls) ≡ any (λ x. x.lease_id == i) ls
any_id-retired i d now [] = refl
any_id-retired i d now (x ∷ ls) = ground (arith, any_id-retired i d now ls)

-- A conflict is reported exactly when an active lease is there, and then nothing is written.
-- Otherwise the lease is appended, good until `now + ttl`, and the expired ones are retired.
acquire_outcome :
    (i d : ℕ) (o : String) (ttl : ℕ) (now : ℕ) (t : Tables)
    → o ≢ ""
    → device_exists t d ≡ true
    → any (λ x. x.lease_id == i) t.leases ≡ false
    → acquire i d o (pos (suc ttl)) now t ≡ elim (active_lease d now t) [
      | some l ↦ (err lease_conflict_error, t)
      | none ↦ (
        ok (new_lease i d o (pos (suc ttl)) now),
        record t { leases = retired d now t.leases ++ new_lease i d o (pos (suc ttl)) now ∷ [] },
      )
    ]
unfolding acquire Repository.acquire Repository.retire_expired Repository.get_active Repository.add
    ◌>>=◌
acquire_outcome i d o ttl now t ho hd hi = ground (
  arith,
  eq_iff o "",
  find_active-retired d now t.leases,
  any_unreleased-retired d now t.leases,
  any_id-retired i d now t.leases,
)

repository_acquired :
    (l m : Lease) (now : ℕ) (t t' : Tables)
    → Repository.acquire l now t ≡ (ok m, t')
    → (m ≡ l)
      × (t'.leases ≡ retired l.device_id now t.leases ++ l ∷ [])
      × (any (λ x. x.lease_id == l.lease_id) (retired l.device_id now t.leases) ≡ false)
unfolding Repository.acquire Repository.retire_expired Repository.get_active Repository.add ◌>>=◌
repository_acquired l m now t t' h = ground arith

acquired :
    (i d : ℕ) (o : String) (ttl : ℤ) (now : ℕ) (t t' : Tables) (l : Lease)
    → acquire i d o ttl now t ≡ (ok l, t')
    → Repository.acquire (new_lease i d o ttl now) now t ≡ (ok l, t')
unfolding acquire ◌>>=◌
acquired i d o ttl now t t' l h = ground arith

-- what the checks of `validate` say of the row that was found
unfoldable pub verdict : ℕ → String → ℕ → Option Lease → Outcome Lease
verdict d o now none = err lease_error
verdict d o now (some l) =
    if (l.device_id == d) && (l.owner == o) && is_none l.released_at && ltb now l.expires_at
    then ok l
    else err lease_error

accept-eq-verdict :
    (d : ℕ) (o : String) (now : ℕ) (t : Tables) (found : Option Lease)
    → transaction (λ s. accept d o now found s) t ≡ (verdict d o now found, t)
unfolding accept verdict ◌>>=◌
accept-eq-verdict d o now t none = refl
accept-eq-verdict d o now t (some l) = ground arith

pub validate-eq-verdict :
    (i d : ℕ) (o : String) (now : ℕ) (t : Tables)
    → validate i d o now t ≡ (verdict d o now (find (λ x. x.lease_id == i) t.leases), t)
unfolding validate Repository.get ◌>>=◌
validate-eq-verdict i d o now t = accept-eq-verdict d o now t (find (λ x. x.lease_id == i) t.leases)

-- After a lease was acquired, a validation of its id succeeds exactly for its device, its owner and
-- times before its end, which is the time of the call plus the TTL. It leaves the tables alone.
pub validate-acquire :
    (i d e : ℕ) (o p : String) (ttl : ℤ) (now later : ℕ) (t t' : Tables) (l : Lease)
    → acquire i d o ttl now t ≡ (ok l, t')
    → validate i e p later t' ≡ (
      if (d == e) && (o == p) && ltb later (now + pos_part ttl) then ok l else err lease_error,
      t',
    )
unfolding new_lease verdict
validate-acquire i d e o p ttl now later t t' l h =
    let a =
      repository_acquired (new_lease i d o ttl now) l now t t' (acquired i d o ttl now t t' l h) in
    let found =
      find-append (λ (x : Lease). x.lease_id == i) (retired d now t.leases)
        (new_lease i d o ttl now ∷ []) in
    rw (validate-eq-verdict i e p later t', a.1, found, a.2, eqb_refl i, a.0) (ground arith)

released :
    (i : ℕ) (o : String) (now : ℕ) (t t' : Tables)
    → release i o now t ≡ (ok tt, t')
    → t'.leases
      ≡ update
          (λ x. (x.lease_id == i) && is_none x.released_at)
          (λ x. record x { released_at = some now })
          t.leases
unfolding release Repository.get Repository.release ◌>>=◌
released i o now t t' h = ground arith

-- a released row is refused, whoever asks
spent :
    (d : ℕ) (p : String) (now later : ℕ) (i : ℕ) (found : Option Lease)
    → ((l : Lease) → found ≡ some l → l.lease_id ≡ i)
    → let after =
        over
          (λ x.
            if (x.lease_id == i) && is_none x.released_at
            then record x { released_at = some now }
            else x)
          found in
      (verdict d p later after ≡ err lease_error) × (held_by p after ≡ false)
unfolding verdict held_by
spent d p now later i none at = (refl, refl)
spent d p now later i (some l) at = ground (arith, at l)

refused :
    (i : ℕ) (p : String) (later : ℕ) (t : Tables)
    → held_by p (find (λ x. x.lease_id == i) t.leases) ≡ false
    → release i p later t ≡ (err lease_error, t)
unfolding release Repository.get ◌>>=◌
refused i p later t h = rw h

-- A lease that was released is refused ever after: to every caller, for every device, at any time,
-- a validation fails, and so does a second release.
release_ends :
    (i d : ℕ) (o p : String) (now later : ℕ) (t t' : Tables)
    → release i o now t ≡ (ok tt, t')
    → (validate i d p later t' ≡ (err lease_error, t'))
      × (release i p later t' ≡ (err lease_error, t'))
release_ends i d o p now later t t' h =
    let rows = released i o now t t' h in
    let found =
      find-update (λ (x : Lease). x.lease_id == i) (λ x. (x.lease_id == i) && is_none x.released_at)
        (λ x. record x { released_at = some now }) t.leases (λ x. refl) in
    let after =
      spent d p now later i (find (λ x. x.lease_id == i) t.leases)
        (λ l e. (eqb_iff l.lease_id i).0 (find_passes (λ x. x.lease_id == i) t.leases l e)) in
    (
      rw (validate-eq-verdict i d p later t', rows, found, after.0),
      refused i p later t' (rw (rows, found) after.1),
    )

-- A call of the service that raises has written nothing, whatever its transaction did before.
error_rolls_back : (t : Tables) (c : Call) (e : Exception) → raised t c ≡ some e → step t c ≡ t
unfolding raised step acquire validate release ◌>>=◌
error_rolls_back t (acquires i d o ttl now) e h = ground arith
error_rolls_back t (validates i d o now) e h = ground arith
error_rolls_back t (releases i o now) e h = ground arith
