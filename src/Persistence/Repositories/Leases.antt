-- ===== src/Persistence/Repositories/Leases.antt =====
-- `LeaseRepository` of src/gptlink/persistence/repositories.py.
pub mod Exclusive
use gptlink.Prelude.{
  Bool, Option, String_eq, [], any, find, if◌then◌else◌, is_none, is_some, leb, ltb, not, some,
  update, ℕ, ℕ_eq, ◌&&◌, ◌++◌, ◌==◌, ◌||◌, ◌∷◌,
}
use gptlink.Common.Errors.{Exception, integrity_error, repository_lease_conflict, value_error}
use gptlink.Common.Action.{Action, catch, err, guarded, ok, raise, transaction, ◌>>=◌, ◌>>◌}
use gptlink.Persistence.Models.{Lease, Tables, device_exists, is_unreleased, lease_check}

-- primary key, foreign key, check and the unique index `uq_unreleased_lease_device`
unfoldable pub add : Lease → Action Tables Lease
add l t =
    if any (λ x. x.lease_id == l.lease_id) t.leases
      || not (lease_check l)
      || not (device_exists t l.device_id)
      || (is_none l.released_at && any (is_unreleased l.device_id) t.leases)
    then (err integrity_error, t)
    else (ok l, record t { leases = t.leases ++ l ∷ [] })

unfoldable pub get : ℕ → Action Tables (Option Lease)
get lease_id t = (ok (find (λ x. x.lease_id == lease_id) t.leases), t)

unfoldable pub get_active : ℕ → ℕ → Action Tables (Option Lease)
get_active d now t = (ok (find (λ x. is_unreleased d x && ltb now x.expires_at) t.leases), t)

-- update(Lease).where(unreleased, expires_at <= now).values(released_at=Lease.expires_at)
unfoldable pub retire_expired : ℕ → ℕ → Action Tables Unit
retire_expired d now t = (
  ok tt,
  record t {
    leases =
        update (λ x. is_unreleased d x && leb x.expires_at now)
          (λ x. record x { released_at = some x.expires_at }) t.leases;
  },
)

-- the except clause round the savepoint
conflict_or : ℕ → ℕ → Exception → Action Tables Lease
conflict_or d now integrity_error = get_active d now >>= λ active.
    guarded (is_none active) repository_lease_conflict (raise integrity_error)
conflict_or d now e = raise e

unfoldable pub acquire : Lease → ℕ → Action Tables Lease
unfolding conflict_or
acquire lease now =
    guarded (not (leb lease.expires_at now || is_some lease.released_at))
      (value_error "lease must be unexpired and unreleased")
      (do
        retire_expired lease.device_id now
        active ← get_active lease.device_id now
        guarded (is_none active) repository_lease_conflict
            (catch (transaction (add lease)) (conflict_or lease.device_id now)))

unfoldable pub release : ℕ → ℕ → Action Tables Bool
release lease_id now t = (
  ok (any (λ x. (x.lease_id == lease_id) && is_none x.released_at) t.leases),
  record t {
    leases =
        update (λ x. (x.lease_id == lease_id) && is_none x.released_at)
          (λ x. record x { released_at = some now }) t.leases;
  },
)
