-- ===== src/Gateway/Leases.antt =====
-- src/gptlink/gateway/leases.py: exclusive, expiring mutation leases. The clock's value and the
-- fresh UUID are arguments; a TTL is an integer number of microseconds, and may be negative.
pub mod Calls
pub mod Exclusion
pub mod Lifetime
mod Tests
use gptlink.Prelude.{
  Bool, Option, String, String_eq, false, is_some, leb, ltb_ℤ, none, not, pos, pos_part, some, ℕ,
  ℕ_eq, ℤ, ◌+◌, ◌==◌, ◌||◌,
}
use gptlink.Common.Errors.{
  Exception, lease_conflict_error, lease_error, repository_lease_conflict, value_error,
}
use gptlink.Common.Action.{Action, catch, guarded, pure, raise, transaction, ◌>>=◌, ◌>>◌}
use gptlink.Persistence.Models.{Lease, Tables}
use gptlink.Persistence.Repositories.Leases as Repository

unfoldable pub new_lease : ℕ → ℕ → String → ℤ → ℕ → Lease
new_lease lease_id device_id owner ttl now = record {
  lease_id = lease_id;
  device_id = device_id;
  owner = owner;
  created_at = now;
  expires_at = now + pos_part ttl;
  released_at = none;
}

-- except RepositoryLeaseConflictError: raise LeaseConflictError
unfoldable translated : Exception → Exception
translated repository_lease_conflict = lease_conflict_error
translated e = e

unfoldable pub acquire : ℕ → ℕ → String → ℤ → ℕ → Action Tables Lease
unfolding new_lease translated
acquire lease_id device_id owner ttl now =
    guarded (not (owner == "")) (value_error "lease owner must not be empty") (
      guarded (ltb_ℤ (pos 0) ttl) (value_error "lease TTL must be positive") (
        catch (transaction (Repository.acquire (new_lease lease_id device_id owner ttl now) now))
          (λ e. raise (translated e))))

accept : ℕ → String → ℕ → Option Lease → Action Tables Lease
accept device_id owner now none = raise lease_error
accept device_id owner now (some l) =
    guarded
      (not (
        not (l.device_id == device_id)
        || not (l.owner == owner)
        || is_some l.released_at
        || leb l.expires_at now))
      lease_error (pure l)

unfoldable pub validate : ℕ → ℕ → String → ℕ → Action Tables Lease
unfolding accept
validate lease_id device_id owner now =
    transaction (Repository.get lease_id >>= accept device_id owner now)

held_by : String → Option Lease → Bool
held_by owner none = false
held_by owner (some l) = not (not (l.owner == owner) || is_some l.released_at)

unfoldable pub release : ℕ → String → ℕ → Action Tables Unit
unfolding held_by
release lease_id owner now = transaction (do
  lease ← Repository.get lease_id
  guarded (held_by owner lease) lease_error
      (do done ← Repository.release lease_id now; guarded done lease_error (pure tt)))
