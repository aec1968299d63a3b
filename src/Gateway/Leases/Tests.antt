-- ===== src/Gateway/Leases/Tests.antt =====
-- Runs of the lease service on a small database.
use gptlink.Prelude.{String, [], arith, none, pos, refl, ℕ, ◌∷◌, ◌≡◌}
use gptlink.Common.Errors.{lease_error}
use gptlink.Common.Action.{err, ◌>>=◌}
use gptlink.Persistence.Models.{Lease, Tables}
use gptlink.Persistence.Samples.{tables}
use gptlink.Gateway.Leases.Calls.{acquires, run, step}
use gptlink.Gateway.Leases.{acquire, validate}
use gptlink.Gateway.Leases.Exclusion.{validated_alone}
use gptlink.Gateway.Leases.Lifetime.{validate-acquire}
use gptlink.Persistence.Repositories.Leases as Repository
use gptlink.Persistence.Repositories.Leases.Exclusive.{Exclusive}

abbrev first_lease : Lease
first_lease = record {
  lease_id = 7;
  device_id = 1;
  owner = "alice";
  created_at = 100;
  expires_at = 160;
  released_at = none;
}

abbrev leased : Tables
leased = record tables { leases = first_lease ∷ [] }

tables-Exclusive : Exclusive tables
tables-Exclusive d = omega arith

validated_alone_example : (◌≡◌ {A = ℕ} 7 7) × (◌≡◌ {A = String} "alice" "alice")
unfolding run step acquire validate Repository.acquire Repository.get Repository.add
    Repository.retire_expired Repository.get_active ◌>>=◌
validated_alone_example =
    validated_alone tables (acquires 7 1 "alice" (pos 60) 100 ∷ []) 7 7 1 120 130 "alice" "alice"
      first_lease first_lease leased leased tables-Exclusive refl refl

validate-acquire_example : validate 7 1 "alice" 160 leased ≡ (err lease_error, leased)
unfolding acquire Repository.acquire Repository.add Repository.retire_expired Repository.get_active
    ◌>>=◌
validate-acquire_example =
    validate-acquire 7 1 1 "alice" "alice" (pos 60) 100 160 tables leased first_lease refl
