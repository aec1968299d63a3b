-- ===== src/Gateway/Leases/Calls.antt =====
-- The lease service as a machine that answers a sequence of calls. Each call is one transaction,
-- and the database serializes them, so a sequence is any interleaving of concurrent callers.
use gptlink.Prelude.{List, Option, String, [], none, some, ℕ, ℤ, ◌∷◌}
use gptlink.Common.Errors.{Exception}
use gptlink.Common.Action.{Outcome, err, ok}
use gptlink.Persistence.Models.{Tables}
use gptlink.Gateway.Leases.{acquire, release, validate}

-- A call, with the values that the caller, the clock and uuid4 give.
pub data Call : Type 0 where
  acquires : (lease_id device_id : ℕ) (owner : String) (ttl : ℤ) (now : ℕ) → Call
  validates : (lease_id device_id : ℕ) (owner : String) (now : ℕ) → Call
  releases : (lease_id : ℕ) (owner : String) (now : ℕ) → Call

-- An exception ends only its own call.
unfoldable pub step : Tables → Call → Tables
step t (acquires i d o ttl now) = (acquire i d o ttl now t).1
step t (validates i d o now) = (validate i d o now t).1
step t (releases i o now) = (release i o now t).1

failure {ℓ} : {A : Type ℓ} → Outcome A → Option Exception
failure (ok a) = none
failure (err e) = some e

-- the exception that a call raises
unfoldable pub raised : Tables → Call → Option Exception
unfolding failure
raised t (acquires i d o ttl now) = failure (acquire i d o ttl now t).0
raised t (validates i d o now) = failure (validate i d o now t).0
raised t (releases i o now) = failure (release i o now t).0

unfoldable pub run : Tables → List Call → Tables
run t [] = t
run t (c ∷ cs) = run (step t c) cs
