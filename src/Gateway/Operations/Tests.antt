-- ===== src/Gateway/Operations/Tests.antt =====
-- Mutations on a small database: the environment counts the runs of the callback.
use gptlink.Common.Types.{filesystem_write}
use gptlink.Gateway.Operations.Admission.{
  admissible, claimed, is_admissible, is_valid_lease, mutate_admitted, mutate_refused,
}
use gptlink.Gateway.Operations.Trail.{logged, stated}
use gptlink.Gateway.Operations.AtMostOnce.{Claims, Request, at_most_once, handle, serve}
use gptlink.Gateway.Operations.{Call, Readings, World, mutate}
use gptlink.Persistence.Samples.{tables}
use gptlink.Prelude.{[], false, none, pos, refl, some, true, ℕ, ◌+◌, ◌∷◌, ◌≡◌}
use gptlink.Persistence.Models.{AuditEvent, Lease}
use gptlink.Common.Action.Keeps.{Keeps}
use gptlink.Common.Action.{Action, err, ok}
use gptlink.Common.Errors.{Exception}

abbrev lease : Lease
lease = record {
  lease_id = 7;
  device_id = 1;
  owner = "alice";
  created_at = 100;
  expires_at = 160;
  released_at = none;
}

abbrev start : World ℕ
start = record { db = record tables { leases = lease ∷ [] }; env = 0 }

abbrev write_call : Call
write_call = record {
  device_id = 1;
  caller = "alice";
  request_id = some 5;
  lease_id = 7;
  required = filesystem_write ∷ [];
  action = "filesystem.write";
  risk_level = "MEDIUM";
  details = none;
}

abbrev at_120 : Readings
at_120 = record { at_lease = 120; at_claim = 121; at_audit = 130; elapsed = pos 10 }

tick : Action (World ℕ) ℕ
tick w = (ok w.env, record w { env = w.env + 1 })

write_admissible : is_admissible write_call at_120 start.db ≡ true
unfolding admissible is_valid_lease
write_admissible = refl

mutate_admitted_example :
    (stored : AuditEvent) × (mutate write_call at_120 tick start ≡ (
      (tick (record start { db = claimed (some 5) 121 start.db })).0,
      logged (tick (record start { db = claimed (some 5) 121 start.db })).1 stored,
    ))
    × (stored.result ≡ stated (tick (record start { db = claimed (some 5) 121 start.db })).0)
mutate_admitted_example = mutate_admitted write_call at_120 tick start write_admissible

abbrev late_call : Readings
late_call = record { at_lease = 160; at_claim = 161; at_audit = 170; elapsed = pos 10 }

late_not_admissible : is_admissible write_call late_call start.db ≡ false
unfolding admissible is_valid_lease
late_not_admissible = refl

mutate_refused_example :
    (e : Exception) × (stored : AuditEvent) × (mutate write_call late_call tick start
      ≡ (err e, logged start stored))
    × (stored.result ≡ "DENIED")
mutate_refused_example = mutate_refused write_call late_call tick start late_not_admissible

abbrev write_request : Request ℕ ℕ
write_request = record { call = write_call; readings = at_120; execute = tick }

tick-Claims : Keeps (Claims 5) tick
unfolding tick
tick-Claims = record { after = λ w h. h }

at_most_once_example :
    (e : Exception) × (stored : AuditEvent) × (handle write_request
        (serve {A = ℕ} (handle write_request start).1 [])
      ≡ (err e, logged (serve {A = ℕ} (handle write_request start).1 []) stored))
at_most_once_example =
    at_most_once 5 write_request write_request [] start refl refl write_admissible tick-Claims tt
