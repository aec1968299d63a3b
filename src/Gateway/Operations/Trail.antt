-- ===== src/Gateway/Operations/Trail.antt =====
-- About the audit event of an operation, of src/gptlink/gateway/operations.py.
use gptlink.Common.Json.{Fields}
use gptlink.Gateway.Audit.{Entry, event, record_event}
use gptlink.Persistence.Repositories.Requests as Requests
use gptlink.Gateway.Operations.{World, audit_result, audited, failed, finish, on_db, succeeded}
use gptlink.Prelude.{Option, String, [], refl, ℕ, ◌++◌, ◌∷◌, ◌≡◌}
use gptlink.Persistence.Models.{AuditEvent}
use gptlink.Common.Action.{Action, Outcome, err, ok, ◌>>=◌}

-- the result that an event must state
abbrev pub stated {ℓ} : {A : Type ℓ} → Outcome A → String
stated (ok a) = "SUCCESS"
stated (err e) = audit_result e

abbrev pub logged : {E : Type 0} → World E → AuditEvent → World E
logged w e = record w { db = record w.db { audit_events = w.db.audit_events ++ e ∷ [] } }

module _ {E A : Type 0} where
  finish_lem :
      (e : Entry) (now : ℕ) (details : A → Option Fields) (o : Outcome A) (w : World E)
      → (stored : AuditEvent) × (finish e now details o w ≡ (o, logged w stored))
        × (stored.result ≡ stated o)
  unfolding finish on_db succeeded failed record_event Requests.add_event ◌>>=◌
  finish_lem e now details (ok a) w = (event now (succeeded e (details a)), refl, refl)
  finish_lem e now details (err x) w = (event now (failed e x), refl, refl)

  -- an audited operation has the outcome of its body, in the state that the body left plus one event
  pub audited_after :
      (e : Entry) (now : ℕ) (details : A → Option Fields) (body : Action (World E) A)
      (w w' : World E) (o : Outcome A)
      → body w ≡ (o, w')
      → (stored : AuditEvent) × (audited e now details body w ≡ (o, logged w' stored))
        × (stored.result ≡ stated o)
  unfolding audited
  audited_after e now details body w w' o h = rw h (finish_lem e now details o w')
