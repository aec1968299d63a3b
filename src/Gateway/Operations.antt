-- ===== src/Gateway/Operations.antt =====
-- src/gptlink/gateway/operations.py: authorization and audit round every remote operation. The
-- state is the database and whatever else the transport's callback can change. Clock readings and
-- fresh UUIDs are arguments.
pub mod Service
pub mod Admission
pub mod AtMostOnce
pub mod Trail
mod Tests
use gptlink.Common.Types.{Capability, Capability_eq, is_revoked, may_mutate}
use gptlink.Common.Json.{Fields, Json, end, field, text}
use gptlink.Gateway.Audit.{Entry, or_empty, record_event}
use gptlink.Prelude.{
  Bool, Chars_eq, List, Option, String, String_eq, any, false, if◌then◌else◌, is_some, none, not,
  some, true, ℕ, ℕ_eq, ℤ, ◌&&◌, ◌==◌, ◌||◌,
}
use gptlink.Persistence.Repositories.Devices as Devices
use gptlink.Gateway.Leases as LeaseService
use gptlink.Gateway.Auth as Auth
use gptlink.Persistence.Models.{Device, Tables}
use gptlink.Common.Action.{Action, Outcome, err, guarded, ok, pure, raise, transaction, ◌>>=◌, ◌>>◌}
use gptlink.Common.Errors.{Exception, authorization_error, is_denial, type_name, value_error}

pub record World (E : Type 0) : Type 0 where
  pub db : Tables
  pub env : E

-- what a call of `read` or `mutate` names; a request id that is no UUID is `none`
pub record Call : Type 0 where
  pub device_id : ℕ
  pub caller : String
  pub request_id : Option ℕ
  pub lease_id : ℕ
  pub required : List Capability
  pub action : String
  pub risk_level : String
  pub details : Option Fields

-- when the lease is checked, the id is claimed and the event is stored, and the time it took
pub record Readings : Type 0 where
  pub at_lease : ℕ
  pub at_claim : ℕ
  pub at_audit : ℕ
  pub elapsed : ℤ

abbrev pub has : List Capability → Capability → Bool
has held c = any (λ x. x == c) held

-- any(item not in device.capabilities for item in required)
abbrev pub lacks : List Capability → List Capability → Bool
lacks required held = any (λ c. not (has held c)) required

permit : List Capability → Bool → Option Device → Action Tables Device
permit required mutation none = raise (authorization_error "device is not authorized")
permit required mutation (some d) =
    guarded (not (is_revoked d.status || is_some d.revoked_at))
      (authorization_error "device is revoked")
      (guarded (not (lacks required d.capabilities))
        (authorization_error "required capability is unavailable")
        (guarded (not (mutation && not (may_mutate d.permission_level)))
          (authorization_error "device permission level forbids mutation") (pure d)))

-- _authorize
unfoldable pub authorize : ℕ → List Capability → Bool → Action Tables Device
unfolding permit
authorize device_id required mutation =
    transaction (Devices.get device_id >>= permit required mutation)

-- {**details, "error_type": type(error).__name__}
abbrev put : String → Json → Fields → Fields
put k v end = field k v end
put k v (field j w fs) = if j == k then field j v fs else field j w (put k v fs)

abbrev pub audit_result : Exception → String
audit_result e = if is_denial e then "DENIED" else "ERROR"

-- _record_error
failed : Entry → Exception → Entry
failed e error = record e {
  result = audit_result error;
  details = some (put "error_type" (text (type_name error)) (or_empty e.details));
}

succeeded : Entry → Option Fields → Entry
succeeded e details = record e { result = "SUCCESS"; details = details }

entry_of : Call → Readings → Entry
entry_of c r = record {
  request_id = c.request_id;
  device_id = some c.device_id;
  action = c.action;
  caller = c.caller;
  result = "";
  duration = r.elapsed;
  risk_level = c.risk_level;
  details = c.details;
}

module _ {E : Type 0} where
  -- a database action inside the process
  unfoldable pub on_db : {A : Type 0} → Action Tables A → Action (World E) A
  on_db m w = let (r, t) = m w.db in (r, record w { db = t })

  module _ {A : Type 0} where
    -- the event is stored after the body, whichever way it ended
    finish : Entry → ℕ → (A → Option Fields) → Outcome A → Action (World E) A
    finish e now details (ok a) = on_db (record_event now (succeeded e (details a))) >> pure a
    finish e now details (err error) = on_db (record_event now (failed e error)) >> raise error

    unfoldable pub audited :
        Entry → ℕ → (A → Option Fields) → Action (World E) A → Action (World E) A
    unfolding finish failed succeeded on_db
    audited e now details body w = let (o, w') = body w in finish e now details o w'

  module _ {A : Type 0} where
    unfoldable pub read : Call → Readings → Action (World E) A → Action (World E) A
    unfolding entry_of
    read c r execute =
        audited (entry_of c r) r.at_audit (λ a. c.details)
          (on_db (authorize c.device_id c.required false) >>= λ device. execute)

    -- isinstance(request_id, UUID), then authorization, lease, claim and only then the callback
    unfoldable pub admitted : Call → Readings → Option ℕ → Action (World E) A → Action (World E) A
    admitted c r none execute = raise (value_error "mutation request_id must be a UUID")
    admitted c r (some request_id) execute = do
      device ← on_db (authorize c.device_id c.required true)
      lease ← on_db (LeaseService.validate c.lease_id c.device_id c.caller r.at_lease)
      on_db (Auth.claim request_id r.at_claim)
      execute

    unfoldable pub mutate : Call → Readings → Action (World E) A → Action (World E) A
    unfolding entry_of
    mutate c r execute =
        audited (entry_of c r) r.at_audit (λ a. c.details) (admitted c r c.request_id execute)
