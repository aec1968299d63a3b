-- ===== src/Mcp/Tests.antt =====
-- A write through the tools of src/gptlink/mcp, and a request with a token.
use gptlink.Gateway.Registry.Requests.{Awaits, await_future, enter, request, resolves, run, send}
use gptlink.Mcp.Tools.{filesystem_write_tool, remotely}
use gptlink.Common.Types.{filesystem_write}
use gptlink.Gateway.Audit.{record_event}
use gptlink.Gateway.Operations.{Readings, World, admitted, audited, authorize, mutate}
use gptlink.Mcp.Auth.{
  Header, Scope, authenticate, forwarded, handle, is_authorization, raw_authorization,
}
use gptlink.Mcp.Auth.Guard.{IsBearer, guard_lem}
use gptlink.Mcp.Tools.Delivered.{
  IsReplied, Mutation, body_of, call_tool, delivered, policy_call, writes_file,
}
use gptlink.Gateway.Operations.Admission.{is_admissible}
use gptlink.Gateway.Registry.Answers.{IsBelow}
use gptlink.Gateway.Registry.{Connection, Registry, waiting}
use gptlink.Protocol.Messages.{is_valid, operation_result}
use gptlink.Persistence.Samples.{tables}
use gptlink.Persistence.Models.{Lease}
use gptlink.Common.Json.{Json, boolean, end, field, object}
use gptlink.Common.Action.{ok, ◌>>=◌}
use gptlink.Prelude.{
  Chars, List, [], any, codes, false, none, not, pos, refl, select, some, true, ℕ, ◌∷◌, ◌≡◌,
}
use gptlink.Gateway.Remote as Remote
use gptlink.Gateway.Leases as LeaseService
use gptlink.Gateway.Auth as GatewayAuth
use gptlink.Persistence.Repositories.Devices as Devices
use gptlink.Persistence.Repositories.Leases as LeaseRows
use gptlink.Persistence.Repositories.Requests as Requests

abbrev lease : Lease
lease = record {
  lease_id = 7;
  device_id = 1;
  owner = "alice";
  created_at = 100;
  expires_at = 160;
  released_at = none;
}

abbrev socket : Connection
socket = record { id = 40; device_id = 1 }

abbrev online_world : World Registry
online_world = record {
  db = record tables { leases = lease ∷ [] };
  env = record {
    db = tables;
    connections = record { connection = socket; last_seen = 6 } ∷ [];
    pending = [];
    futures = λ f. waiting;
    fresh = 0;
    closed = [];
  };
}

abbrev at_120 : Readings
at_120 = record { at_lease = 120; at_claim = 121; at_audit = 130; elapsed = pos 10 }

abbrev done : Json
done = object (field "written" (boolean true) end)

abbrev answered : Awaits
answered = record {
  entering = [];
  sending = [];
  breaks = false;
  unstored = false;
  retiring = [];
  waiting_for =
      resolves socket
        (record { version = pos 1; request_id = 5; device_id = 1; body = operation_result done })
      ∷ [];
}

abbrev encode : Chars → List ℕ
encode s = s

abbrev a_write : Mutation
a_write = writes_file "/home/a" (codes "x")

write_answered : (call_tool encode "alice" at_120 answered 1 5 7 a_write online_world).0 ≡ ok done
unfolding call_tool filesystem_write_tool mutate audited admitted ◌>>=◌ authorize Devices.get
    LeaseService.validate LeaseRows.get GatewayAuth.claim Requests.add_claim remotely
    Remote.filesystem_write Remote.ask is_valid request enter send await_future record_event
    Requests.add_event run
write_answered = refl

IsBelow-online : IsBelow online_world.env
IsBelow-online = record { below = refl }

delivered_example :
    (is_admissible
        (policy_call encode "alice" at_120 answered 1 5 7 (filesystem_write ∷ []))
        at_120
        online_world.db
      ≡ true)
    × (is_valid (Remote.envelope 1 5 (body_of a_write)) ≡ true)
    × IsReplied 1 5 answered online_world.env done
delivered_example =
    delivered encode "alice" at_120 answered 1 5 7 a_write online_world done IsBelow-online
      write_answered

abbrev token : Chars
token = codes "s3cret"

abbrev asked_scope : Scope
asked_scope = record {
  type = codes "http";
  headers =
      (codes "Authorization", codes "bEaReR s3cret") ∷ (codes "Accept", codes "text/html") ∷ [];
}

abbrev passed_scope : Scope
passed_scope = record asked_scope { headers = (codes "Accept", codes "text/html") ∷ [] }

passed : handle (authenticate (some token) "alice") asked_scope ≡ forwarded passed_scope
unfolding handle authenticate
passed = refl

guard_lem_example :
    ((h : Header) × (raw_authorization asked_scope.headers ≡ some h) × IsBearer token h.1)
    × (passed_scope.headers ≡ select (λ h. not (is_authorization h)) asked_scope.headers)
    × (any is_authorization passed_scope.headers ≡ false)
guard_lem_example = guard_lem token "alice" asked_scope passed_scope refl passed
