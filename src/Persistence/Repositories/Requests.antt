-- ===== src/Persistence/Repositories/Requests.antt =====
-- `RequestClaimRepository`, `AuditRepository` and `ApprovalRepository` of
-- src/gptlink/persistence/repositories.py.
use gptlink.Prelude.{
  Bool, Chars_eq, List, Option, String_eq, [], any, false, find, if◌then◌else◌, leb, ltb, none,
  select, some, sort, true, ℕ, ℕ_eq, ◌&&◌, ◌++◌, ◌==◌, ◌∷◌,
}
use gptlink.Common.Types.{ApprovalStatus, Capability_eq, pending}
use gptlink.Persistence.Models.{Approval, AuditEvent, RequestClaim, Tables}
use gptlink.Common.Action.{Action, err, ok}
use gptlink.Common.Errors.{integrity_error}

unfoldable pub add_claim : RequestClaim → Action Tables RequestClaim
add_claim c t =
    if any (λ x. x.request_id == c.request_id) t.request_claims
    then (err integrity_error, t)
    else (ok c, record t { request_claims = t.request_claims ++ c ∷ [] })

unfoldable pub get_claim : ℕ → Action Tables (Option RequestClaim)
get_claim i t = (ok (find (λ x. x.request_id == i) t.request_claims), t)

-- `audit_id` is an autoincrement key: no constraint can fail
unfoldable pub add_event : AuditEvent → Action Tables AuditEvent
add_event e t = (ok e, record t { audit_events = t.audit_events ++ e ∷ [] })

abbrev about : Option ℕ → ℕ → Bool
about none i = false
about (some j) i = j == i

-- order_by(AuditEvent.timestamp, AuditEvent.audit_id): the rows are in the order of `audit_id`, and
-- insertion from the right keeps the order of equal times
abbrev earlier : AuditEvent → AuditEvent → Bool
earlier a b = leb a.timestamp b.timestamp

unfoldable pub list_for_device : ℕ → Action Tables (List AuditEvent)
list_for_device d t = (ok (sort earlier (select (λ e. about e.device_id d) t.audit_events)), t)

unfoldable list_for_request : ℕ → Action Tables (List AuditEvent)
list_for_request r t = (ok (sort earlier (select (λ e. about e.request_id r) t.audit_events)), t)

abbrev is_pending : ApprovalStatus → Bool
is_pending pending = true
is_pending _ = false

unfoldable get_pending : ℕ → ℕ → Action Tables (Option Approval)
get_pending i now t = (
  ok (find (λ a. (a.approval_id == i) && is_pending a.status && ltb now a.expires_at) t.approvals),
  t,
)
