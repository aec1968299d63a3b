-- ===== src/Gateway/Audit.antt =====
-- src/gptlink/gateway/audit.py: audit events, with the values under secret keys removed. Keys are
-- compared without case, `casefold` being the lower case of ASCII letters.
pub mod Redaction
mod Tests
use gptlink.Common.Json.{Fields, Items, Json, array, cons, end, field, nil, object, text}
use gptlink.Prelude.{
  Bool, Chars, Chars_eq, List, Option, String, String_eq, [], any, codes, eqb, if◌then◌else◌,
  lower_char, map, none, occurs, pos, pos_part, some, ℕ, ℕ_eq, ℤ, ◌==◌, ◌||◌, ◌∷◌,
}
use gptlink.Persistence.Repositories.Requests as Requests
use gptlink.Persistence.Models.{AuditEvent, Tables}
use gptlink.Common.Action.{Action, transaction}

abbrev pub sensitive_keys : List String
sensitive_keys =
    "token" ∷ "device_token" ∷ "access_token" ∷ "refresh_token" ∷ "api_key" ∷ "apikey" ∷ "password"
    ∷ "passwd" ∷ "secret" ∷ "client_secret" ∷ "authorization" ∷ "cookie" ∷ "set_cookie" ∷ []

abbrev pub markers : List String
markers = "token" ∷ "api_key" ∷ "apikey" ∷ "password" ∷ "passwd" ∷ "secret" ∷ []

-- casefold, and `-` replaced by `_`
normal_char : ℕ → ℕ
normal_char c = if eqb c b'-' then b'_' else lower_char c

unfoldable normalized_key : String → Chars
unfolding normal_char
normalized_key key = map normal_char (codes key)

unfoldable pub is_sensitive_key : String → Bool
unfolding normalized_key
is_sensitive_key key =
    any (λ k. codes k == normalized_key key) sensitive_keys
    || any (λ marker. occurs (codes marker) (normalized_key key)) markers

abbrev pub redacted : Json
redacted = text "[REDACTED]"

unfoldable mutual
  pub redact_secrets : Json → Json
  redact_secrets (object fs) = object (redact_fields fs)
  redact_secrets (array xs) = array (redact_items xs)
  redact_secrets v = v

  pub redact_fields : Fields → Fields
  redact_fields end = end
  redact_fields (field k v fs) =
      field k (if is_sensitive_key k then redacted else redact_secrets v) (redact_fields fs)

  pub redact_items : Items → Items
  redact_items nil = nil
  redact_items (cons x xs) = cons (redact_secrets x) (redact_items xs)

-- `details or {}`
abbrev pub or_empty : Option Fields → Fields
or_empty none = end
or_empty (some fs) = fs

-- what the caller says of an operation; a duration is a difference of clock readings
pub record Entry : Type 0 where
  pub request_id : Option ℕ
  pub device_id : Option ℕ
  pub action : String
  pub caller : String
  pub result : String
  pub duration : ℤ
  pub risk_level : String
  pub details : Option Fields

-- max(0.0, duration)
abbrev pub clamped : ℤ → ℤ
clamped d = pos (pos_part d)

abbrev pub event : ℕ → Entry → AuditEvent
event now e = record {
  timestamp = now;
  request_id = e.request_id;
  device_id = e.device_id;
  action = e.action;
  caller = e.caller;
  result = e.result;
  duration = clamped e.duration;
  risk_level = e.risk_level;
  details = redact_fields (or_empty e.details);
}

-- AuditService.record
unfoldable pub record_event : ℕ → Entry → Action Tables AuditEvent
record_event now e = transaction (Requests.add_event (event now e))
