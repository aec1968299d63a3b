-- ===== src/Gateway/Audit/Tests.antt =====
-- Redaction and recording at concrete values.
use gptlink.Common.Json.{Json, end, field, object, text}
use gptlink.Gateway.Audit.{Entry, is_sensitive_key, redact_secrets, redacted}
use gptlink.Gateway.Audit.Redaction.{IsClean, redact_secrets_lem}
use gptlink.Prelude.{negsuc, refl, some, ◌≡◌}

abbrev secret : Json
secret = object (field "path" (text "/tmp") (field "X-Api-Key" (text "hunter2") end))

abbrev clean : Json
clean = object (field "path" (text "/tmp") (field "X-Api-Key" redacted end))

redact_secret : redact_secrets secret ≡ clean
unfolding redact_secrets is_sensitive_key
redact_secret = refl

clean-IsClean : IsClean clean
unfolding IsClean is_sensitive_key
clean-IsClean = (tt, (refl, tt))

redact_secrets_lem_example : IsClean (redact_secrets secret) × (redact_secrets clean ≡ clean)
redact_secrets_lem_example = redact_secrets_lem secret clean clean-IsClean

abbrev entry : Entry
entry = record {
  request_id = some 5;
  device_id = some 1;
  action = "filesystem.read";
  caller = "alice";
  result = "SUCCESS";
  duration = negsuc 3;
  risk_level = "LOW";
  details = some (field "token" (text "hunter2") end);
}
