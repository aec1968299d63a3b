-- ===== src/Gateway/Audit/Redaction.antt =====
-- About `redact_secrets` and `AuditService.record` of src/gptlink/gateway/audit.py.
use gptlink.Common.Json.{
  Fields, Items, Json, array, boolean, cons, end, field, nil, null, number, object, text,
}
use gptlink.Persistence.Repositories.Requests as Requests
use gptlink.Gateway.Audit.{
  Entry, event, is_sensitive_key, or_empty, record_event, redact_fields, redact_items,
  redact_secrets, redacted,
}
use gptlink.Prelude.{
  Bool, [], ap, arith, false, if◌then◌else◌, ltb_ℤ, pos, refl, sym, true, ℕ, ◌++◌, ◌∷◌, ◌≡◌,
}
use gptlink.Persistence.Models.{AuditEvent, Tables}
use gptlink.Common.Action.{ok, transaction}

-- every value under a secret key, at any depth, is the mark
unfoldable mutual
  pub IsClean : Json → Type 0
  IsClean (object fs) = AreCleanFields fs
  IsClean (array xs) = AreCleanItems xs
  IsClean v = Unit {0}

  pub AreCleanFields : Fields → Type 0
  AreCleanFields end = Unit {0}
  AreCleanFields (field k v fs) =
      (if is_sensitive_key k then v ≡ redacted else IsClean v) × AreCleanFields fs

  pub AreCleanItems : Items → Type 0
  AreCleanItems nil = Unit {0}
  AreCleanItems (cons x xs) = IsClean x × AreCleanItems xs

keep_clean :
    (b : Bool) (v w : Json) (P : Json → Type 0)
    → P w
    → if b then (if b then redacted else w) ≡ redacted else P (if b then redacted else w)
keep_clean true v w P h = refl
keep_clean false v w P h = h

mutual
  unfolding redact_secrets redact_fields redact_items IsClean AreCleanFields AreCleanItems

  IsClean-value : (v : Json) → IsClean (redact_secrets v)
  IsClean-value (object fs) = clean_fields fs
  IsClean-value (array xs) = clean_items xs
  IsClean-value v = tt

  pub clean_fields : (fs : Fields) → AreCleanFields (redact_fields fs)
  clean_fields end = tt
  clean_fields (field k v fs) = (
    keep_clean (is_sensitive_key k) v (redact_secrets v) IsClean (IsClean-value v),
    clean_fields fs,
  )

  clean_items : (xs : Items) → AreCleanItems (redact_items xs)
  clean_items nil = tt
  clean_items (cons x xs) = (IsClean-value x, clean_items xs)

same_field :
    (b : Bool) (v w : Json)
    → (if b then v ≡ redacted else IsClean v)
    → (IsClean v → w ≡ v)
    → (if b then redacted else w) ≡ v
same_field true v w h same = sym h
same_field false v w h same = same h

mutual
  unfolding redact_secrets redact_fields redact_items IsClean AreCleanFields AreCleanItems

  same_value : (v : Json) → IsClean v → redact_secrets v ≡ v
  same_value (object fs) h = ap object (same_fields fs h)
  same_value (array xs) h = ap array (same_items xs h)
  same_value null h = refl
  same_value (boolean b) h = refl
  same_value (number n) h = refl
  same_value (text s) h = refl

  same_fields : (fs : Fields) → AreCleanFields fs → redact_fields fs ≡ fs
  same_fields end h = refl
  same_fields (field k v fs) h = cc (
    same_field (is_sensitive_key k) v (redact_secrets v) h.0 (λ c. same_value v c),
    same_fields fs h.1,
  )

  same_items : (xs : Items) → AreCleanItems xs → redact_items xs ≡ xs
  same_items nil h = refl
  same_items (cons x xs) h = cc (same_value x h.0, same_items xs h.1)

-- After redaction every value under a secret key, at any depth of objects and arrays, is the mark,
-- and a value in which that holds already is left as it is.
pub redact_secrets_lem :
    (v w : Json) → IsClean w → IsClean (redact_secrets v) × (redact_secrets w ≡ w)
redact_secrets_lem v w h = (IsClean-value v, same_value w h)

-- Recording appends one event with the details redacted at every depth and a duration of at least
-- zero, and keeps the earlier events.
record_event_lem :
    (now : ℕ) (e : Entry) (t : Tables)
    → (stored : AuditEvent) × (record_event now e t
        ≡ (ok stored, record t { audit_events = t.audit_events ++ stored ∷ [] }))
      × AreCleanFields stored.details
      × (ltb_ℤ stored.duration (pos 0) ≡ false)
unfolding record_event Requests.add_event transaction
record_event_lem now e t = (event now e, refl, clean_fields (or_empty e.details), ground arith)
