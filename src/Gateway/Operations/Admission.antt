-- ===== src/Gateway/Operations/Admission.antt =====
-- About `mutate` and what it admits, of src/gptlink/gateway/operations.py.
use gptlink.Common.Types.{Capability, Capability_eq, may_mutate}
use gptlink.Gateway.Auth.Replay.{claim_outcome, is_claimed}
use gptlink.Gateway.Leases.Lifetime.{validate-eq-verdict, verdict}
use gptlink.Gateway.Operations.Trail.{audited_after, logged, stated}
use gptlink.Gateway.Operations.{
  Call, Readings, World, admitted, audit_result, authorize, entry_of, lacks, mutate, on_db, permit,
}
use gptlink.Prelude.{
  Bool, Bool-cases, Chars_eq, List, Option, String_eq, [], arith, false, find, if◌then◌else◌, inl,
  inr, is_some, ltb, none, not, refl, some, true, ℕ, ℕ_eq, ◌&&◌, ◌++◌, ◌==◌, ◌||◌, ◌∙◌, ◌∷◌, ◌≡◌,
}
use gptlink.Persistence.Repositories.Devices as Devices
use gptlink.Persistence.Models.{AuditEvent, Device, Lease, Tables, is_unreleased}
use gptlink.Common.Action.{Action, Outcome, err, ok, transaction, ◌>>=◌}
use gptlink.Common.Errors.{
  Exception, authorization_error, is_denial, lease_error, replay_error, value_error,
}

abbrev pub device_at : ℕ → Tables → Option Device
device_at i t = find (λ x. x.device_id == i) t.devices

abbrev pub lease_at : ℕ → Tables → Option Lease
lease_at i t = find (λ x. x.lease_id == i) t.leases

-- the policy, said at once: a device that is not revoked, has every required capability, and for a
-- mutation a permission level that allows it
abbrev pub is_permitted : List Capability → Bool → Device → Bool
is_permitted required mutation d =
    Devices.is_active d
    && not (lacks required d.capabilities)
    && (not mutation || may_mutate d.permission_level)

abbrev pub permits : List Capability → Bool → Option Device → Bool
permits required mutation none = false
permits required mutation (some d) = is_permitted required mutation d

-- which rule refuses
refusal : List Capability → Device → Exception
refusal required d =
    if not (Devices.is_active d)
    then authorization_error "device is revoked"
    else if lacks required d.capabilities
    then authorization_error "required capability is unavailable"
    else authorization_error "device permission level forbids mutation"

gate : List Capability → Bool → Option Device → Outcome Device
gate required mutation none = err (authorization_error "device is not authorized")
gate required mutation (some d) =
    if is_permitted required mutation d then ok d else err (refusal required d)

permit-eq-gate :
    (required : List Capability) (mutation : Bool) (t : Tables) (found : Option Device)
    → transaction (λ s. permit required mutation found s) t ≡ (gate required mutation found, t)
unfolding permit gate refusal ◌>>=◌
permit-eq-gate required mutation t none = refl
permit-eq-gate required mutation t (some d) = ground arith

authorize-eq-gate :
    (i : ℕ) (required : List Capability) (mutation : Bool) (t : Tables)
    → authorize i required mutation t ≡ (gate required mutation (device_at i t), t)
unfolding authorize Devices.get ◌>>=◌
authorize-eq-gate i required mutation t = permit-eq-gate required mutation t (device_at i t)

unfoldable pub is_valid_lease : Call → Readings → Option Lease → Bool
is_valid_lease c r none = false
is_valid_lease c r (some l) =
    is_unreleased c.device_id l && (l.owner == c.caller) && ltb r.at_lease l.expires_at

-- A mutation is admissible: its request id is a UUID that was not claimed, the device permits it,
-- and the caller holds the device's lease.
unfoldable pub admissible : Option ℕ → Call → Readings → Tables → Bool
admissible none c r t = false
admissible (some i) c r t =
    permits c.required true (device_at c.device_id t)
    && is_valid_lease c r (lease_at c.lease_id t)
    && not (is_claimed i t)

abbrev pub is_admissible : Call → Readings → Tables → Bool
is_admissible c = admissible c.request_id c

-- the tables with the claim of a request id
unfoldable pub claimed : Option ℕ → ℕ → Tables → Tables
claimed none now t = t
claimed (some i) now t = record t {
  request_claims = t.request_claims ++ record { request_id = i; claimed_at = now } ∷ [];
}

verdict_good :
    (c : Call) (r : Readings) (l : Option Lease)
    → is_valid_lease c r l ≡ true
    → (x : Lease) × (verdict c.device_id c.caller r.at_lease l ≡ ok x)
unfolding verdict is_valid_lease
verdict_good c r none h = cc
verdict_good c r (some x) h = (x, ground arith)

verdict_bad :
    (c : Call) (r : Readings) (l : Option Lease)
    → is_valid_lease c r l ≡ false
    → verdict c.device_id c.caller r.at_lease l ≡ err lease_error
unfolding verdict is_valid_lease
verdict_bad c r none h = refl
verdict_bad c r (some x) h = ground arith

module _ {E A : Type 0} (c : Call) (r : Readings) (execute : Action (World E) A) (w : World E) where
  admitted_found :
      (i : ℕ) (d : Option Device) (l : Option Lease)
      → device_at c.device_id w.db ≡ d
      → lease_at c.lease_id w.db ≡ l
      → (e : Exception) × (is_denial e ≡ true)
        × (admitted c r (some i) execute w ≡ (
            if permits c.required true d && is_valid_lease c r l && not (is_claimed i w.db)
            then execute (record w { db = claimed (some i) r.at_claim w.db })
            else (err e, w)))
  unfolding admitted on_db gate refusal claimed ◌>>=◌
  admitted_found i none l ed el = (
    authorization_error "device is not authorized",
    refl,
    rw (authorize-eq-gate c.device_id c.required true w.db, ed),
  )
  admitted_found i (some d) l ed el =
      let auth = authorize-eq-gate c.device_id c.required true w.db in
      let lease = validate-eq-verdict c.lease_id c.device_id c.caller r.at_lease w.db in
      elim (Bool-cases (is_permitted c.required true d)) [
        | inr no' ↦ (refusal c.required d, ground arith, rw (auth, ed, no'))
        | inl yes' ↦ elim (Bool-cases (is_valid_lease c r l)) [
          | inr bad ↦
              (lease_error, refl, rw (auth, ed, yes', lease, el, verdict_bad c r l bad, bad))
          | inl good ↦
              let (x, e) = verdict_good c r l good in
              elim (Bool-cases (is_claimed i w.db)) [
                | inl dup ↦ (
                  replay_error,
                  refl,
                  rw (auth, ed, yes', lease, el, e, good, claim_outcome i r.at_claim w.db, dup),
                )
                | inr new ↦ (
                  replay_error,
                  refl,
                  rw (auth, ed, yes', lease, el, e, good, claim_outcome i r.at_claim w.db, new),
                )
              ]
        ]
      ]

  admitted_lem :
      (o : Option ℕ)
      → (e : Exception) × (audit_result e ≡ (if is_some o then "DENIED" else "ERROR"))
        × (admitted c r o execute w ≡ (
            if admissible o c r w.db
            then execute (record w { db = claimed o r.at_claim w.db })
            else (err e, w)))
  unfolding admissible
  admitted_lem none =
      (value_error "mutation request_id must be a UUID", refl, unfold admitted ◌>>=◌ in refl)
  admitted_lem (some i) =
      let (e, denial, ran) = admitted_found i _ _ refl refl in (e, rw denial, ran)

  -- A mutation that is admissible runs the transport's callback once, in a state in which its request
  -- id is claimed, and has the callback's outcome; the callback's state plus one audit event is left.
  pub mutate_admitted :
      is_admissible c r w.db ≡ true
      → let after = execute (record w { db = claimed c.request_id r.at_claim w.db }) in
        (stored : AuditEvent) × (mutate c r execute w ≡ (after.0, logged after.1 stored))
        × (stored.result ≡ stated after.0)
  unfolding mutate
  mutate_admitted h =
      let (e, _, ran) = admitted_lem c.request_id in
      audited_after (entry_of c r) r.at_audit (λ a. c.details) (admitted c r c.request_id execute) w
        _ _ (rw h at ran)

  -- A mutation that is not admissible never reaches the callback: it raises, and leaves the state as
  -- it was but for one audit event, which states DENIED, or ERROR if the request id is no UUID.
  pub mutate_refused :
      is_admissible c r w.db ≡ false
      → (e : Exception) × (stored : AuditEvent) × (mutate c r execute w ≡ (err e, logged w stored))
        × (stored.result ≡ (if is_some c.request_id then "DENIED" else "ERROR"))
  unfolding mutate
  mutate_refused h =
      let (e, says, ran) = admitted_lem c.request_id in
      let (stored, is, states) =
        audited_after (entry_of c r) r.at_audit (λ a. c.details) (admitted c r c.request_id execute)
          w w (err e) (rw h at ran) in
      (e, stored, is, states ∙ says)
