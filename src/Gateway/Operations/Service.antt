-- ===== src/Gateway/Operations/Service.antt =====
-- The operations that the Gateway answers itself: the device list, and the leases behind their
-- authorization and audit.
use gptlink.Common.Json.{
  Fields, Items, Json, array, boolean, cons, end, field, nil, null, number, object, text,
}
use gptlink.Common.Types.{Capability, capability_value, permission_value, status_value}
use gptlink.Gateway.Audit.{Entry}
use gptlink.Gateway.Operations.{Readings, World, audited, authorize, on_db}
use gptlink.Prelude.{List, Option, String, [], false, length, map, none, pos, some, true, ℕ, ℤ, ◌∷◌}
use gptlink.Persistence.Repositories.Devices as Devices
use gptlink.Gateway.Leases as LeaseService
use gptlink.Persistence.Models.{Device, Lease}
use gptlink.Common.Action.{Action, pure, transaction, ◌>>=◌, ◌>>◌}

-- the entry of an operation of the Gateway itself
plain : Option ℕ → String → String → String → ℤ → Entry
plain device_id action caller risk_level elapsed = record {
  request_id = none;
  device_id = device_id;
  action = action;
  caller = caller;
  result = "";
  duration = elapsed;
  risk_level = risk_level;
  details = none;
}

capability_items : List Capability → Items
capability_items [] = nil
capability_items (c ∷ cs) = cons (text (capability_value c)) (capability_items cs)

count_details : List Json → Option Fields
count_details ds = some (field "count" (number (pos (length ds))) end)

-- str(UUID) and datetime.isoformat are parameters
module _ (uuid_text isoformat : ℕ → String) where
  seen : Option ℕ → Json
  seen none = null
  seen (some t) = text (isoformat t)

  unfoldable pub safe_device : Device → Json
  unfolding capability_items seen
  safe_device d = object (
      field "device_id" (text (uuid_text d.device_id)) (
        field "display_name" (text d.display_name) (
          field "platform" (text d.platform) (
            field "status" (text (status_value d.status)) (
              field "agent_version" (text d.agent_version) (
                field "capabilities" (array (capability_items d.capabilities)) (
                  field "last_seen" (seen d.last_seen) (
                    field "permission_level" (text (permission_value d.permission_level))
                      end))))))))

  lease_json : Lease → Json
  lease_json l = object (
      field "lease_id" (text (uuid_text l.lease_id)) (
        field "device_id" (text (uuid_text l.device_id))
          (field "owner" (text l.owner) (field "expires_at" (text (isoformat l.expires_at)) end))))

  module _ {E : Type 0} where
    unfoldable pub list_devices : String → Readings → Action (World E) (List Json)
    unfolding count_details plain
    list_devices caller r =
        audited (plain none "devices.list" caller "LOW" r.elapsed) r.at_audit count_details
          (on_db (transaction Devices.all_devices) >>= λ devices. pure (map safe_device devices))

    unfoldable pub device_info : ℕ → String → Readings → Action (World E) Json
    unfolding plain
    device_info device_id caller r =
        audited (plain (some device_id) "device.info" caller "LOW" r.elapsed) r.at_audit (λ a. none)
          (on_db (authorize device_id [] false) >>= λ device. pure (safe_device device))

    unfoldable pub acquire_lease : ℕ → ℕ → String → ℤ → Readings → Action (World E) Json
    unfolding plain lease_json
    acquire_lease lease_id device_id caller ttl r =
        audited (plain (some device_id) "lease.acquire" caller "MEDIUM" r.elapsed) r.at_audit
          (λ a. none)
          (do
            device ← on_db (authorize device_id [] true)
            lease ← on_db (LeaseService.acquire lease_id device_id caller ttl r.at_lease)
            pure (lease_json lease))

    unfoldable pub release_lease : ℕ → ℕ → String → Readings → Action (World E) Json
    unfolding plain
    release_lease device_id lease_id caller r =
        audited (plain (some device_id) "lease.release" caller "MEDIUM" r.elapsed) r.at_audit
          (λ a. none)
          (do
            device ← on_db (authorize device_id [] true)
            lease ← on_db (LeaseService.validate lease_id device_id caller r.at_lease)
            on_db (LeaseService.release lease_id caller r.at_claim)
            pure (object (field "released" (boolean true) end)))
