-- ===== src/Persistence/Repositories/Devices.antt =====
-- `DeviceRepository` of src/gptlink/persistence/repositories.py.
mod Tests
use gptlink.Prelude.{
  Bool, Chars_eq, List, Option, String_eq, [], any, find, if◌then◌else◌, is_none, is_some, leb, ltb,
  none, not, some, sort, update, ℕ, ℕ_eq, ◌&&◌, ◌++◌, ◌==◌, ◌||◌, ◌∷◌,
}
use gptlink.Common.Types.{Capability_eq, DeviceStatus, PermissionLevel, is_revoked, offline, online}
use gptlink.Common.Errors.{device_permission_error, integrity_error}
use gptlink.Common.Action.{Action, err, ok, ◌>>=◌}
use gptlink.Persistence.Models.{Device, Tables}

-- the where clause of every presence update
abbrev pub is_active : Device → Bool
is_active d = not (is_revoked d.status) && is_none d.revoked_at

abbrev pub matches : ℕ → Device → Bool
matches d x = (x.device_id == d) && is_active x

-- update(Device).where(...).values(...).returning(Device.device_id), as a Boolean
abbrev update_device : ℕ → (Device → Device) → Action Tables Bool
update_device d f t =
    (ok (any (matches d) t.devices), record t { devices = update (matches d) f t.devices })

unfoldable pub add : Device → Action Tables Device
add d t =
    if any (λ x. x.device_id == d.device_id) t.devices
    then (err integrity_error, t)
    else (ok d, record t { devices = t.devices ++ d ∷ [] })

unfoldable pub get : ℕ → Action Tables (Option Device)
get d t = (ok (find (λ x. x.device_id == d) t.devices), t)

change_permission :
    ℕ → PermissionLevel → Option Device → Action Tables (Option (PermissionLevel × PermissionLevel))
change_permission d permission none t = (ok none, t)
change_permission d permission (some device) t =
    if is_revoked device.status || is_some device.revoked_at
    then (err device_permission_error, t)
    else (
      ok (some (device.permission_level, permission)),
      record t {
        devices =
            update (λ x. x.device_id == d) (λ x. record x { permission_level = permission })
              t.devices;
      },
    )

unfoldable pub set_permission :
    ℕ → PermissionLevel → Action Tables (Option (PermissionLevel × PermissionLevel))
unfolding change_permission get ◌>>=◌
set_permission d permission = get d >>= change_permission d permission

unfoldable pub mark_online : ℕ → ℕ → Action Tables Bool
mark_online d now = update_device d (λ x. record x { status = online; last_seen = some now })

unfoldable pub mark_offline : ℕ → Action Tables Unit
mark_offline d t = (ok tt, (update_device d (λ x. record x { status = offline }) t).1)

-- case((Device.status == OFFLINE, ONLINE), else_=Device.status)
abbrev pub refreshed : DeviceStatus → DeviceStatus
refreshed offline = online
refreshed s = s

unfoldable pub touch : ℕ → ℕ → Action Tables Bool
touch d now = update_device d (λ x. record x { last_seen = some now; status = refreshed x.status })

-- order_by(Device.created_at, Device.device_id)
abbrev earlier : Device → Device → Bool
earlier a b =
    ltb a.created_at b.created_at || ((a.created_at == b.created_at) && leb a.device_id b.device_id)

unfoldable pub all_devices : Action Tables (List Device)
all_devices t = (ok (sort earlier t.devices), t)
