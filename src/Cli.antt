-- ===== src/Cli.antt =====
-- src/gptlink/cli/main.py: the commands that administer the Gateway's database, and the choice of a
-- conversation of `gptlink local`. UUIDs as text, the chat backend, the console and a turn of the
-- chat are parameters.
pub mod Session
pub mod Confined
pub mod Changes
pub mod Revoked
mod Tests
use gptlink.Persistence.Repositories.Devices as Devices
use gptlink.Persistence.Models.{Device, Tables}
use gptlink.Common.Types.{Capability_eq, DeviceStatus, PermissionLevel, revoked}
use gptlink.Common.Action.{Action, catch, ok, pure, raise, transaction, ◌>>=◌, ◌>>◌}
use gptlink.Common.Errors.{Exception, device_permission_error, unexpected, value_error}
use gptlink.Prelude.{
  Bool, Chars_eq, List, Option, String, String_eq, false, if◌then◌else◌, map, none, some, true,
  update, ℕ, ℕ_eq, ◌==◌,
}

abbrev pub bad_parameter : Exception
bad_parameter = unexpected "BadParameter"

-- except ValueError as error: raise typer.BadParameter
abbrev pub is_value_error : Exception → Bool
is_value_error (value_error m) = true
is_value_error _ = false

abbrev pub as_parameter : {A : Type 0} → (Exception → Bool) → Action Tables A → Action Tables A
as_parameter test m = catch m (λ e. if test e then raise bad_parameter else raise e)

abbrev present : {A : Type 0} → Option A → Action Tables A
present none = raise (value_error "unknown device")
present (some a) = pure a

-- devices list
unfoldable devices_list : Action Tables (List (ℕ × String × DeviceStatus))
devices_list = transaction (
    Devices.all_devices >>= λ ds.
    pure (map (λ (d : Device). (d.device_id, d.platform, d.status)) ds))

-- devices show, without the text
unfoldable devices_show : ℕ → Action Tables Device
devices_show device = transaction (Devices.get device) >>= λ found. elim found [
  | none ↦ raise bad_parameter
  | some d ↦ pure d
]

abbrev is_permission_error : Exception → Bool
is_permission_error device_permission_error = true
is_permission_error e = is_value_error e

-- devices set-permission
unfoldable devices_set_permission :
    ℕ → PermissionLevel → Action Tables (PermissionLevel × PermissionLevel)
devices_set_permission device level =
    as_parameter is_permission_error (transaction (Devices.set_permission device level >>= present))

abbrev revoking : ℕ → Device → Device
revoking now x = record x { status = revoked; revoked_at = some now }

-- the assignments to the row of a device, at the commit
unfoldable revoke_row : ℕ → ℕ → Action Tables Unit
revoke_row device now t =
    (ok tt, record t { devices = update (λ x. x.device_id == device) (revoking now) t.devices })

abbrev id_of : Option ℕ → Action Tables ℕ
id_of none = raise (value_error "badly formed hexadecimal UUID string")
id_of (some d) = pure d

-- devices revoke, with what `UUID(text)` gives and the time of the clock
unfoldable pub devices_revoke : Option ℕ → ℕ → Action Tables Unit
unfolding revoke_row
devices_revoke device now =
    as_parameter is_value_error
      (transaction do d ← id_of device; found ← Devices.get d; present found; revoke_row d now)
