-- ===== src/Persistence/Repositories/Devices/Tests.antt =====
-- Runs of the device repository on a small database.
use gptlink.Prelude.{refl, ◌≡◌}
use gptlink.Common.Types.{full_access}
use gptlink.Common.Action.{err}
use gptlink.Persistence.Samples.{tables}
use gptlink.Persistence.Repositories.Devices.{set_permission}
use gptlink.Common.Errors.{device_permission_error}

revoked_permission : (set_permission 2 full_access tables).0 ≡ err device_permission_error
unfolding set_permission
revoked_permission = refl
