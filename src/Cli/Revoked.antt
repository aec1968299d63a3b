-- ===== src/Cli/Revoked.antt =====
-- About `devices revoke` of src/gptlink/cli/main.py, with src/gptlink/gateway/auth.py.
use gptlink.Common.Types.{Capability_eq, is_revoked}
use gptlink.Cli.{devices_revoke, revoking}
use gptlink.Gateway.Auth.{admit, authenticate, verify_device_token}
use gptlink.Cli.Changes.{Change, device_at, revoked_stays, run}
use gptlink.Persistence.Repositories.Devices as Devices
use gptlink.Persistence.Repositories.Devices.{is_active}
use gptlink.Persistence.Models.{Device, Tables}
use gptlink.Common.Action.{Outcome-cases, err, ok, ◌>>=◌}
use gptlink.Common.Errors.{Exception, authentication_error}
use gptlink.Prelude.{
  Chars, Chars_eq, List, String_eq, arith, false, find-update, find_passes, inl, inr, is_some, not,
  refl, some, ℕ, ℕ_eq, ◌==◌, ◌||◌, ◌≡◌,
}

revoked_inactive : (now : ℕ) (x : Device) → is_active (revoking now x) ≡ false
revoked_inactive now x = ground arith

revoke_found :
    (d now : ℕ) (x : Device) (t : Tables)
    → device_at d t ≡ some x
    → (devices_revoke (some d) now t).0 ≡ ok tt
      × (device_at d (devices_revoke (some d) now t).1 ≡ some (revoking now x))
unfolding devices_revoke Devices.get ◌>>=◌
revoke_found d now x t h = rw h (
  refl,
  rw
      (
        find-update (λ (y : Device). y.device_id == d) (λ y. y.device_id == d) (revoking now)
            t.devices (λ y. refl),
        h,
      )
      (ground (arith, find_passes (λ (z : Device). z.device_id == d) t.devices x h)),
)

module _ (sha256 : List ℕ → List ℕ) where
  refused :
      (d : ℕ) (token : Chars) (x : Device) (t : Tables)
      → is_active x ≡ false
      → device_at d t ≡ some x
      → (e : Exception) × ((authenticate sha256 d token t).0 ≡ err e)
  unfolding authenticate admit Devices.get ◌>>=◌
  refused d token x t off h =
      elim (Outcome-cases (verify_device_token sha256 token x.device_token_hash)) [
        | inr (e, v) ↦ rw (h, v) (e, refl)
        | inl (valid, v) ↦
            let shut : not (not valid || is_revoked x.status || is_some x.revoked_at) ≡ false =
              ground (arith, off) in
            rw (h, v, shut) (authentication_error, refl)
      ]

  -- Revoking a device that is there succeeds, and from then on, after any changes of the table by
  -- pairing, the registry and the commands that set a permission or revoke a device, no token is
  -- authenticated for that device.
  pub revoke_ends_access :
      (d now : ℕ) (x : Device) (t : Tables)
      → device_at d t ≡ some x
      → let (o, t') = devices_revoke (some d) now t in
        (o ≡ ok tt)
        × ((cs : List Change) (token : Chars)
            → (e : Exception) × ((authenticate sha256 d token (run t' cs)).0 ≡ err e))
  revoke_ends_access d now x t h =
      let (done, there) = revoke_found d now x t h in
      (
        done,
        λ cs token.
            let (y, at, off) =
              revoked_stays cs (devices_revoke (some d) now t).1 d
                (revoking now x, there, revoked_inactive now x) in
            refused d token y (run (devices_revoke (some d) now t).1 cs) off at,
      )
