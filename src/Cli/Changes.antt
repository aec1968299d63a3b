-- ===== src/Cli/Changes.antt =====
-- The changes of the device table, and what they leave of a revoked device: `DeviceRepository` of
-- src/gptlink/persistence/repositories.py, and the commands of src/gptlink/cli/main.py.
use gptlink.Prelude.{
  Bool-cases, Chars_eq, List, Option, Option-cases, String_eq, [], any-is_some-find, ap, arith,
  eqb_iff, false, find, find-append, find-update, find_passes, inl, inr, is_some, refl, some, sym,
  true, update, ℕ, ℕ_eq, ◌==◌, ◌||◌, ◌∙◌, ◌∷◌, ◌≡◌,
}
use gptlink.Common.Types.{Capability_eq, PermissionLevel, is_revoked}
use gptlink.Persistence.Models.{Device, Tables}
use gptlink.Persistence.Repositories.Devices.{
  add, get, is_active, mark_offline, mark_online, matches, set_permission, touch,
}
use gptlink.Common.Action.{◌>>=◌}
use gptlink.Cli.{devices_revoke, devices_set_permission, revoking}

-- A change of the device table, by the pairing service, the registry or the command line.
pub data Change : Type 0 where
  adds : Device → Change
  permits : (device_id : ℕ) → PermissionLevel → Change
  goes_online : (device_id now : ℕ) → Change
  goes_offline : (device_id : ℕ) → Change
  touches : (device_id now : ℕ) → Change
  revokes : (device_id now : ℕ) → Change

unfoldable pub step : Tables → Change → Tables
step t (adds d) = (add d t).1
step t (permits d p) = (devices_set_permission d p t).1
step t (goes_online d now) = (mark_online d now t).1
step t (goes_offline d) = (mark_offline d t).1
step t (touches d now) = (touch d now t).1
step t (revokes d now) = (devices_revoke (some d) now t).1

unfoldable pub run : Tables → List Change → Tables
run t [] = t
run t (c ∷ cs) = run (step t c) cs

abbrev pub device_at : ℕ → Tables → Option Device
device_at i t = find (λ x. x.device_id == i) t.devices

-- an update of the active rows leaves an inactive one
update_inactive :
    (i d : ℕ) (f : Device → Device) (x : Device) (ds : List Device)
    → ((y : Device) → (f y).device_id ≡ y.device_id)
    → is_active x ≡ false
    → find (λ y. y.device_id == i) ds ≡ some x
    → find (λ y. y.device_id == i) (update (matches d) f ds) ≡ some x
update_inactive i d f x ds keep off h =
    rw (find-update (λ y. y.device_id == i) (matches d) f ds (λ y. rw keep), h) (ground arith)

-- a row of the device that is still inactive
abbrev pub Shut : ℕ → Tables → Type 0
Shut i t = (x : Device) × (device_at i t ≡ some x) × (is_active x ≡ false)

-- an update of another device's row
update_other :
    (i d : ℕ) (f : Device → Device) (x : Device) (ds : List Device)
    → ((y : Device) → (f y).device_id ≡ y.device_id)
    → (d == i) ≡ false
    → find (λ y. y.device_id == i) ds ≡ some x
    → find (λ y. y.device_id == i) (update (λ y. y.device_id == d) f ds) ≡ some x
update_other i d f x ds keep q h = ground (
  arith,
  find_passes (λ (z : Device). z.device_id == i) ds x,
  find-update (λ y. y.device_id == i) (λ y. y.device_id == d) f ds (λ y. rw keep),
)

same_device :
    (i d : ℕ) (x y : Device) (t : Tables)
    → (d == i) ≡ true
    → device_at i t ≡ some x
    → device_at d t ≡ some y
    → some y ≡ some x
same_device i d x y t q h e = sym e ∙ ap (λ k. device_at k t) ((eqb_iff d i).0 q) ∙ h

set_permission_kept :
    (i d : ℕ) (p : PermissionLevel) (t : Tables) (x : Device)
    → is_active x ≡ false
    → device_at i t ≡ some x
    → device_at i (devices_set_permission d p t).1 ≡ some x
unfolding devices_set_permission set_permission get ◌>>=◌
set_permission_kept i d p t x off h = elim (Option-cases (device_at d t)) [
  | inl e ↦ rw e h
  | inr (y, e) ↦ elim (Bool-cases (is_revoked y.status || is_some y.revoked_at)) [
    | inl q ↦ rw (e, q) h
    | inr q ↦ elim (Bool-cases (d == i)) [
      | inl same ↦ ground (arith, same_device i d x y t same h e)
      | inr other ↦
          rw (e, q)
            (update_other i d (λ z. record z { permission_level = p }) x t.devices (λ z. refl) other
              h)
    ]
  ]
]

revoke_shuts : (i d now : ℕ) (t : Tables) → Shut i t → Shut i (devices_revoke (some d) now t).1
unfolding devices_revoke get ◌>>=◌
revoke_shuts i d now t (x, h, off) = elim (Option-cases (device_at d t)) [
  | inl e ↦ rw e (x, h, off)
  | inr (y, e) ↦ elim (Bool-cases (d == i)) [
    | inr other ↦ rw e (x, update_other i d (revoking now) x t.devices (λ z. refl) other h, off)
    | inl same ↦ rw e (
      revoking now x,
      rw
          (
            find-update (λ z. z.device_id == i) (λ z. z.device_id == d) (revoking now) t.devices
                (λ z. refl),
            h,
          )
          (ground (arith, find_passes (λ (z : Device). z.device_id == i) t.devices x h)),
      ground arith,
    )
  ]
]

step_revoked : (t : Tables) (c : Change) (i : ℕ) → Shut i t → Shut i (step t c)
unfolding step add mark_online mark_offline touch
step_revoked t (adds d) i (x, h, off) = (
  x,
  ground (
    arith,
    find-append (λ (y : Device). y.device_id == i) t.devices (d ∷ []),
    any-is_some-find (λ (y : Device). y.device_id == i) t.devices,
  ),
  off,
)
step_revoked t (permits d p) i (x, h, off) = (x, set_permission_kept i d p t x off h, off)
step_revoked t (goes_online d now) i (x, h, off) =
    (x, update_inactive i d _ x t.devices (λ y. refl) off h, off)
step_revoked t (goes_offline d) i (x, h, off) =
    (x, update_inactive i d _ x t.devices (λ y. refl) off h, off)
step_revoked t (touches d now) i (x, h, off) =
    (x, update_inactive i d _ x t.devices (λ y. refl) off h, off)
step_revoked t (revokes d now) i k = revoke_shuts i d now t k

-- A device that is revoked, by its status or by a revocation time, stays so under every sequence of
-- changes of the table: additions, permission changes, presence updates and revocations.
pub revoked_stays : (cs : List Change) (t : Tables) (i : ℕ) → Shut i t → Shut i (run t cs)
unfolding run
revoked_stays [] t i k = k
revoked_stays (c ∷ cs) t i k = revoked_stays cs (step t c) i (step_revoked t c i k)
