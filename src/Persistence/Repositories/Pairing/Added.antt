-- ===== src/Persistence/Repositories/Pairing/Added.antt =====
-- About `add_unique_locator` of `PairingRepository`, in src/gptlink/persistence/repositories.py.
use gptlink.Persistence.Repositories.Pairing.{add, add_unique_locator, collided, opt_exists}
use gptlink.Persistence.Models.{PairingCode, Tables, pairing_code_check, same_locator}
use gptlink.Common.Action.{◌>>=◌}
use gptlink.Common.Errors.{integrity_error}
use gptlink.Prelude.{
  Bool-cases, Chars_eq, String_eq, [], any, arith, false, inl, inr, not, refl, ℕ_eq, ◌++◌, ◌==◌,
  ◌||◌, ◌∷◌, ◌≡◌, ◌⊎◌,
}

collided-keeps : (c : PairingCode) (t : Tables) → (collided c integrity_error t).1 ≡ t
unfolding collided
collided-keeps c t = ground arith

-- A code is added at the end, where no row has its hash, or the tables stay as they are.
pub added_lem :
    (c : PairingCode) (t : Tables)
    → ((add_unique_locator c t).1 ≡ t)
      ⊎ ((any (λ x. x.code_hash == c.code_hash) t.pairing_codes ≡ false)
          × ((add_unique_locator c t).1 ≡ record t { pairing_codes = t.pairing_codes ++ c ∷ [] }))
unfolding add_unique_locator add ◌>>=◌
added_lem c t =
    elim (Bool-cases (
      any (λ x. x.code_hash == c.code_hash) t.pairing_codes
      || any (λ x. same_locator x.locator c.locator) t.pairing_codes
      || not (pairing_code_check c)
      || not (opt_exists t c.redeemed_device_id))) [
        | inl h ↦ inl (rw h (collided-keeps c t))
        | inr h ↦ inr (ground arith, rw h refl)
      ]
