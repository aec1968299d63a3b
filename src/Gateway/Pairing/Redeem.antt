-- ===== src/Gateway/Pairing/Redeem.antt =====
-- `redeem` of src/gptlink/gateway/pairing.py, branch by branch.
use gptlink.Prelude.{
  Bool, Chars, Chars_eq, List, String, String_eq, [], any, false, find, ltb, none, some, split,
  true, update, ℕ, ℕ_eq, ◌&&◌, ◌++◌, ◌+◌, ◌==◌, ◌∷◌, ◌≡◌,
}
use gptlink.Gateway.Pairing.{
  DeviceCredential, DeviceMetadata, Redemption, dash, is_code, is_group, locator_of, new_device,
  normalized, redeem,
}
use gptlink.Persistence.Repositories.Devices as Devices
use gptlink.Persistence.Repositories.Pairing.{spendable}
use gptlink.Persistence.Repositories.Pairing as Repository
use gptlink.Persistence.Models.{PairingCode, Tables}
use gptlink.Common.Action.{Action, Outcome, err, ok, ◌>>=◌}
use gptlink.Common.Errors.{integrity_error, pairing_error}

abbrev pub spend : PairingCode → PairingCode
spend c = record c { attempts = c.attempts + 1 }

abbrev pub use_up : ℕ → ℕ → PairingCode → PairingCode
use_up now d c = record c { used_at = some now; redeemed_device_id = some d }

-- A call of `redeem` with what was typed.
pub record Guess : Type 0 where
  pub typed : Chars
  pub metadata : DeviceMetadata
  pub drawn : Redemption

abbrev pub guessed : Guess → Chars
guessed g = locator_of (normalized g.typed)

module _ (verify : String → Chars → Bool) where
  unfoldable pub tried : Guess → Action Tables DeviceCredential
  tried g = redeem verify g.typed g.metadata g.drawn

  unfoldable pub spent : Guess → Tables → List PairingCode
  spent g t = update (spendable (guessed g) g.drawn.started) spend t.pairing_codes

  unfoldable pub refused : Outcome DeviceCredential
  refused = err (pairing_error "invalid pairing code")

  pub tried-malformed :
      (g : Guess) (t : Tables) → is_group (guessed g) ≡ false → tried g t ≡ (refused, t)
  unfolding tried redeem refused ◌>>=◌
  tried-malformed g t h = rw h

  pub tried-unknown :
      (g : Guess) (t : Tables)
      → is_group (guessed g) ≡ true
      → find (spendable (guessed g) g.drawn.started) t.pairing_codes ≡ none
      → tried g t ≡ (refused, record t { pairing_codes = spent g t })
  unfolding tried redeem refused spent Repository.begin_attempt ◌>>=◌
  tried-unknown g t h e = rw (h, e)

  unfoldable pub verified : Guess → PairingCode → Bool
  verified g c =
      is_code (split dash (normalized g.typed))
      && verify c.code_hash (normalized g.typed)
      && ltb g.drawn.verified c.expires_at

  pub tried-wrong :
      (g : Guess) (t : Tables) (c : PairingCode)
      → is_group (guessed g) ≡ true
      → find (spendable (guessed g) g.drawn.started) t.pairing_codes ≡ some c
      → verified g c ≡ false
      → tried g t ≡ (refused, record t { pairing_codes = spent g t })
  unfolding tried redeem refused spent verified Repository.begin_attempt ◌>>=◌
  tried-wrong g t c h e w = rw (h, e, w)

  unfoldable pub taken : Guess → Tables → Bool
  taken g t = any (λ x. x.device_id == g.drawn.device_id) t.devices

  unfoldable pub used : Guess → PairingCode → Tables → Tables
  used g c t = record t {
    devices = t.devices ++ new_device g.metadata g.drawn ∷ [];
    pairing_codes =
        update (λ x. x.code_hash == c.code_hash) (use_up g.drawn.verified g.drawn.device_id)
          (spent g t);
  }

  pub tried-collided :
      (g : Guess) (t : Tables) (c : PairingCode)
      → is_group (guessed g) ≡ true
      → find (spendable (guessed g) g.drawn.started) t.pairing_codes ≡ some c
      → verified g c ≡ true
      → taken g t ≡ true
      → tried g t ≡ (err integrity_error, t)
  unfolding tried redeem spent verified taken new_device Devices.add Repository.begin_attempt ◌>>=◌
  tried-collided g t c h e w f = rw (h, e, w, f)

  pub tried-right :
      (g : Guess) (t : Tables) (c : PairingCode)
      → is_group (guessed g) ≡ true
      → find (spendable (guessed g) g.drawn.started) t.pairing_codes ≡ some c
      → verified g c ≡ true
      → taken g t ≡ false
      → tried g t
        ≡ (ok (record { device_id = g.drawn.device_id; token = g.drawn.token }), used g c t)
  unfolding tried redeem refused spent verified taken used new_device Devices.add
      Repository.begin_attempt Repository.mark_used ◌>>=◌
  tried-right g t c h e w f = rw (h, e, w, f)
