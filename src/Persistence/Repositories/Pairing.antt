-- ===== src/Persistence/Repositories/Pairing.antt =====
-- `PairingRepository` of src/gptlink/persistence/repositories.py.
pub mod Added
use gptlink.Prelude.{
  Bool, Chars, Chars_eq, Option, String, String_eq, [], any, false, find, if◌then◌else◌, is_none,
  ltb, none, not, over, some, true, update, ℕ, ℕ_eq, ◌&&◌, ◌++◌, ◌+◌, ◌==◌, ◌||◌, ◌∷◌,
}
use gptlink.Persistence.Models.{
  PairingCode, Tables, device_exists, pairing_code_check, same_locator,
}
use gptlink.Common.Action.{Action, catch, err, ok, pure, transaction, ◌>>◌}
use gptlink.Common.Errors.{Exception, integrity_error}

abbrev opt_exists : Tables → Option ℕ → Bool
opt_exists t none = true
opt_exists t (some d) = device_exists t d

unfoldable pub add : PairingCode → Action Tables PairingCode
add c t =
    if any (λ x. x.code_hash == c.code_hash) t.pairing_codes
      || any (λ x. same_locator x.locator c.locator) t.pairing_codes
      || not (pairing_code_check c)
      || not (opt_exists t c.redeemed_device_id)
    then (err integrity_error, t)
    else (ok c, record t { pairing_codes = t.pairing_codes ++ c ∷ [] })

-- still to be used at `now`, with an attempt left
abbrev pub is_available : ℕ → PairingCode → Bool
is_available now c = ltb now c.expires_at && is_none c.used_at && ltb c.attempts c.max_attempts

unfoldable get_available : String → ℕ → Action Tables (Option PairingCode)
get_available code_hash now t =
    (ok (find (λ c. (c.code_hash == code_hash) && is_available now c) t.pairing_codes), t)

-- `PairingCode.locator == value`; with None it is rendered as IS NULL
abbrev locator_is : Option Chars → PairingCode → Bool
locator_is none c = is_none c.locator
locator_is (some l) c = same_locator c.locator (some l)

-- except IntegrityError: false if the locator is taken
collided : PairingCode → Exception → Action Tables Bool
collided code integrity_error t =
    if any (locator_is code.locator) t.pairing_codes
    then (ok false, t)
    else (err integrity_error, t)
collided code e t = (err e, t)

unfoldable pub add_unique_locator : PairingCode → Action Tables Bool
unfolding add collided
add_unique_locator code = catch (transaction (add code) >> pure true) (collided code)

abbrev pub spendable : Chars → ℕ → PairingCode → Bool
spendable locator now c = same_locator c.locator (some locator) && is_available now c

-- update(...).values(attempts=attempts + 1).returning(PairingCode): the row as updated
unfoldable pub begin_attempt : Chars → ℕ → Action Tables (Option PairingCode)
begin_attempt locator now t = (
  ok (
      over {A = PairingCode} (λ c. record c { attempts = c.attempts + 1 })
        (find (spendable locator now) t.pairing_codes)),
  record t {
    pairing_codes =
        update (spendable locator now) (λ c. record c { attempts = c.attempts + 1 })
          t.pairing_codes;
  },
)

-- entity changes that the session flushes at the commit
unfoldable pub mark_used : String → ℕ → ℕ → Action Tables Unit
mark_used code_hash now device_id t = (
  ok tt,
  record t {
    pairing_codes =
        update (λ c. c.code_hash == code_hash)
          (λ c. record c { used_at = some now; redeemed_device_id = some device_id })
          t.pairing_codes;
  },
)
