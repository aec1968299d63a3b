-- ===== src/Gateway/Pairing.antt =====
-- src/gptlink/gateway/pairing.py: short-lived, attempt-limited pairing. The random draws, the clock
-- readings, the password hasher and the token hash are parameters. A code is twelve characters of
-- the alphabet, written as three groups of four; text is a list of code points.
pub mod Codes
pub mod Redeem
pub mod Attempts
pub mod Closed
pub mod Once
mod Tests
use gptlink.Common.Types.{Capability, Capability_eq, offline, read_only}
use gptlink.Prelude.{
  Bool, Chars, Chars_eq, List, Option, String, String_eq, [], all_chars, before, false,
  if◌then◌else◌, leb, length, ltb, none, some, split, strip, upper, ℕ, ℕ_eq, ◌&&◌, ◌++◌, ◌+◌, ◌==◌,
  ◌||◌, ◌∷◌,
}
use gptlink.Persistence.Repositories.Devices as Devices
use gptlink.Persistence.Repositories.Pairing as Repository
use gptlink.Persistence.Models.{Device, PairingCode, Tables}
use gptlink.Common.Action.{Action, guarded, pure, raise, transaction, ◌>>=◌, ◌>>◌}
use gptlink.Common.Errors.{pairing_error}

-- DeviceMetadata
pub record DeviceMetadata : Type 0 where
  pub display_name : String
  pub platform : String
  pub hostname : String
  pub agent_version : String
  pub protocol_version : ℕ
  pub capabilities : List Capability

-- one round of create_code: raw[:4], raw[4:8], raw[8:], the hash of the code and the clock
pub record Draw : Type 0 where
  pub locator : Chars
  pub middle : Chars
  pub last : Chars
  pub code_hash : String
  pub now : ℕ

pub record PairingOffer : Type 0 where
  pub code : Chars
  pub expires_at : ℕ

abbrev pub dash : ℕ
dash = b'-'

-- f"{raw[:4]}-{raw[4:8]}-{raw[8:]}"
abbrev pub format_code : Draw → Chars
format_code d = d.locator ++ (dash ∷ (d.middle ++ (dash ∷ d.last)))

unfoldable new_code : ℕ → ℕ → Draw → PairingCode
new_code ttl max_attempts d = record {
  code_hash = d.code_hash;
  locator = some d.locator;
  expires_at = d.now + ttl;
  attempts = 0;
  max_attempts = max_attempts;
  created_at = d.now;
  used_at = none;
  redeemed_device_id = none;
}

-- The draws of the rounds: the source draws at most twenty times.
unfoldable pub create_code : ℕ → ℕ → List Draw → Action Tables PairingOffer
unfolding new_code
create_code ttl max_attempts [] = raise (pairing_error "unable to allocate pairing code")
create_code ttl max_attempts (d ∷ ds) =
    let again = create_code ttl max_attempts ds in
    transaction (Repository.add_unique_locator (new_code ttl max_attempts d)) >>= λ inserted.
    if inserted then pure (record { code = format_code d; expires_at = d.now + ttl }) else again

-- [A-HJ-NP-Z2-9]
abbrev pub in_alphabet : ℕ → Bool
in_alphabet c =
    (leb b'A' c && leb c b'H')
    || (leb b'J' c && leb c b'N')
    || (leb b'P' c && leb c b'Z')
    || (leb b'2' c && leb c b'9')

-- [A-HJ-NP-Z2-9]{4}
abbrev pub is_group : Chars → Bool
is_group s = (length s == 4) && all_chars in_alphabet s

-- [A-HJ-NP-Z2-9]{4}(?:-[A-HJ-NP-Z2-9]{4}){2}
abbrev pub is_code : List Chars → Bool
is_code (a ∷ b ∷ c ∷ []) = is_group a && is_group b && is_group c
is_code _ = false

unfoldable pub normalized : Chars → Chars
normalized code = upper (strip code)

unfoldable pub locator_of : Chars → Chars
locator_of code = before dash code

-- what a redemption draws: both clock readings, the token and its stored hash, and a fresh UUID
pub record Redemption : Type 0 where
  pub started : ℕ
  pub verified : ℕ
  pub device_id : ℕ
  pub token : Chars
  pub token_hash : Chars

pub record DeviceCredential : Type 0 where
  pub device_id : ℕ
  pub token : Chars

unfoldable pub new_device : DeviceMetadata → Redemption → Device
new_device m r = record {
  device_id = r.device_id;
  display_name = m.display_name;
  platform = m.platform;
  hostname = m.hostname;
  agent_version = m.agent_version;
  protocol_version = m.protocol_version;
  capabilities = m.capabilities;
  status = offline;
  permission_level = read_only;
  device_token_hash = r.token_hash;
  last_seen = none;
  created_at = r.verified;
  revoked_at = none;
}

-- argon2's verification: `verify hash code`, an exception being a refusal
module _ (verify : String → Chars → Bool) where
  issue : DeviceMetadata → Redemption → PairingCode → Action Tables (Option DeviceCredential)
  issue m r c = do
    Devices.add (new_device m r)
    Repository.mark_used c.code_hash r.verified r.device_id
    pure (some (record { device_id = r.device_id; token = r.token }))

  -- a code can expire while its verification runs
  attempt :
      Chars
      → DeviceMetadata
      → Redemption
      → Option PairingCode
      → Action Tables (Option DeviceCredential)
  attempt code m r none = pure none
  attempt code m r (some c) =
      if is_code (split dash code) && verify c.code_hash code && ltb r.verified c.expires_at
      then issue m r c
      else pure none

  -- after the commit, so that a wrong guess spends its attempt
  granted : Option DeviceCredential → Action Tables DeviceCredential
  granted none = raise (pairing_error "invalid pairing code")
  granted (some credential) = pure credential

  unfoldable pub redeem : Chars → DeviceMetadata → Redemption → Action Tables DeviceCredential
  unfolding issue attempt granted
  redeem typed m r =
      let code = normalized typed in
      guarded (is_group (locator_of code)) (pairing_error "invalid pairing code") (
        transaction (Repository.begin_attempt (locator_of code) r.started >>= attempt code m r)
        >>= granted)
