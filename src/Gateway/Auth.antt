-- ===== src/Gateway/Auth.antt =====
-- src/gptlink/gateway/auth.py: device credentials, and the admission of unique mutation requests.
-- SHA-256 is a parameter; text and bytes are lists of numbers.
pub mod Tokens
pub mod Replay
mod Tests
use gptlink.Common.Types.{Capability_eq, is_revoked}
use gptlink.Prelude.{
  Bool, Chars, Chars_eq, List, Option, String_eq, [], codes, false, if◌then◌else◌, is_ascii,
  is_digit, is_none, is_some, leb, length, ltb, none, not, some, split, ℕ, ℕ_eq, ◌%◌, ◌&&◌, ◌*◌,
  ◌++◌, ◌+◌, ◌-◌, ◌/◌, ◌==◌, ◌||◌, ◌∷◌,
}
use gptlink.Persistence.Repositories.Devices as Devices
use gptlink.Persistence.Repositories.Requests as Requests
use gptlink.Persistence.Models.{Device, Tables}
use gptlink.Common.Action.{
  Action, Outcome, catch, err, guarded, lift, ok, pure, raise, transaction, ◌>>=◌, ◌>>◌,
}
use gptlink.Common.Errors.{Exception, authentication_error, integrity_error, replay_error}

pub hex_digit : ℕ → ℕ
hex_digit n = if ltb n 10 then b'0' + n else b'a' + n - 10

-- bytes.hex
unfoldable pub to_hex : List ℕ → Chars
unfolding hex_digit
to_hex [] = []
to_hex (b ∷ bs) = hex_digit (b / 16) ∷ hex_digit (b % 16) ∷ to_hex bs

abbrev pub hex_value : ℕ → Option ℕ
hex_value c =
    if is_digit c
    then some (c - b'0')
    else if leb b'a' c && leb c b'f'
    then some (c + 10 - b'a')
    else if leb b'A' c && leb c b'F'
    then some (c + 10 - b'A')
    else none

abbrev join_byte : Option ℕ → Option ℕ → Option (List ℕ) → Option (List ℕ)
join_byte (some h) (some l) (some bs) = some ((h * 16 + l) ∷ bs)
join_byte _ _ _ = none

-- the white space of bytes.fromhex, that of ASCII
abbrev pub is_gap : ℕ → Bool
is_gap c = (leb 9 c && leb c 13) || c == 32

-- bytes.fromhex: pairs of digits, with white space between pairs
unfoldable pub from_hex : Chars → Option (List ℕ)
from_hex [] = some []
from_hex (c ∷ []) = if is_gap c then some [] else none
from_hex (c ∷ d ∷ s) =
    let skipped = from_hex (d ∷ s) in
    let rest = from_hex s in
    if is_gap c then skipped else join_byte (hex_value c) (hex_value d) rest

module _ (sha256 : List ℕ → List ℕ) where
  -- _encode_device_token
  unfoldable pub encode_device_token : Chars → Outcome (List ℕ)
  encode_device_token token = if is_ascii token then ok token else err authentication_error

  stored : Outcome (List ℕ) → List ℕ → Outcome Chars
  stored (err e) salt = err e
  stored (ok encoded) salt =
      ok (codes "sha256" ++ b'$' ∷ to_hex salt ++ b'$' ∷ to_hex (sha256 (salt ++ encoded)))

  -- `salt` is what secrets.token_bytes(16) gives
  unfoldable pub hash_device_token : Chars → List ℕ → Outcome Chars
  unfolding stored encode_device_token
  hash_device_token token salt = stored (encode_device_token token) salt

  -- the digests are compared once the token is encoded
  compare_digest : List ℕ → List ℕ → Outcome (List ℕ) → Outcome Bool
  compare_digest salt expected (err e) = err e
  compare_digest salt expected (ok encoded) = ok (sha256 (salt ++ encoded) == expected)

  check_parts : Chars → Chars → Option (List ℕ) → Option (List ℕ) → Outcome Bool
  check_parts token algorithm (some salt) (some expected) =
      if not (algorithm == codes "sha256") || not (length salt == 16) || not (length expected == 32)
      then ok false
      else compare_digest salt expected (encode_device_token token)
  check_parts token algorithm _ _ = ok false

  -- a, b, c = stored_hash.split("$"): any other number of parts is a ValueError
  unpack : Chars → List Chars → Outcome Bool
  unpack token (a ∷ b ∷ c ∷ []) = check_parts token a (from_hex b) (from_hex c)
  unpack token _ = ok false

  unfoldable pub verify_device_token : Chars → Chars → Outcome Bool
  unfolding compare_digest check_parts unpack encode_device_token
  verify_device_token token stored_hash = unpack token (split b'$' stored_hash)

  unfoldable pub admit : Chars → Option Device → Action Tables Device
  admit token none = raise authentication_error
  admit token (some d) = lift (verify_device_token token d.device_token_hash) >>= λ valid.
      guarded (not (not valid || is_revoked d.status || is_some d.revoked_at)) authentication_error
        (pure d)

  -- DeviceAuthenticator.authenticate
  unfoldable pub authenticate : ℕ → Chars → Action Tables Device
  unfolding admit
  authenticate device_id token = transaction (Devices.get device_id >>= admit token)

-- a second transaction looks the claim up: unrelated integrity failures are raised again
explain : ℕ → Exception → Action Tables Unit
explain request_id integrity_error = transaction (Requests.get_claim request_id) >>= λ claim.
    guarded (is_none claim) replay_error (raise integrity_error)
explain request_id e = raise e

-- RequestReplayGuard.claim
unfoldable pub claim : ℕ → ℕ → Action Tables Unit
unfolding explain
claim request_id now =
    catch
      (transaction
        (Requests.add_claim (record { request_id = request_id; claimed_at = now }) >> pure tt))
      (explain request_id)
