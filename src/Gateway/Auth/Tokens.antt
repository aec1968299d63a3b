-- ===== src/Gateway/Auth/Tokens.antt =====
-- About the hash of a token and its verification, of src/gptlink/gateway/auth.py.
use gptlink.Prelude.{
  All, Chars, Chars_eq, List, String_eq, [], all_chars, ap, arith, codes, eqb, false, is_ascii,
  length, not, refl, some, split, split-append, split_one, true, ℕ, ℕ_eq, ◌%◌, ◌++◌, ◌/◌, ◌<◌, ◌==◌,
  ◌∷◌, ◌≡◌,
}
use gptlink.Gateway.Auth.{
  check_parts, compare_digest, encode_device_token, from_hex, hash_device_token, hex_digit,
  hex_value, is_gap, to_hex, verify_device_token,
}
use gptlink.Common.Action.{ok}

abbrev pub AreBytes : List ℕ → Type 0
AreBytes = All (λ b. b < 256)

-- one digit is written and read back, and is neither white space nor a dollar
digit_lem :
    (n : ℕ)
    → n < 16
    → (hex_value (hex_digit n) ≡ some n)
      × (is_gap (hex_digit n) ≡ false)
      × (eqb (hex_digit n) b'$' ≡ false)
unfolding hex_digit
digit_lem n h = ground arith

from_hex-to_hex : (bs : List ℕ) → AreBytes bs → from_hex (to_hex bs) ≡ some bs
unfolding from_hex to_hex
from_hex-to_hex [] h = refl
from_hex-to_hex (b ∷ bs) h =
    let hi = digit_lem (b / 16) (omega arith) in
    let lo = digit_lem (b % 16) (omega arith) in
    rw (hi.1, hi.0, lo.0, from_hex-to_hex bs h.1) (ap (λ n. some (n ∷ bs)) (omega arith))

to_hex_plain : (bs : List ℕ) → AreBytes bs → all_chars (λ c. not (eqb c b'$')) (to_hex bs) ≡ true
unfolding to_hex
to_hex_plain [] h = refl
to_hex_plain (b ∷ bs) h =
    ground (
      arith,
      digit_lem (b / 16) (omega arith),
      digit_lem (b % 16) (omega arith),
      to_hex_plain bs h.1,
    )

abbrev record_text : List ℕ → List ℕ → Chars
record_text salt digest = codes "sha256" ++ b'$' ∷ to_hex salt ++ b'$' ∷ to_hex digest

split-record_text :
    (salt digest : List ℕ)
    → AreBytes salt
    → AreBytes digest
    → split b'$' (record_text salt digest) ≡ codes "sha256" ∷ to_hex salt ∷ to_hex digest ∷ []
split-record_text salt digest hs hd = rw (
  split-append b'$' (codes "sha256") (to_hex salt ++ b'$' ∷ to_hex digest) refl,
  split-append b'$' (to_hex salt) (to_hex digest) (to_hex_plain salt hs),
  split_one b'$' (to_hex digest) (to_hex_plain digest hd),
)

module _ (sha256 : List ℕ → List ℕ) where
  hash_inversion :
      (token : Chars) (salt : List ℕ) (stored_hash : Chars)
      → hash_device_token sha256 token salt ≡ ok stored_hash
      → stored_hash ≡ record_text salt (sha256 (salt ++ token))
  unfolding hash_device_token
  hash_inversion token salt stored_hash h = ground arith

  check_same :
      (token : Chars) (salt digest : List ℕ)
      → length digest ≡ 32
      → length salt ≡ 16
      → is_ascii token ≡ true
      → check_parts sha256 token (codes "sha256") (some salt) (some digest)
        ≡ ok (sha256 (salt ++ token) == digest)
  unfolding check_parts compare_digest encode_device_token
  check_same token salt digest hd hs ascii = rw (hd, hs, ascii)

  -- If SHA-256 gives 32 bytes and the salt is 16 bytes, then an ASCII token is verified against the
  -- stored hash of a token exactly if the salted digests are the same: a token against its own hash
  -- is accepted, and another token only by a collision.
  pub verify-hash :
      (token other : Chars) (salt : List ℕ) (stored_hash : Chars)
      → ((m : List ℕ) → (length (sha256 m) ≡ 32) × AreBytes (sha256 m))
      → length salt ≡ 16
      → AreBytes salt
      → is_ascii token ≡ true
      → hash_device_token sha256 other salt ≡ ok stored_hash
      → verify_device_token sha256 token stored_hash
        ≡ ok (sha256 (salt ++ token) == sha256 (salt ++ other))
  unfolding verify_device_token
  verify-hash token other salt stored_hash digest size bytes ascii h =
      let d = digest (salt ++ other) in
      rw
        (
          hash_inversion other salt stored_hash h,
          split-record_text salt (sha256 (salt ++ other)) bytes d.1,
          from_hex-to_hex salt bytes,
          from_hex-to_hex (sha256 (salt ++ other)) d.1,
        )
        (check_same token salt (sha256 (salt ++ other)) d.0 size ascii)
