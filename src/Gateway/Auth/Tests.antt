-- ===== src/Gateway/Auth/Tests.antt =====
-- Tokens and claims at concrete values, with a digest of 32 zero bytes but for the length.
use gptlink.Gateway.Auth.{hash_device_token, to_hex, verify_device_token}
use gptlink.Gateway.Auth.Tokens.{AreBytes, verify-hash}
use gptlink.Prelude.{
  Chars, Chars_eq, List, String_eq, [], arith, codes, length, refl, suc, zero, ℕ, ℕ_eq, ◌%◌, ◌++◌,
  ◌==◌, ◌∷◌, ◌≡◌,
}
use gptlink.Common.Action.{ok}

abbrev zeros : ℕ → List ℕ
zeros zero = []
zeros (suc n) = 0 ∷ zeros n

toy_digest : List ℕ → List ℕ
toy_digest m = (length m % 256) ∷ zeros 31

toy_digest_size : (m : List ℕ) → (length (toy_digest m) ≡ 32) × AreBytes (toy_digest m)
unfolding toy_digest
toy_digest_size m = (refl, omega arith)

abbrev salt : List ℕ
salt = zeros 16

abbrev stored_toy : Chars
stored_toy =
    codes
      "sha256$00000000000000000000000000000000$1300000000000000000000000000000000000000000000000000000000000000"

verify-hash_example :
    verify_device_token toy_digest (codes "abc") stored_toy
    ≡ ok (toy_digest (salt ++ codes "abc") == toy_digest (salt ++ codes "abc"))
unfolding hash_device_token toy_digest to_hex
verify-hash_example =
    verify-hash toy_digest (codes "abc") (codes "abc") salt stored_toy toy_digest_size refl
      (omega arith) refl refl
