-- ===== src/Gateway/Pairing/Once.antt =====
-- About a redemption that returns a credential: `redeem` of src/gptlink/gateway/pairing.py.
use gptlink.Prelude.{
  Bool, Bool-cases, Chars, Chars_eq, List, Option, String, String_eq, any_of_find, arith, eq_iff,
  false, find, find_passes, inl, inr, none, refl, some, true, ℕ, ℕ_eq, ◌==◌, ◌∙◌, ◌≡◌,
}
use gptlink.Gateway.Pairing.{DeviceCredential, is_group}
use gptlink.Persistence.Repositories.Pairing.{spendable}
use gptlink.Persistence.Models.{PairingCode, Tables}
use gptlink.Common.Action.{ok}
use gptlink.Gateway.Pairing.Closed.{
  Call, IsClosed, any-spend, closing, has_hash, is_open, run, run-IsClosed,
}
use gptlink.Gateway.Pairing.Redeem.{
  Guess, guessed, refused, spent, taken, tried, tried-collided, tried-malformed, tried-right,
  tried-unknown, tried-wrong, used, verified,
}

module _ (verify : String → Chars → Bool) where
  pub Redeemed : Guess → Tables → DeviceCredential → Tables → Type 0
  Redeemed g t credential t' =
      (c : PairingCode) × (find (spendable (guessed g) g.drawn.started) t.pairing_codes ≡ some c)
      × (verified verify g c ≡ true)
      × (taken verify g t ≡ false)
      × (credential ≡ record { device_id = g.drawn.device_id; token = g.drawn.token })
      × (t' ≡ used verify g c t)

  Redeemed-found :
      (g : Guess) (t t' : Tables) (credential : DeviceCredential) (found : Option PairingCode)
      → find (spendable (guessed g) g.drawn.started) t.pairing_codes ≡ found
      → is_group (guessed g) ≡ true
      → tried verify g t ≡ (ok credential, t')
      → Redeemed g t credential t'
  unfolding refused Redeemed
  Redeemed-found g t t' credential none e h r = cc (tried-unknown verify g t h e)
  Redeemed-found g t t' credential (some c) e h r =
      elim (Bool-cases (verified verify g c)) as (λ _. Redeemed g t credential t') [
        | inr wrong ↦ cc (tried-wrong verify g t c h e wrong)
        | inl right ↦ elim (Bool-cases (taken verify g t)) as (λ _. Redeemed g t credential t') [
          | inl full ↦ cc (tried-collided verify g t c h e right full)
          | inr free ↦ (
            c,
            e,
            right,
            free,
            ground (arith, tried-right verify g t c h e right free),
            ground (arith, tried-right verify g t c h e right free),
          )
        ]
      ]

  -- A redemption that returns a credential has found an available code with the locator that was
  -- typed, the hasher verified the whole code against that row, the row had not expired by then, and
  -- the tables afterwards differ by exactly the new device and the spent verify, used-up code.
  pub redeem_sound :
      (g : Guess) (t t' : Tables) (credential : DeviceCredential)
      → tried verify g t ≡ (ok credential, t')
      → Redeemed g t credential t'
  unfolding refused
  redeem_sound g t t' credential r =
      elim (Bool-cases (is_group (guessed g))) as (λ _. Redeemed g t credential t') [
        | inl h ↦ Redeemed-found g t t' credential _ refl h r
        | inr h ↦ cc (tried-malformed verify g t h)
      ]

  -- the row of a redemption that returned a credential
  redeemed-IsClosed :
      (g : Guess) (t : Tables) (c : PairingCode)
      → find (spendable (guessed g) g.drawn.started) t.pairing_codes ≡ some c
      → IsClosed c.code_hash (used verify g c t)
  unfolding used spent
  redeemed-IsClosed g t c e =
      let there =
        any_of_find (has_hash c.code_hash) _ t.pairing_codes c e
          ((eq_iff c.code_hash c.code_hash).1 refl) in
      let same = any-spend c.code_hash (spendable (guessed g) g.drawn.started) t.pairing_codes in
      let last = closing c.code_hash g.drawn.verified g.drawn.device_id (spent verify g t) in
      (last.0 ∙ same.0 ∙ there, last.1)

  found_other :
      (hash : String) (l : Chars) (now : ℕ) (t : Tables) (c : PairingCode)
      → find (spendable l now) t.pairing_codes ≡ some c
      → IsClosed hash t
      → (c.code_hash == hash) ≡ false
  found_other hash l now t c e k = elim (Bool-cases (c.code_hash == hash)) [
    | inr other ↦ other
    | inl same ↦
        let still : is_open hash c ≡ true =
          ground (arith, find_passes (spendable l now) t.pairing_codes c) in
        cc (any_of_find (is_open hash) (spendable l now) t.pairing_codes c e still, k.1)
  ]

  -- A code is redeemed once: after a redemption that returned a credential for the row that it found,
  -- and after any further redemptions and new codes, a redemption that returns a credential has found
  -- a row with another hash.
  pub redeem_once :
      (g g' : Guess) (t t' t'' : Tables) (credential credential' : DeviceCredential)
      (c : PairingCode) (cs : List Call)
      → tried verify g t ≡ (ok credential, t')
      → find (spendable (guessed g) g.drawn.started) t.pairing_codes ≡ some c
      → tried verify g' (run verify cs t') ≡ (ok credential', t'')
      → (c' : PairingCode) × (find
            (spendable (guessed g') g'.drawn.started)
            (run verify cs t').pairing_codes
          ≡ some c')
        × ((c'.code_hash == c.code_hash) ≡ false)
  unfolding Redeemed
  redeem_once g g' t t' t'' credential credential' c cs r e r' =
      let (x, e1, _, _, _, u) = redeem_sound g t t' credential r in
      let (c', e2, _, _, _, _) = redeem_sound g' (run verify cs t') t'' credential' r' in
      let same : c ≡ x = cc (e, e1) in
      let closed = run-IsClosed verify x.code_hash cs t' (rw u (redeemed-IsClosed g t x e1)) in
      let other =
        found_other x.code_hash (guessed g') g'.drawn.started (run verify cs t') c' e2 closed in
      (c', e2, rw same other)
