-- ===== src/Gateway/Pairing/Attempts.antt =====
-- About the guesses of a pairing code, by `redeem` of src/gptlink/gateway/pairing.py.
use mathlib.Core.Path.{subst}
use gptlink.Prelude.{
  Bool, Bool-cases, Chars, Chars_eq, List, Option, String, String_eq, [], arith, chars_beq_refl,
  chars_beq_sound, false, find, if◌then◌else◌, inl, inr, is_some, none, refl, some, sym, true,
  update, ℕ, ℕ_eq, ◌&&◌, ◌+◌, ◌-◌, ◌<◌, ◌==◌, ◌∷◌, ◌≡◌, ◌≤◌,
}
use gptlink.Gateway.Pairing.{DeviceCredential, is_group}
use gptlink.Persistence.Repositories.Pairing.{spendable}
use gptlink.Persistence.Models.{PairingCode, Tables, same_locator}
use gptlink.Common.Action.{Outcome, err}
use gptlink.Common.Errors.{integrity_error}
use gptlink.Gateway.Pairing.Redeem.{
  Guess, guessed, refused, spend, spent, taken, tried, tried-collided, tried-malformed, tried-right,
  tried-unknown, tried-wrong, use_up, used, verified,
}

-- the attempts that are left to the codes of a locator
pub remaining : Chars → List PairingCode → ℕ
remaining l [] = 0
remaining l (c ∷ cs) =
    (if same_locator c.locator (some l) then c.max_attempts - c.attempts else 0) + remaining l cs

remaining-spend_le :
    (l k : Chars) (now : ℕ) (cs : List PairingCode)
    → remaining l (update (spendable k now) spend cs) ≤ remaining l cs
unfolding remaining
remaining-spend_le l k now [] = omega arith
remaining-spend_le l k now (c ∷ cs) = ground (arith, remaining-spend_le l k now cs)

remaining-spend_lt :
    (l : Chars) (now : ℕ) (cs : List PairingCode) (c : PairingCode)
    → find (spendable l now) cs ≡ some c
    → remaining l (update (spendable l now) spend cs) < remaining l cs
unfolding remaining
remaining-spend_lt l now [] c h = cc
remaining-spend_lt l now (x ∷ cs) c h =
    ground (arith, remaining-spend_lt l now cs c, remaining-spend_le l l now cs)

remaining-use_up :
    (l : Chars) (hash : String) (now d : ℕ) (cs : List PairingCode)
    → remaining l (update (λ c. c.code_hash == hash) (use_up now d) cs) ≡ remaining l cs
unfolding remaining
remaining-use_up l hash now d [] = refl
remaining-use_up l hash now d (c ∷ cs) = ground (arith, remaining-use_up l hash now d cs)

abbrev one_if : Bool → ℕ
one_if true = 1
one_if false = 0

one_if_le : (b : Bool) → one_if b ≤ 1
one_if_le true = omega arith
one_if_le false = omega arith

pays_same :
    (l : Chars) (now : ℕ) (cs : List PairingCode) (found : Option PairingCode)
    → find (spendable l now) cs ≡ found
    → one_if (is_some found) + remaining l (update (spendable l now) spend cs) ≤ remaining l cs
pays_same l now cs none h = ground (arith, remaining-spend_le l l now cs)
pays_same l now cs (some c) h = ground (arith, remaining-spend_lt l now cs c h)

pays_spend :
    (l k : Chars) (now : ℕ) (b : Bool) (cs : List PairingCode)
    → one_if (b && (k == l) && is_some (find (spendable l now) cs))
        + remaining l (update (spendable k now) spend cs)
      ≤ remaining l cs
pays_spend l k now false cs = ground (arith, remaining-spend_le l k now cs)
pays_spend l k now true cs =
    elim (Bool-cases (k == l))
      as (λ _.
        one_if ((k == l) && is_some (find (spendable l now) cs))
          + remaining l (update (spendable k now) spend cs)
        ≤ remaining l cs) [
          | inl same ↦
              subst
                (λ k.
                  one_if ((k == l) && is_some (find (spendable l now) cs))
                    + remaining l (update (spendable k now) spend cs)
                  ≤ remaining l cs)
                (sym (chars_beq_sound k l same)) (rw (chars_beq_refl l) (pays_same l now cs _ refl))
          | inr other ↦ rw other (ground (arith, remaining-spend_le l k now cs))
        ]

-- the guess reaches the verification of a code of locator `l`
pub reaches : Chars → Guess → Tables → Bool
reaches l g t =
    is_group (guessed g)
    && (guessed g == l)
    && is_some (find (spendable l g.drawn.started) t.pairing_codes)

-- the transaction was lost to a collision of the fresh device id
pub lost {ℓ} : {A : Type ℓ} → Outcome A → Bool
lost (err integrity_error) = true
lost _ = false

module _ (verify : String → Chars → Bool) where
  Pays : Chars → Guess → Tables → Outcome DeviceCredential × Tables → Type 0
  Pays l g t r =
      one_if (reaches l g t) + remaining l r.1.pairing_codes
      ≤ remaining l t.pairing_codes + one_if (lost r.0)

  pays-spent :
      (l : Chars) (g : Guess) (t : Tables)
      → one_if (reaches l g t) + remaining l (spent verify g t) ≤ remaining l t.pairing_codes
  unfolding reaches spent
  pays-spent l g t = pays_spend l (guessed g) g.drawn.started (is_group (guessed g)) t.pairing_codes

  Pays-found :
      (l : Chars) (g : Guess) (t : Tables) (found : Option PairingCode)
      → find (spendable (guessed g) g.drawn.started) t.pairing_codes ≡ found
      → is_group (guessed g) ≡ true
      → Pays l g t (tried verify g t)
  unfolding lost Pays refused used
  Pays-found l g t none e h = rw (tried-unknown verify g t h e) (ground (arith, pays-spent l g t))
  Pays-found l g t (some c) e h =
      elim (Bool-cases (verified verify g c)) as (λ _. Pays l g t (tried verify g t)) [
        | inr wrong ↦ rw (tried-wrong verify g t c h e wrong) (ground (arith, pays-spent l g t))
        | inl right ↦ elim (Bool-cases (taken verify g t)) as (λ _. Pays l g t (tried verify g t)) [
          | inl full ↦
              rw (tried-collided verify g t c h e right full)
                (ground (arith, one_if_le (reaches l g t)))
          | inr free ↦ rw (tried-right verify g t c h e right free) (
              rw
                (remaining-use_up l c.code_hash g.drawn.verified g.drawn.device_id
                  (spent verify g t))
                (ground (arith, pays-spent l g t)))
        ]
      ]

  guess-Pays : (l : Chars) (g : Guess) (t : Tables) → Pays l g t (tried verify g t)
  unfolding lost Pays refused reaches
  guess-Pays l g t =
      elim (Bool-cases (is_group (guessed g))) as (λ _. Pays l g t (tried verify g t)) [
        | inl h ↦ Pays-found l g t _ refl h
        | inr h ↦ rw (tried-malformed verify g t h) (rw h (omega arith))
      ]

  -- the guesses one after the other: how many reached a code of `l`, how many were lost, the tables
  abbrev pub reached_of : Chars → List Guess → Tables → ℕ
  reached_of l [] t = 0
  reached_of l (g ∷ gs) t = one_if (reaches l g t) + reached_of l gs (tried verify g t).1

  abbrev pub lost_of : List Guess → Tables → ℕ
  lost_of [] t = 0
  lost_of (g ∷ gs) t = one_if (lost (tried verify g t).0) + lost_of gs (tried verify g t).1

  abbrev pub left : List Guess → Tables → Tables
  left [] t = t
  left (g ∷ gs) t = left gs (tried verify g t).1

  -- However many redemptions are tried one after the other, with whatever codes, the guesses that
  -- get as far as verifying a code of one locator and the attempts still left to it afterwards are
  -- together at most the attempts that were left before, plus one for each redemption that was
  -- rolled back because its fresh device id was taken.
  pub guesses_bounded :
      (l : Chars) (gs : List Guess) (t : Tables)
      → reached_of l gs t + remaining l (left gs t).pairing_codes
        ≤ remaining l t.pairing_codes + lost_of gs t
  unfolding Pays
  guesses_bounded l [] t = omega arith
  guesses_bounded l (g ∷ gs) t =
      ground (arith, guess-Pays l g t, guesses_bounded l gs (tried verify g t).1)
