-- ===== src/Gateway/Pairing/Closed.antt =====
-- About the rows of redeemed codes under the calls of src/gptlink/gateway/pairing.py.
use gptlink.Prelude.{
  Bool, Bool-cases, Chars, Chars_eq, List, Option, String, String_eq, [], any, any-append, arith,
  eq_iff, false, find, inl, inr, is_none, none, refl, some, true, update, ℕ, ℕ_eq, ◌&&◌, ◌==◌, ◌∙◌,
  ◌∷◌, ◌≡◌,
}
use gptlink.Gateway.Pairing.{Draw, create_code, is_group, new_code}
use gptlink.Persistence.Repositories.Pairing.{add_unique_locator, spendable}
use gptlink.Persistence.Models.{PairingCode, Tables}
use gptlink.Common.Action.{Outcome-cases, ◌>>=◌}
use gptlink.Persistence.Repositories.Pairing.Added.{added_lem}
use gptlink.Gateway.Pairing.Redeem.{
  Guess, guessed, spend, spent, taken, tried, tried-collided, tried-malformed, tried-right,
  tried-unknown, tried-wrong, use_up, used, verified,
}

-- a row with this hash that is still to be used
abbrev pub is_open : String → PairingCode → Bool
is_open hash c = (c.code_hash == hash) && is_none c.used_at

abbrev pub has_hash : String → PairingCode → Bool
has_hash hash c = c.code_hash == hash

-- the row with this hash is there, and is used
abbrev pub IsClosed : String → Tables → Type 0
IsClosed hash t =
    (any (has_hash hash) t.pairing_codes ≡ true) × (any (is_open hash) t.pairing_codes ≡ false)

-- attempts change neither, and marking a row as used opens none
module _ (hash : String) (p : PairingCode → Bool) where
  pub any-spend :
      (cs : List PairingCode)
      → (any (has_hash hash) (update p spend cs) ≡ any (has_hash hash) cs)
        × (any (is_open hash) (update p spend cs) ≡ any (is_open hash) cs)
  any-spend [] = (refl, refl)
  any-spend (c ∷ cs) = (ground (arith, any-spend cs), ground (arith, any-spend cs))

  any-use_up :
      (now d : ℕ) (cs : List PairingCode)
      → any (is_open hash) cs ≡ false
      → (any (has_hash hash) (update p (use_up now d) cs) ≡ any (has_hash hash) cs)
        × (any (is_open hash) (update p (use_up now d) cs) ≡ false)
  any-use_up now d [] h = (refl, refl)
  any-use_up now d (c ∷ cs) h =
      (ground (arith, any-use_up now d cs), ground (arith, any-use_up now d cs))

pub closing :
    (hash : String) (now d : ℕ) (cs : List PairingCode)
    → (any (has_hash hash) (update (has_hash hash) (use_up now d) cs) ≡ any (has_hash hash) cs)
      × (any (is_open hash) (update (has_hash hash) (use_up now d) cs) ≡ false)
closing hash now d [] = (refl, refl)
closing hash now d (c ∷ cs) =
    (ground (arith, closing hash now d cs), ground (arith, closing hash now d cs))

-- a new row does not have the hash of a row that is there
insert-IsClosed :
    (hash : String) (c : PairingCode) (t : Tables)
    → IsClosed hash t
    → c.used_at ≡ none
    → IsClosed hash (add_unique_locator c t).1
insert-IsClosed hash c t (there, closed) unused = elim (added_lem c t) [
  | inl same ↦ rw same (there, closed)
  | inr (fresh, added) ↦ rw added (
    ground (arith, any-append (has_hash hash) t.pairing_codes (c ∷ []), there),
    elim (Bool-cases (c.code_hash == hash)) [
      | inr other ↦ rw any-append (rw (closed, other) refl)
      | inl same ↦
          let equal : c.code_hash ≡ hash = (eq_iff c.code_hash hash).0 same in
          cc (rw equal at fresh, there)
    ],
  )
]

create-IsClosed :
    (hash : String) (ttl m : ℕ) (ds : List Draw) (t : Tables)
    → IsClosed hash t
    → IsClosed hash (create_code ttl m ds t).1
unfolding create_code ◌>>=◌ new_code
create-IsClosed hash ttl m [] t k = k
create-IsClosed hash ttl m (d ∷ ds) t k =
    let c = new_code ttl m d in
    let next = insert-IsClosed hash c t k refl in
    elim (Outcome-cases (add_unique_locator c t).0) [
      | inr (e, o) ↦ rw o k
      | inl (true, o) ↦ rw o next
      | inl (false, o) ↦ rw o (create-IsClosed hash ttl m ds (add_unique_locator c t).1 next)
    ]

-- a call of the pairing service
pub data Call : Type 0 where
  redeems : Guess → Call
  creates : (ttl max_attempts : ℕ) → List Draw → Call

module _ (verify : String → Chars → Bool) where
  abbrev pub step : Call → Tables → Tables
  step (redeems g) t = (tried verify g t).1
  step (creates ttl m ds) t = (create_code ttl m ds t).1

  abbrev pub run : List Call → Tables → Tables
  run [] t = t
  run (c ∷ cs) t = run cs (step c t)

  spent-IsClosed :
      (hash : String) (g : Guess) (t : Tables)
      → IsClosed hash t
      → IsClosed hash (record t { pairing_codes = spent verify g t })
  unfolding spent
  spent-IsClosed hash g t k =
      let same = any-spend hash (spendable (guessed g) g.drawn.started) t.pairing_codes in
      (same.0 ∙ k.0, same.1 ∙ k.1)

  used-IsClosed :
      (hash : String) (g : Guess) (c : PairingCode) (t : Tables)
      → IsClosed hash t
      → IsClosed hash (used verify g c t)
  unfolding used
  used-IsClosed hash g c t k =
      let before = spent-IsClosed hash g t k in
      let same =
        any-use_up hash (has_hash c.code_hash) g.drawn.verified g.drawn.device_id (spent verify g t)
          before.1 in
      (same.0 ∙ before.0, same.1)

  found-IsClosed :
      (hash : String) (g : Guess) (t : Tables) (found : Option PairingCode)
      → find (spendable (guessed g) g.drawn.started) t.pairing_codes ≡ found
      → is_group (guessed g) ≡ true
      → IsClosed hash t
      → IsClosed hash (tried verify g t).1
  found-IsClosed hash g t none e h k = rw (tried-unknown verify g t h e) (spent-IsClosed hash g t k)
  found-IsClosed hash g t (some c) e h k =
      elim (Bool-cases (verified verify g c)) as (λ _. IsClosed hash (tried verify g t).1) [
        | inr wrong ↦ rw (tried-wrong verify g t c h e wrong) (spent-IsClosed hash g t k)
        | inl right ↦
            elim (Bool-cases (taken verify g t)) as (λ _. IsClosed hash (tried verify g t).1) [
              | inl full ↦ rw (tried-collided verify g t c h e right full) k
              | inr free ↦ rw (tried-right verify g t c h e right free) (used-IsClosed hash g c t k)
            ]
      ]

  step-IsClosed :
      (hash : String) (c : Call) (t : Tables) → IsClosed hash t → IsClosed hash (step c t)
  step-IsClosed hash (creates ttl m ds) t k = create-IsClosed hash ttl m ds t k
  step-IsClosed hash (redeems g) t k =
      elim (Bool-cases (is_group (guessed g))) as (λ _. IsClosed hash (tried verify g t).1) [
        | inl h ↦ found-IsClosed hash g t _ refl h k
        | inr h ↦ rw (tried-malformed verify g t h) k
      ]

  pub run-IsClosed :
      (hash : String) (cs : List Call) (t : Tables) → IsClosed hash t → IsClosed hash (run cs t)
  run-IsClosed hash [] t k = k
  run-IsClosed hash (c ∷ cs) t k = run-IsClosed hash cs (step c t) (step-IsClosed hash c t k)
