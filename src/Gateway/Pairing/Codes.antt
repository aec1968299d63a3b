-- ===== src/Gateway/Pairing/Codes.antt =====
-- About the form of a pairing code in `create_code` and `redeem`, of
-- src/gptlink/gateway/pairing.py.
use gptlink.Prelude.{
  Bool, Chars, Chars_eq, String_eq, [], all_chars, arith, before, eqb, is_space, lower_char, lstrip,
  map, not, refl, rstrip, split, split-append, split_one, strip, true, upper, ℕ, ℕ_eq, ◌++◌, ◌==◌,
  ◌||◌, ◌∷◌, ◌≡◌,
}
use gptlink.Gateway.Pairing.{
  Draw, dash, format_code, in_alphabet, is_code, is_group, locator_of, normalized,
}

abbrev plain : ℕ → Bool
plain c = in_alphabet c || (c == dash)

lstrip-plain : (s : Chars) → all_chars (λ c. not (is_space c)) s ≡ true → lstrip s ≡ s
unfolding lstrip
lstrip-plain [] h = refl
lstrip-plain (c ∷ s) h = ground arith

rstrip-plain : (s : Chars) → all_chars (λ c. not (is_space c)) s ≡ true → rstrip s ≡ s
unfolding rstrip
rstrip-plain [] h = refl
rstrip-plain (c ∷ []) h = ground arith
rstrip-plain (c ∷ d ∷ s) h = ground (arith, rstrip-plain (d ∷ s))

spaces-lower :
    (s : Chars)
    → all_chars plain s ≡ true
    → all_chars (λ c. not (is_space c)) (map lower_char s) ≡ true
spaces-lower [] h = refl
spaces-lower (c ∷ s) h = ground (arith, spaces-lower s)

upper-lower : (s : Chars) → all_chars plain s ≡ true → upper (map lower_char s) ≡ s
unfolding upper
upper-lower [] h = refl
upper-lower (c ∷ s) h = ground (arith, upper-lower s)

plain-append :
    (s r : Chars)
    → all_chars in_alphabet s ≡ true
    → all_chars plain r ≡ true
    → all_chars plain (s ++ r) ≡ true
plain-append [] r h k = k
plain-append (c ∷ s) r h k = ground (arith, plain-append s r)

plain-all : (s : Chars) → all_chars in_alphabet s ≡ true → all_chars plain s ≡ true
plain-all [] h = refl
plain-all (c ∷ s) h = ground (arith, plain-all s)

dashless : (s : Chars) → all_chars in_alphabet s ≡ true → all_chars (λ c. not (eqb c dash)) s ≡ true
dashless [] h = refl
dashless (c ∷ s) h = ground (arith, dashless s)

before-append : (s r : Chars) → all_chars in_alphabet s ≡ true → before dash (s ++ dash ∷ r) ≡ s
unfolding before
before-append [] r h = refl
before-append (c ∷ s) r h = ground (arith, before-append s r)

letters : (s : Chars) → is_group s ≡ true → all_chars in_alphabet s ≡ true
letters s h = ground arith

-- A code made of three groups of the alphabet, typed in small letters, is normalised to itself; its
-- locator is its first group, and it passes the check of the code's format.
normalized-format_code :
    (d : Draw)
    → is_group d.locator ≡ true
    → is_group d.middle ≡ true
    → is_group d.last ≡ true
    → (normalized (map lower_char (format_code d)) ≡ format_code d)
      × (locator_of (format_code d) ≡ d.locator)
      × (is_code (split dash (format_code d)) ≡ true)
unfolding normalized locator_of strip
normalized-format_code d a b c =
    let p2 =
      plain-append d.middle (dash ∷ d.last) (letters d.middle b)
        (plain-all d.last (letters d.last c)) in
    let p3 =
      plain-append d.locator (dash ∷ (d.middle ++ (dash ∷ d.last))) (letters d.locator a) p2 in
    (
      rw
          (
            lstrip-plain (map lower_char (format_code d)) (spaces-lower (format_code d) p3),
            rstrip-plain (map lower_char (format_code d)) (spaces-lower (format_code d) p3),
          )
          (upper-lower (format_code d) p3),
      before-append d.locator _ (letters d.locator a),
      rw (
        split-append dash d.locator (d.middle ++ (dash ∷ d.last))
            (dashless d.locator (letters d.locator a)),
        split-append dash d.middle d.last (dashless d.middle (letters d.middle b)),
        split_one dash d.last (dashless d.last (letters d.last c)),
        a,
        b,
        c,
      ),
    )
