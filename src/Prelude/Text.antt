-- ===== src/Prelude/Text.antt =====
-- Text that the program takes apart, as the list of its code points. Of Python's `str` methods the
-- part for ASCII is written out: white space, letters and digits beyond ASCII are not treated.
use Prim.Native.Nat.{ℕ, ◌+◌, ◌-◌}
use Prim.Native.String.{String}
use Prim.Native.Char.{code}
use mathlib.Core.Path.{◌≡◌, refl}
use mathlib.Core.Logic.{◌↔◌}
use mathlib.Core.Bool.{Bool, true, false, ◌&&◌, ◌||◌, not}
use mathlib.Core.List.{List, [], ◌∷◌, ◌++◌, map}
use native.Mathlib.Omega.{arith}
use gptlink.Prelude.Tests.{Comparable, eqb, if◌then◌else◌, leb, ltb}

abbrev pub Chars : Type 0
Chars = List ℕ

-- a literal's code points
abbrev pub codes : String → Chars
codes String.[] = []
codes (String.◌∷◌ c s) = code c ∷ codes s

abbrev pub chars_beq : Chars → Chars → Bool
chars_beq [] [] = true
chars_beq [] (b ∷ bs) = false
chars_beq (a ∷ as') [] = false
chars_beq (a ∷ as') (b ∷ bs) = eqb a b && chars_beq as' bs

pub chars_beq_sound : (a b : Chars) → chars_beq a b ≡ true → a ≡ b
chars_beq_sound [] [] h = refl
chars_beq_sound [] (b ∷ bs) h = ground arith
chars_beq_sound (a ∷ x) [] h = ground arith
chars_beq_sound (a ∷ x) (b ∷ bs) h = ground (arith, chars_beq_sound x bs)

pub chars_beq_refl : (a : Chars) → chars_beq a a ≡ true
chars_beq_refl [] = refl
chars_beq_refl (a ∷ x) = ground (arith, chars_beq_refl x)

pub chars_beq_iff : (a b : Chars) → (chars_beq a b ≡ true) ↔ (a ≡ b)
chars_beq_iff a b = (chars_beq_sound a b, λ e. rw e (chars_beq_refl b))

instance abbrev pub Chars_eq : Comparable Chars
Chars_eq = record { same = chars_beq; same_iff = chars_beq_iff }

-- str.isspace of an ASCII character
abbrev pub is_space : ℕ → Bool
is_space c = (leb 9 c && leb c 13) || (leb 28 c && leb c 32)

abbrev pub is_upper : ℕ → Bool
is_upper c = leb b'A' c && leb c b'Z'

abbrev pub is_lower : ℕ → Bool
is_lower c = leb b'a' c && leb c b'z'

abbrev pub is_digit : ℕ → Bool
is_digit c = leb b'0' c && leb c b'9'

abbrev pub upper_char : ℕ → ℕ
upper_char c = if is_lower c then c - 32 else c

abbrev pub lower_char : ℕ → ℕ
lower_char c = if is_upper c then c + 32 else c

unfoldable pub upper : Chars → Chars
upper = map upper_char

unfoldable pub lstrip : Chars → Chars
lstrip [] = []
lstrip (c ∷ s) = if is_space c then lstrip s else c ∷ s

-- the trailing white space goes
unfoldable pub rstrip : Chars → Chars
rstrip [] = []
rstrip (c ∷ s) =
    let rest = rstrip s in
    elim rest [ [] ↦ if is_space c then [] else c ∷ [] | x ∷ xs ↦ c ∷ x ∷ xs ]

unfoldable pub strip : Chars → Chars
unfolding lstrip rstrip
strip s = rstrip (lstrip s)

-- s.split(sep, 1)[0]
unfoldable pub before : ℕ → Chars → Chars
before sep [] = []
before sep (c ∷ s) = let rest = before sep s in if eqb c sep then [] else c ∷ rest

-- s.split(sep)
abbrev pub glue : ℕ → List Chars → List Chars
glue c [] = (c ∷ []) ∷ []
glue c (p ∷ ps) = (c ∷ p) ∷ ps

unfoldable pub split : ℕ → Chars → List Chars
split sep [] = [] ∷ []
split sep (c ∷ s) = let rest = split sep s in if eqb c sep then [] ∷ rest else glue c rest

-- every character passes
abbrev pub all_chars : (ℕ → Bool) → Chars → Bool
all_chars p [] = true
all_chars p (c ∷ s) = p c && all_chars p s

-- str.isascii
abbrev pub is_ascii : Chars → Bool
is_ascii = all_chars (λ c. ltb c 128)

abbrev pub is_prefix : Chars → Chars → Bool
is_prefix [] s = true
is_prefix (c ∷ p) [] = false
is_prefix (c ∷ p) (d ∷ s) = eqb c d && is_prefix p s

-- `marker in text`
abbrev pub occurs : Chars → Chars → Bool
occurs p [] = is_prefix p []
occurs p (c ∷ s) = is_prefix p (c ∷ s) || occurs p s

module _ (sep : ℕ) where
  pub split_one : (a : Chars) → all_chars (λ c. not (eqb c sep)) a ≡ true → split sep a ≡ a ∷ []
  unfolding split
  split_one [] h = refl
  split_one (c ∷ a) h = ground (arith, split_one a)

  -- the part before a separator
  pub split-append :
      (a r : Chars)
      → all_chars (λ c. not (eqb c sep)) a ≡ true
      → split sep (a ++ sep ∷ r) ≡ a ∷ split sep r
  unfolding split
  split-append [] r h = ground arith
  split-append (c ∷ a) r h = ground (arith, split-append a r)
