-- ===== src/Prelude/Lists.antt =====
-- Lists as tables of rows: selection, update and counting by a Boolean test on a row.
use Prim.Native.Nat.{ℕ, zero, suc, ◌+◌, ◌≤◌, ◌<◌}
use mathlib.Core.Path.{◌≡◌, refl}
use mathlib.Core.Bool.{Bool, true, false, ◌||◌}
use mathlib.Core.Logic.{inl, inr}
use mathlib.Core.List.{List, [], ◌∷◌, ◌++◌, Perm}
use mathlib.Core.List.Perm
use gptlink.Prelude.Tests.{Bool-cases, if◌then◌else◌, is_some, over}
use mathlib.Core.Option.{Option, none, some}
use native.Mathlib.Omega.{arith}

-- every member has the property
abbrev pub All {ℓ κ} : {A : Type ℓ} → (A → Type κ) → List A → Type κ
All Q [] = Unit
All Q (y ∷ ys) = Q y × All Q ys

module _ {ℓ} {A : Type ℓ} where
  abbrev pub length : List A → ℕ
  length [] = 0
  length (x ∷ xs) = suc (length xs)

  abbrev pub take : ℕ → List A → List A
  take zero xs = []
  take (suc n) [] = []
  take (suc n) (x ∷ xs) = x ∷ take n xs

  abbrev pub drop : ℕ → List A → List A
  drop zero xs = xs
  drop (suc n) [] = []
  drop (suc n) (x ∷ xs) = drop n xs

  -- the rows that pass the test, in order
  abbrev pub select : (A → Bool) → List A → List A
  select p [] = []
  select p (x ∷ xs) = let rest = select p xs in if p x then x ∷ rest else rest

  -- the first row that passes
  abbrev pub find : (A → Bool) → List A → Option A
  find p [] = none
  find p (x ∷ xs) = if p x then some x else find p xs

  abbrev pub any : (A → Bool) → List A → Bool
  any p [] = false
  any p (x ∷ xs) = p x || any p xs

  -- the rows that pass are rewritten, the others stay
  abbrev pub update : (A → Bool) → (A → A) → List A → List A
  update p f [] = []
  update p f (x ∷ xs) = (if p x then f x else x) ∷ update p f xs

  abbrev pub count : (A → Bool) → List A → ℕ
  count p [] = 0
  count p (x ∷ xs) = (if p x then 1 else 0) + count p xs

module _ {ℓ} {A : Type ℓ} where
  pub length-append : (xs ys : List A) → length (xs ++ ys) ≡ length xs + length ys
  length-append [] ys = omega arith
  length-append (x ∷ xs) ys = omega (arith, length-append xs ys)

  pub length-take : (n : ℕ) (xs : List A) → length (take n xs) ≤ n
  length-take zero xs = omega arith
  length-take (suc n) [] = omega arith
  length-take (suc n) (x ∷ xs) = omega (arith, length-take n xs)

  pub All-take {κ} : (P : A → Type κ) (n : ℕ) (xs : List A) → All P xs → All P (take n xs)
  All-take P zero xs h = tt
  All-take P (suc n) [] h = tt
  All-take P (suc n) (x ∷ xs) h = (h.0, All-take P n xs h.1)

module _ {ℓ} {A : Type ℓ} (p : A → Bool) where
  pub count-append : (xs ys : List A) → count p (xs ++ ys) ≡ count p xs + count p ys
  count-append [] ys = omega arith
  count-append (x ∷ xs) ys = omega (arith, count-append xs ys)

  pub count-eq-zero_of_any : (xs : List A) → any p xs ≡ false → count p xs ≡ 0
  count-eq-zero_of_any [] h = refl
  count-eq-zero_of_any (x ∷ xs) h = ground (arith, count-eq-zero_of_any xs)

  pub find_passes : (xs : List A) (x : A) → find p xs ≡ some x → p x ≡ true
  find_passes [] x h = ground arith
  find_passes (y ∷ xs) x h = ground (arith, find_passes xs x)

  pub find-none_of_any : (xs : List A) → any p xs ≡ false → find p xs ≡ none
  find-none_of_any [] h = refl
  find-none_of_any (x ∷ xs) h = ground (arith, find-none_of_any xs)

  pub any-is_some-find : (xs : List A) → any p xs ≡ is_some (find p xs)
  any-is_some-find [] = refl
  any-is_some-find (x ∷ xs) = ground (arith, any-is_some-find xs)

  -- a row that is found by another test and passes
  pub any_of_find :
      (a : A → Bool) (xs : List A) (x : A) → find a xs ≡ some x → p x ≡ true → any p xs ≡ true
  any_of_find a [] x h px = ground arith
  any_of_find a (y ∷ xs) x h px = ground (arith, any_of_find a xs x)

  pub any-append : (xs ys : List A) → any p (xs ++ ys) ≡ (any p xs || any p ys)
  any-append [] ys = refl
  any-append (x ∷ xs) ys = ground (arith, any-append xs ys)

  pub find-append :
      (xs ys : List A) → find p (xs ++ ys) ≡ (if any p xs then find p xs else find p ys)
  find-append [] ys = refl
  find-append (x ∷ xs) ys = ground (arith, find-append xs ys)

  pub count-pos_of_find : (xs : List A) (x : A) → find p xs ≡ some x → 0 < count p xs
  count-pos_of_find [] x h = ground arith
  count-pos_of_find (y ∷ xs) x h = ground (arith, count-pos_of_find xs x)

  -- a row that is found by another test is counted if it passes
  pub count-pos_of_pass :
      (a : A → Bool) (xs : List A) (x : A) → find a xs ≡ some x → p x ≡ true → 0 < count p xs
  count-pos_of_pass a [] x h px = ground arith
  count-pos_of_pass a (y ∷ xs) x h px = ground (arith, count-pos_of_pass a xs x)

  pub All-select : (xs : List A) → All (λ x. p x ≡ true) (select p xs)
  All-select [] = tt
  All-select (x ∷ xs) = ground (arith, All-select xs)

module _ {ℓ} {A : Type ℓ} where
  -- An update that keeps what `p` reads changes the row that is found, and not which one it is.
  pub find-update :
      (p q : A → Bool) (f : A → A) (xs : List A)
      → ((x : A) → p (f x) ≡ p x)
      → find p (update q f xs) ≡ over (λ x. if q x then f x else x) (find p xs)
  find-update p q f [] h = refl
  find-update p q f (x ∷ xs) h = ground (arith, h x, find-update p q f xs h)

  pub count-update-le :
      (p q : A → Bool) (f : A → A) (xs : List A)
      → ((x : A) → p (f x) ≡ true → p x ≡ true)
      → count p (update q f xs) ≤ count p xs
  count-update-le p q f [] h = omega arith
  count-update-le p q f (x ∷ xs) h = ground (arith, h x, count-update-le p q f xs h)

  -- Two rows that are told apart by `a` and `b` are counted twice.
  pub count-two :
      (p a b : A → Bool) (xs : List A) (x y : A)
      → find a xs ≡ some x
      → find b xs ≡ some y
      → ((z : A) → a z ≡ true → b z ≡ false)
      → p x ≡ true
      → p y ≡ true
      → 2 ≤ count p xs
  count-two p a b [] x y fx fy ab px py = ground arith
  count-two p a b (z ∷ xs) x y fx fy ab px py =
      ground (
        arith,
        ab z,
        count-two p a b xs x y,
        count-pos_of_pass p a xs x,
        count-pos_of_pass p b xs y,
      )

-- `order by`: insertion sort by a Boolean order
module _ {ℓ} {A : Type ℓ} (le : A → A → Bool) where
  abbrev pub insert_by : A → List A → List A
  insert_by x [] = x ∷ []
  insert_by x (y ∷ ys) = if le x y then x ∷ y ∷ ys else y ∷ insert_by x ys

  abbrev pub sort : List A → List A
  sort [] = []
  sort (x ∷ xs) = insert_by x (sort xs)

  abbrev pub IsSorted : List A → Type 0
  IsSorted [] = Unit
  IsSorted (x ∷ []) = Unit
  IsSorted (x ∷ y ∷ ys) = (le x y ≡ true) × IsSorted (y ∷ ys)

module _ {ℓ} {A : Type ℓ} (le : A → A → Bool) where
  pub insert_by-perm : (x : A) (xs : List A) → Perm (insert_by le x xs) (x ∷ xs)
  insert_by-perm x [] = Perm.refl (x ∷ [])
  insert_by-perm x (y ∷ ys) = elim (Bool-cases (le x y)) [
    | inl e ↦ rw e (Perm.refl (x ∷ y ∷ ys))
    | inr e ↦ rw e (Perm.trans (Perm.cons y (insert_by-perm x ys)) (Perm.swap x y ys))
  ]

  pub sort-perm : (xs : List A) → Perm (sort le xs) xs
  sort-perm [] = Perm.nil
  sort-perm (x ∷ xs) = Perm.trans (insert_by-perm x (sort le xs)) (Perm.cons x (sort-perm xs))

  -- what the order must give
  module _ (total : (a b : A) → le a b ≡ false → le b a ≡ true) where
    insert_by-IsSorted : (x : A) (xs : List A) → IsSorted le xs → IsSorted le (insert_by le x xs)
    insert_by-IsSorted x [] h = tt
    insert_by-IsSorted x (y ∷ []) h = ground (arith, total x y)
    insert_by-IsSorted x (y ∷ z ∷ zs) h =
        ground (arith, total x y, total x z, insert_by-IsSorted x (z ∷ zs))

    pub sort-IsSorted : (xs : List A) → IsSorted le (sort le xs)
    sort-IsSorted [] = tt
    sort-IsSorted (x ∷ xs) = insert_by-IsSorted x (sort le xs) (sort-IsSorted xs)

  module _ {κ} (P : A → Type κ) where
    insert_by-All : (x : A) (xs : List A) → P x → All P xs → All P (insert_by le x xs)
    insert_by-All x [] px h = (px, tt)
    insert_by-All x (y ∷ ys) px h = ground (arith, insert_by-All x ys px)

    pub sort-All : (xs : List A) → All P xs → All P (sort le xs)
    sort-All [] h = tt
    sort-All (x ∷ xs) h = insert_by-All x (sort le xs) h.0 (sort-All xs h.1)
