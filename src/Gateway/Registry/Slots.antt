-- ===== src/Gateway/Registry/Slots.antt =====
-- The list of current connections of src/gptlink/gateway/registry.py as a map.
use gptlink.Gateway.Registry.{
  Connection, Registry, Slot, close_connection, close_each, connection_at, is, is_current, is_that,
  of_device, put, retire, shut, shut_each,
}
use gptlink.Prelude.{
  Bool, Bool-cases, Chars_eq, List, Option, Option-cases, String_eq, [], any, any-is_some-find,
  arith, false, find, find-append, find-update, find_passes, if◌then◌else◌, inl, inr, none, not,
  over, refl, select, some, sym, true, update, ℕ, ℕ_eq, ◌&&◌, ◌==◌, ◌∙◌, ◌∷◌, ◌≡◌,
}

abbrev pub seen : ℕ → Slot → Slot
seen clock x = record x { last_seen = clock }

abbrev pub holds : Connection → Option Slot → Bool
holds c none = false
holds c (some x) = is x.connection c

module _ (d : ℕ) where
  pub select_other :
      (i : ℕ) (xs : List Slot)
      → find (of_device d) (select (λ x. not (of_device i x)) xs)
        ≡ (if d == i then none else find (of_device d) xs)
  select_other i [] = ground arith
  select_other i (x ∷ xs) = ground (arith, select_other i xs)

  update_put :
      (x : Slot) (xs : List Slot)
      → find (of_device d) (update (of_device x.connection.device_id) (λ y. x) xs) ≡ (
          if (d == x.connection.device_id) && any (of_device d) xs
          then some x
          else find (of_device d) xs)
  update_put x [] = ground arith
  update_put x (y ∷ ys) = ground (arith, update_put x ys)

  pub find-put :
      (x : Slot) (xs : List Slot)
      → find (of_device d) (put x xs)
        ≡ (if d == x.connection.device_id then some x else find (of_device d) xs)
  find-put x xs = elim (Bool-cases (d == x.connection.device_id)) [
    | inl e ↦
        let q : x.connection.device_id ≡ d = ground (arith, e) in
        ground (arith, e, q, find-append (of_device d) xs (x ∷ []), update_put x xs)
    | inr e ↦ ground (
      arith,
      e,
      find-append (of_device d) xs (x ∷ []),
      update_put x xs,
      any-is_some-find (of_device d) xs,
    )
  ]

pub close_each-connections :
    (code : ℕ) (xs : List Slot) (s : Registry) → (close_each code xs s).connections ≡ s.connections
unfolding close_each close_connection
close_each-connections code [] s = refl
close_each-connections code (x ∷ xs) s = close_each-connections code xs _

shut_one :
    (b : Bool) (d : ℕ) (x : Slot) (s : Registry)
    → find (of_device d) (shut b x.connection.device_id s).connections
      ≡ (if of_device d x then none else find (of_device d) s.connections)
unfolding shut retire
shut_one true d x s = ground (arith, select_other d x.connection.device_id s.connections)
shut_one false d x s = ground (arith, select_other d x.connection.device_id s.connections)

pub shut_view :
    (fails : ℕ → Bool) (d : ℕ) (xs : List Slot) (s : Registry)
    → find (of_device d) (shut_each fails xs s).connections
      ≡ (if any (of_device d) xs then none else find (of_device d) s.connections)
unfolding shut_each
shut_view fails d [] s = refl
shut_view fails d (x ∷ xs) s =
    shut_view fails d xs _ ∙ ground (arith, shut_one (fails x.connection.device_id) d x s)

pub touched_view :
    (c : Connection) (clock d : ℕ) (xs : List Slot)
    → is_that c (connection_at c.device_id xs) ≡ true
    → find (of_device d) (update (λ x. is x.connection c) (seen clock) xs) ≡ (
        if d == c.device_id
        then over (seen clock) (find (of_device d) xs)
        else find (of_device d) xs)
touched_view c clock d xs h = elim (Option-cases (find (of_device d) xs)) [
  | inl n ↦ rw (moved, n) (ground arith)
  | inr (x, n) ↦ elim (Bool-cases (d == c.device_id)) [
    | inl e ↦
        let q : d ≡ c.device_id = ground (arith, e) in
        rw (moved, n) (ground (arith, e, rw (sym q, n) at h))
    | inr e ↦ rw (moved, n) (ground (arith, e, find_passes (of_device d) xs x n))
  ]
]
  where
    moved :
        find (of_device d) (update (λ x. is x.connection c) (seen clock) xs)
        ≡ over (λ x. if is x.connection c then seen clock x else x) (find (of_device d) xs)
    moved = find-update (of_device d) (λ x. is x.connection c) (seen clock) xs (λ x. refl)

pub held_view :
    (c : Connection) (d : ℕ) (s : Registry)
    → find (of_device d) (if is_current c s then retire c.device_id s else s).connections ≡ (
        if holds c (find (of_device d) s.connections)
        then none
        else find (of_device d) s.connections)
unfolding retire
held_view c d s = elim (Option-cases (find (of_device d) s.connections)) [
  | inl n ↦ ground (arith, n, select_other d c.device_id s.connections)
  | inr (x, n) ↦ elim (Bool-cases (d == c.device_id)) [
    | inl e ↦
        let q : d ≡ c.device_id = ground (arith, e) in
        ground (arith, n, e, rw q at n, select_other d c.device_id s.connections)
    | inr e ↦ ground (
      arith,
      n,
      e,
      find_passes (of_device d) s.connections x n,
      select_other d c.device_id s.connections,
    )
  ]
]
