-- ===== src/Chat/Orchestrator/Logged.antt =====
-- The state of src/gptlink/chat/orchestrator.py with a log of the actions that the runtime was given.
use gptlink.Chat.Orchestrator.{Rest, is_seen}
use gptlink.Prelude.{Chars, List, [], false, inl, inr, length, true, ℕ, ◌∷◌, ◌≡◌, ◌≤◌}
use gptlink.Common.Action.{Action, Outcome-cases, ◌>>=◌}

-- the state with the ids of the actions that were given to the runtime
pub record Logged (E : Type 0) : Type 0 where
  pub env : E
  pub log : List Chars

abbrev pub Distinct : List Chars → Type 0
Distinct [] = Unit
Distinct (x ∷ xs) = (is_seen x xs ≡ false) × Distinct xs

-- no id twice, and at most `k` ids
abbrev pub Fine : ℕ → List Chars → Type 0
Fine k log = Distinct log × (length log ≤ k)

abbrev pub Included : List Chars → List Chars → Type 0
Included log seen = (i : Chars) → is_seen i log ≡ true → is_seen i seen ≡ true

module _ {E : Type 0} where
  unfoldable pub on_rest : {A : Type 0} → Action E A → Action (Logged E) A
  on_rest m w = let (r, e) = m w.env in (r, record w { env = e })

  -- the same program, with each call of `execute` logged
  unfoldable pub logging : Rest E → Rest (Logged E)
  logging rest = record {
    send_message = λ m c. on_rest (rest.send_message m c);
    execute = λ a c t w. on_rest (rest.execute a c t) (record w { log = a.id ∷ w.log });
    read = rest.read;
    dumps = rest.dumps;
    digits = rest.digits;
  }

  -- an action on the logged state ends well if its first part does, and the rest does from there
  pub bind_ends :
      {A B : Type 0} (P : Logged E → Type 0) (m : Action (Logged E) A) (f : A → Action (Logged E) B)
      (w : Logged E)
      → P (m w).1
      → ((a : A) → P (f a (m w).1).1)
      → P ((m >>= f) w).1
  unfolding ◌>>=◌
  bind_ends P m f w h k = elim (Outcome-cases (m w).0) as (λ _. P ((m >>= f) w).1) [
    | inl (a, e) ↦ rw e (k a)
    | inr (x, e) ↦ rw e h
  ]
