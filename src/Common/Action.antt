-- ===== src/Common/Action.antt =====
-- Code that changes a state and may raise: the state comes back beside the exception too, so what
-- was written before a raise stays written, unless a transaction rolls it back.
pub mod Keeps
use gptlink.Prelude.{Bool, false, inl, inr, refl, true, ◌≡◌, ◌⊎◌}
use gptlink.Common.Errors.{Exception}

pub data Outcome {ℓ} (A : Type ℓ) : Type ℓ where
  ok : A → Outcome A
  err : Exception → Outcome A

abbrev pub Action {ℓ} : Type ℓ → Type ℓ → Type ℓ
Action S A = S → Outcome A × S

abbrev pub is_ok {ℓ} : {A : Type ℓ} → Outcome A → Bool
is_ok (ok a) = true
is_ok (err e) = false

module _ {ℓ} {S A : Type ℓ} where
  unfoldable pub pure : A → Action S A
  pure a s = (ok a, s)

  unfoldable pub raise : Exception → Action S A
  raise e s = (err e, s)

  unfoldable pub gets : (S → A) → Action S A
  gets f s = (ok (f s), s)

  abbrev pub lift : Outcome A → Action S A
  lift r s = (r, s)

  -- if not test: raise e
  unfoldable pub guarded : Bool → Exception → Action S A → Action S A
  guarded true e m s = m s
  guarded false e m s = (err e, s)

  abbrev recover : Outcome A → (Exception → Action S A) → Action S A
  recover (ok a) handler s = (ok a, s)
  recover (err e) handler s = handler e s

  -- try: m  except: handler, in the state that `m` left
  unfoldable pub catch : Action S A → (Exception → Action S A) → Action S A
  catch m handler s = let (r, s') = m s in recover r handler s'

  abbrev settle : Outcome A → S → Action S A
  settle (ok a) old s = (ok a, s)
  settle (err e) old s = (err e, old)

  -- commit on success, roll back on an exception
  unfoldable pub transaction : Action S A → Action S A
  transaction m s = let (r, s') = m s in settle r s s'

module _ {ℓ} {S A B : Type ℓ} where
  abbrev continue : Outcome A → (A → Action S B) → Action S B
  continue (ok a) f s = f a s
  continue (err e) f s = (err e, s)

  infixl 5 ◌>>=◌ ◌>>◌
  -- opening this opens the other combinators too
  unfoldable pub ◌>>=◌ : Action S A → (A → Action S B) → Action S B
  unfolding pure raise gets guarded catch transaction
  ◌>>=◌ m f s = let (r, s') = m s in continue r f s'

  abbrev pub ◌>>◌ : Action S A → Action S B → Action S B
  m >> n = m >>= λ _. n

pub Outcome-cases {ℓ} :
    {A : Type ℓ} (r : Outcome A) → ((a : A) × (r ≡ ok a)) ⊎ ((e : Exception) × (r ≡ err e))
Outcome-cases (ok a) = inl (a, refl)
Outcome-cases (err e) = inr (e, refl)
