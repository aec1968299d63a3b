-- ===== src/Common/Action/Keeps.antt =====
-- Invariants of actions, one rule for each combinator.
use gptlink.Prelude.{Bool, false, if◌then◌else◌, refl, true, ◌≡◌}
use gptlink.Common.Errors.{Exception}
use gptlink.Common.Action.{
  Action, Outcome, catch, continue, err, gets, guarded, ok, pure, raise, recover, settle,
  transaction, ◌>>=◌,
}

-- `m` keeps `P`, whether it returns or raises.
pub record Keeps {ℓ κ} {S A : Type ℓ} (P : S → Type κ) (m : Action S A) : Type (ℓ ⊔ κ) where
  pub after : (s : S) → P s → P (m s).1

module _ {ℓ κ} {S A : Type ℓ} (P : S → Type κ) where
  settle-keeps : (r : Outcome A) (old s : S) → P old → P s → P (settle r old s).1
  settle-keeps (ok a) old s p q = q
  settle-keeps (err e) old s p q = p

module _ {ℓ κ} {S A : Type ℓ} {P : S → Type κ} where
  pub Keeps-gets : (read : S → A) → Keeps P (gets read)
  unfolding gets
  Keeps-gets read = record { after = λ t good. good }

  pub Keeps-raise : (error : Exception) → Keeps P (raise {A = A} error)
  unfolding raise
  Keeps-raise error = record { after = λ t good. good }

  pub Keeps-pure : (value : A) → Keeps P (pure value)
  unfolding pure
  Keeps-pure value = record { after = λ t good. good }

  -- the guarded action may use the test
  pub Keeps-guarded :
      (test : Bool) (error : Exception) (body : Action S A)
      → (test ≡ true → Keeps P body)
      → Keeps P (guarded test error body)
  unfolding guarded
  Keeps-guarded true error body kept = record { after = (kept refl).after }
  Keeps-guarded false error body kept = record { after = λ t good. good }

  pub Keeps-if :
      (test : Bool) (here there : Action S A)
      → (test ≡ true → Keeps P here)
      → (test ≡ false → Keeps P there)
      → Keeps P (if test then here else there)
  Keeps-if true here there kept_here kept_there = kept_here refl
  Keeps-if false here there kept_here kept_there = kept_there refl

  recover-keeps :
      (r : Outcome A) (handler : Exception → Action S A) (s : S)
      → ((e : Exception) → Keeps P (handler e))
      → P s
      → P (recover r handler s).1
  recover-keeps (ok a) handler s h p = p
  recover-keeps (err e) handler s h p = (h e).after s p

  pub Keeps-catch :
      (m : Action S A) (handler : Exception → Action S A)
      → Keeps P m
      → ((e : Exception) → Keeps P (handler e))
      → Keeps P (catch m handler)
  unfolding catch
  Keeps-catch m handler kept kh = record {
    after = λ t good. let (r, s') = m t in recover-keeps r handler s' kh (kept.after t good);
  }

  pub Keeps-transaction : (m : Action S A) → Keeps P m → Keeps P (transaction m)
  unfolding transaction
  Keeps-transaction m kept = record {
    after = λ t good. let (r, s') = m t in settle-keeps P r t s' good (kept.after t good);
  }

module _ {ℓ κ} {S A B : Type ℓ} {P : S → Type κ} where
  continue-keeps :
      (r : Outcome A) (f : A → Action S B) (s : S)
      → ((a : A) → Keeps P (f a))
      → P s
      → P (continue r f s).1
  continue-keeps (ok a) f s h p = (h a).after s p
  continue-keeps (err e) f s h p = p

  pub Keeps-bind :
      (first : Action S A) (next : A → Action S B)
      → Keeps P first
      → ((value : A) → Keeps P (next value))
      → Keeps P (first >>= next)
  unfolding ◌>>=◌
  Keeps-bind first next kept kept_next = record {
    after =
        λ t good. let (r, t') = first t in continue-keeps r next t' kept_next (kept.after t good);
  }

pub ruleset keeps_rules = (
  Keeps-pure, Keeps-raise, Keeps-gets, Keeps-guarded, Keeps-if, Keeps-catch, Keeps-transaction,
  Keeps-bind,
)
