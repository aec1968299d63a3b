-- ===== src/Agent/Reconnect/Overflow.antt =====
-- About an outage that lasts, in src/gptlink/agent/client.py and src/gptlink/agent/reconnect.py.
use gptlink.Agent.Reconnect.{Backoff, Floats, Round, delay, is_retriable, run}
use gptlink.Common.Action.{err}
use gptlink.Common.Errors.{Exception, unexpected}
use gptlink.Prelude.{
  All, Bool, Bool-cases, List, String, [], ap, arith, false, if◌then◌else◌, inl, inr, leb, length,
  ltb, none, refl, some, suc, true, ℕ, ◌+◌, ◌<◌, ◌^◌, ◌∙◌, ◌∷◌, ◌≡◌, ◌≤◌,
}

module _ (f : Floats) (subclass : String → String → Bool) where
  -- a connection that was lost or never made, while nothing stops the Agent
  abbrev pub IsLost : Round f → Type 0
  IsLost r =
      (e : Exception) × (r.outcome ≡ err e)
      × (is_retriable subclass e ≡ true)
      × (r.stopping ≡ false)
      × (r.stopped ≡ false)

module _ (f : Floats) where
  -- What Python documents: an integer of 1024 bits or less becomes a finite number, a larger power of
  -- two overflows.
  pub record IsDouble : Type 0 where
    pub fits : (n : ℕ) → n < 1024 → (x : f.Float) × (f.of_ℕ (2 ^ n) ≡ some x)
    pub overflows : (n : ℕ) → 1024 ≤ n → f.of_ℕ (2 ^ n) ≡ none

module _ (f : Floats) (double : IsDouble f) (b : Backoff f) where
  open double use {fits, overflows}

  fitting :
      (attempt : ℕ) (sample : f.Float)
      → attempt < 1024
      → (x : f.Float) × (delay f b attempt sample ≡ some x)
  unfolding delay
  fitting attempt sample h = let (p, e) = fits attempt h in rw e (_, refl)

  too_large : (attempt : ℕ) (sample : f.Float) → 1024 ≤ attempt → delay f b attempt sample ≡ none
  unfolding delay
  too_large attempt sample h = rw (overflows attempt h) refl

  module _ (subclass : String → String → Bool) where
    run_from :
        (attempt : ℕ) (rounds : List (Round f))
        → attempt ≤ 1024
        → All (IsLost f subclass) rounds
        → run f subclass b attempt rounds ≡ (
            if leb (attempt + length rounds) 1024
            then none
            else some (err (unexpected "OverflowError")))
    unfolding run
    run_from attempt [] h l =
        let fine : leb (attempt + 0) 1024 ≡ true = ground (arith, h) in rw fine refl
    run_from attempt (r ∷ rounds) h l =
        let (e, o, retried, going, still) = l.0 in
        elim (Bool-cases (ltb attempt 1024)) [
          | inl small ↦
              let (x, d) = fitting attempt r.sample (ground (arith, small)) in
              let same : leb (attempt + suc (length rounds)) 1024
                  ≡ leb (attempt + 1 + length rounds) 1024 =
                ground arith in
              rw (o, retried, going, d, still, same)
                (run_from (attempt + 1) rounds (ground (arith, small)) l.1)
          | inr large ↦
              let over_it : leb (attempt + suc (length rounds)) 1024 ≡ false =
                ground (arith, large) in
              rw (o, retried, going, too_large attempt r.sample (ground (arith, large)), over_it)
                refl
        ]

    -- An outage, in which every connection ends in an exception of one of the four classes that are
    -- retried or of a subclass of these, such as ConnectionClosed, however long it lasted before: through
    -- 1024 of them the Agent goes on, and the next one ends it with an OverflowError, since the number of
    -- attempts is not reset while it runs.
    pub outage_ends_agent :
        (rounds : List (Round f))
        → All (IsLost f subclass) rounds
        → run f subclass b 0 rounds
          ≡ (if leb (length rounds) 1024 then none else some (err (unexpected "OverflowError")))
    outage_ends_agent rounds l =
        let same : leb (0 + length rounds) 1024 ≡ leb (length rounds) 1024 = ground arith in
        run_from 0 rounds (omega arith) l
        ∙ ap (λ t. if t then none else some (err (unexpected "OverflowError"))) same
