-- ===== src/Agent/Reconnect.antt =====
-- `Backoff` of src/gptlink/agent/reconnect.py and `AgentClient.run` of src/gptlink/agent/client.py.
-- Floating-point numbers and the hierarchy of exceptions are parameters; a connection is what became of it.
pub mod Overflow
mod Tests
use gptlink.Common.Action.{Outcome, err, ok}
use gptlink.Common.Errors.{Exception, type_name, unexpected}
use gptlink.Prelude.{
  Bool, List, Option, String, [], false, if◌then◌else◌, none, over, some, true, ℕ, ◌+◌, ◌^◌, ◌||◌,
  ◌∷◌,
}

-- the numbers of the delays: `of_ℕ` is none where the conversion raises OverflowError
pub record Floats : Type 1 where
  pub Float : Type 0
  pub of_ℕ : ℕ → Option Float
  pub one : Float
  pub plus : Float → Float → Float
  pub minus : Float → Float → Float
  pub times : Float → Float → Float
  pub smaller : Float → Float → Float
  pub is_zero : Float → Bool

-- except (OSError, TimeoutError, ConnectionError, WebSocketException): `subclass` is issubclass on the
-- names of the classes of Python and of its packages
abbrev pub is_retriable : (String → String → Bool) → Exception → Bool
is_retriable subclass e =
    let n = type_name e in
    subclass n "OSError"
    || subclass n "TimeoutError"
    || subclass n "ConnectionError"
    || subclass n "WebSocketException"

module _ (f : Floats) where
  open f use {Float, of_ℕ, one, plus, minus, times, smaller, is_zero}

  pub record Backoff : Type 0 where
    pub base : Float
    pub cap : Float
    pub jitter : Float

  -- value * (1 - jitter + 2 * jitter * sample), in the order of its operations
  abbrev spread : Backoff → Float → Float → Float
  spread b value sample =
      if is_zero b.jitter
      then value
      else smaller b.cap
          (times value (plus (minus one b.jitter) (times (times (plus one one) b.jitter) sample)))

  -- Backoff.delay; an attempt is not negative. `none` is an OverflowError.
  unfoldable pub delay : Backoff → ℕ → Float → Option Float
  delay b attempt sample =
      over (λ power. spread b (smaller b.cap (times b.base power)) sample) (of_ℕ (2 ^ attempt))

  -- what became of a connection, whether the Agent is stopping when that is handled and when the wait
  -- is over, and the random sample of the wait
  pub record Round : Type 0 where
    pub outcome : Outcome {0} Unit
    pub stopping : Bool
    pub stopped : Bool
    pub sample : Float

  module _ (subclass : String → String → Bool) where
    -- the rest of the loop goes on unless the Agent has stopped
    abbrev unless_stopped : Bool → Option (Outcome {0} Unit) → Option (Outcome {0} Unit)
    unless_stopped true rest = some (ok tt)
    unless_stopped false rest = rest

    abbrev waited : Option Float → Option (Outcome {0} Unit) → Option (Outcome {0} Unit)
    waited none rest = some (err (unexpected "OverflowError"))
    waited (some t) rest = rest

    -- the handler of a failed connection
    abbrev handled :
        Backoff → ℕ → Round → Exception → Option (Outcome {0} Unit) → Option (Outcome {0} Unit)
    handled b attempt r e rest =
        if is_retriable subclass e
        then if r.stopping
          then some (ok tt)
          else waited (delay b attempt r.sample) (unless_stopped r.stopped rest)
        else some (err e)

    abbrev next_attempt : Outcome {0} Unit → ℕ → ℕ
    next_attempt (ok u) attempt = 0
    next_attempt (err e) attempt = attempt + 1

    abbrev went :
        Backoff
        → ℕ
        → Round
        → Outcome {0} Unit
        → Option (Outcome {0} Unit)
        → Option (Outcome {0} Unit)
    went b attempt r (ok u) rest = unless_stopped r.stopped rest
    went b attempt r (err e) rest = handled b attempt r e rest

    -- the loop of `run`, for the connections so far; `none` is an Agent that is still running
    unfoldable pub run : Backoff → ℕ → List Round → Option (Outcome {0} Unit)
    run b attempt [] = none
    run b attempt (r ∷ rounds) =
        went b attempt r r.outcome (run b (next_attempt r.outcome attempt) rounds)
