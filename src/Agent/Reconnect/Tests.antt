-- ===== src/Agent/Reconnect/Tests.antt =====
-- An outage of three connections, for src/gptlink/agent/reconnect.py and
-- src/gptlink/agent/client.py, over whole numbers as the floating-point ones.
use native.Mathlib.Nat.{pow-le-pow_right, one-le-pow, two-pow-succ}
use gptlink.Agent.Client.{hung_up, receive}
use gptlink.Agent.Reconnect.{Backoff, Floats, Round, run}
use gptlink.Agent.Reconnect.Overflow.{IsDouble, IsLost, outage_ends_agent}
use gptlink.Common.Action.{err}
use gptlink.Common.Errors.{Exception, os_error, timeout_error, unexpected}
use gptlink.Prelude.{
  All, Bool, Chars_eq, List, String, String_eq, [], arith, eqb, false, if◌then◌else◌, leb, length,
  none, refl, some, suc, true, ℕ, ℕ_eq, ◌&&◌, ◌*◌, ◌+◌, ◌-◌, ◌<◌, ◌==◌, ◌^◌, ◌||◌, ◌∷◌, ◌≡◌, ◌≤◌,
}

-- opened by no tactic: the largest power of two that is converted
limit : ℕ
limit = 2 ^ 1023

abbrev whole : Floats
whole = record {
  Float = ℕ;
  of_ℕ = λ n. if leb n limit then some n else none;
  one = 1;
  plus = λ a b. a + b;
  minus = λ a b. a - b;
  times = λ a b. a * b;
  smaller = λ a b. if leb a b then a else b;
  is_zero = λ a. eqb a 0;
}

passes : (a b : ℕ) → a ≤ b → leb a b ≡ true
passes a b h = ground arith

fails : (a b : ℕ) → b + b ≤ a → 1 ≤ b → leb a b ≡ false
fails a b h k = ground arith

below_limit : (n : ℕ) → n < 1024 → leb (2 ^ n) limit ≡ true
unfolding limit
below_limit n h =
    passes (2 ^ n) (2 ^ 1023)
      (pow-le-pow_right {n = 2} (omega arith) {i = n} {j = 1023} (omega arith))

above_limit : (n : ℕ) → 1024 ≤ n → leb (2 ^ n) limit ≡ false
unfolding limit
above_limit n h =
    fails (2 ^ n) (2 ^ 1023)
      (rw (two-pow-succ 1023) at
        (pow-le-pow_right {n = 2} (omega arith) {i = suc 1023} {j = n} (omega arith)))
      (one-le-pow 1023 2 (omega arith))

whole_double : IsDouble whole
whole_double = record {
  fits = λ n h. rw (below_limit n h) (2 ^ n, refl);
  overflows = λ n h. rw (above_limit n h) refl;
}

abbrev backoff : Backoff whole
backoff = record { base = 1; cap = 30; jitter = 0 }

-- of Python and of the websocket library
abbrev subclass : String → String → Bool
subclass n m = n == m || (n == "ConnectionClosed" && m == "WebSocketException")

abbrev ended_by : Exception → Round whole
ended_by e = record { outcome = err e; stopping = false; stopped = false; sample = 0 }

-- a connection that was made and lost, one that was not made in time, and one that was refused
abbrev outage : List (Round whole)
outage = ended_by (unexpected "ConnectionClosed") ∷ ended_by timeout_error ∷ ended_by os_error ∷ []

-- what `_receive_text` raises once the Gateway has hung up
hung_up_raises : receive (λ s. none) hung_up ≡ err (unexpected "ConnectionClosed")
unfolding receive
hung_up_raises = refl

outage-IsLost : All (IsLost whole subclass) outage
outage-IsLost = (
  (unexpected "ConnectionClosed", refl, refl, refl, refl),
  ((timeout_error, refl, refl, refl, refl), ((os_error, refl, refl, refl, refl), tt)),
)

outage_ends_agent_example :
    run whole subclass backoff 0 outage
    ≡ (if leb (length outage) 1024 then none else some (err (unexpected "OverflowError")))
outage_ends_agent_example =
    outage_ends_agent whole whole_double backoff subclass outage outage-IsLost
