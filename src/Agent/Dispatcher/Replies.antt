-- ===== src/Agent/Dispatcher/Replies.antt =====
-- About the replies of src/gptlink/agent/dispatcher.py, and what the Gateway does with them.
use gptlink.Gateway.Registry.Requests.{deliver, entry_at, reply, resolve}
use gptlink.Agent.Paths.{FilePath}
use gptlink.Agent.Dispatcher.{Services, answered, dispatch, execute}
use gptlink.Gateway.Registry.{Connection, Entry, Future, Registry, failed, is, is_waiting, result}
use gptlink.Protocol.Messages.{Message, is_valid, is_valid_body}
use gptlink.Common.Json.{Json}
use gptlink.Common.Action.{Outcome, Outcome-cases, err, ok}
use gptlink.Common.Errors.{remote_operation_error}
use gptlink.Prelude.{Chars, String, arith, inl, inr, refl, some, true, ℕ, ◌≡◌}

-- what the Gateway learns of an operation: its result, or only that it failed
abbrev pub learned : Outcome Json → Future
learned (ok v) = result v
learned (err e) = failed (remote_operation_error "operation_failed")

module _ (path_text : FilePath → String) (uuid_text isoformat : ℕ → String)
    (chars_text : Chars → String) where
  module _ {S : Type 0} (services : Services S) (m : Message) (s : S) where
    abbrev pub executed : Outcome Json × S
    executed =
        execute path_text uuid_text isoformat chars_text services m.device_id m.request_id m.body s

    abbrev pub replied : Message × S
    replied = dispatch path_text uuid_text isoformat chars_text services m s

    -- The Agent replies to every message, in the state that the operation left, with a valid message
    -- under its request id. Where the connection has a pending item with this request id whose future
    -- waits, the Gateway's resolve gives that future the operation's result, or for any exception
    -- whatever the same failure without its text.
    pub reply_lem :
        (c : Connection) (g : Registry) (e : Entry)
        → entry_at c.device_id m.request_id g.pending ≡ some e
        → is e.owner c ≡ true
        → is_waiting (g.futures e.future) ≡ true
        → (replied.1 ≡ executed.1)
          × (replied.0.request_id ≡ m.request_id)
          × (replied.0.device_id ≡ m.device_id)
          × (is_valid replied.0 ≡ true)
          × ((resolve c replied.0 g).0 ≡ ok true)
          × ((resolve c replied.0 g).1.futures e.future ≡ learned executed.0)
    unfolding dispatch answered resolve reply deliver is_valid is_valid_body
    reply_lem c g e found mine on = elim (Outcome-cases executed.0) [
      | inl (v, h) ↦ rw h (refl, refl, refl, refl, refl, rw (found, mine, on) (ground arith))
      | inr (x, h) ↦ rw h (refl, refl, refl, refl, refl, rw (found, mine, on) (ground arith))
    ]
