-- ===== src/Local/Runtime/Gate.antt =====
-- About the policy in `LocalRuntime.execute`, of src/gptlink/local/runtime.py.
use gptlink.Chat.Protocol.{ChatAction}
use gptlink.Local.Runtime.{Config, Readers, Stamps, attempt, authorize, execute, message, mutates}
use gptlink.Protocol.Messages.{Message}
use gptlink.Local.Approvals.{ApprovalDecision, ApprovalRequest, Session}
use gptlink.Common.Types.{is_read_only}
use gptlink.Prelude.{String, inl, inr, true, ◌≡◌}
use gptlink.Common.Action.{Action, Outcome-cases, err, ◌>>=◌}
use gptlink.Common.Errors.{Exception}

module _ {E : Type 0} (read : Readers) (c : Config) (a : ChatAction) where
  -- Under READ_ONLY an action that writes a file or starts a command has the same outcome, and leaves
  -- the same state, whatever the operator would answer and the dispatcher would do: neither is asked.
  pub read_only_inert :
      (prompt prompt' : ApprovalRequest → Action E ApprovalDecision)
      (dispatch dispatch' : Message → Action E Message) (conversation_id title : String)
      (now : Stamps) (w : Session E)
      → mutates a.tool ≡ true
      → is_read_only c.permission ≡ true
      → execute read prompt dispatch c a conversation_id title now w
        ≡ execute read prompt' dispatch' c a conversation_id title now w
  unfolding execute attempt authorize ◌>>=◌
  read_only_inert prompt prompt' dispatch dispatch' conversation_id title now w m r =
      elim (Outcome-cases (message read c now.request_id a))
        as (λ _.
          execute read prompt dispatch c a conversation_id title now w
          ≡ execute read prompt' dispatch' c a conversation_id title now w) [
            | inl (x, e) ↦ rw (e, m, r)
            | inr (x, e) ↦ rw e
          ]

  -- An action that is not authorized, for its policy or the operator's answer, has the same outcome,
  -- and leaves the same state, whatever the dispatcher would do: it is not reached.
  pub unauthorized_inert :
      (prompt : ApprovalRequest → Action E ApprovalDecision)
      (dispatch dispatch' : Message → Action E Message) (conversation_id title : String)
      (now : Stamps) (w : Session E) (e : Exception)
      → (authorize read prompt dispatch c a title w).0 ≡ err e
      → execute read prompt dispatch c a conversation_id title now w
        ≡ execute read prompt dispatch' c a conversation_id title now w
  unfolding execute attempt authorize ◌>>=◌
  unauthorized_inert prompt dispatch dispatch' conversation_id title now w x h =
      elim (Outcome-cases (message read c now.request_id a))
        as (λ _.
          execute read prompt dispatch c a conversation_id title now w
          ≡ execute read prompt dispatch' c a conversation_id title now w) [
            | inl (y, e) ↦ rw (e, h)
            | inr (y, e) ↦ rw e
          ]
