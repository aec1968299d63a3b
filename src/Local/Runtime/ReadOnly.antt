-- ===== src/Local/Runtime/ReadOnly.antt =====
-- About a runtime under READ_ONLY, in src/gptlink/local/runtime.py: what reaches the dispatcher.
use gptlink.Local.Runtime.{
  Config, Readers, Stamps, attempt, authorize, body, execute, id_or, message, mutates, resolve,
}
use gptlink.Chat.Protocol.{
  ActionArguments, ChatAction, ToolName, command_cancel, command_cancel_arguments, command_output,
  command_output_arguments, command_start, command_status, empty_arguments, filesystem_list,
  filesystem_read, filesystem_search, filesystem_write, git_diff, git_diff_arguments, git_status,
  job_arguments, path_arguments, process_list, search_arguments,
}
use gptlink.Common.Types.{is_read_only}
use gptlink.Local.Runtime.Gate.{read_only_inert}
use gptlink.Local.Approvals.{ApprovalDecision, ApprovalRequest, Session}
use gptlink.Protocol.Messages.{Body, Message}
use gptlink.Protocol.Messages as Messages
use gptlink.Common.Action.{Action, Outcome-cases, guarded, ok, pure, raise, ◌>>=◌}
use gptlink.Prelude.{
  Bool, Bool-cases, String, arith, false, fun_ext, inl, inr, refl, sym, true, ℕ, ◌≡◌,
}

-- a message that writes a file or starts a command
abbrev pub changes : Body → Bool
changes (Messages.filesystem_write p) = true
changes (Messages.command_start p) = true
changes _ = false

bound_body :
    {A : Type 0} (m : Action Unit A) (made : A → Body) (s : Unit {0}) (b : Body)
    → ((m >>= λ x. pure (made x)) s).0 ≡ ok b
    → ((x : A) → changes (made x) ≡ false)
    → changes b ≡ false
unfolding ◌>>=◌ pure
bound_body m made s b h k = elim (Outcome-cases (m s).0) [
  | inl (x, e) ↦ let same : made x ≡ b = ground (arith, (rw e at h)) in rw (sym same) (k x)
  | inr (x, e) ↦ cc (rw e at h)
]

module _ (read : Readers) (c : Config) where
  body_lem :
      (tool : ToolName) (arguments : ActionArguments) (s : Unit {0}) (b : Body)
      → (body read c tool arguments s).0 ≡ ok b
      → mutates tool ≡ false
      → changes b ≡ false
  unfolding body pure raise id_or
  body_lem filesystem_list (path_arguments p) s b h m =
      bound_body (resolve read c p true) _ s b h (λ x. refl)
  body_lem filesystem_read (path_arguments p) s b h m =
      bound_body (resolve read c p true) _ s b h (λ x. refl)
  body_lem filesystem_search (search_arguments p q) s b h m =
      bound_body (resolve read c p true) _ s b h (λ x. refl)
  body_lem git_status (path_arguments p) s b h m =
      bound_body (resolve read c p true) _ s b h (λ x. refl)
  body_lem git_diff (git_diff_arguments p r) s b h m =
      bound_body (resolve read c p true) _ s b h (λ x. refl)
  body_lem process_list empty_arguments s b h m =
      let same : Messages.process_list ≡ b = ground (arith, h) in rw (sym same) refl
  body_lem command_status (job_arguments j) s b h m =
      bound_body (id_or (read.uuid_of j)) _ s b h (λ x. refl)
  body_lem command_output (command_output_arguments j n) s b h m =
      bound_body (id_or (read.uuid_of j)) _ s b h (λ x. refl)
  body_lem command_cancel (command_cancel_arguments j r) s b h m =
      bound_body (id_or (read.uuid_of j)) _ s b h (λ x. refl)
  body_lem filesystem_write a s b h m = cc m
  body_lem command_start a s b h m = cc m
  body_lem _ _ s b h m = cc h

  message_lem :
      (request_id : ℕ) (a : ChatAction) (m : Message)
      → message read c request_id a ≡ ok m
      → mutates a.tool ≡ false
      → changes m.body ≡ false
  unfolding message ◌>>=◌ pure
  message_lem request_id a m h k = elim (Outcome-cases (body read c a.tool a.arguments tt).0) [
    | inl (b, e) ↦
        let same : m.body ≡ b = ground (arith, (rw (e, message) at h)) in
        rw same (body_lem a.tool a.arguments tt b e k)
    | inr (x, e) ↦ cc (rw (e, message) at h)
  ]

  -- Under READ_ONLY an action has the same outcome, and leaves the same state, whatever the operator
  -- would answer and whatever the dispatcher would do with a message that writes a file or starts a
  -- command.
  pub execute_same :
      {E : Type 0} (prompt prompt' : ApprovalRequest → Action E ApprovalDecision)
      (dispatch dispatch' : Message → Action E Message) (a : ChatAction)
      (conversation_id title : String) (now : Stamps) (w : Session E)
      → is_read_only c.permission ≡ true
      → ((m : Message) (t : E) → changes m.body ≡ false → dispatch m t ≡ dispatch' m t)
      → execute read prompt dispatch c a conversation_id title now w
        ≡ execute read prompt' dispatch' c a conversation_id title now w
  unfolding execute attempt authorize ◌>>=◌ pure guarded
  execute_same prompt prompt' dispatch dispatch' a conversation_id title now w r agree =
      elim (Bool-cases (mutates a.tool)) [
        | inl m ↦
            read_only_inert read c a prompt prompt' dispatch dispatch' conversation_id title now w m
              r
        | inr m ↦
            elim (Outcome-cases (message read c now.request_id a))
              as (λ _.
                execute read prompt dispatch c a conversation_id title now w
                ≡ execute read prompt' dispatch' c a conversation_id title now w) [
                  | inr (x, e) ↦ rw e refl
                  | inl (x, e) ↦
                      rw (e, m, fun_ext (λ t. agree x t (message_lem now.request_id a x e m))) refl
                ]
      ]
