-- ===== src/Cli/Confined.antt =====
-- About a whole session of `gptlink local`, src/gptlink/cli/main.py, with the runtime of
-- src/gptlink/local/runtime.py, the loop of src/gptlink/chat/orchestrator.py and the context of
-- src/gptlink/chat/prompt.py.
use gptlink.Cli.Session.{Options, Place, Terminal, local_command, permission_of}
use gptlink.Chat.Orchestrator.{ChatResponse, Rest}
use gptlink.Chat.Protocol.{ChatAction, ToolName}
use gptlink.Chat.Protocol.Blocks as Blocks
use gptlink.Chat.Prompt.{tools}
use gptlink.Chat.Prompt.Offered.{offered_lem}
use gptlink.Local.Runtime.{Config, Readers, Stamps, execute, mutates}
use gptlink.Local.Runtime.ReadOnly.{changes, execute_same}
use gptlink.Local.Approvals.{ApprovalDecision, ApprovalRequest, Session, is_granted}
use gptlink.Protocol.Messages.{Message}
use gptlink.Common.Json.{Json}
use gptlink.Common.Types.{PermissionLevel, is_read_only}
use gptlink.Common.Action.{Action}
use gptlink.Prelude.{
  Bool-cases, Chars, List, String, ap, false, fun_ext, inl, inr, not, refl, true, ℕ, ◌&&◌, ◌≡◌,
}

-- The tools that the prompt of a session offers are those that its policy does not forbid.
session_offers :
    (o : Options) (t : ToolName)
    → is_granted t (tools (permission_of o)) ≡ not (mutates t && is_read_only (permission_of o))
unfolding permission_of
session_offers o t = elim (Bool-cases o.write) [
  | inl h ↦ rw h (offered_lem t PermissionLevel.read_write (λ e. cc e))
  | inr h ↦ rw h (offered_lem t PermissionLevel.read_only (λ e. cc e))
]

-- what a session uses besides its runtime
pub record Chat (E : Type 0) : Type 0 where
  pub send_message : Chars → String → Action (Session E) ChatResponse
  pub read : Blocks.Readers
  pub dumps : Json → Chars
  pub digits : ℕ → Chars

-- the runtime of a session: `stamps` reads its clock and draws its request ids
abbrev pub rest_of :
    {E : Type 0}
    → Chat E
    → Readers
    → (ApprovalRequest → Action E ApprovalDecision)
    → (Message → Action E Message)
    → Config
    → (Session E → Stamps)
    → Rest (Session E)
rest_of chat read prompt dispatch c stamps = record {
  send_message = chat.send_message;
  execute = λ a i title w. execute read prompt dispatch c a i title (stamps w) w;
  read = chat.read;
  dumps = chat.dumps;
  digits = chat.digits;
}

module _ {E : Type 0} (terminal : Terminal (Session E)) (chat : Chat E) (read : Readers)
    (c : Config) (stamps : Session E → Stamps) (limit : ℕ) (place : Place) where
  -- Without --write a whole session (the choice of the conversation, the context, the first turn and all
  -- that are typed) has the same outcome and leaves the same state, whatever the operator would answer
  -- to a request for approval and whatever the Agent's dispatcher would do with a message that writes a
  -- file or starts a command: the operator is not asked and no such message is dispatched.
  pub read_only_session :
      (prompt prompt' : ApprovalRequest → Action E ApprovalDecision)
      (dispatch dispatch' : Message → Action E Message) (o : Options) (typed : List Chars)
      (w : Session E)
      → o.write ≡ false
      → c.permission ≡ permission_of o
      → ((m : Message) (t : E) → changes m.body ≡ false → dispatch m t ≡ dispatch' m t)
      → local_command terminal (rest_of chat read prompt dispatch c stamps) limit place o typed w
        ≡ local_command terminal
            (rest_of chat read prompt' dispatch' c stamps)
            limit
            place
            o
            typed
            w
  unfolding permission_of
  read_only_session prompt prompt' dispatch dispatch' o typed w h p agree =
      let quiet : is_read_only c.permission ≡ true = rw (p, h) refl in
      let same : ◌≡◌ {A = ChatAction → String → String → Action (Session E) Json}
          (λ a i title w. execute read prompt dispatch c a i title (stamps w) w)
          (λ a i title w. execute read prompt' dispatch' c a i title (stamps w) w) =
        fun_ext (λ a. fun_ext (λ i. fun_ext (λ title. fun_ext (λ w.
          execute_same read c prompt prompt' dispatch dispatch' a i title (stamps w) w quiet
            agree)))) in
      ap
        (λ (x : ChatAction → String → String → Action (Session E) Json).
          local_command terminal
            (record (rest_of chat read prompt dispatch c stamps) { execute = x }) limit place o
            typed w)
        same
