-- ===== src/Cli/Session.antt =====
-- `gptlink local` of src/gptlink/cli/main.py: the options, the choice of a conversation and the
-- session. What is echoed is left out; what the operator types is a parameter.
use gptlink.Chat.Web2api.{Conversation, ConversationHistory}
use gptlink.Chat.Orchestrator.{ChatResponse, Rest, run_turn}
use gptlink.Chat.Prompt.{build_session_prompt, collect}
use gptlink.Cli.{bad_parameter}
use gptlink.Common.Types.{Capability_eq, PermissionLevel}
use gptlink.Common.Action.{Action, catch, guarded, pure, raise, ◌>>=◌, ◌>>◌}
use gptlink.Common.Errors.{Exception, capability_unavailable, type_name, unexpected}
use gptlink.Prelude.{
  Bool, Chars, Chars_eq, List, Option, String, String_eq, [], codes, false, if◌then◌else◌,
  lower_char, map, none, not, pos, some, strip, suc, true, zero, ℕ, ℕ_eq, ℤ, ◌&&◌, ◌==◌, ◌||◌, ◌∷◌,
}

-- raise typer.Exit(code)
abbrev pub exit_error : Exception
exit_error = unexpected "Exit"

pub record Options : Type 0 where
  pub chat : Bool
  pub conversation : Option String
  pub read_only : Bool
  pub write : Bool
  pub chat_backend : String

abbrev pub options_allowed : Options → Bool
options_allowed o = o.chat && not (o.read_only && o.write) && o.chat_backend == "web2api"

unfoldable pub permission_of : Options → PermissionLevel
permission_of o = if o.write then PermissionLevel.read_write else PermissionLevel.read_only

-- the backend, the prompts, and `str(UUID(text))`
pub record Terminal (S : Type 0) : Type 0 where
  pub health : Action S Bool
  pub get_conversation : String → Action S ConversationHistory
  pub list_conversations : Action S (List Conversation)
  pub ask_uuid : Action S String
  pub ask_number : Action S ℤ
  pub uuid_text : String → Option String

abbrev pub by_id : String → Conversation
by_id i = record { id = i; title = i }

abbrev pub nth : ℕ → List Conversation → Option Conversation
nth n [] = none
nth zero (c ∷ cs) = some c
nth (suc n) (c ∷ cs) = nth n cs

-- conversations[choice - 1], after the test of the range
abbrev pub chosen : ℤ → List Conversation → Option Conversation
chosen (pos (suc n)) cs = nth n cs
chosen _ cs = none

module _ {S : Type 0} (terminal : Terminal S) where
  abbrev or_bad : {A : Type 0} → Option A → Action S A
  or_bad none = raise bad_parameter
  or_bad (some a) = pure a

  -- except ChatBackendCapabilityError
  abbrev unless_missing : {A : Type 0} → Action S A → Exception → Action S A
  unless_missing m (capability_unavailable s) = m
  unless_missing m e = raise e

  -- a conversation that was named
  unfoldable pub attached : String → Action S Conversation
  attached given = or_bad (terminal.uuid_text given) >>= λ i.
      catch (terminal.get_conversation i >>= λ h. pure h.conversation)
        (unless_missing (pure (by_id i)))

  unfoldable pub pick : List Conversation → Action S Conversation
  pick [] = raise exit_error
  pick (c ∷ cs) = terminal.ask_number >>= λ n. or_bad (chosen n (c ∷ cs))

  -- the conversations, or none where the backend cannot list them
  unfoldable pub listed : Action S (Option (List Conversation))
  listed = catch (terminal.list_conversations >>= λ cs. pure (some cs)) (unless_missing (pure none))

  unfoldable pub selected : Option String → Action S Conversation
  unfolding attached pick listed
  selected (some given) = attached given
  selected none = listed >>= λ found. elim found [
    | some cs ↦ pick cs
    | none ↦
        terminal.ask_uuid >>= λ given. or_bad (terminal.uuid_text given) >>= λ i. pure (by_id i)
  ]

-- message.strip().casefold() in {"/exit", "/quit"}
abbrev pub is_exit : Chars → Bool
is_exit m = let s = map lower_char (strip m) in s == codes "/exit" || s == codes "/quit"

-- the directory of the session: the text of its root and its name
pub record Place : Type 0 where
  pub root : String
  pub name : String

-- a backend error ends the command, and so does every other that is raised
abbrev pub ended_by : {S : Type 0} → Exception → Action S Bool
ended_by e =
    if type_name e == "ChatBackendError" || type_name e == "ChatBackendCapabilityError"
    then raise exit_error
    else raise e

module _ {S : Type 0} (terminal : Terminal S) (rest : Rest S) (max_actions_per_turn : ℕ)
    (place : Place) where
  abbrev turn : Conversation → Chars → Action S ChatResponse
  turn c message = run_turn rest max_actions_per_turn c.id c.title message

  -- the loop over what the operator types: true once the session is left, and false where the prompt
  -- waits
  unfoldable pub turns : Conversation → List Chars → Action S Bool
  turns c [] = pure false
  turns c (m ∷ ms) =
      let more = turn c m >>= λ response. turns c ms in if is_exit m then pure true else more

  unfoldable pub greeted : PermissionLevel → Conversation → Action S ChatResponse
  greeted permission c =
      collect rest.digits (λ a. rest.execute a c.id c.title) place.root place.name >>= λ context.
      turn c (build_session_prompt rest.dumps (codes place.root) permission context)

  unfoldable pub attend : PermissionLevel → Option String → List Chars → Action S Bool
  unfolding greeted turns
  attend permission conversation typed = do
    up ← terminal.health
    guarded up exit_error (pure tt)
    c ← selected terminal conversation
    response ← greeted permission c
    turns c typed

  -- the command, once the workspace, the settings and the address of the backend are accepted
  unfoldable pub local_command : Options → List Chars → Action S Bool
  unfolding attend
  local_command o typed =
      guarded (options_allowed o) bad_parameter
        (catch (attend (permission_of o) o.conversation typed) ended_by)
