-- ===== src/Local/Runtime/Parsed.antt =====
-- About the actions that `parse_action` of src/gptlink/chat/protocol.py returns, as messages of
-- src/gptlink/protocol/messages.py that `LocalRuntime._message` makes of them.
use gptlink.Chat.Protocol.Blocks as Blocks
use gptlink.Chat.Protocol.{ChatAction, fits, is_valid}
use gptlink.Agent.Paths as Sandbox
use gptlink.Agent.Paths.{FilePath}
use gptlink.Protocol.Messages as Messages
use gptlink.Protocol.Messages.{Body, is_valid_body}
use gptlink.Common.Json.{Json}
use gptlink.Common.Action.{Outcome, err, ok}
use gptlink.Common.Errors.{Exception, local_action_error}
use gptlink.Prelude.{
  Bool, Chars, Chars_eq, String_eq, [], false, leb, length, none, not, true, ℕ_eq, ◌==◌, ◌≡◌, ◌⊎◌,
}
use gptlink.Local.Runtime as Runtime
use gptlink.Local.Runtime.{Config, resolve}

-- the arguments of an action that was parsed
module _ (read : Blocks.Readers) {S : Type 0} (s s' : S) (a : ChatAction) where
  abbrev Checked : Type 0
  Checked = (fits a.tool a.arguments ≡ true) × (is_valid a.arguments ≡ true)

abbrev too_long : Exception
too_long = local_action_error "command length limit exceeded"

abbrev no_uuid : Exception
no_uuid = local_action_error "job_id must be a UUID"

module _ (read : Runtime.Readers) (named : (p : FilePath) → not (read.path_text p == []) ≡ true)
    (c : Config) where
  -- why no message is made of an action: a path that is not resolved, a job that is no UUID, or a
  -- command that is too long
  abbrev pub Refused {ℓ} : {A : Type ℓ} → Outcome A → Type ℓ
  Refused o =
      ((v : Chars) × (existing : Bool) × (e : Exception) × ((resolve read c v existing tt).0
          ≡ err e)
        × (o ≡ err e))
      ⊎ ((j : Chars) × (read.uuid_of j ≡ none) × (o ≡ err no_uuid))
      ⊎ ((s : Chars) × (leb (length s) c.max_command_length ≡ false) × (o ≡ err too_long))

  Made : Outcome Body → Type 0
  Made o = Refused o ⊎ ((b : Body) × (o ≡ ok b) × (is_valid_body b ≡ true))
