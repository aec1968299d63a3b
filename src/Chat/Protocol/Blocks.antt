-- ===== src/Chat/Protocol/Blocks.antt =====
-- `parse_action` of src/gptlink/chat/protocol.py.
use gptlink.Common.Types.{Capability_eq}
use gptlink.Common.Json.{Fields, Json}
use gptlink.Chat.Protocol.{ActionArguments, ChatAction, ToolName, fits, is_action_id, is_valid}
use gptlink.Prelude.{
  Bool, Chars, Chars_eq, List, Option, String, String_eq, [], codes, drop, if◌then◌else◌, is_prefix,
  length, ltb, none, not, occurs, over, some, strip, suc, zero, ℕ, ℕ_eq, ◌&&◌, ◌++◌, ◌+◌, ◌==◌,
  ◌||◌, ◌∷◌,
}
use gptlink.Common.Action.{Action, guarded, pure, raise}
use gptlink.Common.Errors.{action_protocol_error}

abbrev pub open_tag : Chars
open_tag = codes "<gptlink_action>"

abbrev pub close_tag : Chars
close_tag = codes "</gptlink_action>"

-- the text up to the first close tag
unfoldable inner : Chars → Option Chars
inner [] = none
inner (c ∷ s) =
    let rest = inner s in if is_prefix close_tag (c ∷ s) then some [] else over (λ r. c ∷ r) rest

-- <gptlink_action>\s*(.*?)\s*</gptlink_action> at the start of the text: the text between the tags
unfoldable pub match_at : Chars → Option Chars
unfolding inner
match_at s = if is_prefix open_tag s then inner (drop 16 s) else none

-- what follows the first character of a match is skipped
abbrev after_match : Option Chars → ℕ
after_match none = 0
after_match (some t) = 16 + length t + 16

abbrev found : Option Chars → List Chars
found none = []
found (some t) = strip t ∷ []

-- _BLOCK.findall: matches do not overlap, so after one its characters are skipped
unfoldable pub find_all : ℕ → Chars → List Chars
unfolding match_at
find_all k [] = []
find_all (suc k) (c ∷ s) = find_all k s
find_all zero (c ∷ s) = let m = match_at (c ∷ s) in found m ++ find_all (after_match m) s

-- str.count of a tag: a tag does not overlap itself
unfoldable pub count_of : Chars → Chars → ℕ
count_of p [] = 0
count_of p (c ∷ s) = (if is_prefix p (c ∷ s) then 1 else 0) + count_of p s

pub record Envelope : Type 0 where
  pub id : Chars
  pub tool : ToolName
  pub arguments : Fields

-- json.loads, and what pydantic builds of an envelope and of a tool's arguments
pub record Readers : Type 0 where
  pub loads : Chars → Option Json
  pub envelope : Json → Option Envelope
  pub arguments : ToolName → Fields → Option ActionArguments

abbrev invalid : String
invalid = "invalid gptlink_action payload"

unfoldable pub tags : Chars → ℕ
tags content = count_of open_tag content + count_of close_tag content

-- "<gptlink_action" in content or "</gptlink_action" in content
unfoldable pub has_tag_start : Chars → Bool
has_tag_start content =
    occurs (codes "<gptlink_action") content || occurs (codes "</gptlink_action") content

module _ (read : Readers) {S : Type 0} where
  unfoldable pub with_arguments : Envelope → Option ActionArguments → Action S (Option ChatAction)
  with_arguments e none = raise (action_protocol_error invalid)
  with_arguments e (some a) =
      guarded (fits e.tool a && is_valid a) (action_protocol_error invalid)
        (pure (some (record { id = e.id; tool = e.tool; arguments = a })))

  unfoldable pub with_envelope : Option Envelope → Action S (Option ChatAction)
  with_envelope none = raise (action_protocol_error invalid)
  with_envelope (some e) =
      guarded (is_action_id e.id)
        (action_protocol_error "action id contains unsupported characters")
        (with_arguments e (read.arguments e.tool e.arguments))

  unfoldable pub with_json : Option Json → Action S (Option ChatAction)
  with_json none = raise (action_protocol_error invalid)
  with_json (some raw) = with_envelope (read.envelope raw)

  unfoldable pub with_blocks : Chars → List Chars → Action S (Option ChatAction)
  with_blocks content [] =
      guarded (not (ltb 0 (tags content) || has_tag_start content))
        (action_protocol_error "malformed gptlink_action block") (pure none)
  with_blocks content (b ∷ []) =
      guarded (tags content == 2)
        (action_protocol_error "exactly one well-formed gptlink_action block is allowed")
        (with_json (read.loads b))
  with_blocks content (b ∷ c ∷ bs) =
      raise (action_protocol_error "exactly one well-formed gptlink_action block is allowed")

  unfoldable pub parse_action : Chars → Action S (Option ChatAction)
  unfolding find_all tags has_tag_start with_blocks with_json with_envelope with_arguments
  parse_action content = with_blocks content (find_all 0 content)
