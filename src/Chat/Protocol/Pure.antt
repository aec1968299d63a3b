-- ===== src/Chat/Protocol/Pure.antt =====
-- About the state under `parse_action` and `render_result` of src/gptlink/chat/protocol.py.
use gptlink.Common.Json.{Json}
use gptlink.Chat.Protocol.Blocks.{
  Envelope, Readers, parse_action, with_arguments, with_blocks, with_envelope, with_json,
}
use gptlink.Chat.Protocol.Results.{Reply, render_result}
use gptlink.Chat.Protocol.{ActionArguments}
use gptlink.Prelude.{Bool, Chars, List, Option, [], false, none, refl, some, true, ◌∷◌, ◌≡◌}
use gptlink.Common.Action.{Action, guarded, pure, raise}
use gptlink.Common.Errors.{Exception}

module _ {S : Type 0} where
  guarded_state :
      {A : Type 0} (b : Bool) (e : Exception) (m : Action S A) (s : S)
      → (m s).1 ≡ s
      → (guarded b e m s).1 ≡ s
  unfolding guarded
  guarded_state true e m s h = h
  guarded_state false e m s h = refl

  arguments_state :
      (read : Readers) (e : Envelope) (o : Option ActionArguments) (s : S)
      → (with_arguments read e o s).1 ≡ s
  unfolding with_arguments pure raise
  arguments_state read e none s = refl
  arguments_state read e (some x) s = guarded_state _ _ _ s refl

  envelope_state : (read : Readers) (o : Option Envelope) (s : S) → (with_envelope read o s).1 ≡ s
  unfolding with_envelope raise
  envelope_state read none s = refl
  envelope_state read (some e) s = guarded_state _ _ _ s (arguments_state read e _ s)

  json_state : (read : Readers) (o : Option Json) (s : S) → (with_json read o s).1 ≡ s
  unfolding with_json raise
  json_state read none s = refl
  json_state read (some raw) s = envelope_state read _ s

  blocks_state :
      (read : Readers) (content : Chars) (bs : List Chars) (s : S)
      → (with_blocks read content bs s).1 ≡ s
  unfolding with_blocks pure raise
  blocks_state read content [] s = guarded_state _ _ _ s refl
  blocks_state read content (b ∷ []) s = guarded_state _ _ _ s (json_state read _ s)
  blocks_state read content (b ∷ c ∷ bs) s = refl

  pub parse_state : (read : Readers) (content : Chars) (s : S) → (parse_action read content s).1 ≡ s
  unfolding parse_action
  parse_state read content s = blocks_state read content _ s

  pub render_state :
      (dumps : Json → Chars) (id : Chars) (reply : Reply) (s : S)
      → (render_result dumps id reply s).1 ≡ s
  unfolding render_result pure
  render_state dumps id reply s = guarded_state _ _ _ s refl
