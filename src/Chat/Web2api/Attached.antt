-- ===== src/Chat/Web2api/Attached.antt =====
-- About a conversation that src/gptlink/chat/web2api.py keeps, under
-- src/gptlink/chat/orchestrator.py.
use gptlink.Chat.Web2api.{Http, accepted, content_of, model_of, posted, request_of, send_message}
use gptlink.Chat.Orchestrator.{ChatResponse, Rest, send}
use gptlink.Common.Json.{Json, get_key, text}
use gptlink.Common.Action.{Outcome, Outcome-cases, err, guarded, ok, pure, raise, ◌>>=◌}
use gptlink.Common.Errors.{type_name}
use gptlink.Prelude.{
  Bool-cases, Chars, Chars_eq, Option, String, String_eq, eq_iff, false, inl, inr, none, refl, some,
  ℕ, ℕ_eq, ◌==◌, ◌≡◌,
}

module _ {S : Type 0} (attached : String) (used : Option String) (s : S) where
  -- what is accepted keeps the conversation, and otherwise the backend's error is raised
  abbrev IsKept : Outcome ChatResponse × S → Type 0
  IsKept (ok r, t) = (r.conversation_id ≡ attached) × ((r.conversation_id == "") ≡ false) × (t ≡ s)
  IsKept (err e, t) = (type_name e ≡ "ChatBackendError") × (t ≡ s)

  accepted_text :
      (content returned : String)
      → IsKept (accepted (some attached) used (some (text content)) (some (text returned)) s)
  unfolding accepted guarded pure
  accepted_text content returned = elim (Bool-cases (returned == "")) [
    | inl e ↦ rw e (refl, refl)
    | inr n ↦ elim (Bool-cases (returned == attached)) [
      | inl e ↦ rw (n, e) ((eq_iff returned attached).0 e, n, refl)
      | inr d ↦ rw (n, d) (refl, refl)
    ]
  ]

  accepted_lem :
      (content returned : Option Json) → IsKept (accepted (some attached) used content returned s)
  unfolding accepted pure raise
  accepted_lem none returned = (refl, refl)
  accepted_lem (some (text c)) none = (refl, refl)
  accepted_lem (some c) none = (refl, refl)
  accepted_lem (some (text c)) (some (text r)) = accepted_text c r
  accepted_lem (some (text c)) (some r) = (refl, refl)
  accepted_lem (some c) (some r) = (refl, refl)

-- The adapter under the orchestrator: `as_json` is a text as JSON.
module _ {S : Type 0} (http : Http S) (model : String) (as_json : Chars → Json) (rest : Rest S)
    (adapted : (message : Chars) (conversation : String)
      → rest.send_message message conversation
        ≡ send_message http model (as_json message) (some conversation)) where
  kept_by :
      (conversation : String) (t : S) (o : Outcome ChatResponse × S)
      → IsKept conversation none t o
      → (r : ChatResponse) → o.0 ≡ ok r
      → r.conversation_id ≡ conversation
  kept_by conversation t (ok x, u) k r h = cc (k.0, h)
  kept_by conversation t (err e, u) k r h = cc h

  sent_kept :
      (message : Chars) (conversation : String) (s : S) (r : ChatResponse)
      → (rest.send_message message conversation s).0 ≡ ok r
      → r.conversation_id ≡ conversation
  unfolding send_message ◌>>=◌
  sent_kept message conversation s r h =
      let request = request_of model (as_json message) (some conversation) in
      let h' = (rw (adapted message conversation) at h) in
      elim (Outcome-cases (posted http model request s).0) [
        | inl (v, o) ↦
            let t = (posted http model request s).1 in
            kept_by conversation t _
              (accepted_lem conversation (model_of (get_key "model" v)) t (content_of v)
                (get_key "conversation_id" v))
              r (rw o at h')
        | inr (e, o) ↦ cc (rw o at h')
      ]

  -- With the adapter as its backend, the orchestrator's own check of the conversation never fails: what
  -- it sends has the outcome of the adapter and leaves the same state, and every response is of the
  -- attached conversation.
  pub send_attached :
      (limit : ℕ) (title : String) (message : Chars) (conversation : String) (s : S)
      → (send rest limit conversation title message s ≡ rest.send_message message conversation s)
        × ((r : ChatResponse)
            → (rest.send_message message conversation s).0 ≡ ok r
            → r.conversation_id ≡ conversation)
  unfolding send ◌>>=◌ guarded pure
  send_attached limit title message conversation s =
      elim (Outcome-cases (rest.send_message message conversation s).0) [
        | inl (r, o) ↦
            let passes =
              (eq_iff r.conversation_id conversation).1 (sent_kept message conversation s r o) in
            (rw (o, passes) refl, sent_kept message conversation s)
        | inr (e, o) ↦ (rw o refl, sent_kept message conversation s)
      ]
