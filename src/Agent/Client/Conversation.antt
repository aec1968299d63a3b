-- ===== src/Agent/Client/Conversation.antt =====
-- About the conversation of src/gptlink/agent/client.py.
use gptlink.Agent.Client.{
  Exchange, Line, answer, converse, heard, is_pong, receive, reply_by, unsent,
}
use gptlink.Protocol.Messages.{Message}
use gptlink.Common.Types.{Capability_eq}
use gptlink.Common.Action.{Outcome, err, ok}
use gptlink.Prelude.{
  Bool, Bool-cases, Chars, Chars_eq, List, Option, String_eq, [], ap, if◌then◌else◌, inl, inr, map,
  refl, sym, ℕ, ℕ_eq, ◌++◌, ◌==◌, ◌∙◌, ◌∷◌, ◌≡◌,
}

abbrev pub ids : List Message → List ℕ
ids ms = map (λ m. m.request_id) ms

ids-append : (ms : List Message) (m : Message) → ids (ms ++ m ∷ []) ≡ ids ms ++ m.request_id ∷ []
ids-append [] m = refl
ids-append (n ∷ ms) m = ap (λ t. n.request_id ∷ t) (ids-append ms m)

append_one : (a : List ℕ) (i : ℕ) (b : List ℕ) → (a ++ i ∷ []) ++ b ≡ a ++ i ∷ b
append_one [] i b = refl
append_one (x ∷ a) i b = ap (λ t. x ∷ t) (append_one a i b)

append_none : (a : List ℕ) → a ++ [] ≡ a
append_none [] = refl
append_none (x ∷ a) = ap (λ t. x ∷ t) (append_none a)

module _ (decode : Chars → Option Message) (device_id : ℕ) where
  abbrev pub answered_id : Bool → Outcome Message → List ℕ → List ℕ
  answered_id sends (err e) rest = []
  answered_id sends (ok m) rest =
      if m.device_id == device_id
      then (if is_pong m.body then rest else if sends then m.request_id ∷ rest else [])
      else []

  -- the request ids of the requests up to the first frame that ends the connection
  abbrev pub answered_ids : List Exchange → List ℕ
  answered_ids [] = []
  answered_ids (x ∷ xs) = answered_id x.sends (receive decode x.frame) (answered_ids xs)

  module _ {S : Type 0} (dispatcher : Option (Message → S → Message × S)) where
    -- a reply names the request and the device
    pub record IsCorrelated : Type 0 where
      pub same_request :
          (m : Message) (s : S)
          → (reply_by decode dispatcher device_id dispatcher m s).0.request_id ≡ m.request_id

    module _ (k : IsCorrelated) where
      ids-heard :
          (x : Exchange) (xs : List Exchange) (o : Outcome Message) (w : Line S)
          → ((v : Line S)
              → ids (converse decode dispatcher device_id xs v).1.sent
                ≡ ids v.sent ++ answered_ids xs)
          → ids
              (heard decode dispatcher device_id x
                (converse decode dispatcher device_id xs)
                o
                w).1.sent
            ≡ ids w.sent ++ answered_id x.sends o (answered_ids xs)
      unfolding heard answer unsent
      ids-heard x xs (err e) w later = sym (append_none (ids w.sent))
      ids-heard x xs (ok m) w later = elim (Bool-cases (m.device_id == device_id)) [
        | inr h ↦ rw h (sym (append_none (ids w.sent)))
        | inl h ↦ elim (Bool-cases (is_pong m.body)) [
          | inl p ↦ rw (h, p) (later w)
          | inr p ↦ elim (Bool-cases x.sends) [
            | inr q ↦ rw (h, p, q) (sym (append_none (ids w.sent)))
            | inl q ↦
                rw (h, p, q)
                  (later _
                    ∙ ap (λ t. t ++ answered_ids xs)
                        (ids-append w.sent _
                          ∙ ap (λ i. ids w.sent ++ i ∷ []) (k.same_request m w.services))
                    ∙ append_one (ids w.sent) m.request_id (answered_ids xs))
          ]
        ]
      ]

      -- If the dispatcher's replies name their requests, the Agent answers the requests of its Gateway
      -- once and in order: what it has sent at the end of a conversation is, by request ids, what it
      -- had sent before and then one reply to each request, up to the frame that ends the connection or
      -- whose reply cannot be sent. It answers no pong and no message for another device.
      pub one_reply_each :
          (xs : List Exchange) (w : Line S)
          → ids (converse decode dispatcher device_id xs w).1.sent ≡ ids w.sent ++ answered_ids xs
      unfolding converse
      one_reply_each [] w = sym (append_none (ids w.sent))
      one_reply_each (x ∷ xs) w =
          ids-heard x xs (receive decode x.frame) w (λ v. one_reply_each xs v)
