-- ===== src/Chat/Orchestrator/Once.antt =====
-- About the actions of a turn: `run_turn` of src/gptlink/chat/orchestrator.py.
use gptlink.Chat.Protocol.Pure.{parse_state, render_state}
use gptlink.Chat.Protocol.Blocks.{parse_action}
use gptlink.Chat.Protocol.Results.{render_result}
use gptlink.Chat.Protocol.{ChatAction}
use gptlink.Chat.Orchestrator.{
  ChatResponse, Parsed, Rest, action, carried_out, explained, is_seen, loop, malformed,
  malformed_or, noted, nothing, parsed, replied, round, run_turn, send,
}
use gptlink.Chat.Orchestrator.Logged.{Distinct, Fine, Included, Logged, bind_ends, logging, on_rest}
use gptlink.Prelude.{
  Bool-cases, Chars, Chars_eq, List, String, String_eq, [], ap, arith, false, inl, inr, length, suc,
  zero, ℕ, ℕ_eq, ◌+◌, ◌==◌, ◌∙◌, ◌∷◌, ◌≡◌, ◌≤◌,
}
use gptlink.Common.Action.{Action, Outcome-cases, pure, ◌>>=◌}
use gptlink.Common.Errors.{Exception}

module _ {E : Type 0} (rest : Rest E) (max : ℕ) (conversation_id title : String) where
  explained_log :
      (e : Exception) (w : Logged E)
      → (explained (logging rest) max conversation_id title e w).1 ≡ w
  unfolding explained ◌>>=◌
  explained_log e w = ground arith

  malformed_log :
      (e : Exception) (w : Logged E)
      → (malformed_or (logging rest) max conversation_id title e w).1 ≡ w
  unfolding malformed_or ◌>>=◌
  malformed_log e w = ground arith

  parsed_log :
      (content : Chars) (w : Logged E)
      → (parsed (logging rest) max conversation_id title content w).1 ≡ w
  unfolding parsed logging ◌>>=◌
  parsed_log content w =
      elim (Outcome-cases (parse_action rest.read content w).0)
        as (λ _. (parsed (logging rest) max conversation_id title content w).1 ≡ w) [
          | inl (o, e) ↦ rw e (parse_state rest.read content w)
          | inr (x, e) ↦ rw e (
              malformed_log x (parse_action rest.read content w).1
              ∙ parse_state rest.read content w)
        ]

  send_log :
      (message : Chars) (w : Logged E)
      → (send (logging rest) max conversation_id title message w).1.log ≡ w.log
  unfolding send logging on_rest ◌>>=◌
  send_log message w =
      elim (Outcome-cases (rest.send_message message conversation_id w.env).0)
        as (λ _. (send (logging rest) max conversation_id title message w).1.log ≡ w.log) [
          | inl (r, e) ↦
              elim (Bool-cases (r.conversation_id == conversation_id))
                as (λ _. (send (logging rest) max conversation_id title message w).1.log ≡ w.log) [
                  | inl same ↦ rw (e, same)
                  | inr other ↦ rw (e, other)
                ]
          | inr (x, e) ↦ rw e
        ]

  carried_log :
      (a : ChatAction) (w : Logged E)
      → (carried_out (logging rest) max conversation_id title a w).1.log ≡ a.id ∷ w.log
  unfolding carried_out logging on_rest ◌>>=◌
  carried_log a w =
      elim (Outcome-cases (rest.execute a conversation_id title w.env).0)
        as (λ _. (carried_out (logging rest) max conversation_id title a w).1.log ≡ a.id ∷ w.log) [
          | inl (r, e) ↦ rw e
          | inr (x, e) ↦ rw e (ap (λ s. s.log) (explained_log x _))
        ]

  fresh_log :
      (id : Chars) (seen log : List Chars)
      → Included log seen
      → is_seen id seen ≡ false
      → is_seen id log ≡ false
  fresh_log id seen log inc f =
      elim (Bool-cases (is_seen id log)) as (λ _. is_seen id log ≡ false) [
        | inl t ↦ cc (inc id t)
        | inr n ↦ n
      ]

  -- the ids that were run are among those seen, before and after a round
  replied_log :
      (seen : List Chars) (a : ChatAction) (w : Logged E)
      → Included w.log seen
      → Distinct w.log
      → Included
          (replied (logging rest) max conversation_id title seen a w).1.log
          (noted (logging rest) max conversation_id title seen a)
        × Fine
            (suc (length w.log))
            (replied (logging rest) max conversation_id title seen a w).1.log
  unfolding replied pure
  replied_log seen a w inc d =
      elim (Bool-cases (is_seen a.id seen))
        as (λ _.
          Included (replied (logging rest) max conversation_id title seen a w).1.log
            (noted (logging rest) max conversation_id title seen a)
          × Fine (suc (length w.log))
              (replied (logging rest) max conversation_id title seen a w).1.log) [
                | inl t ↦ rw t (inc, (d, omega arith))
                | inr n ↦
                    rw (n, carried_log a w)
                      (
                        (λ i h. ground (arith, h, inc i)),
                        ((fresh_log a.id seen w.log inc n, d), omega arith),
                      )
              ]

  abbrev fresh_turn : E → Logged E
  fresh_turn env = record { env = env; log = [] }

  Fine-more : (j k : ℕ) (l : List Chars) → Fine j l → j ≤ k → Fine k l
  Fine-more j k l (d, b) h = (d, omega (arith, b, h))

  round_ends :
      (next : List Chars → ChatResponse → Action (Logged E) ChatResponse) (k : ℕ)
      (seen : List Chars) (response : ChatResponse) (p : Parsed) (w : Logged E)
      → ((seen' : List Chars) (r : ChatResponse) (v : Logged E)
          → Included v.log seen'
          → Fine (suc (length w.log)) v.log
          → Fine k (next seen' r v).1.log)
      → suc (length w.log) ≤ k
      → Included w.log seen
      → Distinct w.log
      → Fine k (round (logging rest) max conversation_id title next seen response p w).1.log
  unfolding round logging pure
  round_ends next k seen response (malformed m) w ih b inc d = (d, omega (arith, b))
  round_ends next k seen response nothing w ih b inc d = (d, omega (arith, b))
  round_ends next k seen response (action a) w ih b inc d =
      let (more, fine) = replied_log seen a w inc d in
      let good = Fine-more _ k _ fine b in
      let v = (replied (logging rest) max conversation_id title seen a w).1 in
      bind_ends (λ s. Fine k s.log) (replied (logging rest) max conversation_id title seen a) _ w
        good
        (λ reply.
          bind_ends (λ s. Fine k s.log) (render_result rest.dumps a.id reply) _ v
            (rw (render_state rest.dumps a.id reply v) good)
            (λ rendered.
              let u = (render_result rest.dumps a.id reply v).1 in
              let same =
                send_log rendered u ∙ ap (λ s. s.log) (render_state rest.dumps a.id reply v) in
              bind_ends (λ s. Fine k s.log) (send (logging rest) max conversation_id title rendered)
                _ u (rw same good)
                (λ answer.
                  ih (noted (logging rest) max conversation_id title seen a) answer
                    (send (logging rest) max conversation_id title rendered u).1 (rw same more)
                    (rw same fine))))

  loop_ends :
      (n : ℕ) (seen : List Chars) (response : ChatResponse) (w : Logged E)
      → Included w.log seen
      → Distinct w.log
      → Fine
          (n + length w.log)
          (loop (logging rest) max conversation_id title n seen response w).1.log
  unfolding loop pure
  loop_ends zero seen response w inc d = (d, omega arith)
  loop_ends (suc n) seen response w inc d =
      let v = (parsed (logging rest) max conversation_id title response.content w).1 in
      let same = parsed_log response.content w in
      bind_ends (λ s. Fine (suc n + length w.log) s.log) _ _ w (rw same (d, omega arith))
        (λ p.
          round_ends (loop (logging rest) max conversation_id title n) (suc n + length w.log) seen
            response p v
            (λ seen' r u inc' fine.
              Fine-more (n + length u.log) (suc n + length w.log) _
                (loop_ends n seen' r u inc' fine.0)
                (omega (arith, ap (λ s. length s.log) same, fine.1)))
            (omega (arith, ap (λ s. length s.log) same)) (rw same inc) (rw same d))

  -- Whatever the backend answers, however the actions end, and whether the turn returns or raises, it
  -- gives the runtime no action id twice, and at most `max_actions_per_turn` actions.
  pub run_turn_lem :
      (message : Chars) (env : E)
      → Fine max (run_turn (logging rest) max conversation_id title message (fresh_turn env)).1.log
  unfolding run_turn
  run_turn_lem message env =
      let start = (fresh_turn env) in
      bind_ends (λ s. Fine max s.log) _ _ start (rw (send_log message start) (tt, omega arith))
        (λ r.
          Fine-more _ _ _
            (loop_ends max [] r _ (rw (send_log message start) (λ i h. h))
              (rw (send_log message start) tt))
            (rw (send_log message start) (omega arith)))
