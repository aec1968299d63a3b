-- ===== src/Chat/Protocol/Inert.antt =====
-- About `render_result` followed by `parse_action`, of src/gptlink/chat/protocol.py.
use gptlink.Common.Json.{Json}
use gptlink.Chat.Protocol.Results.{Reply, escape, payload, render_result}
use gptlink.Chat.Protocol.Blocks.{
  Readers, close_tag, count_of, find_all, has_tag_start, match_at, open_tag, parse_action, tags,
}
use gptlink.Chat.Protocol.{is_action_id, is_id_char}
use gptlink.Prelude.{
  Bool, Chars, [], all_chars, arith, codes, eqb, false, none, not, refl, true, ℕ, ◌++◌, ◌∷◌, ◌≡◌,
}
use gptlink.Common.Action.{ok, ◌>>=◌}

abbrev no_lt : ℕ → Bool
no_lt c = not (eqb c b'<')

-- no tag starts in the text
record IsQuiet (s : Chars) : Type 0 where
  no_block : find_all 0 s ≡ []
  no_open : count_of open_tag s ≡ 0
  no_close : count_of close_tag s ≡ 0
  no_start : has_tag_start s ≡ false

apart_lt : (c : ℕ) → no_lt c ≡ true → eqb b'<' c ≡ false
apart_lt c h = ground arith

IsQuiet-cons : (c : ℕ) (s : Chars) → no_lt c ≡ true → IsQuiet s → IsQuiet (c ∷ s)
unfolding find_all match_at count_of has_tag_start
IsQuiet-cons c s h q = record {
  no_block = rw (apart_lt c h) q.no_block;
  no_open = rw (apart_lt c h) (omega arith);
  no_close = rw (apart_lt c h) (omega arith);
  no_start = rw (apart_lt c h) q.no_start;
}

IsQuiet-append : (a s : Chars) → all_chars no_lt a ≡ true → IsQuiet s → IsQuiet (a ++ s)
IsQuiet-append [] s h q = q
IsQuiet-append (c ∷ a) s h q =
    IsQuiet-cons c (a ++ s) (ground arith) (IsQuiet-append a s (ground arith) q)

escape-no_lt : (s : Chars) → all_chars no_lt (escape s) ≡ true
unfolding escape
escape-no_lt [] = refl
escape-no_lt (c ∷ s) = ground (arith, escape-no_lt s)

id_chars_no_lt : (s : Chars) → all_chars is_id_char s ≡ true → all_chars no_lt s ≡ true
id_chars_no_lt [] h = refl
id_chars_no_lt (c ∷ s) h = ground (arith, id_chars_no_lt s)

id_no_lt : (s : Chars) → is_action_id s ≡ true → all_chars no_lt s ≡ true
unfolding is_action_id
id_no_lt [] h = refl
id_no_lt (c ∷ s) h = ground (arith, id_chars_no_lt s)

end-IsQuiet : IsQuiet (codes "\n</gptlink_result>")
unfolding find_all match_at count_of has_tag_start
end-IsQuiet = record { no_block = refl; no_open = refl; no_close = refl; no_start = refl }

head-IsQuiet : (s : Chars) → IsQuiet s → IsQuiet (codes "<gptlink_result id=\"" ++ s)
unfolding find_all match_at count_of has_tag_start
head-IsQuiet s q = record {
  no_block = q.no_block;
  no_open = omega (arith, q.no_open);
  no_close = omega (arith, q.no_close);
  no_start = q.no_start;
}

abbrev rendered : Chars → Chars → Chars
rendered id encoded =
    codes "<gptlink_result id=\""
    ++ (id ++ (codes "\">\n" ++ (escape encoded ++ codes "\n</gptlink_result>")))

rendered-IsQuiet : (id encoded : Chars) → is_action_id id ≡ true → IsQuiet (rendered id encoded)
rendered-IsQuiet id encoded h = head-IsQuiet _ (
    IsQuiet-append id _ (id_no_lt id h) (
      IsQuiet-append (codes "\">\n") _ refl
        (IsQuiet-append (escape encoded) _ (escape-no_lt encoded) end-IsQuiet)))

-- Whatever the JSON writer makes of a result or an error, the block that is rendered for a valid
-- action id is parsed as text without an action: a file's content cannot forge an action by way of a
-- result.
pub parse_action-render_result :
    {S : Type 0} (dumps : Json → Chars) (read : Readers) (id : Chars) (reply : Reply) (s : S)
    → is_action_id id ≡ true
    → (render_result dumps id reply >>= parse_action read) s ≡ (ok none, s)
unfolding render_result parse_action tags ◌>>=◌
parse_action-render_result dumps read id reply s h =
    let q = rendered-IsQuiet id (dumps (payload reply)) h in
    rw (h, q.no_block, q.no_open, q.no_close, q.no_start)
