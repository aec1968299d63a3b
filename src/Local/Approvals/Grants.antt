-- ===== src/Local/Approvals/Grants.antt =====
-- About the grants of `SessionApprover`, of src/gptlink/local/approvals.py.
use gptlink.Chat.Protocol.{ToolName}
use gptlink.Local.Approvals.{
  ApprovalDecision, ApprovalRequest, Session, approve, decided, deny, is_granted, on_env, once,
  session, tool_index,
}
use gptlink.Prelude.{
  Bool, Bool-cases, Chars_eq, List, String_eq, [], any, arith, inl, inr, true, ℕ, ℕ_eq, ◌==◌, ◌∷◌,
  ◌≡◌,
}
use gptlink.Common.Action.{Action, Outcome-cases, ok, ◌>>=◌}

module _ {E : Type 0} (prompt : ApprovalRequest → Action E ApprovalDecision) where
  -- approve request by request, with the answers
  abbrev pub answers : List ApprovalRequest → Session E → Session E
  answers [] w = w
  answers (q ∷ qs) w = answers qs (approve prompt q w).1

  abbrev has_index : ℕ → List ToolName → Bool
  has_index n tools = any (λ x. tool_index x == n) tools

  decided_kept :
      (tool : ToolName) (d : ApprovalDecision) (w : Session E) (n : ℕ)
      → has_index n w.session_tools ≡ true
      → has_index n (decided prompt tool d w).1.session_tools ≡ true
  unfolding decided
  decided_kept tool once w n h = h
  decided_kept tool session w n h = ground (arith, h)
  decided_kept tool deny w n h = h

  grant_kept :
      (q : ApprovalRequest) (w : Session E) (n : ℕ)
      → has_index n w.session_tools ≡ true
      → has_index n (approve prompt q w).1.session_tools ≡ true
  unfolding approve ◌>>=◌ on_env decided
  grant_kept q w n h =
      elim (Bool-cases (is_granted q.action.tool w.session_tools))
        as (λ _. has_index n (approve prompt q w).1.session_tools ≡ true) [
          | inl g ↦ rw g h
          | inr g ↦
              elim (Outcome-cases (prompt q w.env).0)
                as (λ _. has_index n (approve prompt q w).1.session_tools ≡ true) [
                  | inl (d, e) ↦ rw (g, e) (decided_kept q.action.tool d _ n h)
                  | inr (x, e) ↦ rw (g, e) h
                ]
        ]

  granted_now :
      (q : ApprovalRequest) (w : Session E)
      → (prompt q w.env).0 ≡ ok session
      → (n : ℕ) → n ≡ tool_index q.action.tool
      → has_index n (approve prompt q w).1.session_tools ≡ true
  unfolding approve ◌>>=◌ on_env decided
  granted_now q w h n same =
      elim (Bool-cases (is_granted q.action.tool w.session_tools))
        as (λ _. has_index n (approve prompt q w).1.session_tools ≡ true) [
          | inl g ↦ rw (g, same) g
          | inr g ↦ rw (g, h, same) (ground arith)
        ]

  answers_kept :
      (qs : List ApprovalRequest) (w : Session E) (n : ℕ)
      → has_index n w.session_tools ≡ true
      → has_index n (answers qs w).session_tools ≡ true
  answers_kept [] w n h = h
  answers_kept (q ∷ qs) w n h = answers_kept qs (approve prompt q w).1 n (grant_kept q w n h)

  -- Once the operator has answered "for the session", then after any further requests a request of the
  -- same tool is approved, and the operator is not asked: nothing changes.
  pub session_grant :
      (first : ApprovalRequest) (w : Session E)
      → (prompt first w.env).0 ≡ ok session
      → (qs : List ApprovalRequest) (again : ApprovalRequest)
      → tool_index again.action.tool ≡ tool_index first.action.tool
      → approve prompt again (answers qs (approve prompt first w).1)
        ≡ (ok true, answers qs (approve prompt first w).1)
  unfolding approve
  session_grant first w h qs again same = rw (
      answers_kept qs (approve prompt first w).1 (tool_index again.action.tool)
        (granted_now first w h (tool_index again.action.tool) same))
