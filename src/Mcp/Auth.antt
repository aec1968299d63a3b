-- ===== src/Mcp/Auth.antt =====
-- src/gptlink/mcp/auth.py: the bearer check of an MCP caller and the middleware before the server.
pub mod Guard
use gptlink.Common.Types.{Capability_eq}
use gptlink.Prelude.{
  Bool, Chars, Chars_eq, List, Option, String, String_eq, [], codes, false, if◌then◌else◌,
  lower_char, map, none, not, over, select, some, true, ℕ, ℕ_eq, ◌&&◌, ◌==◌, ◌∷◌,
}

-- authorization.partition(" "): what stands before the first blank, whether there is one, and the rest
abbrev cons_before : ℕ → Chars × (Bool × Chars) → Chars × (Bool × Chars)
cons_before c (head, rest) = (c ∷ head, rest)

abbrev pub blank : ℕ
blank = 32

unfoldable pub partition : Chars → Chars × (Bool × Chars)
partition [] = ([], (false, []))
partition (c ∷ s) =
    let rest = partition s in if c == blank then ([], (true, s)) else cons_before c rest

-- str.casefold, on ASCII
unfoldable pub casefold : Chars → Chars
casefold s = map lower_char s

unfoldable pub accepts : Chars → String → Chars × (Bool × Chars) → Option String
accepts token caller (scheme, (separated, credential)) =
    if separated
      && (casefold scheme == codes "bearer")
      && not (credential == [])
      && (credential == token)
    then some caller
    else none

-- BearerAuthenticator.authenticate
unfoldable pub authenticate : Option Chars → String → Option Chars → Option String
unfolding partition casefold accepts
authenticate (some token) caller (some authorization) =
    accepts token caller (partition authorization)
authenticate _ caller _ = none

-- a header's name and its value
abbrev pub Header : Type 0
Header = Chars × Chars

abbrev authorization_name : Chars
authorization_name = codes "authorization"

abbrev pub is_authorization : Header → Bool
is_authorization h = map lower_char h.0 == authorization_name

abbrev later : Option Header → Option Header → Option Header
later none o = o
later (some h) o = some h

-- {key.lower(): value ...}.get(b"authorization"): the last of equal names
unfoldable pub raw_authorization : List Header → Option Header
raw_authorization [] = none
raw_authorization (h ∷ hs) =
    later (raw_authorization hs) (if is_authorization h then some h else none)

pub record Scope : Type 0 where
  pub type : Chars
  pub headers : List Header

-- what the middleware sends on: the request to the application, or the answer 401
pub data Handled : Type 0 where
  forwarded : Scope → Handled
  unauthorized : Handled

unfoldable pub admit : Option String → Scope → Handled
admit none s = unauthorized
admit (some caller) s =
    forwarded (record s { headers = select (λ h. not (is_authorization h)) s.headers })

-- BearerAuthMiddleware.__call__
unfoldable pub handle : (Option Chars → Option String) → Scope → Handled
unfolding admit raw_authorization
handle authenticator s =
    if s.type == codes "http"
    then admit (authenticator (over (λ h. h.1) (raw_authorization s.headers))) s
    else forwarded s
