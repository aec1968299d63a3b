-- ===== src/Chat/Web2api.antt =====
-- src/gptlink/chat/web2api.py, the adapter for ChatGPT-Web2API, and src/gptlink/chat/models.py. The
-- HTTP client and the reader of URLs are parameters.
pub mod Attached
mod Tests
use gptlink.Chat.Orchestrator.{ChatResponse}
use gptlink.Common.Json.{
  Fields, Items, Json, array, boolean, cons, end, field, get_first, get_key, is_hashable,
  is_text_of, is_true, nil, null, object, text,
}
use gptlink.Common.Action.{Action, catch, guarded, pure, raise, ◌>>=◌, ◌>>◌}
use gptlink.Common.Errors.{
  Exception, capability_unavailable, chat_backend_error, key_error, type_name, unexpected,
  value_error,
}
use gptlink.Prelude.{
  Bool, Chars, Chars_eq, List, Option, String, String_eq, [], codes, false, if◌then◌else◌, is_some,
  none, not, some, true, ℕ, ℕ_eq, ◌&&◌, ◌==◌, ◌||◌, ◌∷◌,
}

pub record Conversation : Type 0 where
  pub id : String
  pub title : String

pub record ConversationMessage : Type 0 where
  pub role : String
  pub content : String

pub record ConversationHistory : Type 0 where
  pub conversation : Conversation
  pub messages : List ConversationMessage

-- the parts of a URL; `port` is none where its text is no port
pub record Url : Type 0 where
  pub scheme : String
  pub hostname : Option String
  pub username : Option String
  pub password : Option String
  pub path : String
  pub query : String
  pub fragment : String
  pub port : Option (Option ℕ)

abbrev is_given : Option String → Bool
is_given none = false
is_given (some s) = not (s == "")

abbrev pub is_loopback : Option String → Bool
is_loopback none = false
is_loopback (some h) = h == "127.0.0.1" || h == "localhost" || h == "::1"

-- value.rstrip("/")
unfoldable without_slashes : Chars → Chars
without_slashes [] = []
without_slashes (c ∷ s) =
    let rest = without_slashes s in
    elim rest [ [] ↦ if c == b'/' then [] else c ∷ [] | x ∷ xs ↦ c ∷ x ∷ xs ]

module _ {S : Type 0} where
  unfoldable pub validate_loopback_url : (Chars → Url) → Chars → Action S Chars
  unfolding without_slashes
  validate_loopback_url urlparse value =
      let u = urlparse value in
      guarded (u.scheme == "http" && is_loopback u.hostname)
        (value_error "chat URL must use HTTP on 127.0.0.1, localhost, or ::1")
        (guarded
          (not (
            is_given u.username
            || is_given u.password
            || not (u.query == "")
            || not (u.fragment == "")))
          (value_error "chat URL must not contain credentials, query parameters, or fragments")
          (guarded (u.path == "" || u.path == "/") (value_error "chat URL must not contain a path")
            (guarded (is_some u.port) (value_error "chat URL has an invalid port")
              (pure (without_slashes value)))))

-- the HTTP client: a request, the check of its status and the reading of its JSON
pub record Http (S : Type 0) : Type 0 where
  pub get : String → Action S Json
  pub post : String → Json → Action S Json

-- isinstance(error, (httpx.HTTPError, ValueError, TypeError))
abbrev pub is_unanswered : Exception → Bool
is_unanswered (value_error m) = true
is_unanswered e = type_name e == "HTTPError" || type_name e == "TypeError"

abbrev connected : Json → Option Json
connected v = elim (get_key "driver_connected" v) [
  | some (null) ↦ get_key "cdp_connected" v
  | none ↦ get_key "cdp_connected" v
  | other ↦ other
]

abbrev is_empty_array : Option Json → Bool
is_empty_array (some (array nil)) = true
is_empty_array _ = false

abbrev is_object : Json → Bool
is_object (object fs) = true
is_object _ = false

abbrev pub is_healthy : Json → Bool
is_healthy v =
    is_text_of (λ s. s == "starting" || s == "healthy") (get_key "status" v)
    && is_true (get_key "chrome_running" v)
    && is_true (connected v)
    && is_empty_array (get_key "open_breakers" v)

module _ {S : Type 0} (http : Http S) where
  -- the payload, or none where the service did not answer
  unfoldable pub probed : Action S (Option Json)
  probed =
      catch (http.get "/health" >>= λ v. pure (some v))
        (λ e. if is_unanswered e then pure none else raise e)

  unfoldable pub judged : Option Json → Action S Bool
  judged none = pure false
  judged (some v) =
      if is_object v
      then guarded (is_hashable (get_key "status" v)) (unexpected "TypeError") (pure (is_healthy v))
      else pure false

  unfoldable pub health : Action S Bool
  unfolding probed judged
  health = probed >>= judged

  unfoldable pub list_conversations : ℕ → Action S (List Conversation)
  list_conversations limit = raise (capability_unavailable "conversation listing")

  unfoldable pub get_conversation : String → Action S ConversationHistory
  get_conversation conversation_id = raise (capability_unavailable "conversation history")

-- the body of a request; `message` is the text as JSON
abbrev pub request_of : String → Json → Option String → Json
request_of model message conversation_id =
    let base = λ (more : Fields). object (
      field "model" (text model) (
        field "messages"
          (array (cons (object (field "role" (text "user") (field "content" message end))) nil))
          (field "stream" (boolean false) more))) in
    elim conversation_id [ none ↦ base end | some c ↦ base (field "conversation_id" (text c) end) ]

abbrev then_key : String → Option Json → Option Json
then_key k none = none
then_key k (some v) = get_key k v

abbrev then_first : Option Json → Option Json
then_first none = none
then_first (some v) = get_first v

-- payload["choices"][0]["message"]["content"]
abbrev pub content_of : Json → Option Json
content_of v = then_key "content" (then_key "message" (then_first (get_key "choices" v)))

abbrev pub model_of : Option Json → Option String
model_of (some (text m)) = some m
model_of _ = none

abbrev keeps : Option String → String → Bool
keeps none returned = true
keeps (some c) returned = returned == c

-- isinstance(error, (httpx.HTTPError, KeyError, IndexError, TypeError, ValueError))
abbrev pub is_bad_answer : Exception → Bool
is_bad_answer key_error = true
is_bad_answer e = is_unanswered e || type_name e == "IndexError"

module _ {S : Type 0} where
  -- the tests of `content` and of `returned_id`
  unfoldable pub accepted :
      Option String → Option String → Option Json → Option Json → Action S ChatResponse
  accepted attached used none returned =
      raise (chat_backend_error "ChatGPT-Web2API returned an invalid response")
  accepted attached used (some content) none =
      raise (chat_backend_error "ChatGPT-Web2API returned an invalid response")
  accepted attached used (some (text content)) (some (text returned)) =
      guarded (not (returned == ""))
        (chat_backend_error "ChatGPT-Web2API response is missing chat content or conversation_id")
        (guarded (keeps attached returned)
          (chat_backend_error "ChatGPT-Web2API did not preserve the attached conversation_id")
          (pure (record { content = codes content; conversation_id = returned; model = used })))
  accepted attached used (some content) (some returned) =
      raise
        (chat_backend_error "ChatGPT-Web2API response is missing chat content or conversation_id")

module _ {S : Type 0} (http : Http S) (model : String) where
  unfoldable pub posted : Json → Action S Json
  posted request = catch (http.post "/v1/chat/completions" request) (λ e.
      if is_bad_answer e
      then raise (chat_backend_error "ChatGPT-Web2API returned an invalid response")
      else raise e)

  unfoldable pub send_message : Json → Option String → Action S ChatResponse
  unfolding posted accepted
  send_message message conversation_id = posted (request_of model message conversation_id) >>= λ v.
      accepted conversation_id (model_of (get_key "model" v)) (content_of v)
        (get_key "conversation_id" v)

-- payload.get("title", "Untitled"), as text
abbrev title_or : (Json → String) → Option Json → String
title_or str none = "Untitled"
title_or str (some v) = str v

-- history_from_payload; `str` is the text of a value
module _ (str : Json → String) {S : Type 0} where
  -- str(v[k])
  abbrev pub text_at : String → Json → Action S String
  text_at k v = elim (get_key k v) [
    | some w ↦ pure (str w)
    | none ↦ raise (if is_object v then key_error else unexpected "TypeError")
  ]

  unfoldable pub messages_of : Items → Action S (List ConversationMessage)
  messages_of nil = pure []
  messages_of (cons v vs) =
      let rest = messages_of vs in
      do
        role ← text_at "role" v
        content ← text_at "content" v
        others ← rest
        pure (record { role = role; content = content } ∷ others)

  -- the items of what `payload` has under "messages": those of a text or an object are texts, which
  -- have no keys
  abbrev pub listed : Option Json → Action S (List ConversationMessage)
  listed none = pure []
  listed (some (array vs)) = messages_of vs
  listed (some (object end)) = pure []
  listed (some (text t)) = if t == "" then pure [] else raise (unexpected "TypeError")
  listed (some v) = raise (unexpected "TypeError")

  unfoldable pub history_from_payload : Json → Action S ConversationHistory
  unfolding messages_of
  history_from_payload payload = do
    id ← text_at "id" payload
    messages ← listed (get_key "messages" payload)
    pure (record {
      conversation = record { id = id; title = title_or str (get_key "title" payload) };
      messages = messages;
    })
