-- ===== src/Agent/Credentials.antt =====
-- `CredentialStore` and `AgentClient.pair` of src/gptlink/agent/client.py. The file system's answers,
-- JSON text, `str` of a value and the HTTP client are parameters.
pub mod Stored
mod Tests
use gptlink.Agent.Paths.{FilePath}
use gptlink.Agent.Files.Write.{Answers, Contents, store, then_unlink}
use gptlink.Common.Json.{Json, end, field, get_key, null, object, text}
use gptlink.Common.Action.{Action, Outcome, err, guarded, lift, ok, pure, raise, ◌>>=◌, ◌>>◌}
use gptlink.Common.Errors.{Exception, unexpected, value_error}
use gptlink.Prelude.{
  Bool, Chars_eq, List, Option, String, String_eq, none, not, some, ℕ, ℕ_eq, ◌&&◌, ◌==◌,
}

-- AgentCredential
pub record Credential : Type 0 where
  pub gateway : String
  pub device_id : String
  pub token : String
  pub display_name : String

-- asdict(credential)
unfoldable pub as_json : Credential → Json
as_json c = object (
    field "gateway" (text c.gateway) (
      field "device_id" (text c.device_id)
        (field "token" (text c.token) (field "display_name" (text c.display_name) end))))

-- the answers of the directory's creation and modes, of mkstemp, of writing and fsync with what a
-- failed writing left, of the replacement, and of the last chmod
pub record Saving : Type 0 where
  pub prepared : Outcome {0} Unit
  pub created : Outcome {0} Unit
  pub stored : Outcome {0} Unit
  pub left : List ℕ
  pub replaced : Outcome {0} Unit
  pub restricted : Outcome {0} Unit

abbrev pub answers : Saving → Answers
answers a = record { created = a.created; stored = a.stored; left = a.left; replaced = a.replaced }

-- how a credential becomes the bytes of a file, and what is read of them
pub record Format : Type 0 where
  pub dumps : Json → List ℕ
  pub loads : List ℕ → Option Json
  pub str : Json → String

module _ (format : Format) where
  -- `temporary` is the name that mkstemp draws
  unfoldable pub save : FilePath → FilePath → Saving → Credential → Action Contents Unit
  unfolding as_json
  save temporary path a c = lift a.prepared >>= λ u. lift a.created >>= λ v. then_unlink temporary (
      store temporary path (format.dumps (as_json c)) (answers a) a.stored >>= λ w.
      lift a.restricted)

  abbrev invalid_file : Exception
  invalid_file = value_error "invalid agent credential file"

  -- str(raw[key])
  abbrev entry : String → Json → Outcome String
  entry k v = elim (get_key k v) [ none ↦ err invalid_file | some w ↦ ok (format.str w) ]

  abbrev is_whole : Credential → Bool
  is_whole c =
      not (c.gateway == "")
      && not (c.device_id == "")
      && not (c.token == "")
      && not (c.display_name == "")

  unfoldable pub credential_of : Json → Action Contents Credential
  credential_of raw = do
    gateway ← lift (entry "gateway" raw)
    device_id ← lift (entry "device_id" raw)
    token ← lift (entry "token" raw)
    display_name ← lift (entry "display_name" raw)
    let c : Credential = record {
      gateway = gateway;
      device_id = device_id;
      token = token;
      display_name = display_name;
    }
    guarded (is_whole c) invalid_file (pure c)

  unfoldable pub parsed : Option (List ℕ) → Action Contents Credential
  unfolding credential_of
  parsed none = raise invalid_file
  parsed (some bytes) = elim (format.loads bytes) [
    | none ↦ raise invalid_file
    | some raw ↦ credential_of raw
  ]

  unfoldable pub load : FilePath → Action Contents Credential
  unfolding parsed
  load path files = parsed (files path) files

-- the answer of the Gateway: its status and its body, if that is JSON
pub record Response : Type 0 where
  pub status_code : ℕ
  pub body : Option Json

-- `UUID(text)`, none where it raises ValueError, and its text
pub record Uuids : Type 0 where
  pub uuid_of : String → Option ℕ
  pub uuid_text : ℕ → String

abbrev bad_response : Exception
bad_response = value_error "invalid pairing response"

-- str(UUID(value)): a value that is no text has no `replace`
abbrev uuid_or : Uuids → Option Json → Outcome String
uuid_or u none = err bad_response
uuid_or u (some (text t)) = elim (u.uuid_of t) [
  | none ↦ err bad_response
  | some n ↦ ok (u.uuid_text n)
]
uuid_or u (some (null)) = err bad_response
uuid_or u (some v) = err (unexpected "AttributeError")

module _ (format : Format) (uuids : Uuids) where
  abbrev given : String → Json → Outcome String
  given k v = elim (get_key k v) [ none ↦ err bad_response | some w ↦ ok (format.str w) ]

  unfoldable pub credential_from : String → Option Json → Action Contents Credential
  credential_from gateway none = raise bad_response
  credential_from gateway (some v) = do
    device_id ← lift (uuid_or uuids (get_key "device_id" v))
    token ← lift (given "token" v)
    display_name ← lift (given "display_name" v)
    pure (record {
      gateway = gateway;
      device_id = device_id;
      token = token;
      display_name = display_name;
    })

  -- pair, with the response of the Gateway, or the error of the request
  unfoldable pub pair :
      FilePath → FilePath → Saving → String → Outcome Response → Action Contents Credential
  unfolding credential_from save
  pair temporary path a gateway posted = lift posted >>= λ response.
      guarded (response.status_code == 201) (value_error "pairing failed") (
        credential_from gateway response.body >>= λ c.
        save format temporary path a c >>= λ u. pure c)
