-- ===== src/Agent/Dispatcher/Tests.antt =====
-- Services that know one file, for src/gptlink/agent/dispatcher.py.
use gptlink.Gateway.Registry.Requests.{resolve}
use gptlink.Agent.Paths.{FilePath}
use gptlink.Protocol.Messages.{Message, filesystem_read, is_valid, protocol_version}
use gptlink.Agent.Dispatcher.{Services}
use gptlink.Agent.Dispatcher.Replies.{executed, learned, replied, reply_lem}
use gptlink.Gateway.Registry.{Connection, Entry, Registry, waiting}
use gptlink.Persistence.Samples.{tables}
use gptlink.Common.Json.{Json}
use gptlink.Common.Action.{Outcome, ok, pure, raise}
use gptlink.Common.Errors.{key_error, os_error, permission_error, sandbox_error}
use gptlink.Prelude.{
  Chars, Chars_eq, String, String_eq, [], codes, false, if◌then◌else◌, refl, true, ℕ, ℕ_eq, ◌==◌,
  ◌∷◌, ◌≡◌,
}

abbrev services : Services ℕ
services = record {
  list = λ p. pure [];
  read = λ p. if p == codes "/a" then pure (codes "hello") else raise os_error;
  write = λ p t. raise (permission_error "no");
  search = λ p q. pure [];
  resolve_existing = λ p. raise (sandbox_error "outside");
  start = λ d i c s p t. pure 9;
  status = λ j. raise key_error;
  output = λ j a. pure [];
  cancel = λ j. pure false;
  repository_status = λ p. pure [];
  repository_diff = λ p r. pure [];
  processes = pure [];
}

abbrev read_b : Message
read_b = record {
  version = protocol_version;
  request_id = 5;
  device_id = 1;
  body = filesystem_read (codes "/b");
}

abbrev socket : Connection
socket = record { id = 40; device_id = 1 }

abbrev item : Entry
item = record { device_id = 1; request_id = 5; owner = socket; future = 0 }

abbrev gateway : Registry
gateway = record {
  db = tables;
  connections = record { connection = socket; last_seen = 6 } ∷ [];
  pending = item ∷ [];
  futures = λ f. waiting;
  fresh = 1;
  closed = [];
}

abbrev start : ℕ
start = 3

abbrev path_text : FilePath → String
path_text p = "path"

abbrev number_text : ℕ → String
number_text n = "0"

abbrev chars_text : Chars → String
chars_text s = "text"

abbrev ran : Outcome Json × ℕ
ran = executed path_text number_text number_text chars_text services read_b start

abbrev answer_b : Message × ℕ
answer_b = replied path_text number_text number_text chars_text services read_b start

reply_lem_example :
    (answer_b.1 ≡ ran.1)
    × (answer_b.0.request_id ≡ 5)
    × (answer_b.0.device_id ≡ 1)
    × (is_valid answer_b.0 ≡ true)
    × ((resolve socket answer_b.0 gateway).0 ≡ ok true)
    × ((resolve socket answer_b.0 gateway).1.futures 0 ≡ learned ran.0)
reply_lem_example =
    reply_lem path_text number_text number_text chars_text services read_b start socket gateway item
      refl refl refl
