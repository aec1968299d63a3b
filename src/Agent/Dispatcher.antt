-- ===== src/Agent/Dispatcher.antt =====
-- src/gptlink/agent/dispatcher.py: which service a message runs, and the reply to it. The services
-- are a record of operations on their common state.
pub mod Replies
mod Tests
use gptlink.Protocol.Messages.{
  Body, Message, command_cancel, command_output_request, command_start, command_status, error,
  filesystem_list, filesystem_read, filesystem_search, filesystem_write, git_diff, git_status,
  operation_result, process_list, protocol_version,
}
use gptlink.Agent.Files.{FilesystemEntry}
use gptlink.Agent.Jobs.{JobResult, OutputChunk}
use gptlink.Agent.Reads.{ProcessInfo}
use gptlink.Agent.Paths.{FilePath}
use gptlink.Common.Json.{
  Items, Json, array, boolean, cons, end, field, nil, null, number, object, text,
}
use gptlink.Common.Types.{
  JobStatus, ShellKind, StreamKind, cancelled, failed, pending, running, stderr, stdout, succeeded,
  timed_out, wsl,
}
use gptlink.Common.Action.{Action, Outcome, err, ok, pure, raise, ◌>>=◌, ◌>>◌}
use gptlink.Common.Errors.{value_error}
use gptlink.Prelude.{
  Bool, Chars, List, Option, String, [], false, if◌then◌else◌, none, pos, some, true, ℕ, ℤ, ◌∷◌,
}

-- where a command runs: `shell` WSL has its own paths
pub data Cwd : Type 0 where
  resolved : FilePath → Cwd
  as_given : Chars → Cwd

-- FilesystemOperations, JobManager, GitReadService and ProcessReader
pub record Services (S : Type 0) : Type 0 where
  pub list : Chars → Action S (List FilesystemEntry)
  pub read : Chars → Action S Chars
  pub write : Chars → Chars → Action S Unit
  pub search : Chars → Chars → Action S (List FilesystemEntry)
  pub resolve_existing : Chars → Action S FilePath
  pub start : (device_id request_id : ℕ) → Chars → ShellKind → Cwd → ℤ → Action S ℕ
  pub status : ℕ → Action S JobResult
  pub output : ℕ → ℤ → Action S (List OutputChunk)
  pub cancel : ℕ → Action S Bool
  pub repository_status : Chars → Action S Chars
  pub repository_diff : Chars → Option Chars → Action S Chars
  pub processes : Action S (List ProcessInfo)

abbrev is_wsl : ShellKind → Bool
is_wsl wsl = true
is_wsl _ = false

abbrev stream_value : StreamKind → String
stream_value stdout = "stdout"
stream_value stderr = "stderr"

abbrev job_value : JobStatus → String
job_value pending = "PENDING"
job_value running = "RUNNING"
job_value succeeded = "SUCCEEDED"
job_value failed = "FAILED"
job_value cancelled = "CANCELLED"
job_value timed_out = "TIMED_OUT"

abbrev natural : ℕ → Json
natural n = number (pos n)

abbrev or_null : Option ℤ → Json
or_null none = null
or_null (some n) = number n

abbrev items : {A : Type 0} → (A → Json) → List A → Items
items f [] = nil
items f (a ∷ as') = cons (f a) (items f as')

-- str(Path), str(UUID), isoformat and the text of code points are parameters
module _ (path_text : FilePath → String) (uuid_text isoformat : ℕ → String)
    (chars_text : Chars → String) where
  -- asdict
  entry_json : FilesystemEntry → Json
  entry_json e = object (
      field "name" (text e.name) (
        field "path" (text (path_text e.path))
          (field "kind" (text e.kind) (field "size" (natural e.size) end))))

  process_json : ProcessInfo → Json
  process_json p =
      object (field "pid" (natural p.pid) (field "command" (text (chars_text p.command)) end))

  chunk_json : ℕ → OutputChunk → Json
  chunk_json job_id c = object (
      field "job_id" (text (uuid_text job_id)) (
        field "sequence_number" (natural c.sequence_number) (
          field "stream" (text (stream_value c.stream))
            (field "timestamp" (text (isoformat c.timestamp)) (field "data" (text c.text) end)))))

  -- _job_result
  job_result : JobResult → Json
  job_result r = object (
      field "job_id" (text (uuid_text r.job_id)) (
        field "status" (text (job_value r.status)) (
          field "exit_code" (or_null r.exit_code)
            (field "output_truncated" (boolean r.output_truncated) end))))

  abbrev under : String → Json → Json
  under k v = object (field k v end)

  module _ {S : Type 0} (services : Services S) where
    cwd_of : ShellKind → Chars → Action S Cwd
    cwd_of shell cwd =
        if is_wsl shell
        then pure (as_given cwd)
        else (services.resolve_existing cwd >>= λ p. pure (resolved p))

    -- _execute
    unfoldable pub execute : (device_id request_id : ℕ) → Body → Action S Json
    unfolding entry_json process_json chunk_json job_result cwd_of
    execute d i (filesystem_list path) =
        services.list path >>= λ es. pure (array (items entry_json es))
    execute d i (filesystem_read path) =
        services.read path >>= λ s. pure (under "content" (text (chars_text s)))
    execute d i (filesystem_write p) =
        services.write p.path p.text >>= λ u. pure (under "written" (boolean true))
    execute d i (filesystem_search p) =
        services.search p.path p.query >>= λ es. pure (array (items entry_json es))
    execute d i (git_status path) =
        services.repository_status path >>= λ s. pure (under "output" (text (chars_text s)))
    execute d i (git_diff p) = services.repository_diff p.path p.revision >>= λ s.
        pure (under "output" (text (chars_text s)))
    execute d i process_list = services.processes >>= λ ps. pure (array (items process_json ps))
    execute d i (command_start p) = do
      cwd ← cwd_of p.shell p.cwd
      job_id ← services.start d i p.command p.shell cwd p.timeout
      pure (under "job_id" (text (uuid_text job_id)))
    execute d i (command_status j) = services.status j >>= λ r. pure (job_result r)
    execute d i (command_output_request j after) =
        services.output j after >>= λ cs. pure (array (items (chunk_json j) cs))
    execute d i (command_cancel j reason) =
        services.cancel j >>= λ b. pure (under "cancelled" (boolean b))
    execute d i _ = raise (value_error "unsupported Agent operation")

    -- the body of the reply: no exception's text is in it
    unfoldable pub answered : Outcome Json → Body
    answered (ok v) = operation_result v
    answered (err e) = error (record {
      code = "operation_failed";
      message = "Agent operation failed";
      retryable = false;
    })

    unfoldable pub dispatch : Message → S → Message × S
    unfolding answered execute
    dispatch m s =
        let (o, s') = execute m.device_id m.request_id m.body s in
        (
          record {
            version = protocol_version;
            request_id = m.request_id;
            device_id = m.device_id;
            body = answered o;
          },
          s',
        )
