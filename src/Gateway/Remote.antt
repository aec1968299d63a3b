-- ===== src/Gateway/Remote.antt =====
-- src/gptlink/gateway/remote.py: each operation as a request to a device, over the registry of
-- connections. The random id of a request that names none is an argument.
use gptlink.Common.Types.{ShellKind}
use gptlink.Protocol.Messages.{Body, Message, command_output_request, is_valid, protocol_version}
use gptlink.Gateway.Registry.Requests.{Awaits, request}
use gptlink.Gateway.Registry.{Registry}
use gptlink.Common.Json.{Json}
use gptlink.Common.Action.{Action, guarded}
use gptlink.Common.Errors.{value_error}
use gptlink.Prelude.{Chars, Option, ℕ, ℤ}

abbrev pub envelope : ℕ → ℕ → Body → Message
envelope device_id request_id body = record {
  version = protocol_version;
  request_id = request_id;
  device_id = device_id;
  body = body;
}

-- _request, with a message whose fields are validated when it is built
unfoldable pub ask : ℕ → Awaits → Message → Action Registry Json
ask device_id w m = guarded (is_valid m) (value_error "validation error") (request device_id m w)

module _ (device_id : ℕ) (w : Awaits) (request_id : ℕ) where
  unfoldable pub filesystem_list : Chars → Action Registry Json
  filesystem_list path = ask device_id w (envelope device_id request_id (Body.filesystem_list path))

  unfoldable pub filesystem_read : Chars → Action Registry Json
  filesystem_read path = ask device_id w (envelope device_id request_id (Body.filesystem_read path))

  unfoldable pub filesystem_write : Chars → Chars → Action Registry Json
  filesystem_write path data' =
      ask device_id w (
        envelope device_id request_id
          (Body.filesystem_write (record { path = path; text = data' })))

  unfoldable pub filesystem_search : Chars → Chars → Action Registry Json
  filesystem_search path query = ask device_id w (
      envelope device_id request_id
        (Body.filesystem_search (record { path = path; query = query })))

  unfoldable pub command_start : Chars → ShellKind → Chars → ℤ → Action Registry Json
  command_start command shell cwd timeout = ask device_id w (
      envelope device_id request_id (
        Body.command_start
          (record { command = command; shell = shell; cwd = cwd; timeout = timeout })))

  unfoldable pub command_status : ℕ → Action Registry Json
  command_status job_id =
      ask device_id w (envelope device_id request_id (Body.command_status job_id))

  unfoldable pub command_output : ℕ → ℤ → Action Registry Json
  command_output job_id after_sequence =
      ask device_id w (envelope device_id request_id (command_output_request job_id after_sequence))

  unfoldable pub command_cancel : ℕ → Chars → Action Registry Json
  command_cancel job_id reason =
      ask device_id w (envelope device_id request_id (Body.command_cancel job_id reason))

  unfoldable pub git_status : Chars → Action Registry Json
  git_status path = ask device_id w (envelope device_id request_id (Body.git_status path))

  unfoldable pub git_diff : Chars → Option Chars → Action Registry Json
  git_diff path revision =
      ask device_id w (
        envelope device_id request_id (Body.git_diff (record { path = path; revision = revision })))

  unfoldable pub process_list : Action Registry Json
  process_list = ask device_id w (envelope device_id request_id Body.process_list)
