-- ===== src/Common/Errors.antt =====
-- The exceptions of the program: one constructor for each class that is raised, with the message
-- where the class is raised with several. Classes of other packages are `integrity_error`
-- (SQLAlchemy) and `unexpected`.
use gptlink.Prelude.{String, Bool, true, false}

pub data Exception : Type 0 where
  value_error : String → Exception
  permission_error : String → Exception
  key_error : Exception
  os_error : Exception
  timeout_error : Exception
  sandbox_error : String → Exception
  integrity_error : Exception
  device_permission_error : Exception
  repository_lease_conflict : Exception
  authentication_error : Exception
  replay_error : Exception
  lease_error : Exception
  lease_conflict_error : Exception
  pairing_error : String → Exception
  authorization_error : String → Exception
  connection_unavailable : String → Exception
  remote_operation_error : String → Exception
  action_protocol_error : String → Exception
  local_action_error : String → Exception
  chat_backend_error : String → Exception
  capability_unavailable : String → Exception
  unexpected : String → Exception

-- isinstance(error, (AuthorizationError, LeaseError, ReplayError)): a conflict is a LeaseError
abbrev pub is_denial : Exception → Bool
is_denial (authorization_error m) = true
is_denial lease_error = true
is_denial lease_conflict_error = true
is_denial replay_error = true
is_denial _ = false

-- type(error).__name__
abbrev pub type_name : Exception → String
type_name (value_error m) = "ValueError"
type_name (permission_error m) = "PermissionError"
type_name key_error = "KeyError"
type_name os_error = "OSError"
type_name timeout_error = "TimeoutError"
type_name (sandbox_error m) = "SandboxError"
type_name integrity_error = "IntegrityError"
type_name device_permission_error = "DevicePermissionError"
type_name repository_lease_conflict = "LeaseConflictError"
type_name authentication_error = "AuthenticationError"
type_name replay_error = "ReplayError"
type_name lease_error = "LeaseError"
type_name lease_conflict_error = "LeaseConflictError"
type_name (pairing_error m) = "PairingError"
type_name (authorization_error m) = "AuthorizationError"
type_name (connection_unavailable m) = "ConnectionUnavailable"
type_name (remote_operation_error c) = "RemoteOperationError"
type_name (action_protocol_error m) = "ActionProtocolError"
type_name (local_action_error m) = "LocalActionError"
type_name (chat_backend_error m) = "ChatBackendError"
type_name (capability_unavailable m) = "ChatBackendCapabilityError"
type_name (unexpected n) = n
