-- ===== src/Agent/Assembly/Tests.antt =====
-- A read-only Agent on Windows, for src/gptlink/agent/runtime.py and src/gptlink/common/config.py.
use gptlink.Agent.Assembly.{
  Built, build_agent, build_windows_agent, services_of, windows_capabilities,
}
use gptlink.Agent.Assembly.ReadOnly.{Refuses, is_writing, read_only_agent}
use gptlink.Common.Config.{Settings, validated}
use gptlink.Agent.Paths.{Disk, FilePath, sandbox}
use gptlink.Common.Types.{Capability, cmd, read_only}
use gptlink.Common.Action.{err, ok, ◌>>=◌}
use gptlink.Prelude.{List, [], codes, false, none, refl, some, true, ◌∷◌, ◌≡◌}
use gptlink.Common.Errors.{value_error}

abbrev disk : Disk
disk = record {
  expanduser = λ p. ok p;
  resolve_strict = λ p. ok p;
  resolve = λ p. ok p;
  exists = λ p. true;
  is_dir = λ p. true;
}

abbrev work : FilePath
work = record { absolute = true; parts = "work" ∷ [] }

abbrev settings : Settings
settings = record {
  production = false;
  gateway_host = "127.0.0.1";
  gateway_port = 8000;
  gateway_url = codes "http://127.0.0.1:8000";
  database_url = "sqlite";
  agent_roots = work ∷ [];
  agent_wsl_roots = codes "/home" ∷ [];
  agent_permission_level = read_only;
  max_concurrent_jobs = 2;
  max_command_length = 4096;
  max_file_bytes = 1048576;
  max_search_results = 1000;
  max_job_output_bytes = 1048576;
  web2api_url = codes "http://127.0.0.1:8081";
  local_max_actions_per_turn = 20;
  heartbeat_interval = 10000000;
  offline_threshold = 30000000;
  handshake_timeout = 10000000;
  mcp_token = none;
  mcp_caller = codes "me";
}

settings_valid : validated (λ p. codes "/work") (λ u. "http") ok settings ≡ ok settings
unfolding validated
settings_valid = refl

needs_tls :
    validated (λ p. codes "/work") (λ u. "http") ok (record settings { production = true })
    ≡ err (value_error "validation error")
unfolding validated
needs_tls = refl

drive_refused :
    validated (λ p. codes "C:/") (λ u. "http") ok settings ≡ err (value_error "validation error")
unfolding validated
drive_refused = refl

abbrev held : List Capability
held = windows_capabilities (cmd ∷ []) settings

abbrev built : Built
built = record {
  capabilities = held;
  services = some (services_of (work ∷ []) read_only held settings);
}

is_built : (build_agent disk true (cmd ∷ []) settings tt).0 ≡ ok built
unfolding build_agent build_windows_agent sandbox ◌>>=◌
is_built = refl

read_only_agent_example :
    (is_writing built.capabilities ≡ false)
    × ((services_of (work ∷ []) read_only held settings).files.capabilities ≡ built.capabilities)
    × Refuses disk (services_of (work ∷ []) read_only held settings)
read_only_agent_example =
    read_only_agent disk true (cmd ∷ []) settings tt built
      (services_of (work ∷ []) read_only held settings) is_built refl refl
