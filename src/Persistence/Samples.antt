-- ===== src/Persistence/Samples.antt =====
-- A device and tables for the tests of the modules that use the database.
use gptlink.Prelude.{[], codes, none, some, ◌∷◌}
use gptlink.Common.Types.{filesystem_read, filesystem_write, offline, read_write, revoked}
use gptlink.Persistence.Models.{Device, Tables}

abbrev pub laptop : Device
laptop = record {
  device_id = 1;
  display_name = "laptop";
  platform = "linux";
  hostname = "host";
  agent_version = "0.1.0";
  protocol_version = 1;
  capabilities = filesystem_read ∷ filesystem_write ∷ [];
  status = offline;
  permission_level = read_write;
  device_token_hash = codes "sha256$00$11";
  last_seen = none;
  created_at = 10;
  revoked_at = none;
}

abbrev pub retired_laptop : Device
retired_laptop = record laptop { device_id = 2; status = revoked; revoked_at = some 50 }

abbrev pub tables : Tables
tables = record {
  devices = laptop ∷ retired_laptop ∷ [];
  pairing_codes = [];
  request_claims = [];
  jobs = [];
  job_outputs = [];
  leases = [];
  approvals = [];
  audit_events = [];
}
