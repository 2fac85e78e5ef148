-- ===== src/Examples/Reports.antt =====
-- Requests of an agent.
use crystal_forge.Prelude.{
  ℕ, zero, suc, ◌+◌, ◌≡◌, refl, ◌↔◌, ◌⊎◌, String, true, false, none, some, Option, List, [], ◌∷◌,
  length, ok, ◌==◌, char_count,
}
use crystal_forge.Systems.{System}
use crystal_forge.Reports.{
  SystemState, ChangeReason, state_delta, from_str, to_string, valid_change_reason,
}
use crystal_forge.Reports.Reasons.{change_reason_texts}
use crystal_forge.Reports.Handlers.{
  Wire, Tables, log, is_heartbeat_change_reason, record_heartbeat_or_change, states_are_equivalent,
}
use crystal_forge.Reports.Recorded.{is_success_status, reports, SignedBy, log_lem}
use crystal_forge.Reports.Repeated.{heartbeat_repeated}

reason_example :
    ((from_str "state_delta" ≡ ok state_delta) ↔ ("state_delta" ≡ to_string state_delta))
    × ((valid_change_reason "state_delta" ≡ true)
        ↔ ((q : ChangeReason) × (from_str "state_delta" ≡ ok q)))
reason_example = change_reason_texts "state_delta" state_delta

abbrev state : String → SystemState ℕ ℕ
state reason = record {
  id = none;
  hostname = "gray";
  change_reason = reason;
  timestamp = some 50;
  store_path = some "/nix/store/abc-gray";
  os = some "25.11";
  kernel = some "6.12";
  memory_gb = some 16;
  uptime_secs = some 86400;
  cpu_brand = none;
  cpu_cores = some 4;
  board_serial = none;
  product_uuid = none;
  rootfs_uuid = none;
  chassis_serial = none;
  bios_version = none;
  cpu_microcode = none;
  network_interfaces = none;
  primary_mac_address = none;
  primary_ip_address = none;
  gateway_ip = none;
  selinux_status = none;
  tpm_present = some true;
  secure_boot_enabled = none;
  fips_mode = some false;
  agent_version = some "1.0";
  agent_build_hash = none;
  nixos_version = none;
  agent_compatible = none;
  partial_data = none;
}

abbrev zeros : ℕ → List ℕ
zeros zero = []
zeros (suc n) = 0 ∷ zeros n

abbrev gray : System
gray = record {
  id = 1;
  hostname = "gray";
  environment_id = none;
  is_active = true;
  public_key = "key";
  flake_id = some 1;
  derivation = "gray";
  created_at = 1;
  updated_at = 1;
  desired_target = none;
  deployment_policy = "manual";
}

-- A body is the reason of a heartbeat; every signature of 64 bytes is good.
abbrev wire : Wire String ℕ ℕ
wire = record {
  decode_base64 = λ s. some (zeros 64);
  verify = λ key body signature. true;
  from_slice = λ body. some (state body);
  from_slice_v1 = λ body. none;
  eq_f = λ a b. a == b;
  eq_j = λ a b. a == b;
}

abbrev tables : Tables ℕ ℕ
tables = record { systems = gray ∷ []; system_states = []; agent_heartbeats = [] }

abbrev headers : String → Option String
headers name = some "gray"

log_example :
    let end = log wire headers "heartbeat" 1 100 tables in
    ((is_success_status end.1.status ≡ true)
      × (reports end.0 ≡ reports tables + 1)
      × ((system : System) × SignedBy wire headers "heartbeat" (gray ∷ []) system))
    ⊎ ((is_success_status end.1.status ≡ false) × (reports end.0 ≡ reports tables))
log_example = log_lem wire headers "heartbeat" 1 100 tables

repeated_example :
    let once = record_heartbeat_or_change wire 1 (state "heartbeat") true 100 tables in
    let twice = record_heartbeat_or_change wire 2 (state "heartbeat") true 700 once.0 in
    (twice.1 ≡ true)
    × (twice.0.system_states ≡ once.0.system_states)
    × (length twice.0.agent_heartbeats ≡ length once.0.agent_heartbeats + 1)
unfolding states_are_equivalent is_heartbeat_change_reason char_count
repeated_example =
    heartbeat_repeated wire (state "heartbeat") 1 2 true 100 700 tables refl refl refl refl refl tt
