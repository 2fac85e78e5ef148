-- ===== src/Reports.antt =====
-- packages/default/src/models/system_states.rs and queries/system_states.rs: the states that agents
-- report, and the rows they become. `F` is the type of a 64-bit float, `J` that of a JSON value.
-- Times are milliseconds since the epoch.
pub mod Reasons
pub mod Handlers
pub mod Recorded
pub mod Repeated
use Prim.Native.String.{◌++◌ as str_append}
use crystal_forge.Prelude.{
  ℕ, ◌+◌, String, Bool, true, false, Option, none, some, List, [], ◌∷◌, ◌++◌, ◌||◌, not, Result, ok,
  err, message, check_violation, not_null_violation, is_none, if◌then◌else◌, str_eq, leb,
}
use crystal_forge.Table.{select_where}

pub data ChangeReason : Type 0 where
  startup config_change state_delta cf_deployment : ChangeReason

unfoldable pub to_string : ChangeReason → String
to_string startup = "startup"
to_string config_change = "config_change"
to_string state_delta = "state_delta"
to_string cf_deployment = "cf_deployment"

unfoldable pub from_str : String → Result ChangeReason
from_str s =
    if str_eq s "startup"
    then ok startup
    else if str_eq s "config_change"
    then ok config_change
    else if str_eq s "state_delta"
    then ok state_delta
    else if str_eq s "cf_deployment"
    then ok cf_deployment
    else err (message (str_append "Invalid change reason: " s))

pub record SystemStateV1 (F J : Type 0) : Type 0 where
  pub id : Option ℕ
  pub hostname : String
  pub context : String
  pub timestamp : Option ℕ
  pub store_path : Option String
  pub os : Option String
  pub kernel : Option String
  pub memory_gb : Option F
  pub uptime_secs : Option ℕ
  pub cpu_brand : Option String
  pub cpu_cores : Option ℕ
  pub board_serial : Option String
  pub product_uuid : Option String
  pub rootfs_uuid : Option String
  pub chassis_serial : Option String
  pub bios_version : Option String
  pub cpu_microcode : Option String
  pub network_interfaces : Option J
  pub primary_mac_address : Option String
  pub primary_ip_address : Option String
  pub gateway_ip : Option String
  pub selinux_status : Option String
  pub tpm_present : Option Bool
  pub secure_boot_enabled : Option Bool
  pub fips_mode : Option Bool
  pub agent_version : Option String
  pub agent_build_hash : Option String
  pub nixos_version : Option String

pub record SystemState (F J : Type 0) : Type 0 where
  pub id : Option ℕ
  pub hostname : String
  pub change_reason : String
  pub timestamp : Option ℕ
  pub store_path : Option String
  pub os : Option String
  pub kernel : Option String
  pub memory_gb : Option F
  pub uptime_secs : Option ℕ
  pub cpu_brand : Option String
  pub cpu_cores : Option ℕ
  pub board_serial : Option String
  pub product_uuid : Option String
  pub rootfs_uuid : Option String
  pub chassis_serial : Option String
  pub bios_version : Option String
  pub cpu_microcode : Option String
  pub network_interfaces : Option J
  pub primary_mac_address : Option String
  pub primary_ip_address : Option String
  pub gateway_ip : Option String
  pub selinux_status : Option String
  pub tpm_present : Option Bool
  pub secure_boot_enabled : Option Bool
  pub fips_mode : Option Bool
  pub agent_version : Option String
  pub agent_build_hash : Option String
  pub nixos_version : Option String
  pub agent_compatible : Option Bool
  pub partial_data : Option Bool

unfoldable pub map_v1_context : String → String
map_v1_context context =
    if str_eq context "agent-startup"
    then "startup"
    else if str_eq context "agent-loop"
    then "config_change"
    else if str_eq context "agent-heartbeat"
    then "state_delta"
    else context

unfoldable pub from_v1 : {F J : Type 0} → SystemStateV1 F J → SystemState F J
unfolding map_v1_context
from_v1 v1 = record {
  id = v1.id;
  hostname = v1.hostname;
  change_reason = map_v1_context v1.context;
  timestamp = v1.timestamp;
  store_path = v1.store_path;
  os = v1.os;
  kernel = v1.kernel;
  memory_gb = v1.memory_gb;
  uptime_secs = v1.uptime_secs;
  cpu_brand = v1.cpu_brand;
  cpu_cores = v1.cpu_cores;
  board_serial = v1.board_serial;
  product_uuid = v1.product_uuid;
  rootfs_uuid = v1.rootfs_uuid;
  chassis_serial = v1.chassis_serial;
  bios_version = v1.bios_version;
  cpu_microcode = v1.cpu_microcode;
  network_interfaces = v1.network_interfaces;
  primary_mac_address = v1.primary_mac_address;
  primary_ip_address = v1.primary_ip_address;
  gateway_ip = v1.gateway_ip;
  selinux_status = v1.selinux_status;
  tpm_present = v1.tpm_present;
  secure_boot_enabled = v1.secure_boot_enabled;
  fips_mode = v1.fips_mode;
  agent_version = v1.agent_version;
  agent_build_hash = v1.agent_build_hash;
  nixos_version = v1.nixos_version;
  agent_compatible = some true;
  partial_data = some false;
}

unfoldable pub get_change_reason : {F J : Type 0} → SystemState F J → Result ChangeReason
unfolding from_str
get_change_reason s = from_str s.change_reason

unfoldable pub set_change_reason : {F J : Type 0} → ChangeReason → SystemState F J → SystemState F J
unfolding to_string
set_change_reason reason s = record s { change_reason = to_string reason }

abbrev pub is_cf_deployment : Result ChangeReason → Bool
is_cf_deployment (ok cf_deployment) = true
is_cf_deployment _ = false

unfoldable pub is_deployment : {F J : Type 0} → SystemState F J → Bool
unfolding get_change_reason
is_deployment s = is_cf_deployment (get_change_reason s)

-- The reason that is stored.
unfoldable pub stored_reason : String → String
stored_reason reason = if str_eq reason "heartbeat" then "startup" else reason

-- The constraint valid_change_reason of migration 0053.
unfoldable pub valid_change_reason : String → Bool
valid_change_reason s =
    str_eq s "startup"
    || str_eq s "config_change"
    || str_eq s "state_delta"
    || str_eq s "cf_deployment"

-- The row of the INSERT: its id comes from the sequence, its time is the default NOW().
unfoldable pub new_state : {F J : Type 0} → ℕ → Bool → ℕ → SystemState F J → SystemState F J
unfolding stored_reason
new_state id version_compatible now state = record {
  id = some id;
  hostname = state.hostname;
  change_reason = stored_reason state.change_reason;
  timestamp = some now;
  store_path = state.store_path;
  os = state.os;
  kernel = state.kernel;
  memory_gb = state.memory_gb;
  uptime_secs = state.uptime_secs;
  cpu_brand = state.cpu_brand;
  cpu_cores = state.cpu_cores;
  board_serial = state.board_serial;
  product_uuid = state.product_uuid;
  rootfs_uuid = state.rootfs_uuid;
  chassis_serial = state.chassis_serial;
  bios_version = state.bios_version;
  cpu_microcode = state.cpu_microcode;
  network_interfaces = state.network_interfaces;
  primary_mac_address = state.primary_mac_address;
  primary_ip_address = state.primary_ip_address;
  gateway_ip = state.gateway_ip;
  selinux_status = state.selinux_status;
  tpm_present = state.tpm_present;
  secure_boot_enabled = state.secure_boot_enabled;
  fips_mode = state.fips_mode;
  agent_version = state.agent_version;
  agent_build_hash = state.agent_build_hash;
  nixos_version = state.nixos_version;
  agent_compatible = some version_compatible;
  partial_data = some (not version_compatible);
}

-- store_path is NOT NULL (migrations 0001 and 0065); the other columns that are bound may be NULL or
-- are never missing.
unfoldable pub insert_system_state :
    {F J : Type 0}
    → ℕ
    → SystemState F J
    → Bool
    → ℕ
    → List (SystemState F J)
    → List (SystemState F J) × Result (Unit {0})
unfolding new_state valid_change_reason
insert_system_state id state version_compatible now states =
    if is_none state.store_path
    then (states, err not_null_violation)
    else if valid_change_reason (stored_reason state.change_reason)
    then (states ++ new_state id version_compatible now state ∷ [], ok tt)
    else (states, err check_violation)

-- DESC puts a missing time first; of two equal ones the later row is taken here.
abbrev pub later : Option ℕ → Option ℕ → Bool
later a none = true
later none (some n) = false
later (some m) (some n) = leb m n

-- ORDER BY timestamp DESC LIMIT 1
unfoldable pub newest : {F J : Type 0} → List (SystemState F J) → Option (SystemState F J)
newest [] = none
newest (s ∷ ss) = elim (newest ss) [
  | none ↦ some s
  | some t ↦ some (if later s.timestamp t.timestamp then t else s)
]

unfoldable pub get_last_system_state_by_hostname :
    {F J : Type 0} → String → List (SystemState F J) → Option (SystemState F J)
unfolding newest
get_last_system_state_by_hostname hostname states =
    newest (select_where (λ s. str_eq s.hostname hostname) states)

unfoldable pub get_latest_system_state_id :
    {F J : Type 0} → String → List (SystemState F J) → Option ℕ
unfolding newest
get_latest_system_state_id hostname states =
    elim (newest (select_where (λ s. str_eq s.hostname hostname) states)) [
      | none ↦ none
      | some s ↦ s.id
    ]
