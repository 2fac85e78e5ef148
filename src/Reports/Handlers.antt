-- ===== src/Reports/Handlers.antt =====
-- handlers/agent_request.rs, handlers/agent/ and models/agent_heartbeats.rs: how the server answers a
-- request of an agent. Base64, Ed25519 and JSON are operations of a parameter; no query is assumed to
-- fail but for a constraint of the table.
use crystal_forge.Prelude.{
  ℕ, String, Bool, true, false, Option, none, some, List, [], ◌∷◌, ◌++◌, ◌&&◌, ◌==◌, not, length,
  Result, ok, err, if◌then◌else◌, str_eq, leb, message, char_count,
}
use crystal_forge.Table.{find}
use crystal_forge.Systems.{System, has_hostname}
use crystal_forge.Reports.{
  SystemState, SystemStateV1, from_v1, insert_system_state, get_last_system_state_by_hostname,
  get_latest_system_state_id,
}

pub data StatusCode : Type 0 where
  status_ok status_accepted bad_request unauthorized internal_server_error : StatusCode

-- `B` is the type of a body. A signature is a list of bytes.
pub record Wire (B F J : Type 0) : Type 0 where
  pub decode_base64 : String → Option (List ℕ)
  pub verify : String → B → List ℕ → Bool
  pub from_slice : B → Option (SystemState F J)
  pub from_slice_v1 : B → Option (SystemStateV1 F J)
  pub eq_f : F → F → Bool
  pub eq_j : J → J → Bool

pub record AgentHeartbeat : Type 0 where
  pub system_state_id : ℕ
  pub timestamp : ℕ
  pub agent_version : Option String
  pub agent_build_hash : Option String

pub record Tables (F J : Type 0) : Type 0 where
  pub systems : List System
  pub system_states : List (SystemState F J)
  pub agent_heartbeats : List AgentHeartbeat

pub data Checked (A : Type 0) : Type 0 where
  passed : A → Checked A
  refused : StatusCode → Checked A

-- The answer to a request: the status, and the desired target where there is a body.
pub record Response : Type 0 where
  pub status : StatusCode
  pub desired_target : Option (Option String)

abbrev pub only : StatusCode → Response
only code = record { status = code; desired_target = none }

abbrev pub or_refuse : {A : Type 0} → StatusCode → Option A → Checked A
or_refuse code none = refused code
or_refuse code (some a) = passed a

abbrev pub and_then : {A C : Type 0} → Checked A → (A → Checked C) → Checked C
and_then (passed a) f = f a
and_then (refused code) f = refused code

abbrev pub require : StatusCode → Bool → Checked (Unit {0})
require code true = passed tt
require code false = refused code

abbrev pub opt_eq_by : {A : Type 0} → (A → A → Bool) → Option A → Option A → Bool
opt_eq_by eq none none = true
opt_eq_by eq (some a) (some b) = eq a b
opt_eq_by eq _ _ = false

abbrev pub bool_eq : Bool → Bool → Bool
bool_eq true b = b
bool_eq false b = not b

abbrev pub opt_str_eq : Option String → Option String → Bool
opt_str_eq = opt_eq_by str_eq

abbrev pub is_ok : Result (Unit {0}) → Bool
is_ok (ok _) = true
is_ok (err e) = false

unfoldable pub get_by_hostname : String → List System → Option System
get_by_hostname hostname = find (has_hostname hostname)

abbrev pub target_of : Option System → Option String
target_of none = none
target_of (some s) = s.desired_target

unfoldable pub get_desired_target_by_hostname : String → List System → Option String
get_desired_target_by_hostname hostname systems = target_of (find (has_hostname hostname) systems)

unfoldable pub is_heartbeat_change_reason : String → Bool
is_heartbeat_change_reason reason = str_eq reason "heartbeat"

-- `database_error` is never given, as errors of the connection are left out.
pub data StateChangeRequired : Type 0 where
  not_heartbeat_type first_report state_changed database_error : StateChangeRequired

pub data HeartbeatOrChange : Type 0 where
  heartbeat : AgentHeartbeat → HeartbeatOrChange
  change : StateChangeRequired → HeartbeatOrChange

-- A text of at most so many characters, or NULL.
abbrev pub fits_varchar : ℕ → Option String → Bool
fits_varchar n none = true
fits_varchar n (some s) = leb (char_count s) n

-- queries/agent_heartbeat.rs; the columns are varchar(50) and varchar(64) (migration 0009).
unfoldable pub insert_agent_heartbeat :
    AgentHeartbeat → List AgentHeartbeat → List AgentHeartbeat × Result (Unit {0})
insert_agent_heartbeat row rows =
    if fits_varchar 50 row.agent_version && fits_varchar 64 row.agent_build_hash
    then (rows ++ row ∷ [], ok tt)
    else (rows, err (message "value too long for type character varying"))

module _ {B F J : Type 0} (wire : Wire B F J) where
  -- A signature of 64 bytes by the key of the system that the header names.
  unfoldable pub authenticate_agent_request :
      (String → Option String) → B → List System → Checked System
  unfolding get_by_hostname
  authenticate_agent_request headers body systems =
      and_then (or_refuse unauthorized (headers "X-Key-ID")) λ key_id.
        and_then (or_refuse unauthorized (headers "X-Signature")) λ sig.
          and_then (or_refuse bad_request (wire.decode_base64 sig)) λ signature.
            and_then (require bad_request (length signature == 64)) λ _.
              and_then (or_refuse unauthorized (get_by_hostname key_id systems)) λ system.
                and_then (require unauthorized (wire.verify system.public_key body signature))
                  λ _. passed system

  unfoldable pub deserialize_system_state_versioned : B → Option (SystemState F J × Bool)
  unfolding from_v1
  deserialize_system_state_versioned body = elim (wire.from_slice body) [
    | some state ↦ some (state, true)
    | none ↦ elim (wire.from_slice_v1 body) [ some old ↦ some (from_v1 old, false) | none ↦ none ]
  ]

  unfoldable pub states_are_equivalent : SystemState F J → SystemState F J → Bool
  states_are_equivalent current previous =
      str_eq current.hostname previous.hostname
      && opt_str_eq current.store_path previous.store_path
      && opt_str_eq current.os previous.os
      && opt_str_eq current.kernel previous.kernel
      && opt_eq_by wire.eq_f current.memory_gb previous.memory_gb
      && opt_str_eq current.cpu_brand previous.cpu_brand
      && opt_eq_by (λ a b. a == b) current.cpu_cores previous.cpu_cores
      && opt_str_eq current.board_serial previous.board_serial
      && opt_str_eq current.product_uuid previous.product_uuid
      && opt_str_eq current.rootfs_uuid previous.rootfs_uuid
      && opt_str_eq current.chassis_serial previous.chassis_serial
      && opt_str_eq current.bios_version previous.bios_version
      && opt_str_eq current.cpu_microcode previous.cpu_microcode
      && opt_eq_by wire.eq_j current.network_interfaces previous.network_interfaces
      && opt_str_eq current.primary_mac_address previous.primary_mac_address
      && opt_str_eq current.primary_ip_address previous.primary_ip_address
      && opt_str_eq current.gateway_ip previous.gateway_ip
      && opt_str_eq current.selinux_status previous.selinux_status
      && opt_eq_by bool_eq current.tpm_present previous.tpm_present
      && opt_eq_by bool_eq current.secure_boot_enabled previous.secure_boot_enabled
      && opt_eq_by bool_eq current.fips_mode previous.fips_mode
      && opt_str_eq current.agent_version previous.agent_version
      && opt_str_eq current.agent_build_hash previous.agent_build_hash
      && opt_str_eq current.nixos_version previous.nixos_version

  -- `now` stands in where the state has no time.
  unfoldable pub new_heartbeat : ℕ → ℕ → SystemState F J → AgentHeartbeat
  new_heartbeat state_id now state = record {
    system_state_id = state_id;
    timestamp = elim state.timestamp [ none ↦ now | some t ↦ t ];
    agent_version = state.agent_version;
    agent_build_hash = state.agent_build_hash;
  }

  unfoldable pub from_system_state_if_heartbeat :
      SystemState F J → ℕ → List (SystemState F J) → HeartbeatOrChange
  unfolding is_heartbeat_change_reason states_are_equivalent new_heartbeat
  from_system_state_if_heartbeat state now states =
      if not (is_heartbeat_change_reason state.change_reason)
      then change not_heartbeat_type
      else elim (get_last_system_state_by_hostname state.hostname states) [
        | none ↦ change first_report
        | some last ↦
            if states_are_equivalent state last
            then elim (get_latest_system_state_id state.hostname states) [
              | none ↦ change first_report
              | some id ↦ heartbeat (new_heartbeat id now state)
            ]
            else change state_changed
      ]

  abbrev pub success_status : Bool → StatusCode
  success_status version_compatible = if version_compatible then status_ok else status_accepted

  -- The state is stored, or the request fails.
  unfoldable pub record_change : ℕ → SystemState F J → Bool → ℕ → Tables F J → Tables F J × Bool
  record_change id state version_compatible now db =
      let inserted = insert_system_state id state version_compatible now db.system_states in
      (record db { system_states = inserted.0 }, is_ok inserted.1)

  -- A heartbeat, or a state that is stored.
  unfoldable pub record_heartbeat_or_change :
      ℕ → SystemState F J → Bool → ℕ → Tables F J → Tables F J × Bool
  unfolding from_system_state_if_heartbeat record_change insert_agent_heartbeat
  record_heartbeat_or_change id state version_compatible now db =
      elim (from_system_state_if_heartbeat state now db.system_states) [
        | heartbeat row ↦
            let inserted = insert_agent_heartbeat row db.agent_heartbeats in
            (record db { agent_heartbeats = inserted.0 }, is_ok inserted.1)
        | change reason ↦ record_change id state version_compatible now db
      ]

  -- handlers/agent/heartbeat.rs
  unfoldable pub log : (String → Option String) → B → ℕ → ℕ → Tables F J → Tables F J × Response
  unfolding authenticate_agent_request deserialize_system_state_versioned record_heartbeat_or_change
  log headers body id now db = elim (authenticate_agent_request headers body db.systems) [
    | refused code ↦ (db, only code)
    | passed system ↦ elim (deserialize_system_state_versioned body) [
      | none ↦ (db, only bad_request)
      | some (payload, version_compatible) ↦
          let stored = record_heartbeat_or_change id payload version_compatible now db in
          (
            stored.0,
            if stored.1
                then record {
                  status = success_status version_compatible;
                  desired_target =
                      some (get_desired_target_by_hostname system.hostname stored.0.systems);
                }
                else only internal_server_error,
          )
    ]
  ]

  -- handlers/agent/state.rs
  unfoldable pub update :
      (String → Option String) → B → ℕ → ℕ → Tables F J → Tables F J × StatusCode
  unfolding authenticate_agent_request deserialize_system_state_versioned record_change
  update headers body id now db = elim (authenticate_agent_request headers body db.systems) [
    | refused code ↦ (db, code)
    | passed system ↦ elim (deserialize_system_state_versioned body) [
      | none ↦ (db, bad_request)
      | some (payload, version_compatible) ↦
          let stored = record_change id payload version_compatible now db in
          (stored.0, if stored.1 then success_status version_compatible else internal_server_error)
    ]
  ]
