-- ===== src/Reports/Recorded.antt =====
-- What a request leaves in the tables.
use crystal_forge.Prelude.{
  ℕ, ◌+◌, ◌≡◌, refl, ap, ◌∙◌, String, Bool, true, false, Bool-cases, Option-cases, inl, inr, ◌⊎◌,
  Option, none, some, List, [], ◌∷◌, ◌==◌, ==_iff, length, length-append, arith, if◌then◌else◌,
  is_none, ◌&&◌,
}
use mathlib.Core.Path.{subst}
use crystal_forge.Table.{find}
use crystal_forge.Systems.{System, has_hostname}
use crystal_forge.Reports.{
  SystemState, insert_system_state, new_state, valid_change_reason, stored_reason,
}
use crystal_forge.Reports.Handlers.{
  StatusCode, status_ok, status_accepted, Wire, Tables, AgentHeartbeat, Checked, passed, refused,
  HeartbeatOrChange, StateChangeRequired, unauthorized, bad_request, and_then, or_refuse, require,
  get_by_hostname, heartbeat, change, authenticate_agent_request,
  deserialize_system_state_versioned, from_system_state_if_heartbeat, record_change,
  record_heartbeat_or_change, log, success_status, insert_agent_heartbeat, fits_varchar, is_ok,
}

abbrev pub is_success_status : StatusCode → Bool
is_success_status status_ok = true
is_success_status status_accepted = true
is_success_status _ = false

abbrev pub reports : {F J : Type 0} → Tables F J → ℕ
reports db = length db.system_states + length db.agent_heartbeats

and_then_passed :
    {A C : Type 0} (x : Checked A) (f : A → Checked C) (c : C)
    → and_then x f ≡ passed c
    → (a : A) × (x ≡ passed a) × (f a ≡ passed c)
and_then_passed (passed a) f c h = (a, refl, h)
and_then_passed (refused code) f c h = cc

or_refuse_passed :
    {A : Type 0} (code : StatusCode) (o : Option A) (a : A)
    → or_refuse code o ≡ passed a
    → o ≡ some a
or_refuse_passed code none a h = cc
or_refuse_passed code (some b) a h = cc

require_passed : (code : StatusCode) (b : Bool) → require code b ≡ passed tt → b ≡ true
require_passed code true h = refl
require_passed code false h = cc

HeartbeatOrChange-cases :
    (x : HeartbeatOrChange)
    → ((row : AgentHeartbeat) × (x ≡ heartbeat row))
      ⊎ ((reason : StateChangeRequired) × (x ≡ change reason))
HeartbeatOrChange-cases (heartbeat row) = inl (row, refl)
HeartbeatOrChange-cases (change reason) = inr (reason, refl)

-- Refusals are errors.
abbrev Refuses : {A : Type 0} → Checked A → Type 0
Refuses x = (code : StatusCode) → x ≡ refused code → is_success_status code ≡ false

and_then-Refuses :
    {A C : Type 0} (x : Checked A) (f : A → Checked C)
    → Refuses x
    → ((a : A) → Refuses (f a))
    → Refuses (and_then x f)
and_then-Refuses (passed a) f hx hf code h = hf a code h
and_then-Refuses (refused c) f hx hf code h = hx code (let same : c ≡ code = cc in ap refused same)

or_refuse-Refuses :
    {A : Type 0} (c : StatusCode) (o : Option A)
    → is_success_status c ≡ false
    → Refuses (or_refuse c o)
or_refuse-Refuses c none e code h =
    let same : c ≡ code = cc in subst (λ d. is_success_status d ≡ false) same e
or_refuse-Refuses c (some a) e code h = cc

require-Refuses : (c : StatusCode) (b : Bool) → is_success_status c ≡ false → Refuses (require c b)
require-Refuses c false e code h =
    let same : c ≡ code = cc in subst (λ d. is_success_status d ≡ false) same e
require-Refuses c true e code h = cc

passed-Refuses : {A : Type 0} (a : A) → Refuses (passed a)
passed-Refuses a code h = cc

Checked-cases :
    {A : Type 0} (x : Checked A)
    → ((a : A) × (x ≡ passed a)) ⊎ ((code : StatusCode) × (x ≡ refused code))
Checked-cases (passed a) = inl (a, refl)
Checked-cases (refused code) = inr (code, refl)

module _ {B F J : Type 0} (wire : Wire B F J) where
  -- The request is signed by the system that it names.
  abbrev pub SignedBy : (String → Option String) → B → List System → System → Type 0
  SignedBy headers body systems system =
      (key_id : String) × (sig : String) × (signature : List ℕ) × (headers "X-Key-ID" ≡ some key_id)
      × (headers "X-Signature" ≡ some sig)
      × (wire.decode_base64 sig ≡ some signature)
      × (length signature ≡ 64)
      × (find (has_hostname key_id) systems ≡ some system)
      × (wire.verify system.public_key body signature ≡ true)

  authenticated :
      (headers : String → Option String) (body : B) (systems : List System) (system : System)
      → authenticate_agent_request wire headers body systems ≡ passed system
      → SignedBy headers body systems system
  unfolding authenticate_agent_request get_by_hostname
  authenticated headers body systems system h =
      let (key_id, named, h1) = and_then_passed _ _ system h in
      let (sig, given, h2) = and_then_passed _ _ system h1 in
      let (signature, decoded, h3) = and_then_passed _ _ system h2 in
      let (_, long, h4) = and_then_passed _ _ system h3 in
      let (found, known, h5) = and_then_passed _ _ system h4 in
      let (_, verified, h6) = and_then_passed _ _ system h5 in
      let same : found ≡ system = cc in
      (
        key_id,
        sig,
        signature,
        or_refuse_passed unauthorized _ key_id named,
        or_refuse_passed unauthorized _ sig given,
        or_refuse_passed bad_request _ signature decoded,
        (==_iff (length signature) 64).0 (require_passed bad_request _ long),
        or_refuse_passed unauthorized _ found known ∙ ap some same,
        subst (λ s. wire.verify s.public_key body signature ≡ true) same
            (require_passed unauthorized _ verified),
      )

  record_change_lem :
      (id : ℕ) (state : SystemState F J) (v : Bool) (now : ℕ) (db : Tables F J)
      → let end = record_change wire id state v now db in
        reports end.0 ≡ reports db + (if end.1 then 1 else 0)
  unfolding record_change insert_system_state
  record_change_lem id state v now db = elim (Bool-cases (is_none state.store_path)) [
    | inl missing ↦ rw missing (omega arith)
    | inr there ↦ elim (Bool-cases (valid_change_reason (stored_reason state.change_reason))) [
      | inl e ↦
          rw there rw e
            (omega (arith, length-append db.system_states (new_state id v now state ∷ [])))
      | inr e ↦ rw there rw e (omega arith)
    ]
  ]

  insert_agent_heartbeat_lem :
      (row : AgentHeartbeat) (rows : List AgentHeartbeat)
      → let end = insert_agent_heartbeat row rows in
        length end.0 ≡ length rows + (if is_ok end.1 then 1 else 0)
  unfolding insert_agent_heartbeat
  insert_agent_heartbeat_lem row rows =
      elim (Bool-cases
        (fits_varchar 50 row.agent_version && fits_varchar 64 row.agent_build_hash)) [
          | inl fits ↦ rw fits (length-append rows (row ∷ []))
          | inr long ↦ rw long (omega arith)
        ]

  record_heartbeat_or_change_lem :
      (id : ℕ) (state : SystemState F J) (v : Bool) (now : ℕ) (db : Tables F J)
      → let end = record_heartbeat_or_change wire id state v now db in
        reports end.0 ≡ reports db + (if end.1 then 1 else 0)
  unfolding record_heartbeat_or_change
  record_heartbeat_or_change_lem id state v now db =
      elim (HeartbeatOrChange-cases
        (from_system_state_if_heartbeat wire state now db.system_states)) [
          | inl (row, e) ↦
              rw (e, record_heartbeat_or_change)
                (omega (arith, insert_agent_heartbeat_lem row db.agent_heartbeats))
          | inr (reason, e) ↦
              rw (e, record_heartbeat_or_change) (record_change_lem id state v now db)
        ]

  success_status_lem : (v : Bool) → is_success_status (success_status wire v) ≡ true
  success_status_lem true = refl
  success_status_lem false = refl

  -- Every refusal is an error.
  authenticate-Refuses :
      (headers : String → Option String) (body : B) (systems : List System)
      → Refuses (authenticate_agent_request wire headers body systems)
  unfolding authenticate_agent_request
  authenticate-Refuses headers body systems =
      and_then-Refuses _ _ (or_refuse-Refuses unauthorized (headers "X-Key-ID") refl) λ key_id.
        and_then-Refuses _ _ (or_refuse-Refuses unauthorized (headers "X-Signature") refl) λ sig.
          and_then-Refuses _ _ (or_refuse-Refuses bad_request (wire.decode_base64 sig) refl)
            λ signature.
              and_then-Refuses _ _ (require-Refuses bad_request (length signature == 64) refl) λ _.
                and_then-Refuses _ _
                  (or_refuse-Refuses unauthorized (get_by_hostname key_id systems) refl)
                  λ system.
                    and_then-Refuses _ _
                      (require-Refuses unauthorized (wire.verify system.public_key body signature)
                        refl)
                      λ _. passed-Refuses system

  -- A request is answered with 200 or 202 exactly if it is recorded: then one row more is in the two
  -- tables together, and the request carried a signature of 64 bytes by the key of the system that it
  -- names. Otherwise the answer is an error and no row is added.
  pub log_lem :
      (headers : String → Option String) (body : B) (id now : ℕ) (db : Tables F J)
      → let end = log wire headers body id now db in
        ((is_success_status end.1.status ≡ true)
          × (reports end.0 ≡ reports db + 1)
          × ((system : System) × SignedBy headers body db.systems system))
        ⊎ ((is_success_status end.1.status ≡ false) × (reports end.0 ≡ reports db))
  unfolding log
  log_lem headers body id now db =
      elim (Checked-cases (authenticate_agent_request wire headers body db.systems)) [
        | inr (code, refusal) ↦
            rw (refusal, log)
              (inr (authenticate-Refuses headers body db.systems code refusal, refl))
        | inl (system, passes) ↦
            elim (Option-cases (deserialize_system_state_versioned wire body)) [
              | inl unread ↦ rw (passes, log) rw (unread, log) (inr (refl, refl))
              | inr ((payload, v), read) ↦
                  let count = record_heartbeat_or_change_lem id payload v now db in
                  elim (Bool-cases (record_heartbeat_or_change wire id payload v now db).1) [
                    | inl done ↦
                        rw (passes, log) rw (read, log) rw done
                          (inl (
                            success_status_lem v,
                            count ∙ ap (λ b. reports db + (if b then 1 else 0)) done,
                            (system, authenticated headers body db.systems system passes),
                          ))
                    | inr fails ↦
                        rw (passes, log) rw (read, log) rw fails
                          (inr (
                            refl,
                            omega
                                (arith, count ∙ ap (λ b. reports db + (if b then 1 else 0)) fails),
                          ))
                  ]
            ]
      ]
