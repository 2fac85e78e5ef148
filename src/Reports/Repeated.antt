-- ===== src/Reports/Repeated.antt =====
-- A heartbeat that is sent twice.
use crystal_forge.Prelude.{
  ℕ, ◌+◌, ◌≡◌, refl, ap, ◌∙◌, sym, ◌⊎◌, Bool, true, Bool-cases, Option-cases, inl, inr, some, List,
  [], ◌∷◌, ◌++◌, All, All-map, length, length-append, str_eq, is_none, ok, false,
}
use mathlib.Core.Path.{subst}
use text.Mathlib.TextPositions.{eq_refl}
use crystal_forge.Table.{select_where}
use crystal_forge.Table.Rows.{All-select_where}
use crystal_forge.Reports.{
  SystemState, insert_system_state, new_state, newest, later, get_last_system_state_by_hostname,
  get_latest_system_state_id, valid_change_reason, stored_reason,
}
use crystal_forge.Reports.Handlers.{
  Wire, Tables, AgentHeartbeat, heartbeat, change, StateChangeRequired, first_report, state_changed,
  states_are_equivalent, from_system_state_if_heartbeat, new_heartbeat, is_heartbeat_change_reason,
  record_change, record_heartbeat_or_change, insert_agent_heartbeat, fits_varchar, is_ok,
}

module _ {F J : Type 0} where
  newest-snoc :
      (ss : List (SystemState F J)) (n : SystemState F J)
      → All (λ s. later s.timestamp n.timestamp ≡ true) ss
      → newest (ss ++ n ∷ []) ≡ some n
  unfolding newest
  newest-snoc [] n h = refl
  newest-snoc (s ∷ ss) n h = rw (newest-snoc ss n h.1) rw h.0 refl

  select_where-snoc :
      (p : SystemState F J → Bool) (ss : List (SystemState F J)) (n : SystemState F J)
      → p n ≡ true
      → select_where p (ss ++ n ∷ []) ≡ select_where p ss ++ n ∷ []
  unfolding select_where
  select_where-snoc p [] n h = rw h refl
  select_where-snoc p (s ∷ ss) n h = elim (Bool-cases (p s)) [
    | inl e ↦ rw e (ap (λ r. s ∷ r) (select_where-snoc p ss n h))
    | inr e ↦ rw e (select_where-snoc p ss n h)
  ]

module _ {B F J : Type 0} (wire : Wire B F J) (state : SystemState F J) where
  -- A stored state is equivalent to what it was made from, where the state is equivalent to itself.
  equivalent-new_state :
      (id : ℕ) (v : Bool) (now : ℕ)
      → states_are_equivalent wire state state ≡ true
      → states_are_equivalent wire state (new_state id v now state) ≡ true
  unfolding states_are_equivalent new_state
  equivalent-new_state id v now h = h

  -- The last state of the host is equivalent to this one.
  IsKnown : List (SystemState F J) → Type 0
  IsKnown states =
      (last : SystemState F J) × (i : ℕ) × (newest
          (select_where (λ s. str_eq s.hostname state.hostname) states)
        ≡ some last)
      × (last.id ≡ some i)
      × (states_are_equivalent wire state last ≡ true)

  known_is_heartbeat :
      (now : ℕ) (states : List (SystemState F J))
      → is_heartbeat_change_reason state.change_reason ≡ true
      → IsKnown states
      → (i : ℕ) × (from_system_state_if_heartbeat wire state now states
          ≡ heartbeat (new_heartbeat wire i now state))
  unfolding from_system_state_if_heartbeat get_last_system_state_by_hostname
      get_latest_system_state_id IsKnown
  known_is_heartbeat now states beat (last, i, found, numbered, same) =
      (i, rw beat rw found rw same rw found rw numbered refl)

  stored-IsKnown :
      (id : ℕ) (v : Bool) (now : ℕ) (states : List (SystemState F J))
      → states_are_equivalent wire state state ≡ true
      → All (λ s. later s.timestamp (some now) ≡ true) states
      → IsKnown (states ++ new_state id v now state ∷ [])
  unfolding IsKnown new_state
  stored-IsKnown id v now states same past =
      let p = λ (s : SystemState F J). str_eq s.hostname state.hostname in
      let n = new_state id v now state in
      let selected =
        All-map _ (λ s. later s.timestamp (some now) ≡ true) (select_where p states) (λ s h. h.0)
          (All-select_where _ p states past) in
      (
        n,
        id,
        ap newest (select_where-snoc p states n (eq_refl state.hostname))
            ∙ newest-snoc (select_where p states) n selected,
        refl,
        equivalent-new_state id v now same,
      )

  -- A heartbeat that is stored as a state is taken by the table.
  change_is_stored :
      (id : ℕ) (v : Bool) (now : ℕ) (db : Tables F J)
      → is_heartbeat_change_reason state.change_reason ≡ true
      → is_none state.store_path ≡ false
      → record_change wire id state v now db
        ≡ (record db { system_states = db.system_states ++ new_state id v now state ∷ [] }, true)
  unfolding record_change insert_system_state is_heartbeat_change_reason stored_reason
      valid_change_reason new_state
  change_is_stored id v now db beat path = rw path rw beat refl

  IsKnown-or_change :
      (now : ℕ) (states : List (SystemState F J))
      → is_heartbeat_change_reason state.change_reason ≡ true
      → IsKnown states
        ⊎ ((reason : StateChangeRequired) × (from_system_state_if_heartbeat wire state now states
              ≡ change reason))
  unfolding from_system_state_if_heartbeat get_last_system_state_by_hostname
      get_latest_system_state_id IsKnown
  IsKnown-or_change now states beat =
      let p = λ (s : SystemState F J). str_eq s.hostname state.hostname in
      elim (Option-cases (newest (select_where p states))) [
        | inl missing ↦ inr (first_report, rw beat rw missing refl)
        | inr (last, found) ↦ elim (Bool-cases (states_are_equivalent wire state last)) [
          | inr differs ↦ inr (state_changed, rw beat rw found rw differs refl)
          | inl same ↦ elim (Option-cases last.id) [
            | inl unnumbered ↦
                inr (first_report, rw beat rw found rw same rw found rw unnumbered refl)
            | inr (i, numbered) ↦ inl (last, i, found, numbered, same)
          ]
        ]
      ]

  -- The heartbeat fits the columns of its table.
  heartbeat_fits :
      (i now : ℕ) (rows : List AgentHeartbeat)
      → fits_varchar 50 state.agent_version ≡ true
      → fits_varchar 64 state.agent_build_hash ≡ true
      → insert_agent_heartbeat (new_heartbeat wire i now state) rows
        ≡ (rows ++ new_heartbeat wire i now state ∷ [], ok tt)
  unfolding insert_agent_heartbeat new_heartbeat
  heartbeat_fits i now rows version hash = rw version rw hash refl

  IsKnown-afterwards :
      (id : ℕ) (v : Bool) (now : ℕ) (db : Tables F J)
      → is_heartbeat_change_reason state.change_reason ≡ true
      → is_none state.store_path ≡ false
      → states_are_equivalent wire state state ≡ true
      → All (λ s. later s.timestamp (some now) ≡ true) db.system_states
      → IsKnown (record_heartbeat_or_change wire id state v now db).0.system_states
  unfolding record_heartbeat_or_change
  IsKnown-afterwards id v now db beat path same past =
      elim (IsKnown-or_change now db.system_states beat) [
        | inl known ↦
            let (i, e) = known_is_heartbeat now db.system_states beat known in
            rw (e, record_heartbeat_or_change) known
        | inr (reason, e) ↦
            rw (e, record_heartbeat_or_change)
              (subst (λ r. IsKnown r.0.system_states) (sym (change_is_stored id v now db beat path))
                (stored-IsKnown id v now db.system_states same past))
      ]

  -- A heartbeat of a state that is equivalent to itself and has a store path, an agent version of at
  -- most 50 and a build hash of at most 64 characters, at a time that no stored state is after, may
  -- be stored as a state; sent again it is taken as a heartbeat, whatever the time, and no further
  -- state is stored.
  pub heartbeat_repeated :
      (id id' : ℕ) (v : Bool) (now now' : ℕ) (db : Tables F J)
      → is_heartbeat_change_reason state.change_reason ≡ true
      → is_none state.store_path ≡ false
      → fits_varchar 50 state.agent_version ≡ true
      → fits_varchar 64 state.agent_build_hash ≡ true
      → states_are_equivalent wire state state ≡ true
      → All (λ s. later s.timestamp (some now) ≡ true) db.system_states
      → let once = record_heartbeat_or_change wire id state v now db in
        let twice = record_heartbeat_or_change wire id' state v now' once.0 in
        (twice.1 ≡ true)
        × (twice.0.system_states ≡ once.0.system_states)
        × (length twice.0.agent_heartbeats ≡ length once.0.agent_heartbeats + 1)
  unfolding record_heartbeat_or_change
  heartbeat_repeated id id' v now now' db beat path version hash same past =
      let once = record_heartbeat_or_change wire id state v now db in
      let (i, e) =
        known_is_heartbeat now' once.0.system_states beat
          (IsKnown-afterwards id v now db beat path same past) in
      let stored = heartbeat_fits i now' once.0.agent_heartbeats version hash in
      rw (e, record_heartbeat_or_change)
        (
          ap (λ x. is_ok x.1) stored,
          refl,
          ap (λ x. length x.0) stored
              ∙ length-append once.0.agent_heartbeats (new_heartbeat wire i now' state ∷ []),
        )
