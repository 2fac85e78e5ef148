-- ===== src/Derivation/Insert/Outcome.antt =====
-- The row that `insert_derivation_with_target` gives, on both branches of its conflict clause.
use crystal_forge.Prelude.{
  ℕ, ◌≤◌, ◌≡◌, refl, ◌∙◌, ap, Bool, Option-cases, inl, inr, ◌⊎◌, Option, none, some, List, [], ◌∷◌,
  String, arith, if◌then◌else◌, ok, coalesce,
}
use crystal_forge.Table.{find, count_where, contains}
use crystal_forge.Derivation.{
  Derivation, DerivationType, as_id, dry_run_pending, dry_run_complete, dry_run_failed,
  build_complete, build_failed,
}
use crystal_forge.Derivation.Insert.{
  has_key, new_row, refresh, has_terminal_status, insert_derivation_with_target,
}
use crystal_forge.Derivation.Insert.Unique.{
  insert_with_target_count, insert_with_target_new, insert_with_target-refresh,
}
use crystal_forge.Derivation.Insert.Kept.{insert_with_target_row}

-- The columns of a row that is there.
refresh_lem :
    (target : Option String) (now : ℕ) (d : Derivation)
    → refresh target now d ≡ (
        if contains
          (as_id dry_run_complete
            ∷ as_id dry_run_failed
            ∷ as_id build_complete
            ∷ as_id build_failed
            ∷ [])
          d.status_id
        then record d { derivation_target = coalesce target d.derivation_target }
        else record d {
          status_id = as_id dry_run_pending;
          scheduled_at = some now;
          derivation_target = coalesce target d.derivation_target;
        })
unfolding refresh has_terminal_status contains
refresh_lem target now d = ground arith

module _ (id : ℕ) (c : Option ℕ) (name : String) (t : DerivationType) (target : Option String)
    (enabled : Option Bool) (now : ℕ) (ds : List Derivation) where
  -- If the key has at most one row, it has exactly one after `insert_derivation_with_target`, and
  -- the answer is that row. Without a row before, it is a new one that is DryRunPending, scheduled
  -- now, with no attempt, and with the target and the agent flag given. A row that is
  -- DryRunComplete, DryRunFailed, BuildComplete or BuildFailed keeps all but its target, and any
  -- other one becomes DryRunPending and is scheduled now; the target is replaced if one is given,
  -- and the agent flag that was passed is dropped.
  pub insert_with_target_lem :
      count_where (has_key c name t) ds ≤ 1
      → let (ds', answer) = insert_derivation_with_target id c name t target enabled now ds in
        (count_where (has_key c name t) ds' ≡ 1)
        × ((d' : Derivation) × (answer ≡ ok d')
            × (find (has_key c name t) ds' ≡ some d')
            × (((find (has_key c name t) ds ≡ none)
                  × (d'.id ≡ id)
                  × (d'.status_id ≡ as_id dry_run_pending)
                  × (d'.scheduled_at ≡ some now)
                  × (d'.attempt_count ≡ 0)
                  × (d'.derivation_target ≡ target)
                  × (d'.cf_agent_enabled ≡ enabled))
                ⊎ ((d : Derivation) × (find (has_key c name t) ds ≡ some d)
                    × (d' ≡ (
                        if contains
                          (as_id dry_run_complete
                            ∷ as_id dry_run_failed
                            ∷ as_id build_complete
                            ∷ as_id build_failed
                            ∷ [])
                          d.status_id
                        then record d { derivation_target = coalesce target d.derivation_target }
                        else record d {
                          status_id = as_id dry_run_pending;
                          scheduled_at = some now;
                          derivation_target = coalesce target d.derivation_target;
                        })))))
  insert_with_target_lem one =
      let (row, answer, found) = insert_with_target_row id c name t target enabled now ds in
      (
        insert_with_target_count id c name t target enabled now ds one,
        (
          row,
          answer,
          found,
          elim (Option-cases (find (has_key c name t) ds)) [
            | inl missing ↦
                let new = record (new_row id c t name (as_id dry_run_pending) now) {
                  derivation_target = target;
                  cf_agent_enabled = enabled;
                } in
                let inserted =
                  ap (λ x. x.1)
                    (insert_with_target_new id c name t target enabled now ds missing) in
                let same : row ≡ new = cc in
                inl (unfold new_row in rw same (missing, refl, refl, refl, refl, refl, refl))
            | inr (d, there) ↦
                let updated =
                  insert_with_target-refresh id c name t target enabled now ds d there in
                let same : row ≡ refresh target now d = cc in
                inr (d, there, same ∙ refresh_lem target now d)
          ],
        ),
      )
