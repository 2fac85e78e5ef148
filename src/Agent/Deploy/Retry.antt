-- ===== src/Agent/Deploy/Retry.antt =====
-- The three attempts to copy a store path, on a host that records what it is asked to do.
use crystal_forge.Prelude.{
  ℕ, suc, ◌+◌, ◌≡◌, refl, String, Bool, true, false, Bool-cases, inl, inr, ◌||◌, none, List, [],
  ◌∷◌, ◌++◌, Result, ok, err, message, if◌then◌else◌,
}
use crystal_forge.Agent.Deploy.{
  DeploymentConfig, Host, copy_args, copy_from_cache, clear_nix_cache, before_retry, copy_attempts,
  copy_from_cache_with_retry,
}

-- The runs of `nix`, the directories removed and the seconds waited.
pub record Recording : Type 0 where
  pub copies : ℕ
  pub runs : List (List String)
  pub removed : List String
  pub slept : ℕ

abbrev pub nothing_yet : Recording
nothing_yet = record { copies = 0; runs = []; removed = []; slept = 0 }

abbrev pub run_result : Bool → Result (Unit {0})
run_result true = ok tt
run_result false = err (message "nix copy failed")

-- The n-th run of `nix` answers by `answers n`; every path is there.
abbrev pub recording_host : (ℕ → Bool) → Host Recording
recording_host answers = record {
  readlink_path = λ path w. ok path;
  run_nix = λ args seconds w. (
    record w { copies = suc w.copies; runs = w.runs ++ args ∷ [] },
    run_result (answers w.copies),
  );
  systemd_run = λ args w. (w, ok tt);
  path_exists = λ path w. true;
  remove_dir_all = λ path w. (record w { removed = w.removed ++ path ∷ [] }, ok tt);
  home = λ w. none;
  sleep = λ n w. record w { slept = w.slept + n };
  seconds = λ w. w.slept;
  to_text = λ n. "";
}

abbrev pub is_ok : Result (Unit {0}) → Bool
is_ok (ok _) = true
is_ok (err e) = false

-- On a host that records, a copy succeeds exactly if one of three runs does. The runs stop at the
-- first success, the second one refreshes, the agent waits 5 and then 10 seconds, and the cache of
-- the agent is removed exactly if the first two fail.
pub copy_from_cache_with_retry_lem :
    (answers : ℕ → Bool) (config : DeploymentConfig) (url path : String)
    → let end = copy_from_cache_with_retry (recording_host answers) config url path nothing_yet in
      let plain = copy_args config.cache_type url path false in
      (is_ok end.1 ≡ (answers 0 || answers 1 || answers 2))
      × (end.0.runs
          ≡ plain
            ∷ (if answers 0
                then []
                else copy_args config.cache_type url path true
                  ∷ (if answers 1 then [] else plain ∷ [])))
      × (end.0.slept ≡ (if answers 0 then 0 else if answers 1 then 5 else 15))
      × (end.0.removed
          ≡ (if answers 0 || answers 1 then [] else "/var/lib/crystal-forge-agent/.cache/nix" ∷ []))
unfolding copy_from_cache_with_retry copy_attempts copy_from_cache before_retry clear_nix_cache
copy_from_cache_with_retry_lem answers config url path = elim (Bool-cases (answers 0)) [
  | inl first ↦ rw first (refl, refl, refl, refl)
  | inr again ↦ elim (Bool-cases (answers 1)) [
    | inl second ↦ rw again rw second (refl, refl, refl, refl)
    | inr last ↦ elim (Bool-cases (answers 2)) [
      | inl third ↦ rw again rw last rw third (refl, refl, refl, refl)
      | inr lost ↦ rw again rw last rw lost (refl, refl, refl, refl)
    ]
  ]
]
