-- ===== src/Examples/Pushes.antt =====
-- A push that times out once and then succeeds.
use crystal_forge.Prelude.{ℕ, zero, suc, ◌≤◌, ◌<◌, ◌≡◌, refl, ◌⊎◌, true, false, some, arith}
use crystal_forge.CachePush.Retry.{
  PushOutcome, pushed, push_timeout, push_to_cache_with_retry, push_done,
}
use crystal_forge.CachePush.Retry.Ending.{push_to_cache_with_retry_lem, backoffs, answer, is_final}

abbrev second_time : ℕ → PushOutcome
second_time zero = push_timeout
second_time (suc n) = pushed

push_retry_example :
    (n : ℕ) × (n ≤ 3)
    × (push_to_cache_with_retry second_time 3 5 ≡ some (backoffs 5 0 n, answer 4 (second_time n)))
    × ((i : ℕ) → i < n → is_final (second_time i) ≡ false)
    × ((is_final (second_time n) ≡ true) ⊎ (n ≡ 3))
push_retry_example = push_to_cache_with_retry_lem second_time 3 5 (omega arith)

second_time_run : push_to_cache_with_retry second_time 3 5 ≡ some (backoffs 5 0 1, push_done)
unfolding push_to_cache_with_retry
second_time_run = refl
