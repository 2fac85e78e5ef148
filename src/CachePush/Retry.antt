-- ===== src/CachePush/Retry.antt =====
-- packages/default/src/derivations/cache.rs: `push_to_cache_with_retry`. What each call of
-- `push_to_cache` gives within its timeout is an argument, by the number of the attempt. The number
-- of attempts is a u32 and a delay a u64, which wrap around as a release build does.
pub mod Ending
use text.Mathlib.Text.{find?}
use crystal_forge.Prelude.{
  ℕ, zero, suc, ◌+◌, ◌-◌, ◌*◌, ◌%◌, ◌^◌, String, Bool, true, false, Option, none, some, List, [],
  ◌∷◌, ◌||◌, ltb, is_some, if◌then◌else◌,
}

-- The three ways in which a call under its timeout ends.
pub data PushOutcome : Type 0 where
  pushed push_timeout : PushOutcome
  push_error : String → PushOutcome

-- What the retries answer: success, the error of a call, or the timeout with the number of attempts.
pub data PushResult : Type 0 where
  push_done : PushResult
  failed_with : String → PushResult
  timed_out_after : ℕ → PushResult

abbrev contains : String → String → Bool
contains s pattern = is_some (find? s pattern)

unfoldable pub is_terminal_error : String → Bool
is_terminal_error s =
    contains s "SSL connect error"
    || contains s "certificate verify failed"
    || contains s "Name or service not known"
    || contains s "no substituter that can build it"
    || contains s "don't know how to build these paths"

-- base_delay * 2_u64.pow(attempts)
abbrev pub delay_secs : ℕ → ℕ → ℕ
delay_secs base attempts = base * (2 ^ attempts % 2 ^ 64) % 2 ^ 64

-- cache_config.max_retries + 1
abbrev pub max_attempts_of : ℕ → ℕ
max_attempts_of max_retries = (max_retries + 1) % 2 ^ 32

-- A delay in front of what comes after it.
abbrev pub after_delay : ℕ → Option (List ℕ × PushResult) → Option (List ℕ × PushResult)
after_delay d none = none
after_delay d (some (ds, r)) = some (d ∷ ds, r)

-- The match on an outcome; `rest` is the loop from the next attempt on.
unfoldable pub after_attempt :
    ℕ → ℕ → ℕ → PushOutcome → Option (List ℕ × PushResult) → Option (List ℕ × PushResult)
after_attempt max_attempts base attempts pushed rest = some ([], push_done)
after_attempt max_attempts base attempts (push_error s) rest =
    if ltb attempts (max_attempts - 1)
    then (if is_terminal_error s
        then some ([], failed_with s)
        else after_delay (delay_secs base attempts) rest)
    else some ([], failed_with s)
after_attempt max_attempts base attempts push_timeout rest =
    if ltb attempts (max_attempts - 1)
    then after_delay (delay_secs base attempts) rest
    else some ([], timed_out_after max_attempts)

-- while attempts < max_attempts, on fuel; `none` is the `unreachable!` behind the loop.
unfoldable pub push_loop : (ℕ → PushOutcome) → ℕ → ℕ → ℕ → ℕ → Option (List ℕ × PushResult)
unfolding after_attempt
push_loop push max_attempts base zero attempts = none
push_loop push max_attempts base (suc fuel) attempts =
    let rest = push_loop push max_attempts base fuel (attempts + 1) in
    if ltb attempts max_attempts
    then after_attempt max_attempts base attempts (push attempts) rest
    else none

-- The seconds slept, and the answer.
unfoldable pub push_to_cache_with_retry : (ℕ → PushOutcome) → ℕ → ℕ → Option (List ℕ × PushResult)
unfolding push_loop
push_to_cache_with_retry push max_retries retry_delay_seconds =
    let max_attempts = max_attempts_of max_retries in
    push_loop push max_attempts retry_delay_seconds max_attempts 0
