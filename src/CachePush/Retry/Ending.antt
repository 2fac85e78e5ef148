-- ===== src/CachePush/Retry/Ending.antt =====
-- The retries of a push end, and with which answer.
use crystal_forge.Prelude.{
  ℕ, zero, suc, ◌+◌, ◌-◌, ◌*◌, ◌%◌, ◌^◌, ◌≤◌, ◌<◌, ◌≡◌, refl, ap, ◌∙◌, ◌==◌, ==_iff, Bool, true,
  false, Bool-cases, inl, inr, Option, some, List, [], ◌∷◌, ltb, arith, ◌⊎◌,
}
use crystal_forge.CachePush.Retry.{
  PushOutcome, pushed, push_timeout, push_error, PushResult, push_done, failed_with,
  timed_out_after, is_terminal_error, delay_secs, after_delay, after_attempt, push_loop,
  push_to_cache_with_retry, max_attempts_of,
}

-- An outcome that ends the retries at once.
unfoldable pub is_final : PushOutcome → Bool
is_final pushed = true
is_final push_timeout = false
is_final (push_error s) = is_terminal_error s

abbrev pub answer : ℕ → PushOutcome → PushResult
answer max_attempts pushed = push_done
answer max_attempts push_timeout = timed_out_after max_attempts
answer max_attempts (push_error s) = failed_with s

-- The delays of `count` retries from an attempt on: the base delay times a power of two, both modulo
-- 2 ^ 64.
abbrev pub backoffs : ℕ → ℕ → ℕ → List ℕ
backoffs base attempts zero = []
backoffs base attempts (suc count) =
    base * (2 ^ attempts % 2 ^ 64) % 2 ^ 64 ∷ backoffs base (attempts + 1) count

module _ (max_attempts base attempts : ℕ) (rest : Option (List ℕ × PushResult)) where
  after_final :
      (o : PushOutcome)
      → is_final o ≡ true
      → after_attempt max_attempts base attempts o rest ≡ some ([], answer max_attempts o)
  unfolding after_attempt is_final
  after_final pushed h = refl
  after_final push_timeout h = cc
  after_final (push_error s) h = elim (Bool-cases (ltb attempts (max_attempts - 1))) [
    | inl more ↦ rw (more, h) refl
    | inr last ↦ rw last refl
  ]

  after_last :
      (o : PushOutcome)
      → ltb attempts (max_attempts - 1) ≡ false
      → after_attempt max_attempts base attempts o rest ≡ some ([], answer max_attempts o)
  unfolding after_attempt
  after_last pushed h = refl
  after_last push_timeout h = rw h refl
  after_last (push_error s) h = rw h refl

  after_more :
      (o : PushOutcome)
      → is_final o ≡ false
      → ltb attempts (max_attempts - 1) ≡ true
      → after_attempt max_attempts base attempts o rest
        ≡ after_delay (delay_secs base attempts) rest
  unfolding after_attempt is_final
  after_more pushed h more = cc
  after_more push_timeout h more = rw more refl
  after_more (push_error s) h more = rw (more, h) refl

module _ (push : ℕ → PushOutcome) (max_attempts base : ℕ) where
  -- The run from an attempt on makes `k` retries and ends at attempt `n`.
  abbrev pub Ends : ℕ → ℕ → ℕ → ℕ → Type 0
  Ends fuel attempts k n =
      (attempts + k ≡ n)
      × (n < max_attempts)
      × (push_loop push max_attempts base fuel attempts
          ≡ some (backoffs base attempts k, answer max_attempts (push n)))
      × ((i : ℕ) → attempts ≤ i → i < n → is_final (push i) ≡ false)
      × ((is_final (push n) ≡ true) ⊎ (n + 1 ≡ max_attempts))

  retried :
      (fuel attempts k n : ℕ)
      → is_final (push attempts) ≡ false
      → ltb attempts (max_attempts - 1) ≡ true
      → Ends fuel (attempts + 1) k n
      → Ends (suc fuel) attempts (suc k) n
  unfolding push_loop
  retried fuel attempts k n again more (at, bound, run, before, end) =
      let inside : ltb attempts max_attempts ≡ true = ground arith in
      let rest = push_loop push max_attempts base fuel (attempts + 1) in
      (
        omega arith,
        bound,
        rw (inside, after_more max_attempts base attempts rest (push attempts) again more, run)
            refl,
        λ i low high. elim (Bool-cases (i == attempts)) [
          | inl same ↦ rw ((==_iff i attempts).0 same) again
          | inr other ↦ before i (ground arith) high
        ],
        end,
      )

  push_loop-Ends :
      (fuel attempts : ℕ)
      → attempts + fuel ≡ max_attempts
      → 1 ≤ fuel
      → (k n : ℕ) × Ends fuel attempts k n
  unfolding push_loop
  push_loop-Ends zero attempts e pos = absurd (omega arith)
  push_loop-Ends (suc fuel) attempts e pos =
      let inside : ltb attempts max_attempts ≡ true = ground arith in
      let rest = push_loop push max_attempts base fuel (attempts + 1) in
      elim (Bool-cases (is_final (push attempts))) [
        | inl final ↦ (
          0,
          attempts,
          (
            omega arith,
            omega arith,
            rw (inside, after_final max_attempts base attempts rest (push attempts) final) refl,
            λ i low high. absurd (omega arith),
            inl final,
          ),
        )
        | inr again ↦ elim (Bool-cases (ltb attempts (max_attempts - 1))) [
          | inr last ↦ (
            0,
            attempts,
            (
              omega arith,
              omega arith,
              rw (inside, after_last max_attempts base attempts rest (push attempts) last) refl,
              λ i low high. absurd (omega arith),
              inr (ground arith),
            ),
          )
          | inl more ↦
              let (k, n, ends) = push_loop-Ends fuel (attempts + 1) (omega arith) (ground arith) in
              (suc k, n, retried fuel attempts k n again more ends)
        ]
      ]

allowed_retries :
    (push : ℕ → PushOutcome) (max_retries base : ℕ)
    → (n : ℕ) × (n ≤ max_retries)
      × (push_loop push (max_retries + 1) base (max_retries + 1) 0
          ≡ some (backoffs base 0 n, answer (max_retries + 1) (push n)))
      × ((i : ℕ) → i < n → is_final (push i) ≡ false)
      × ((is_final (push n) ≡ true) ⊎ (n ≡ max_retries))
allowed_retries push max_retries base =
    let (k, n, (at, bound, run, before, end)) =
      push_loop-Ends push (max_retries + 1) base (max_retries + 1) 0 (omega arith) (omega arith) in
    let same : k ≡ n = omega arith in
    (
      n,
      omega arith,
      run ∙ ap (λ j. some (backoffs base 0 j, answer (max_retries + 1) (push n))) same,
      λ i high. before i (omega arith) high,
      elim end [ inl final ↦ inl final | inr last ↦ inr (omega arith) ],
    )

-- Where the number of retries allowed is below the largest u32, the retries end with an answer, that
-- of an attempt `n`, at most that number. Every attempt before it failed in a way that is retried,
-- and it is the first that is final or the last one allowed. The delays slept are the base delay
-- times the powers of two from 1 on, one for each attempt but the last, modulo 2 ^ 64.
pub push_to_cache_with_retry_lem :
    (push : ℕ → PushOutcome) (max_retries base : ℕ)
    → max_retries + 1 < 2 ^ 32
    → (n : ℕ) × (n ≤ max_retries)
      × (push_to_cache_with_retry push max_retries base
          ≡ some (backoffs base 0 n, answer (max_retries + 1) (push n)))
      × ((i : ℕ) → i < n → is_final (push i) ≡ false)
      × ((is_final (push n) ≡ true) ⊎ (n ≡ max_retries))
unfolding push_to_cache_with_retry
push_to_cache_with_retry_lem push max_retries base fits =
    let fit : max_attempts_of max_retries ≡ max_retries + 1 = omega arith in
    let (n, bound, run, before, end) = allowed_retries push max_retries base in
    (n, bound, ap (λ m. push_loop push m base m 0) fit ∙ run, before, end)
