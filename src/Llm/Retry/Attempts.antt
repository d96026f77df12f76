-- ===== src/Llm/Retry/Attempts.antt =====
-- How the attempts with one key end.
use study_agent_service.Prelude.{
  ℕ, zero, suc, ◌+◌, ◌<◌, ◌≡◌, refl, sym, subst, ◌⊎◌, inl, inr, ◌&&◌, ◌||◌, none, some, arith, ltb,
  Bool-cases,
}
use study_agent_service.Llm.Retry.{
  llm_infra_error, is_infra_error, has_status, token_limit, success_result, failure_result, Answer,
  GroqError, failure, response, GroqCallResult, KeyOutcome, finished, key_blocked, key_limited,
  extract_retry_after_seconds, after_error, run_attempts,
}

pub answer_cases : (a : Answer) → ((c : ℕ) × (a ≡ response c)) ⊎ ((e : GroqError) × (a ≡ failure e))
answer_cases (response c) = inl (c, refl)
answer_cases (failure e) = inr (e, refl)

-- The attempts with one key end in a return or in a break.
abbrev pub Ends : (ℕ → Answer) → KeyOutcome → Type 0
Ends ask o =
    ((r : GroqCallResult) × (o ≡ finished r))
    ⊎ ((o ≡ key_blocked)
        ⊎ ((e : GroqError) × (attempt : ℕ) × (ask attempt ≡ failure e)
            × (o ≡ key_limited (extract_retry_after_seconds e))))

after_error-Ends :
    (ask : ℕ → Answer) (alias max attempt : ℕ) (e : GroqError) (rest : KeyOutcome)
    → ask attempt ≡ failure e
    → (attempt + 1 < max → Ends ask rest)
    → Ends ask (after_error alias max attempt e rest)
unfolding after_error
after_error-Ends ask alias max attempt e rest asked more = elim (Bool-cases e.is_token_limit) [
  | inl limit ↦ inl (failure_result token_limit (some alias) (attempt + 1) none none, ground arith)
  | inr fits ↦ elim (Bool-cases (has_status 401 e || has_status 403 e)) [
    | inl refused ↦ inr (inl (ground arith))
    | inr accepted ↦ elim (Bool-cases (has_status 429 e)) [
      | inl limited ↦ inr (inr (e, attempt, asked, ground arith))
      | inr free ↦ elim (Bool-cases (is_infra_error e && ltb (attempt + 1) max)) [
        | inl again ↦
            let same : after_error alias max attempt e rest ≡ rest = ground arith in
            subst (Ends ask) (sym same) (more (ground arith))
        | inr last ↦
            inl (failure_result llm_infra_error (some alias) (attempt + 1) none none, ground arith)
      ]
    ]
  ]
]

attempt-Ends :
    (ask : ℕ → Answer) (alias max left attempt : ℕ)
    → (attempt + 1 < max → Ends ask (run_attempts ask alias max left (attempt + 1)))
    → Ends ask (run_attempts ask alias max (suc left) attempt)
unfolding run_attempts
attempt-Ends ask alias max left attempt more =
    let rest = run_attempts ask alias max left (attempt + 1) in
    elim (answer_cases (ask attempt)) [
      | inl (c, ec) ↦ inl (success_result c alias (attempt + 1), ground arith)
      | inr (e, ee) ↦
          let same : run_attempts ask alias max (suc left) attempt
              ≡ after_error alias max attempt e rest =
            ground arith in
          subst (Ends ask) (sym same) (after_error-Ends ask alias max attempt e rest ee more)
    ]

run_attempts-Ends :
    (ask : ℕ → Answer) (alias max left attempt : ℕ)
    → attempt + suc left ≡ max
    → Ends ask (run_attempts ask alias max (suc left) attempt)
run_attempts-Ends ask alias max zero attempt h =
    attempt-Ends ask alias max zero attempt (λ lt. absurd (omega arith))
run_attempts-Ends ask alias max (suc left) attempt h =
    attempt-Ends ask alias max (suc left) attempt
      (λ lt. run_attempts-Ends ask alias max left (attempt + 1) (omega arith))

pub all_attempts-Ends :
    (ask : ℕ → Answer) (alias max : ℕ) → 0 < max → Ends ask (run_attempts ask alias max max 0)
all_attempts-Ends ask alias zero h = absurd (omega arith)
all_attempts-Ends ask alias (suc m) h = run_attempts-Ends ask alias (suc m) m 0 (omega arith)
