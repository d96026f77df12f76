-- ===== src/Llm/Retry/Results.antt =====
-- What the results of the retry loop mean.
use study_agent_service.Prelude.{
  ap, ◌*◌, subst, ℕ, zero, suc, ◌+◌, ◌≡◌, refl, ◌↔◌, ◌⊎◌, inl, inr, true, false, ◌&&◌, ◌||◌, none,
  some, List, [], ◌∷◌, arith, ltb, Bool-cases, Option-cases, any, all,
}
use study_agent_service.Llm.KeyPool.{
  all_exhausted, acquire_healthy_key, is_blocked, KeyEntry, GroqKeyPool, is_usable, all_blocked,
  refresh_expired_rate_limits, earliest_rate_limit_retry_at,
}
use study_agent_service.Llm.Retry.{
  attempts_used, Clock, key_limited, call_groq_with_rotation, key_blocked, Answer, GroqError,
  failure, response, GroqCallResult, KeyOutcome, finished, after_error, run_attempts, no_key,
  llm_key_pool_exhausted, token_limit, is_infra_error, has_status,
}
use study_agent_service.Llm.Retry.Measure.{length-update, entries-acquire}
use study_agent_service.Llm.KeyPool.{mark_blocked, mark_rate_limited, blocked, rate_limited}
use study_agent_service.Llm.Retry.Attempts.{answer_cases}
use study_agent_service.Llm.KeyPool.Rotation.{acquire_healthy_key-finds, InRange}

-- Where a result of the attempts comes from: an answer of the model, or its last error.
abbrev pub Source : (ℕ → Answer) → GroqCallResult → Type 0
Source ask r =
    ((attempt content : ℕ) × (ask attempt ≡ response content)
      × (r.ok ≡ true)
      × (r.content ≡ some content)
      × (r.attempt_index ≡ attempt + 1))
    ⊎ ((attempt : ℕ) × (e : GroqError) × (ask attempt ≡ failure e)
        × (r.ok ≡ false)
        × (r.content ≡ none)
        × ((r.error_type ≡ some token_limit) ↔ (e.is_token_limit ≡ true)))

error-Source :
    (ask : ℕ → Answer) (alias max attempt : ℕ) (e : GroqError) (rest : KeyOutcome)
    {r : GroqCallResult}
    → ask attempt ≡ failure e
    → (rest ≡ finished r → Source ask r)
    → after_error alias max attempt e rest ≡ finished r
    → Source ask r
unfolding after_error
error-Source ask alias max attempt e rest {r} asked more h = elim (Bool-cases e.is_token_limit) [
  | inl limit ↦
      inr (attempt, e, asked, ground arith, ground arith, (λ k. ground arith, λ k. ground arith))
  | inr fits ↦ elim (Bool-cases ((has_status 401 e || has_status 403 e) || has_status 429 e)) [
    | inl stops ↦ absurd (ground arith)
    | inr free ↦ elim (Bool-cases (is_infra_error e && ltb (attempt + 1) max)) [
      | inl again ↦ more (ground arith)
      | inr last ↦
          inr
            (attempt, e, asked, ground arith, ground arith, (λ k. ground arith, λ k. ground arith))
    ]
  ]
]

run_attempts-Source :
    (ask : ℕ → Answer) (alias max left attempt : ℕ) {r : GroqCallResult}
    → run_attempts ask alias max left attempt ≡ finished r
    → Source ask r
unfolding run_attempts
run_attempts-Source ask alias max zero attempt {r} h = absurd (ground arith)
run_attempts-Source ask alias max (suc left) attempt {r} h = elim (answer_cases (ask attempt)) [
  | inl (c, ec) ↦ inl (attempt, c, ec, ground arith, ground arith, ground arith)
  | inr (e, ee) ↦
      error-Source ask alias max attempt e (run_attempts ask alias max left (attempt + 1)) {r = r}
        ee (run_attempts-Source ask alias max left (attempt + 1) {r = r}) (ground arith)
]

any-refresh :
    (now : ℕ) (es : List KeyEntry)
    → any (is_usable now) es ≡ false
    → any (is_usable now) (refresh_expired_rate_limits now es) ≡ false
unfolding is_usable refresh_expired_rate_limits
any-refresh now [] h = refl
any-refresh now (e ∷ es) h = ground (arith, any-refresh now es)

all_blocked-refresh :
    (now : ℕ) (es : List KeyEntry)
    → all (λ e. is_blocked e.status) (refresh_expired_rate_limits now es)
      ≡ all (λ e. is_blocked e.status) es
unfolding refresh_expired_rate_limits
all_blocked-refresh now [] = refl
all_blocked-refresh now (e ∷ es) = ground (arith, all_blocked-refresh now es)

-- What the branch without a key reports, and about which pool.
abbrev pub Exhausted : ℕ → GroqCallResult × GroqKeyPool → Type 0
Exhausted now (r, pool) =
    (any (is_usable now) pool.entries ≡ false)
    × (r.ok ≡ false)
    × ((r.error_type ≡ some llm_key_pool_exhausted) ↔ (all_blocked pool ≡ true))

no_key-Exhausted :
    (now : ℕ) (pool : GroqKeyPool)
    → any (is_usable now) pool.entries ≡ false
    → Exhausted now (no_key now pool)
unfolding no_key all_blocked earliest_rate_limit_retry_at
no_key-Exhausted now pool h = elim (Bool-cases (all_blocked pool)) [
  | inl closed ↦ (ground arith, ground arith, (λ k. ground arith, λ k. ground arith))
  | inr some_open ↦ elim (Option-cases (earliest_rate_limit_retry_at now pool).0) [
    | inl never ↦ (
      ground (arith, any-refresh now pool.entries),
      ground arith,
      (λ k. ground arith, λ k. ground (arith, all_blocked-refresh now pool.entries)),
    )
    | inr (t, et) ↦ (
      ground (arith, any-refresh now pool.entries),
      ground arith,
      (λ k. ground arith, λ k. ground (arith, all_blocked-refresh now pool.entries)),
    )
  ]
]

outcome_cases :
    (o : KeyOutcome)
    → ((r : GroqCallResult) × (o ≡ finished r))
      ⊎ ((o ≡ key_blocked) ⊎ (((seconds : ℕ) × (o ≡ key_limited seconds)) ⊎ (o ≡ attempts_used)))
outcome_cases (finished r) = inl (r, refl)
outcome_cases key_blocked = inr (inl refl)
outcome_cases (key_limited seconds) = inr (inr (inl (seconds, refl)))
outcome_cases attempts_used = inr (inr (inr refl))

mark_blocked-InRange :
    (alias : ℕ) (pool : GroqKeyPool) → InRange pool → InRange (mark_blocked alias pool)
unfolding mark_blocked
mark_blocked-InRange alias pool h =
    let f : KeyEntry → KeyEntry = λ e. record e { status = blocked; rate_limited_until = none } in
    ground (arith, length-update alias f (λ e. refl) pool.entries)

mark_rate_limited-InRange :
    (alias until : ℕ) (pool : GroqKeyPool)
    → InRange pool
    → InRange (mark_rate_limited alias until pool)
unfolding mark_rate_limited
mark_rate_limited-InRange alias until pool h =
    let f : KeyEntry → KeyEntry =
      λ e. record e { status = rate_limited; rate_limited_until = some until } in
    ground (arith, length-update alias f (λ e. refl) pool.entries)

-- On a pool whose cursor is in range, what the call returns is either the outcome of an attempt (the
-- content of an answer, or a failure for the error of an attempt, which is a token limit exactly if
-- the error is one) or the report that no key is usable at that time; that report says exhausted
-- exactly if all keys are blocked.
pub call_groq_with_rotation-Source :
    (clock : Clock) (ask : ℕ → ℕ → ℕ → Answer) (max fuel round : ℕ) (pool : GroqKeyPool)
    {r : GroqCallResult × GroqKeyPool}
    → InRange pool
    → call_groq_with_rotation clock ask max fuel round pool ≡ some r
    → ((at alias : ℕ) × Source (ask at alias) r.0) ⊎ ((at : ℕ) × Exhausted (clock.start at) r)
unfolding call_groq_with_rotation all_exhausted
call_groq_with_rotation-Source clock ask max zero round pool {r} ok h = absurd (ground arith)
call_groq_with_rotation-Source clock ask max (suc fuel) round pool {r} ok h =
    let now = clock.start round in
    let (finds, hands, ok') = acquire_healthy_key-finds now pool ok in
    let pool' = (acquire_healthy_key now pool).1 in
    elim (Option-cases (acquire_healthy_key now pool).0) [
      | inl nothing ↦
          let unusable : any (is_usable now) pool'.entries ≡ false = ground (
            arith,
            entries-acquire now pool,
            ap (any (is_usable now)) (entries-acquire now pool),
          ) in
          let same : no_key now pool' ≡ r = ground arith in
          inr (round, subst (Exhausted now) same (no_key-Exhausted now pool' unusable))
      | inr (pair, ep) ↦
          let alias = pair.0 in
          elim (outcome_cases (run_attempts (ask round alias) alias max max 0)) [
            | inl (res, er) ↦
                let same : res ≡ r.0 = ground arith in
                inl (
                  round,
                  alias,
                  subst (Source (ask round alias)) same
                      (run_attempts-Source (ask round alias) alias max max 0 {r = res} er),
                )
            | inr (inl eb) ↦
                call_groq_with_rotation-Source clock ask max fuel (suc round)
                  (mark_blocked alias pool') {r = r} (mark_blocked-InRange alias pool' ok')
                  (ground arith)
            | inr (inr (inl (seconds, el))) ↦
                let until = clock.answered round + 1000 * seconds in
                call_groq_with_rotation-Source clock ask max fuel (suc round)
                  (mark_rate_limited alias until pool') {r = r}
                  (mark_rate_limited-InRange alias until pool' ok') (ground arith)
            | inr (inr (inr eu)) ↦
                call_groq_with_rotation-Source clock ask max fuel (suc round) pool' {r = r} ok'
                  (ground arith)
          ]
    ]
