-- ===== src/Llm/Retry/Termination.antt =====
-- When the retry loop ends: each round either returns or takes one key out of use.
use study_agent_service.Prelude.{
  refl, ◌∷◌, [], ◌∙◌, List, true, any, ap, none, count_if-le-length, ℕ, zero, suc, ◌+◌, ◌*◌, ◌≤◌,
  ◌<◌, ◌≡◌, inl, inr, some, arith, Option-cases, length, count_if,
}
use study_agent_service.Llm.KeyPool.{
  KeyEntry, refresh_expired_rate_limits, all_exhausted, GroqKeyPool, is_usable, acquire_healthy_key,
  mark_blocked, mark_rate_limited,
}
use study_agent_service.Llm.Retry.{
  Answer, GroqCallResult, extract_retry_after_seconds, Clock, call_groq_with_rotation, no_key,
  run_attempts, key_limited,
}
use study_agent_service.Llm.KeyPool.Rotation.{InRange, acquire_healthy_key-finds}
use study_agent_service.Llm.Retry.Attempts.{all_attempts-Ends}
use study_agent_service.Llm.Retry.Measure.{
  entries-acquire, IsPool, acquire-IsPool, mark_blocked-IsPool, mark_rate_limited-IsPool,
}

module _ (clock : Clock) (ask : ℕ → ℕ → ℕ → Answer) (max last keys : ℕ) (some_attempt : 0 < max)
    (starts : (round : ℕ) → round ≤ keys → clock.start round ≤ last)
    (limits : (round alias seconds : ℕ)
      → round < keys
      → run_attempts (ask round alias) alias max max 0 ≡ key_limited seconds
      → last < clock.answered round + 1000 * seconds) where
  call_ends :
      (fuel round : ℕ) (pool : GroqKeyPool)
      → IsPool pool
      → count_if (is_usable last) pool.entries < fuel
      → round + count_if (is_usable last) pool.entries ≤ keys
      → (r : GroqCallResult × GroqKeyPool) × (call_groq_with_rotation clock ask max fuel round pool
          ≡ some r)
  unfolding call_groq_with_rotation
  call_ends zero round pool ok h left = absurd (omega arith)
  call_ends (suc fuel) round pool ok h left =
      let now = clock.start round in
      let (ok', same, usable) = acquire-IsPool last now pool (starts round (omega arith)) ok in
      let pool' = (acquire_healthy_key now pool).1 in
      elim (Option-cases (acquire_healthy_key now pool).0) [
        | inl nothing ↦ (no_key now pool', ground arith)
        | inr (pair, ep) ↦
            let alias = pair.0 in
            let a = usable alias pair.1 ep in
            elim (all_attempts-Ends (ask round alias) alias max some_attempt) [
              | inl (r, er) ↦ ((r, pool'), ground arith)
              | inr (inl eb) ↦
                  let (ok'', less) = mark_blocked-IsPool last alias pool' ok' a in
                  let (r, er) =
                    call_ends fuel (suc round) (mark_blocked alias pool') ok'' (omega arith)
                      (omega arith) in
                  (r, ground arith)
              | inr (inr (e, attempt, asked, el)) ↦
                  let seconds = extract_retry_after_seconds e in
                  let until = clock.answered round + 1000 * seconds in
                  let (_, some_usable) = mark_blocked-IsPool last alias pool' ok' a in
                  let (ok'', less) =
                    mark_rate_limited-IsPool last alias until pool'
                      (limits round alias seconds (omega arith) el) ok' a in
                  let (r, er) =
                    call_ends fuel (suc round) (mark_rate_limited alias until pool') ok''
                      (omega arith) (omega arith) in
                  (r, ground arith)
            ]
      ]

-- A pool with distinct aliases and its cursor in range, and at least one attempt: the call returns
-- within one round more than the pool has keys, provided that these rounds start no later than some
-- time and every rate limit that the attempts with a key would record, in one of these rounds but
-- the last, ends after that time. Failures of other kinds may come at any time.
pub call_groq_with_rotation_returns :
    (clock : Clock) (ask : ℕ → ℕ → ℕ → Answer) (max last fuel : ℕ) (pool : GroqKeyPool)
    → 0 < max
    → ((round : ℕ) → round ≤ length pool.entries → clock.start round ≤ last)
    → ((round alias seconds : ℕ)
        → round < length pool.entries
        → run_attempts (ask round alias) alias max max 0 ≡ key_limited seconds
        → last < clock.answered round + 1000 * seconds)
    → IsPool pool
    → length pool.entries < fuel
    → (r : GroqCallResult × GroqKeyPool) × (call_groq_with_rotation clock ask max fuel 0 pool
        ≡ some r)
call_groq_with_rotation_returns clock ask max last fuel pool some_attempt starts limits ok h =
    call_ends clock ask max last (length pool.entries) some_attempt starts limits fuel 0 pool ok
      (omega (arith, count_if-le-length (is_usable last) pool.entries))
      (omega (arith, count_if-le-length (is_usable last) pool.entries))

any-usable_refresh :
    (now : ℕ) (es : List KeyEntry)
    → any (is_usable 0) es ≡ true
    → any (is_usable 0) (refresh_expired_rate_limits now es) ≡ true
unfolding is_usable refresh_expired_rate_limits
any-usable_refresh now [] h = absurd (ground arith)
any-usable_refresh now (e ∷ es) h = ground (arith, any-usable_refresh now es)

any-usable_later :
    (now : ℕ) (es : List KeyEntry) → any (is_usable 0) es ≡ true → any (is_usable now) es ≡ true
unfolding is_usable
any-usable_later now [] h = absurd (ground arith)
any-usable_later now (e ∷ es) h = ground (arith, any-usable_later now es)

-- With no attempt configured and a healthy key in the pool (one that has been usable since the
-- beginning), the call never returns: no number of rounds is enough.
pub call_groq_with_rotation_stuck :
    (clock : Clock) (ask : ℕ → ℕ → ℕ → Answer) (fuel round : ℕ) (pool : GroqKeyPool)
    → InRange pool
    → any (is_usable 0) pool.entries ≡ true
    → call_groq_with_rotation clock ask 0 fuel round pool ≡ none
unfolding call_groq_with_rotation all_exhausted
call_groq_with_rotation_stuck clock ask zero round pool ok h = refl
call_groq_with_rotation_stuck clock ask (suc fuel) round pool ok h =
    let now = clock.start round in
    let (finds, hands, ok') = acquire_healthy_key-finds now pool ok in
    let pool' = (acquire_healthy_key now pool).1 in
    let still : any (is_usable 0) pool'.entries ≡ true =
      ap (any (is_usable 0)) (entries-acquire now pool) ∙ any-usable_refresh now pool.entries h in
    let at : any (is_usable now) (refresh_expired_rate_limits now pool.entries) ≡ true =
      any-usable_later now (refresh_expired_rate_limits now pool.entries)
        (any-usable_refresh now pool.entries h) in
    let again = call_groq_with_rotation_stuck clock ask fuel (suc round) pool' ok' still in
    elim (Option-cases (acquire_healthy_key now pool).0) [
      | inl nothing ↦ absurd (ground arith)
      | inr (pair, ep) ↦ ground arith
    ]
