-- ===== src/Llm/Tests.antt =====
-- A pool of two keys and some answers on which the theorems are applied.
use study_agent_service.Prelude.{
  ℕ, ◌+◌, ◌*◌, ◌<◌, ◌≡◌, refl, ◌≢◌, ◌⊎◌, inr, false, not, none, some, [], ◌∷◌, arith, ◌==◌,
  if◌then◌else◌, is_some,
}
use study_agent_service.Llm.KeyPool.{
  is_usable, KeyEntry, GroqKeyPool, healthy, acquire_healthy_key, all_exhausted, mark_blocked,
  mark_rate_limited,
}
use study_agent_service.Llm.KeyPool.Rotation.{InRange, acquire_healthy_key-finds}
use study_agent_service.Llm.KeyPool.Blocking.{PoolReach, here, next, limit, mark_blocked-permanent}
use study_agent_service.Llm.KeyPool.Reopening.{mark_rate_limited-reopens}
use study_agent_service.Llm.Retry.{
  Answer, GroqError, failure, response, GroqCallResult, Clock, call_groq_with_rotation,
  extract_retry_after_seconds, success_result, run_attempts, key_limited,
}
use study_agent_service.Llm.Retry.Measure.{IsPool}
use study_agent_service.Llm.Retry.Termination.{
  call_groq_with_rotation_returns, call_groq_with_rotation_stuck,
}
use study_agent_service.Llm.Retry.Results.{Source, Exhausted, call_groq_with_rotation-Source}

abbrev key_1 : KeyEntry
key_1 = record { alias = 1; api_key = 100; status = healthy; rate_limited_until = none }

abbrev key_2 : KeyEntry
key_2 = record { alias = 2; api_key = 200; status = healthy; rate_limited_until = none }

abbrev pool : GroqKeyPool
pool = record { entries = key_1 ∷ key_2 ∷ []; round_robin = 0 }

abbrev pool_in_range : InRange pool
pool_in_range = inr (omega arith)

-- The first key is over its limit, the second answers.
abbrev over_limit : GroqError
over_limit = record {
  is_token_limit = false;
  is_timeout = false;
  status_code = some 429;
  retry_after_header = none;
}

abbrev answers : ℕ → ℕ → ℕ → Answer
answers round alias attempt = if alias == 1 then failure over_limit else response 7

abbrev clock : Clock
clock = record { start = λ _. 5; answered = λ _. 5 }

acquire_healthy_key-finds_example :
    is_some (acquire_healthy_key 5 pool).0 ≡ not (all_exhausted 5 pool).0
acquire_healthy_key-finds_example = (acquire_healthy_key-finds 5 pool pool_in_range).0

abbrev other_limited :
    PoolReach 1 (mark_blocked 1 pool) (mark_rate_limited 2 9 (mark_blocked 1 pool))
other_limited = next here (limit (mark_blocked 1 pool) 2 9 refl)

mark_blocked-permanent_example :
    (acquire_healthy_key 5 (mark_rate_limited 2 9 (mark_blocked 1 pool))).0 ≢ some (1, 100)
mark_blocked-permanent_example = mark_blocked-permanent 1 pool refl other_limited 5 100

-- The first key is blocked for good, the second is blocked and then over its limit until 9.
mark_rate_limited-reopens_example :
    (acquire_healthy_key 20 (mark_rate_limited 2 9 (mark_blocked 2 (mark_blocked 1 pool)))).0
    ≡ some (2, 200)
unfolding mark_blocked
mark_rate_limited-reopens_example =
    (mark_rate_limited-reopens 2 200 9 20 (mark_blocked 1 pool) (omega arith)
        (record { distinct = refl; in_range = inr (omega arith) }) refl).1
      (unfold is_usable in refl)

answers_limit :
    (round alias seconds : ℕ)
    → round < 2
    → run_attempts (answers round alias) alias 3 3 0 ≡ key_limited seconds
    → 5 < clock.answered round + 1000 * seconds
unfolding extract_retry_after_seconds run_attempts
answers_limit round alias seconds early h = ground arith

pool-IsPool : IsPool pool
pool-IsPool = record { distinct = refl; in_range = pool_in_range }

call_groq_with_rotation_returns_example :
    (r : GroqCallResult × GroqKeyPool) × (call_groq_with_rotation clock answers 3 3 0 pool ≡ some r)
call_groq_with_rotation_returns_example =
    call_groq_with_rotation_returns clock answers 3 5 3 pool (omega arith)
      (λ round early. omega arith) answers_limit pool-IsPool (omega arith)

abbrev answered : GroqCallResult × GroqKeyPool
answered = (success_result 7 2 1, record (mark_rate_limited 1 60005 pool) { round_robin = 0 })

call_groq_with_rotation-Source_example :
    ((at alias : ℕ) × Source (answers at alias) answered.0)
    ⊎ ((at : ℕ) × Exhausted (clock.start at) answered)
unfolding call_groq_with_rotation
call_groq_with_rotation-Source_example =
    call_groq_with_rotation-Source clock answers 3 3 0 pool {r = answered} pool_in_range refl

call_groq_with_rotation_stuck_example : call_groq_with_rotation clock answers 0 1000 0 pool ≡ none
call_groq_with_rotation_stuck_example =
    call_groq_with_rotation_stuck clock answers 1000 0 pool pool_in_range (unfold is_usable in refl)
