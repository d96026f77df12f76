-- ===== src/Llm/Retry.antt =====
-- src/api/utils/LLM_utils/groq_retry.py: `call_groq_with_rotation`. The model's answers and the
-- clock are arguments. The source reads an exception's text and response by substring tests; here
-- an error carries what these tests find. The model's name, the sampling arguments, the suggestion
-- and the token usage only pass through and are left out.
pub mod Attempts
pub mod Measure
pub mod Termination
pub mod Results
use study_agent_service.Prelude.{
  ℕ, zero, suc, ◌+◌, ◌-◌, ◌*◌, ◌/◌, ◌%◌, ◌≤◌, ◌<◌, ◌≡◌, refl, sym, ap, ◌∙◌, subst, ◌≢◌, ◌↔◌, ◌⊎◌,
  inl, inr, Bool, true, false, not, ◌&&◌, ◌||◌, Option, none, some, List, [], ◌∷◌, ◌++◌, map, arith,
  ltb, leb, ◌==◌, if◌then◌else◌, ==_iff, Bool-cases, Option-cases, is_some, or_else, length, any,
  all, keep, count_if, find_first, contains, contains-append, contains-keep, ◌>>=◌,
}
use study_agent_service.Llm.KeyPool.{
  GroqKeyPool, acquire_healthy_key, all_blocked, earliest_rate_limit_retry_at, mark_blocked,
  mark_rate_limited,
}

-- `_is_token_limit_error`, `_is_timeout_error`, `_extract_status_code`, and the header retry-after.
pub record GroqError : Type 0 where
  pub is_token_limit : Bool
  pub is_timeout : Bool
  pub status_code : Option ℕ
  pub retry_after_header : Option ℕ

pub data Answer : Type 0 where
  response : ℕ → Answer
  failure : GroqError → Answer

pub data ErrorType : Type 0 where
  llm_key_pool_exhausted rate_limited token_limit llm_infra_error : ErrorType

-- `api_key_alias` is none for the alias "pool".
pub record GroqCallResult : Type 0 where
  pub ok : Bool
  pub content : Option ℕ
  pub error_type : Option ErrorType
  pub api_key_alias : Option ℕ
  pub attempt_index : ℕ
  pub retry_after_seconds : Option ℕ
  pub next_llm_retry_at : Option ℕ

unfoldable pub extract_retry_after_seconds : GroqError → ℕ
extract_retry_after_seconds e = elim e.retry_after_header [
  | none ↦ 60
  | some raw ↦ if leb 1 raw then raw else 1
]

abbrev pub has_status : ℕ → GroqError → Bool
has_status code e = elim e.status_code [ none ↦ false | some c ↦ c == code ]

unfoldable pub is_infra_error : GroqError → Bool
is_infra_error e = e.is_timeout || (elim e.status_code [ none ↦ false | some code ↦ leb 500 code ])

unfoldable pub failure_result : ErrorType → Option ℕ → ℕ → Option ℕ → Option ℕ → GroqCallResult
failure_result error alias attempt retry_seconds retry_at = record {
  ok = false;
  content = none;
  error_type = some error;
  api_key_alias = alias;
  attempt_index = attempt;
  retry_after_seconds = retry_seconds;
  next_llm_retry_at = retry_at;
}

abbrev pub success_result : ℕ → ℕ → ℕ → GroqCallResult
success_result content alias attempt = record {
  ok = true;
  content = some content;
  error_type = none;
  api_key_alias = some alias;
  attempt_index = attempt;
  retry_after_seconds = none;
  next_llm_retry_at = none;
}

-- How the attempts with one key end: a return, one of the two breaks, or the end of the range.
pub data KeyOutcome : Type 0 where
  finished : GroqCallResult → KeyOutcome
  key_blocked : KeyOutcome
  key_limited : ℕ → KeyOutcome
  attempts_used : KeyOutcome

-- The handler of the except clause; `rest` is the next iteration. In the loop the number of
-- attempts is at least 1, so `attempt < max - 1` is `attempt + 1 < max`.
unfoldable pub after_error : ℕ → ℕ → ℕ → GroqError → KeyOutcome → KeyOutcome
unfolding extract_retry_after_seconds is_infra_error failure_result
after_error alias max attempt e rest =
    if e.is_token_limit
    then finished (failure_result token_limit (some alias) (attempt + 1) none none)
    else (if has_status 401 e || has_status 403 e
        then key_blocked
        else (if has_status 429 e
            then key_limited (extract_retry_after_seconds e)
            else (if is_infra_error e && ltb (attempt + 1) max
                then rest
                else finished
                    (failure_result llm_infra_error (some alias) (attempt + 1) none none))))

-- `for attempt in range(max_infra_attempts)`, over the attempts that are left.
unfoldable pub run_attempts : (ℕ → Answer) → ℕ → ℕ → ℕ → ℕ → KeyOutcome
unfolding after_error
run_attempts ask alias max zero attempt = attempts_used
run_attempts ask alias max (suc left) attempt =
    let rest = run_attempts ask alias max left (attempt + 1) in
    elim (ask attempt) [
      | response content ↦ finished (success_result content alias (attempt + 1))
      | failure e ↦ after_error alias max attempt e rest
    ]

-- `max(1, int(delta.total_seconds()))`
abbrev pub seconds_until : ℕ → ℕ → ℕ
seconds_until now until = let s = (until - now) / 1000 in if leb 1 s then s else 1

-- The branch without a key.
unfoldable pub no_key : ℕ → GroqKeyPool → GroqCallResult × GroqKeyPool
unfolding failure_result all_blocked earliest_rate_limit_retry_at
no_key now pool =
    if all_blocked pool
    then (failure_result llm_key_pool_exhausted none 0 none none, pool)
    else (let (retry_at, pool') = earliest_rate_limit_retry_at now pool in
        elim retry_at [
          | none ↦ (failure_result rate_limited none 0 none none, pool')
          | some t ↦
              (failure_result rate_limited none 0 (some (seconds_until now t)) (some t), pool')
        ])

-- The round's times: when it starts, and when its last answer is in.
pub record Clock : Type 0 where
  pub start : ℕ → ℕ
  pub answered : ℕ → ℕ

-- `while True`, on fuel; `ask` gives the answer of a round, for a key, to an attempt.
unfoldable pub call_groq_with_rotation :
    Clock → (ℕ → ℕ → ℕ → Answer) → ℕ → ℕ → ℕ → GroqKeyPool → Option (GroqCallResult × GroqKeyPool)
unfolding acquire_healthy_key run_attempts no_key mark_blocked mark_rate_limited
call_groq_with_rotation clock ask max zero round pool = none
call_groq_with_rotation clock ask max (suc fuel) round pool =
    let (key, pool') = acquire_healthy_key (clock.start round) pool in
    elim key [
      | none ↦ some (no_key (clock.start round) pool')
      | some (alias, api_key) ↦ elim (run_attempts (ask round alias) alias max max 0) [
        | finished r ↦ some (r, pool')
        | key_blocked ↦
            call_groq_with_rotation clock ask max fuel (suc round) (mark_blocked alias pool')
        | key_limited seconds ↦
            call_groq_with_rotation clock ask max fuel (suc round)
              (mark_rate_limited alias (clock.answered round + 1000 * seconds) pool')
        | attempts_used ↦ call_groq_with_rotation clock ask max fuel (suc round) pool'
      ]
    ]
