-- ===== src/Llm/KeyPool.antt =====
-- src/api/utils/LLM_utils/groq_key_pool.py. A time is a number of milliseconds. The lock makes each
-- operation one step, which takes no time: the clock's answer at its start, `now`, is its argument,
-- and stands for the readings that _is_usable makes within the same operation too. An operation
-- returns its answer and the pool.
pub mod Rotation
pub mod Blocking
pub mod Reopening
use study_agent_service.Prelude.{
  get_elem?, ℕ, zero, suc, ◌+◌, ◌-◌, ◌*◌, ◌/◌, ◌%◌, ◌≤◌, ◌<◌, ◌≡◌, refl, sym, ap, ◌∙◌, subst, ◌≢◌,
  ◌↔◌, ◌⊎◌, inl, inr, Bool, true, false, not, ◌&&◌, ◌||◌, Option, none, some, List, [], ◌∷◌, ◌++◌,
  map, arith, ltb, leb, ◌==◌, if◌then◌else◌, ==_iff, Bool-cases, Option-cases, is_some, or_else,
  length, any, all, keep, count_if, find_first, contains, contains-append, contains-keep, ◌>>=◌,
}

pub data KeyStatus : Type 0 where
  healthy blocked rate_limited : KeyStatus

abbrev pub is_blocked : KeyStatus → Bool
is_blocked blocked = true
is_blocked _ = false

-- The alias `key_<n>` is its number.
pub record KeyEntry : Type 0 where
  pub alias : ℕ
  pub api_key : ℕ
  pub status : KeyStatus
  pub rate_limited_until : Option ℕ

pub record GroqKeyPool : Type 0 where
  pub entries : List KeyEntry
  pub round_robin : ℕ

-- One iteration of `_refresh_expired_rate_limits`.
unfoldable pub refresh_entry : ℕ → KeyEntry → KeyEntry
refresh_entry now e = elim e.status [
  | rate_limited ↦ elim e.rate_limited_until [
    | none ↦ e
    | some until ↦
        if leb until now then record e { status = healthy; rate_limited_until = none } else e
  ]
  | _ ↦ e
]

unfoldable pub refresh_expired_rate_limits : ℕ → List KeyEntry → List KeyEntry
unfolding refresh_entry
refresh_expired_rate_limits now = map (refresh_entry now)

unfoldable pub is_usable : ℕ → KeyEntry → Bool
is_usable now e = elim e.status [
  | blocked ↦ false
  | rate_limited ↦ elim e.rate_limited_until [ none ↦ false | some until ↦ leb until now ]
  | healthy ↦ true
]

-- The loop of `acquire_healthy_key` over the offsets that are left: the index and the entry. The
-- index is always in range, by the remainder.
unfoldable pub scan : ℕ → List KeyEntry → ℕ → ℕ → ℕ → Option (ℕ × KeyEntry)
unfolding is_usable
scan now entries round_robin zero offset = none
scan now entries round_robin (suc left) offset =
    let rest = scan now entries round_robin left (suc offset) in
    let idx = (round_robin + offset) % length entries in
    elim (get_elem? entries idx) [
      | none ↦ none
      | some e ↦ if is_usable now e then some (idx, e) else rest
    ]

unfoldable pub acquire_healthy_key : ℕ → GroqKeyPool → Option (ℕ × ℕ) × GroqKeyPool
unfolding scan refresh_expired_rate_limits
acquire_healthy_key now pool =
    let entries = refresh_expired_rate_limits now pool.entries in
    let refreshed = record pool { entries = entries } in
    elim (scan now entries pool.round_robin (length entries) 0) [
      | none ↦ (none, refreshed)
      | some (idx, e) ↦
          (some (e.alias, e.api_key), record refreshed { round_robin = (idx + 1) % length entries })
    ]

-- A loop over the entries that changes the first one with the alias and returns.
abbrev pub update_first : ℕ → (KeyEntry → KeyEntry) → List KeyEntry → List KeyEntry
update_first alias f [] = []
update_first alias f (e ∷ es) =
    let rest = update_first alias f es in if e.alias == alias then f e ∷ es else e ∷ rest

unfoldable pub mark_blocked : ℕ → GroqKeyPool → GroqKeyPool
mark_blocked alias pool = record pool {
  entries =
      update_first alias (λ e. record e { status = blocked; rate_limited_until = none })
        pool.entries;
}

unfoldable pub mark_rate_limited : ℕ → ℕ → GroqKeyPool → GroqKeyPool
mark_rate_limited alias until pool = record pool {
  entries =
      update_first alias (λ e. record e { status = rate_limited; rate_limited_until = some until })
        pool.entries;
}

unfoldable pub all_exhausted : ℕ → GroqKeyPool → Bool × GroqKeyPool
unfolding is_usable refresh_expired_rate_limits
all_exhausted now pool =
    let entries = refresh_expired_rate_limits now pool.entries in
    (not (any (is_usable now) entries), record pool { entries = entries })

abbrev pub until_of : KeyEntry → Option ℕ
until_of e = elim e.status [ rate_limited ↦ e.rate_limited_until | _ ↦ none ]

-- `min(times) if times else None` over the rate-limited entries with a time.
unfoldable pub earliest : List KeyEntry → Option ℕ
earliest [] = none
earliest (e ∷ es) =
    let rest = earliest es in
    elim (until_of e) [
      | none ↦ rest
      | some t ↦ elim rest [ none ↦ some t | some u ↦ if leb t u then some t else some u ]
    ]

unfoldable pub earliest_rate_limit_retry_at : ℕ → GroqKeyPool → Option ℕ × GroqKeyPool
unfolding earliest refresh_expired_rate_limits
earliest_rate_limit_retry_at now pool =
    let entries = refresh_expired_rate_limits now pool.entries in
    (earliest entries, record pool { entries = entries })

unfoldable pub all_blocked : GroqKeyPool → Bool
all_blocked pool = all (λ e. is_blocked e.status) pool.entries
