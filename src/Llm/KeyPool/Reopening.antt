-- ===== src/Llm/KeyPool/Reopening.antt =====
-- What becomes of a block when a rate limit is recorded over it.
use study_agent_service.Prelude.{
  ℕ, ◌≤◌, ◌≡◌, refl, ◌∙◌, subst, inl, inr, Bool, true, false, not, ◌&&◌, ◌||◌, none, some, List, [],
  ◌∷◌, arith, ◌==◌, ==_iff, Bool-cases, Option-cases, is_some, any, all, length,
}
use study_agent_service.Llm.KeyPool.{
  KeyEntry, GroqKeyPool, blocked, rate_limited, is_usable, acquire_healthy_key, all_exhausted,
  refresh_entry, refresh_expired_rate_limits, mark_blocked, mark_rate_limited, update_first,
}
use study_agent_service.Llm.KeyPool.Rotation.{InRange, hands_out, acquire_healthy_key-finds}
use study_agent_service.Llm.KeyPool.Blocking.{distinct_aliases}
use study_agent_service.Llm.Retry.Measure.{IsPool, length-update}

-- An entry with this alias and this key.
abbrev pub holds : ℕ → ℕ → KeyEntry → Bool
holds alias key e = e.alias == alias && e.api_key == key

-- No entry with another alias may be used now.
abbrev pub others_out : ℕ → ℕ → List KeyEntry → Bool
others_out alias now = all (λ e. e.alias == alias || not (is_usable now e))

-- A usable entry is the one with this alias and this key.
abbrev only : ℕ → ℕ → ℕ → KeyEntry → Bool
only alias key now e = not (is_usable now e) || holds alias key e

absent-holds :
    (alias key : ℕ) (es : List KeyEntry)
    → any (λ x. x.alias == alias) es ≡ false
    → any (holds alias key) es ≡ false
absent-holds alias key [] h = refl
absent-holds alias key (e ∷ es) h = ground (arith, absent-holds alias key es)

refresh-only :
    (alias key now : ℕ) (e : KeyEntry)
    → is_usable now e ≡ false
    → only alias key now (refresh_entry now e) ≡ true
unfolding is_usable refresh_entry
refresh-only alias key now e h = ground arith

absent-only :
    (alias key now : ℕ) (es : List KeyEntry)
    → any (λ x. x.alias == alias) es ≡ false
    → others_out alias now es ≡ true
    → all (only alias key now) (refresh_expired_rate_limits now es) ≡ true
unfolding refresh_expired_rate_limits
absent-only alias key now [] h out = refl
absent-only alias key now (e ∷ es) h out =
    ground (arith, refresh-only alias key now e, absent-only alias key now es)

handed-only :
    (alias key now a k : ℕ) (es : List KeyEntry)
    → all (only alias key now) es ≡ true
    → any (hands_out now a k) es ≡ true
    → (a ≡ alias) × (k ≡ key)
handed-only alias key now a k [] only_it h = absurd (ground arith)
handed-only alias key now a k (e ∷ es) only_it h = elim (Bool-cases (hands_out now a k e)) [
  | inl here ↦
      ground
        (arith, ==_iff e.alias alias, ==_iff e.api_key key, ==_iff e.alias a, ==_iff e.api_key k)
  | inr later ↦ handed-only alias key now a k es (ground arith) (ground arith)
]

module _ (alias key until now : ℕ) (passed : until ≤ now) where
  block : KeyEntry → KeyEntry
  block e = record e { status = blocked; rate_limited_until = none }

  limit : KeyEntry → KeyEntry
  limit e = record e { status = rate_limited; rate_limited_until = some until }

  marked : List KeyEntry → List KeyEntry
  unfolding block limit
  marked es = update_first alias limit (update_first alias block es)

  -- An alias that stands in front stands nowhere else.
  alone :
      (e : KeyEntry) (es : List KeyEntry)
      → distinct_aliases (e ∷ es) ≡ true
      → (e.alias == alias) ≡ true
      → any (λ x. x.alias == alias) es ≡ false
  alone e es d here =
      let same : e.alias ≡ alias = (==_iff e.alias alias).0 here in
      subst (λ a. any (λ x. x.alias == a) es ≡ false) same (ground arith)

  usable_again :
      (es : List KeyEntry)
      → distinct_aliases es ≡ true
      → any (holds alias key) es ≡ true
      → any (hands_out now alias key) (refresh_expired_rate_limits now (marked es)) ≡ true
  unfolding marked refresh_expired_rate_limits is_usable
  usable_again [] d h = absurd (ground arith)
  usable_again (e ∷ es) d h = elim (Bool-cases (e.alias == alias)) [
    | inl here ↦ ground (arith, absent-holds alias key es (alone e es d here))
    | inr elsewhere ↦ ground (arith, usable_again es)
  ]

  nothing_else :
      (es : List KeyEntry)
      → distinct_aliases es ≡ true
      → any (holds alias key) es ≡ true
      → others_out alias now es ≡ true
      → all (only alias key now) (refresh_expired_rate_limits now (marked es)) ≡ true
  unfolding marked refresh_expired_rate_limits
  nothing_else [] d h out = absurd (ground arith)
  nothing_else (e ∷ es) d h out = elim (Bool-cases (e.alias == alias)) [
    | inl here ↦
        let absent = alone e es d here in
        ground (arith, absent-holds alias key es absent, absent-only alias key now es absent)
    | inr elsewhere ↦ ground (arith, refresh-only alias key now e, nothing_else es)
  ]

  length-marked : (es : List KeyEntry) → length (marked es) ≡ length es
  unfolding marked block limit
  length-marked es =
      length-update alias limit (λ e. refl) (update_first alias block es)
      ∙ length-update alias block (λ e. refl) es

any-hands_out_usable :
    (now a k : ℕ) (es : List KeyEntry)
    → any (hands_out now a k) es ≡ true
    → any (is_usable now) es ≡ true
any-hands_out_usable now a k [] h = absurd (ground arith)
any-hands_out_usable now a k (e ∷ es) h = ground (arith, any-hands_out_usable now a k es)

-- A pool with distinct aliases and its cursor in range, and one of its keys, which is marked as
-- blocked and then, for example by a call that was under way, as rate limited: at any time when
-- this limit has passed a key is handed out, and if no key with another alias may be used then, it
-- is the blocked one, wherever it stands and wherever the cursor is.
pub mark_rate_limited-reopens :
    (alias key until now : ℕ) (pool : GroqKeyPool)
    → until ≤ now
    → IsPool pool
    → any (holds alias key) pool.entries ≡ true
    → let handed =
        (acquire_healthy_key now (mark_rate_limited alias until (mark_blocked alias pool))).0 in
      (is_some handed ≡ true)
      × (others_out alias now pool.entries ≡ true → handed ≡ some (alias, key))
unfolding mark_rate_limited mark_blocked all_exhausted
mark_rate_limited-reopens alias key until now pool passed ok held =
    let pool' = mark_rate_limited alias until (mark_blocked alias pool) in
    let es = refresh_expired_rate_limits now pool'.entries in
    let same_length : length pool'.entries ≡ length pool.entries =
      unfold marked in length-marked alias key until now passed pool.entries in
    let range : InRange pool' = elim ok.in_range [
      | inl empty ↦ inl (same_length ∙ empty)
      | inr lt ↦ inr (rw same_length lt)
    ] in
    let (finds, hands, _) = acquire_healthy_key-finds now pool' range in
    let again : any (hands_out now alias key) es ≡ true =
      unfold marked in usable_again alias key until now passed pool.entries ok.distinct held in
    let usable = any-hands_out_usable now alias key es again in
    let some_key : is_some (acquire_healthy_key now pool').0 ≡ true = ground arith in
    (
      some_key,
      λ out. elim (Option-cases (acquire_healthy_key now pool').0) [
        | inl none_handed ↦ absurd (ground arith)
        | inr (pair, e) ↦
            let it =
              handed-only alias key now pair.0 pair.1 es
                (unfold marked in
                  nothing_else alias key until now passed pool.entries ok.distinct held out)
                (hands pair.0 pair.1 e) in
            ground (arith, it)
      ],
    )
