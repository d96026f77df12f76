-- ===== src/Llm/KeyPool/Rotation.antt =====
-- What `acquire_healthy_key` hands out, and that it finds a key whenever there is one.
use study_agent_service.Prelude.{
  get_elem?, ℕ, zero, suc, ◌+◌, ◌-◌, ◌%◌, ◌≤◌, ◌<◌, ◌≡◌, refl, sym, ap, ◌∙◌, subst, ◌⊎◌, inl, inr,
  Bool, true, false, not, ◌&&◌, none, some, List, [], ◌∷◌, arith, ltb, ◌==◌, if◌then◌else◌, ==_iff,
  Bool-cases, Option-cases, is_some, length, any,
}
use native.Mathlib.Nat.{mod-lt, mod-eq_of_lt, mod-eq-sub-mod}
use study_agent_service.Llm.KeyPool.{
  KeyEntry, GroqKeyPool, scan, is_usable, acquire_healthy_key, all_exhausted,
  refresh_expired_rate_limits,
}

-- The cursor is an index of the pool, as it is at the start and after each call.
abbrev pub InRange : GroqKeyPool → Type 0
InRange pool = (length pool.entries ≡ 0) ⊎ (pool.round_robin < length pool.entries)

mod_once : (a n : ℕ) → a < n + n → a % n ≡ (if ltb a n then a else a - n)
mod_once a n h = elim (Bool-cases (ltb a n)) [
  | inl small ↦ ground (arith, mod-eq_of_lt {n = a} {m = n})
  | inr large ↦ ground (arith, mod-eq-sub-mod {n = a} {m = n}, mod-eq_of_lt {n = a - n} {m = n})
]

any-get_elem? :
    (p : KeyEntry → Bool) (es : List KeyEntry) (i : ℕ) {e : KeyEntry}
    → get_elem? es i ≡ some e
    → p e ≡ true
    → any p es ≡ true
any-get_elem? p [] i h k = absurd (ground arith)
any-get_elem? p (x ∷ es) zero {e} h k = ground arith
any-get_elem? p (x ∷ es) (suc i) {e} h k = ground (arith, any-get_elem? p es i {e = e} h k)

get_elem?-some :
    {A : Type 0} (es : List A) (i : ℕ) → i < length es → (e : A) × (get_elem? es i ≡ some e)
get_elem?-some [] i h = absurd (omega arith)
get_elem?-some (x ∷ es) zero h = (x, refl)
get_elem?-some (x ∷ es) (suc i) h = get_elem?-some es i (omega arith)

get_elem?-any :
    (p : KeyEntry → Bool) (es : List KeyEntry)
    → any p es ≡ true
    → (i : ℕ) × (e : KeyEntry) × (i < length es) × (get_elem? es i ≡ some e) × (p e ≡ true)
get_elem?-any p [] h = absurd (ground arith)
get_elem?-any p (x ∷ es) h = elim (Bool-cases (p x)) [
  | inl at ↦ (0, x, omega arith, refl, at)
  | inr later ↦
      let (i, e, lt, found, pe) = get_elem?-any p es (ground arith) in
      (suc i, e, omega arith, found, pe)
]

module _ (now : ℕ) (es : List KeyEntry) (cursor : ℕ) (in_range : cursor < length es) where
  -- The loop stops at the first usable entry of its round.
  scan-some :
      (left offset : ℕ) {idx : ℕ} {e : KeyEntry}
      → scan now es cursor left offset ≡ some (idx, e)
      → (idx < length es) × (get_elem? es idx ≡ some e) × (is_usable now e ≡ true)
  unfolding scan
  scan-some zero offset {idx} {e} h = absurd (ground arith)
  scan-some (suc left) offset {idx} {e} h =
      let i = (cursor + offset) % length es in
      let (x, found) = get_elem?-some es i (mod-lt (cursor + offset) (omega arith)) in
      elim (Bool-cases (is_usable now x)) [
        | inl good ↦
            let same : (i ≡ idx) × (x ≡ e) = ground arith in
            (
              subst (λ k. k < length es) same.0 (mod-lt (cursor + offset) (omega arith)),
              ground arith,
              ground arith,
            )
        | inr bad ↦ scan-some left (suc offset) {idx = idx} {e = e} (ground arith)
      ]

  -- Where it finds none, no entry at a later offset is usable.
  scan-none :
      (left offset k : ℕ) {e : KeyEntry}
      → scan now es cursor left offset ≡ none
      → k < left
      → get_elem? es ((cursor + (offset + k)) % length es) ≡ some e
      → is_usable now e ≡ false
  unfolding scan
  scan-none zero offset k {e} h lt found = absurd (omega arith)
  scan-none (suc left) offset zero {e} h lt found =
      let first : get_elem? es ((cursor + offset) % length es) ≡ some e =
        subst (λ m. get_elem? es (m % length es) ≡ some e) (omega arith) found in
      elim (Bool-cases (is_usable now e)) [ inl good ↦ absurd (ground arith) | inr bad ↦ bad ]
  scan-none (suc left) offset (suc k) {e} h lt found =
      let (x, found_x) =
        get_elem?-some es ((cursor + offset) % length es)
          (mod-lt (cursor + offset) (omega arith)) in
      elim (Bool-cases (is_usable now x)) [
        | inl good ↦ absurd (ground arith)
        | inr bad ↦
            scan-none left (suc offset) k {e = e} (ground arith) (omega arith)
              (subst (λ m. get_elem? es (m % length es) ≡ some e) (omega arith) found)
      ]

  reached :
      (i : ℕ) → i < length es → (k : ℕ) × (k < length es) × ((cursor + (0 + k)) % length es ≡ i)
  reached i lt = elim (Bool-cases (ltb i cursor)) [
    | inl before ↦
        let small : i < cursor = ground arith in
        let k = (i + length es) - cursor in
        let bound : k < length es = omega arith in
        let a = cursor + (0 + k) in
        let sum : a ≡ i + length es = omega arith in
        (k, bound, ground (arith, mod_once a (length es)))
    | inr after ↦
        let large : cursor ≤ i = ground arith in
        let k = i - cursor in
        let bound : k < length es = omega arith in
        let a = cursor + (0 + k) in
        let sum : a ≡ i = omega arith in (k, bound, ground (arith, mod_once a (length es)))
  ]

  scan-finds :
      any (is_usable now) es ≡ true
      → (idx : ℕ) × (e : KeyEntry) × (scan now es cursor (length es) 0 ≡ some (idx, e))
  scan-finds h =
      let (i, e, lt, found, good) = get_elem?-any (is_usable now) es h in
      let (k, lt_k, at) = reached i lt in
      elim (Option-cases (scan now es cursor (length es) 0)) [
        | inl stop ↦
            let bad =
              scan-none (length es) 0 k {e = e} stop lt_k
                (subst (λ m. get_elem? es m ≡ some e) (sym at) found) in
            absurd (ground arith)
        | inr (pair, ep) ↦ (pair.0, pair.1, ep)
      ]

length-refresh :
    (now : ℕ) (es : List KeyEntry) → length (refresh_expired_rate_limits now es) ≡ length es
unfolding refresh_expired_rate_limits
length-refresh now [] = refl
length-refresh now (e ∷ es) = ap suc (length-refresh now es)

-- A usable entry with this alias and this key.
abbrev pub hands_out : ℕ → ℕ → ℕ → KeyEntry → Bool
hands_out now alias key e = (e.alias == alias && e.api_key == key) && is_usable now e

no_entries :
    (now cursor : ℕ) (es : List KeyEntry)
    → length es ≡ 0
    → (any (is_usable now) es ≡ false) × (scan now es cursor (length es) 0 ≡ none)
unfolding scan
no_entries now cursor [] h = (refl, refl)
no_entries now cursor (e ∷ es) h = absurd (omega arith)

-- On a pool whose cursor is in range, a key is handed out exactly when not all keys are exhausted,
-- it is a key that may be used now, and the cursor stays in range.
pub acquire_healthy_key-finds :
    (now : ℕ) (pool : GroqKeyPool)
    → InRange pool
    → (is_some (acquire_healthy_key now pool).0 ≡ not (all_exhausted now pool).0)
      × ((alias key : ℕ)
          → (acquire_healthy_key now pool).0 ≡ some (alias, key)
          → any (hands_out now alias key) (refresh_expired_rate_limits now pool.entries) ≡ true)
      × InRange (acquire_healthy_key now pool).1
unfolding acquire_healthy_key all_exhausted
acquire_healthy_key-finds now pool (inl empty) =
    let es = refresh_expired_rate_limits now pool.entries in
    let len : length es ≡ 0 = length-refresh now pool.entries ∙ empty in
    let (unusable, stop) = no_entries now pool.round_robin es len in
    (ground arith, λ alias key h. absurd (ground arith), ground arith)
acquire_healthy_key-finds now pool (inr ok) =
    let es = refresh_expired_rate_limits now pool.entries in
    let lt : pool.round_robin < length es = rw (length-refresh now pool.entries) ok in
    elim (Bool-cases (any (is_usable now) es)) [
      | inl there ↦
          let (idx, e, ep) = scan-finds now es pool.round_robin lt there in
          let (at, found, good) =
            scan-some now es pool.round_robin lt (length es) 0 {idx = idx} {e = e} ep in
          let here =
            any-get_elem? (hands_out now e.alias e.api_key) es idx {e = e} found
              (ground (arith, ==_iff e.alias e.alias, ==_iff e.api_key e.api_key)) in
          (
            ground arith,
            λ alias key h.
                let same : (e.alias ≡ alias) × (e.api_key ≡ key) = ground arith in
                (λ i. any (hands_out now (sym same.0 i) (sym same.1 i)) es) ∙ here,
            ground (arith, mod-lt (idx + 1) {m = length es}),
          )
      | inr nothing ↦ elim (Option-cases (scan now es pool.round_robin (length es) 0)) [
        | inl stop ↦ (ground arith, λ alias key h. absurd (ground arith), ground arith)
        | inr (pair, ep) ↦
            let (at, found, good) =
              scan-some now es pool.round_robin lt (length es) 0 {idx = pair.0} {e = pair.1} ep in
            absurd (ground (arith, any-get_elem? (is_usable now) es pair.0 {e = pair.1} found good))
      ]
    ]
