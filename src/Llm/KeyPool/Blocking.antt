-- ===== src/Llm/KeyPool/Blocking.antt =====
-- How long a blocked key stays out of use.
use study_agent_service.Prelude.{
  get_elem?, ℕ, zero, suc, ◌+◌, ◌%◌, ◌≡◌, refl, sym, ◌∙◌, subst, ◌≢◌, inl, inr, Bool, true, false,
  not, ◌&&◌, ◌||◌, some, List, [], ◌∷◌, arith, ◌==◌, ==_iff, Bool-cases, Option-cases, length, any,
  all,
}
use study_agent_service.Llm.KeyPool.{
  KeyEntry, GroqKeyPool, is_blocked, scan, is_usable, acquire_healthy_key, all_exhausted,
  earliest_rate_limit_retry_at, refresh_expired_rate_limits, mark_blocked, mark_rate_limited,
}

-- The operations on a pool, in any order and at any times, less a rate limit on one alias.
pub data PoolStep (alias : ℕ) : GroqKeyPool → GroqKeyPool → Type 0 where
  acquire : (p : GroqKeyPool) (now : ℕ) → PoolStep alias p (acquire_healthy_key now p).1
  ask : (p : GroqKeyPool) (now : ℕ) → PoolStep alias p (all_exhausted now p).1
  ask_retry : (p : GroqKeyPool) (now : ℕ) → PoolStep alias p (earliest_rate_limit_retry_at now p).1
  block : (p : GroqKeyPool) (other : ℕ) → PoolStep alias p (mark_blocked other p)
  limit :
      (p : GroqKeyPool) (other until : ℕ)
      → (other == alias) ≡ false
      → PoolStep alias p (mark_rate_limited other until p)

pub data PoolReach (alias : ℕ) (p : GroqKeyPool) : GroqKeyPool → Type 0 where
  here : PoolReach alias p p
  next : {q r : GroqKeyPool} → PoolReach alias p q → PoolStep alias q r → PoolReach alias p r

abbrev pub distinct_aliases : List KeyEntry → Bool
distinct_aliases [] = true
distinct_aliases (e ∷ es) = not (any (λ x. x.alias == e.alias) es) && distinct_aliases es

-- Every entry with the alias is blocked.
abbrev pub shut : ℕ → List KeyEntry → Bool
shut alias = all (λ e. not (e.alias == alias) || is_blocked e.status)

refresh-shut :
    (alias now : ℕ) (es : List KeyEntry)
    → shut alias es ≡ true
    → shut alias (refresh_expired_rate_limits now es) ≡ true
unfolding refresh_expired_rate_limits
refresh-shut alias now [] h = refl
refresh-shut alias now (e ∷ es) h = ground (arith, refresh-shut alias now es)

blocked-shut :
    (alias other : ℕ) (es : List KeyEntry)
    → shut alias es ≡ true
    → shut alias (mark_blocked other (record { entries = es; round_robin = 0 })).entries ≡ true
unfolding mark_blocked
blocked-shut alias other [] h = refl
blocked-shut alias other (e ∷ es) h = ground (arith, blocked-shut alias other es)

limited-shut :
    (alias other until : ℕ) (es : List KeyEntry)
    → (other == alias) ≡ false
    → shut alias es ≡ true
    → shut alias (mark_rate_limited other until (record { entries = es; round_robin = 0 })).entries
      ≡ true
unfolding mark_rate_limited
limited-shut alias other until [] d h = refl
limited-shut alias other until (e ∷ es) d h = elim (Bool-cases (e.alias == other)) [
  | inl same ↦
      let e' : e.alias ≡ other = (==_iff e.alias other).0 same in
      let d' : (e.alias == alias) ≡ false = (λ i. e' i == alias) ∙ d in ground arith
  | inr differs ↦ ground (arith, limited-shut alias other until es d)
]

step-shut :
    (alias : ℕ) {p q : GroqKeyPool}
    → PoolStep alias p q
    → shut alias p.entries ≡ true
    → shut alias q.entries ≡ true
unfolding acquire_healthy_key all_exhausted earliest_rate_limit_retry_at mark_blocked
    mark_rate_limited
step-shut alias (acquire p now) h =
    elim (Option-cases (
      scan now (refresh_expired_rate_limits now p.entries) p.round_robin
        (length (refresh_expired_rate_limits now p.entries)) 0)) [
          | inl stop ↦ ground (arith, refresh-shut alias now p.entries)
          | inr (pair, found) ↦ ground (arith, refresh-shut alias now p.entries)
        ]
step-shut alias (ask p now) h = refresh-shut alias now p.entries h
step-shut alias (ask_retry p now) h = refresh-shut alias now p.entries h
step-shut alias (block p other) h = blocked-shut alias other p.entries h
step-shut alias (limit p other until d) h = limited-shut alias other until p.entries d h

reach-shut :
    (alias : ℕ) {p q : GroqKeyPool}
    → PoolReach alias p q
    → shut alias p.entries ≡ true
    → shut alias q.entries ≡ true
reach-shut alias here h = h
reach-shut alias (next r s) h = step-shut alias s (reach-shut alias r h)

absent-shut :
    (alias : ℕ) (es : List KeyEntry) → any (λ x. x.alias == alias) es ≡ false → shut alias es ≡ true
absent-shut alias [] h = refl
absent-shut alias (e ∷ es) h = ground (arith, absent-shut alias es)

mark_blocked-shut :
    (alias : ℕ) (es : List KeyEntry)
    → distinct_aliases es ≡ true
    → shut alias (mark_blocked alias (record { entries = es; round_robin = 0 })).entries ≡ true
unfolding mark_blocked
mark_blocked-shut alias [] h = refl
mark_blocked-shut alias (e ∷ es) h = elim (Bool-cases (e.alias == alias)) [
  | inl same ↦
      let e' : e.alias ≡ alias = (==_iff e.alias alias).0 same in
      let gone : any (λ x. x.alias == alias) es ≡ false =
        (λ i. any (λ x. x.alias == sym e' i) es) ∙ ground arith in
      ground (arith, absent-shut alias es)
  | inr differs ↦ ground (arith, mark_blocked-shut alias es)
]

get_elem?-shut :
    (alias now : ℕ) (es : List KeyEntry) (i : ℕ) {e : KeyEntry}
    → shut alias es ≡ true
    → get_elem? es i ≡ some e
    → is_usable now e ≡ true
    → (e.alias == alias) ≡ false
unfolding is_usable
get_elem?-shut alias now [] i {e} h found good = absurd (ground arith)
get_elem?-shut alias now (x ∷ es) zero {e} h found good = ground arith
get_elem?-shut alias now (x ∷ es) (suc i) {e} h found good =
    get_elem?-shut alias now es i {e = e} (ground arith) found good

scan-shut :
    (alias now : ℕ) (es : List KeyEntry) (cursor left offset : ℕ) {idx : ℕ} {e : KeyEntry}
    → shut alias es ≡ true
    → scan now es cursor left offset ≡ some (idx, e)
    → (e.alias == alias) ≡ false
unfolding scan
scan-shut alias now es cursor zero offset {idx} {e} h found = absurd (ground arith)
scan-shut alias now es cursor (suc left) offset {idx} {e} h found =
    elim (Option-cases (get_elem? es ((cursor + offset) % length es))) [
      | inl out ↦ absurd (ground arith)
      | inr (x, at) ↦ elim (Bool-cases (is_usable now x)) [
        | inl good ↦
            let same : x ≡ e = ground arith in
            subst (λ y. (y.alias == alias) ≡ false) same
              (get_elem?-shut alias now es ((cursor + offset) % length es) {e = x} h at good)
        | inr bad ↦
            scan-shut alias now es cursor left (suc offset) {idx = idx} {e = e} h (ground arith)
      ]
    ]

-- With distinct aliases, a key that was marked as blocked is never handed out again, whatever the
-- pool is asked or told in between and at whatever times, as long as no rate limit is recorded for
-- this key.
pub mark_blocked-permanent :
    (alias : ℕ) (p : GroqKeyPool) {q : GroqKeyPool}
    → distinct_aliases p.entries ≡ true
    → PoolReach alias (mark_blocked alias p) q
    → (now key : ℕ) → (acquire_healthy_key now q).0 ≢ some (alias, key)
unfolding acquire_healthy_key mark_blocked
mark_blocked-permanent alias p {q} d r now key = λ h.
    let es = refresh_expired_rate_limits now q.entries in
    let closed : shut alias es ≡ true =
      refresh-shut alias now q.entries (reach-shut alias r (mark_blocked-shut alias p.entries d)) in
    elim (Option-cases (scan now es q.round_robin (length es) 0)) [
      | inl stop ↦ absurd (ground arith)
      | inr (pair, found) ↦
          let apart =
            scan-shut alias now es q.round_robin (length es) 0 {idx = pair.0} {e = pair.1} closed
              found in
          ground (arith, ==_iff pair.1.alias alias)
    ]
