-- ===== src/Llm/Retry/Measure.antt =====
-- The keys that are usable up to some time: no operation of a round adds one, and marking a key
-- takes it away.
use study_agent_service.Prelude.{
  ℕ, ◌≤◌, ◌<◌, ◌≡◌, refl, sym, ap, ◌∙◌, inl, inr, true, false, ◌&&◌, none, some, List, [], ◌∷◌,
  arith, ◌==◌, ==_iff, Bool-cases, Option-cases, length, any, count_if,
}
use study_agent_service.Llm.KeyPool.{
  rate_limited, blocked, KeyEntry, GroqKeyPool, scan, is_usable, acquire_healthy_key, refresh_entry,
  refresh_expired_rate_limits, mark_blocked, mark_rate_limited, update_first,
}
use study_agent_service.Llm.KeyPool.Rotation.{InRange, hands_out, acquire_healthy_key-finds}
use study_agent_service.Llm.KeyPool.Blocking.{distinct_aliases}

module _ (last : ℕ) where
  usable_later :
      (now : ℕ) (e : KeyEntry) → now ≤ last → is_usable now e ≡ true → is_usable last e ≡ true
  unfolding is_usable
  usable_later now e h u = ground arith

  refresh_usable :
      (now : ℕ) (e : KeyEntry)
      → now ≤ last
      → is_usable last (refresh_entry now e) ≡ is_usable last e
  unfolding is_usable refresh_entry
  refresh_usable now e h = ground arith

  count-refresh :
      (now : ℕ) (es : List KeyEntry)
      → now ≤ last
      → count_if (is_usable last) (refresh_expired_rate_limits now es)
        ≡ count_if (is_usable last) es
  unfolding refresh_expired_rate_limits
  count-refresh now [] h = refl
  count-refresh now (e ∷ es) h = ground (arith, refresh_usable now e, count-refresh now es)

  any-hands_out :
      (now alias key : ℕ) (es : List KeyEntry)
      → now ≤ last
      → any (hands_out now alias key) es ≡ true
      → any (λ e. e.alias == alias && is_usable last e) es ≡ true
  any-hands_out now alias key [] h a = absurd (ground arith)
  any-hands_out now alias key (e ∷ es) h a =
      ground (arith, usable_later now e, any-hands_out now alias key es)

  -- A change that takes the key out of use until after `last`.
  count-update_first :
      (alias : ℕ) (f : KeyEntry → KeyEntry) (es : List KeyEntry)
      → distinct_aliases es ≡ true
      → any (λ e. e.alias == alias && is_usable last e) es ≡ true
      → ((e : KeyEntry) → is_usable last (f e) ≡ false)
      → count_if (is_usable last) (update_first alias f es) < count_if (is_usable last) es
  count-update_first alias f [] d a out = absurd (ground arith)
  count-update_first alias f (e ∷ es) d a out = elim (Bool-cases (e.alias == alias)) [
    | inl same ↦
        let e' : e.alias ≡ alias = (==_iff e.alias alias).0 same in
        let gone : any (λ x. x.alias == alias) es ≡ false =
          (λ i. any (λ x. x.alias == sym e' i) es) ∙ ground arith in
        ground (arith, out e, none_usable es)
    | inr differs ↦ ground (arith, count-update_first alias f es)
  ]
    where
      none_usable :
          (xs : List KeyEntry)
          → any (λ x. x.alias == alias) xs ≡ false
          → any (λ x. x.alias == alias && is_usable last x) xs ≡ false
      none_usable [] h = refl
      none_usable (x ∷ xs) h = ground (arith, none_usable xs)

any-alias_refresh :
    (now alias : ℕ) (es : List KeyEntry)
    → any (λ x. x.alias == alias) (refresh_expired_rate_limits now es)
      ≡ any (λ x. x.alias == alias) es
unfolding refresh_expired_rate_limits
any-alias_refresh now alias [] = refl
any-alias_refresh now alias (e ∷ es) = ground (arith, any-alias_refresh now alias es)

distinct-refresh :
    (now : ℕ) (es : List KeyEntry)
    → distinct_aliases (refresh_expired_rate_limits now es) ≡ distinct_aliases es
unfolding refresh_expired_rate_limits
distinct-refresh now [] = refl
distinct-refresh now (e ∷ es) =
    ground (arith, any-alias_refresh now e.alias es, distinct-refresh now es)

module _ (alias : ℕ) (f : KeyEntry → KeyEntry) (kept : (e : KeyEntry) → (f e).alias ≡ e.alias) where
  any-alias_update :
      (other : ℕ) (es : List KeyEntry)
      → any (λ x. x.alias == other) (update_first alias f es) ≡ any (λ x. x.alias == other) es
  any-alias_update other [] = refl
  any-alias_update other (e ∷ es) =
      ground (arith, ap (λ k. k == other) (kept e), any-alias_update other es)

  distinct-update :
      (es : List KeyEntry) → distinct_aliases (update_first alias f es) ≡ distinct_aliases es
  distinct-update [] = refl
  distinct-update (e ∷ es) = ground (
    arith,
    ap (λ k. any (λ x. x.alias == k) es) (kept e),
    any-alias_update e.alias es,
    distinct-update es,
  )

  pub length-update : (es : List KeyEntry) → length (update_first alias f es) ≡ length es
  length-update [] = refl
  length-update (e ∷ es) = ground (arith, length-update es)

pub entries-acquire :
    (now : ℕ) (pool : GroqKeyPool)
    → (acquire_healthy_key now pool).1.entries ≡ refresh_expired_rate_limits now pool.entries
unfolding acquire_healthy_key
entries-acquire now pool =
    let es = refresh_expired_rate_limits now pool.entries in
    elim (Option-cases (scan now es pool.round_robin (length es) 0)) [
      | inl stop ↦ ground arith
      | inr (pair, ep) ↦ ground arith
    ]

-- Distinct aliases and a cursor in range.
pub record IsPool (pool : GroqKeyPool) : Type 0 where
  pub distinct : distinct_aliases pool.entries ≡ true
  pub in_range : InRange pool

-- Enough for a `mark_` operation: the aliases stay and the key is out of use until after `last`.
update-IsPool :
    (last alias : ℕ) (f : KeyEntry → KeyEntry) (pool : GroqKeyPool)
    → IsPool pool
    → any (λ e. e.alias == alias && is_usable last e) pool.entries ≡ true
    → ((e : KeyEntry) → (f e).alias ≡ e.alias)
    → ((e : KeyEntry) → is_usable last (f e) ≡ false)
    → let pool' : GroqKeyPool = record pool { entries = update_first alias f pool.entries } in
      IsPool pool'
      × (count_if (is_usable last) pool'.entries < count_if (is_usable last) pool.entries)
update-IsPool last alias f pool ok a kept out = (
  record {
    distinct = distinct-update alias f kept pool.entries ∙ ok.distinct;
    in_range = elim ok.in_range [
      | inl empty ↦ inl (length-update alias f kept pool.entries ∙ empty)
      | inr lt ↦ inr (rw (length-update alias f kept pool.entries) lt)
    ];
  },
  count-update_first last alias f pool.entries ok.distinct a out,
)

pub acquire-IsPool :
    (last now : ℕ) (pool : GroqKeyPool)
    → now ≤ last
    → IsPool pool
    → let pool' = (acquire_healthy_key now pool).1 in
      IsPool pool'
      × (count_if (is_usable last) pool'.entries ≡ count_if (is_usable last) pool.entries)
      × ((alias key : ℕ)
          → (acquire_healthy_key now pool).0 ≡ some (alias, key)
          → any (λ e. e.alias == alias && is_usable last e) pool'.entries ≡ true)
acquire-IsPool last now pool h ok =
    let (found, hands, range) = acquire_healthy_key-finds now pool ok.in_range in
    let same = entries-acquire now pool in
    (
      record {
        distinct = ap distinct_aliases same ∙ distinct-refresh now pool.entries ∙ ok.distinct;
        in_range = range;
      },
      ap (count_if (is_usable last)) same ∙ count-refresh last now pool.entries h,
      λ alias key e.
          ap (any (λ x. x.alias == alias && is_usable last x)) same
          ∙ any-hands_out last now alias key (refresh_expired_rate_limits now pool.entries) h
              (hands alias key e),
    )

pub mark_blocked-IsPool :
    (last alias : ℕ) (pool : GroqKeyPool)
    → IsPool pool
    → any (λ e. e.alias == alias && is_usable last e) pool.entries ≡ true
    → IsPool (mark_blocked alias pool)
      × (count_if (is_usable last) (mark_blocked alias pool).entries
          < count_if (is_usable last) pool.entries)
unfolding mark_blocked is_usable
mark_blocked-IsPool last alias pool ok a =
    update-IsPool last alias (λ e. record e { status = blocked; rate_limited_until = none }) pool ok
      a (λ e. refl) (λ e. refl)

pub mark_rate_limited-IsPool :
    (last alias until : ℕ) (pool : GroqKeyPool)
    → last < until
    → IsPool pool
    → any (λ e. e.alias == alias && is_usable last e) pool.entries ≡ true
    → IsPool (mark_rate_limited alias until pool)
      × (count_if (is_usable last) (mark_rate_limited alias until pool).entries
          < count_if (is_usable last) pool.entries)
unfolding mark_rate_limited is_usable
mark_rate_limited-IsPool last alias until pool lt ok a =
    update-IsPool last alias
      (λ e. record e { status = rate_limited; rate_limited_until = some until }) pool ok a
      (λ e. refl) (λ e. ground arith)
