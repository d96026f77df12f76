-- ===== src/Progress/Unlocking/Grants.antt =====
-- What is stored by a grant, and what the queries on grants answer.
use study_agent_service.Prelude.{
  any-append, ℕ, ◌≡◌, refl, sym, ap, inl, inr, Bool, true, false, not, ◌&&◌, ◌||◌, List, [], ◌∷◌,
  ◌++◌, map, arith, ◌==◌, ==_iff, Bool-cases, any, keep, contains,
}
use study_agent_service.Progress.Store.{
  get_unlocked_node_ids, grant_unlock, unlock_key, Db, UnlockRow,
}
use study_agent_service.Progress.Unlocking.{unique_ids}

-- The durable grant of a trainee for a node.
abbrev pub has_grant : ℕ → ℕ → Db → Bool
has_grant trainee node db = any (unlock_key trainee node) db.unlocks

-- One row for each trainee and node, as the unique constraint demands.
abbrev pub distinct_unlocks : List UnlockRow → Bool
distinct_unlocks [] = true
distinct_unlocks (u ∷ us) = not (any (unlock_key u.trainee_id u.node_id) us) && distinct_unlocks us

distinct-append :
    (us : List UnlockRow) (u : UnlockRow)
    → distinct_unlocks us ≡ true
    → any (unlock_key u.trainee_id u.node_id) us ≡ false
    → distinct_unlocks (us ++ u ∷ []) ≡ true
distinct-append [] u h e = refl
distinct-append (v ∷ us) u h e =
    ground (arith, distinct-append us u, any-append (unlock_key v.trainee_id v.node_id) us (u ∷ []))

pub grant_of_key :
    (trainee node : ℕ) (u : UnlockRow) (us : List UnlockRow)
    → unlock_key trainee node u ≡ true
    → any (unlock_key trainee node) us ≡ any (unlock_key u.trainee_id u.node_id) us
grant_of_key trainee node u us h =
    let e : u.trainee_id ≡ trainee = ground arith in
    let e' : u.node_id ≡ node = ground arith in λ i. any (unlock_key (sym e i) (sym e' i)) us

-- A grant is idempotent: it reports whether the pair was new, afterwards the pair is stored, once,
-- every other pair is as before, and nothing else in the tables changes.
pub grant_unlock-stores :
    (u : UnlockRow) (db : Db) (trainee node : ℕ)
    → let (written, db') = grant_unlock u db in
      (written ≡ not (has_grant u.trainee_id u.node_id db))
      × (has_grant trainee node db' ≡ (has_grant trainee node db || unlock_key trainee node u))
      × (distinct_unlocks db.unlocks ≡ true → distinct_unlocks db'.unlocks ≡ true)
      × (grant_unlock u db' ≡ (false, db'))
      × (db'.progress ≡ db.progress)
unfolding grant_unlock
grant_unlock-stores u db trainee node = elim (Bool-cases (has_grant u.trainee_id u.node_id db)) [
  | inl old ↦ elim (Bool-cases (unlock_key trainee node u)) [
    | inl same ↦ ground (arith, grant_of_key trainee node u db.unlocks same)
    | inr other ↦ ground arith
  ]
  | inr new ↦ ground (
    arith,
    any-append (unlock_key trainee node) db.unlocks (u ∷ []),
    any-append (unlock_key u.trainee_id u.node_id) db.unlocks (u ∷ []),
    ==_iff u.trainee_id u.trainee_id,
    ==_iff u.node_id u.node_id,
    distinct-append db.unlocks u,
  )
]

-- The query for the unlocked among some nodes.
pub contains-unlocked :
    (trainee node : ℕ) (ids : List ℕ) (db : Db)
    → contains node (get_unlocked_node_ids trainee ids db)
      ≡ (contains node ids && has_grant trainee node db)
unfolding get_unlocked_node_ids
contains-unlocked trainee node [] db = refl
contains-unlocked trainee node (i ∷ ids) db = rows db.unlocks
  where
    rows :
        (us : List UnlockRow)
        → contains node (
            map
              (λ (u : UnlockRow). u.node_id)
              (keep (λ u. u.trainee_id == trainee && contains u.node_id (i ∷ ids)) us))
          ≡ (contains node (i ∷ ids) && any (unlock_key trainee node) us)
    rows [] = ground arith
    rows (u ∷ us) = elim (Bool-cases (u.node_id == node)) [
      | inl same ↦
          ground (arith, rows us, ap (λ k. contains k (i ∷ ids)) ((==_iff u.node_id node).0 same))
      | inr other ↦ ground (arith, rows us)
    ]

pub contains-unique_ids :
    (node : ℕ) (seen ids : List ℕ)
    → contains node (unique_ids seen ids) ≡ (contains node ids && not (contains node seen))
unfolding unique_ids
contains-unique_ids node seen [] = ground arith
contains-unique_ids node seen (i ∷ ids) = elim (Bool-cases (node == i)) [
  | inl same ↦ ground (
    arith,
    contains-unique_ids node (i ∷ seen) ids,
    ap (λ k. contains k seen) ((==_iff node i).0 same),
  )
  | inr other ↦ ground (arith, contains-unique_ids node (i ∷ seen) ids)
]
