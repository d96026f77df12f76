-- ===== src/Lifecycle/Delete.antt =====
-- Deleting topic nodes takes their content away from trainees (node_delete_cascade.py).
use study_agent_service.Prelude.{
  contains-append, keep, ◌++◌, inr, ==_iff, ap, inl, refl, Bool-cases, arith, [], ◌==◌, true, map,
  if◌then◌else◌, ◌||◌, ◌∷◌, ◌&&◌, contains, any, false, Bool, List, ℕ, ◌≡◌,
}
use study_agent_service.Lifecycle.Store.{
  cascade_node_delete_content, is_frozen_by_delete, delete_nodes, delete_quiz, delete_version,
}
use study_agent_service.Lifecycle.Model.{QuizAttempt, Quiz, StudyMaterialVersion}
use study_agent_service.Lifecycle.Visibility.{is_trainee_live_quiz, is_trainee_live_sm}
use study_agent_service.Lifecycle.Publish.{contains-archived_ids, abandon-open_at, open_at}

-- Live content on one of the nodes.
abbrev pub live_version_in : List ℕ → StudyMaterialVersion → Bool
live_version_in nodes v = contains v.node_id nodes && is_trainee_live_sm v

abbrev pub live_quiz_in : List ℕ → Quiz → Bool
live_quiz_in nodes q = contains q.node_id nodes && is_trainee_live_quiz q

delete_version_row :
    (n now : ℕ) (seen : List ℕ) (v : StudyMaterialVersion)
    → live_version_in seen v ≡ false
    → live_version_in (n ∷ seen) (if v.node_id == n then delete_version now v else v) ≡ false
unfolding delete_version is_trainee_live_sm
delete_version_row n now seen v h = ground arith

delete_version_rows :
    (n now : ℕ) (seen : List ℕ) (vs : List StudyMaterialVersion)
    → any (live_version_in seen) vs ≡ false
    → any
        (live_version_in (n ∷ seen))
        (map (λ v. if v.node_id == n then delete_version now v else v) vs)
      ≡ false
delete_version_rows n now seen [] h = refl
delete_version_rows n now seen (v ∷ vs) h =
    ground (arith, delete_version_row n now seen v, delete_version_rows n now seen vs)

delete_quiz_row :
    (n now : ℕ) (seen : List ℕ) (q : Quiz)
    → live_quiz_in seen q ≡ false
    → live_quiz_in (n ∷ seen) (if q.node_id == n then delete_quiz now q else q) ≡ false
unfolding delete_quiz is_trainee_live_quiz
delete_quiz_row n now seen q h = ground arith

delete_quiz_rows :
    (n now : ℕ) (seen : List ℕ) (qs : List Quiz)
    → any (live_quiz_in seen) qs ≡ false
    → any (live_quiz_in (n ∷ seen)) (map (λ q. if q.node_id == n then delete_quiz now q else q) qs)
      ≡ false
delete_quiz_rows n now seen [] h = refl
delete_quiz_rows n now seen (q ∷ qs) h =
    ground (arith, delete_quiz_row n now seen q, delete_quiz_rows n now seen qs)

delete_nodes_live :
    (ns : List ℕ) (now : ℕ) (seen : List ℕ) (vs : List StudyMaterialVersion) (qs : List Quiz)
    (frozen : List ℕ)
    → any (live_version_in seen) vs ≡ false
    → any (live_quiz_in seen) qs ≡ false
    → let (vs', qs', frozen') = delete_nodes ns now vs qs frozen in
      (m : ℕ)
      → contains m ns || contains m seen ≡ true
      → (any (live_version_in (m ∷ [])) vs' ≡ false) × (any (live_quiz_in (m ∷ [])) qs' ≡ false)
unfolding delete_nodes
delete_nodes_live [] now seen vs qs frozen hv hq m at = (narrow_v vs hv, narrow_q qs hq)
  where
    narrow_v :
        (l : List StudyMaterialVersion)
        → any (live_version_in seen) l ≡ false
        → any (live_version_in (m ∷ [])) l ≡ false
    narrow_v [] h = refl
    narrow_v (v ∷ l) h = elim (Bool-cases (v.node_id == m)) [
      | inl same ↦
          ground (arith, narrow_v l, ap (λ k. contains k seen) ((==_iff v.node_id m).0 same))
      | inr other ↦ ground (arith, narrow_v l)
    ]

    narrow_q :
        (l : List Quiz) → any (live_quiz_in seen) l ≡ false → any (live_quiz_in (m ∷ [])) l ≡ false
    narrow_q [] h = refl
    narrow_q (q ∷ l) h = elim (Bool-cases (q.node_id == m)) [
      | inl same ↦
          ground (arith, narrow_q l, ap (λ k. contains k seen) ((==_iff q.node_id m).0 same))
      | inr other ↦ ground (arith, narrow_q l)
    ]
delete_nodes_live (n ∷ ns) now seen vs qs frozen hv hq m at =
    delete_nodes_live ns now (n ∷ seen)
      (map (λ v. if v.node_id == n then delete_version now v else v) vs)
      (map (λ q. if q.node_id == n then delete_quiz now q else q) qs)
      (frozen
        ++ map (λ (q : Quiz). q.quiz_id) (keep (λ q. q.node_id == n && is_frozen_by_delete q) qs))
      (delete_version_rows n now seen vs hv) (delete_quiz_rows n now seen qs hq) m (ground arith)

-- The ids that one round of the loop adds.
abbrev frozen_ids : ℕ → List Quiz → List ℕ
frozen_ids n qs =
    map (λ (q : Quiz). q.quiz_id) (keep (λ q. q.node_id == n && is_frozen_by_delete q) qs)

abbrev delete_quizzes : ℕ → ℕ → List Quiz → List Quiz
delete_quizzes n now = map (λ q. if q.node_id == n then delete_quiz now q else q)

pub freezes : List ℕ → ℕ → Quiz → Bool
freezes nodes k q = k == q.quiz_id && (contains q.node_id nodes && is_frozen_by_delete q)

frozen_kept :
    (ns : List ℕ) (now k : ℕ) (vs : List StudyMaterialVersion) (qs : List Quiz) (frozen : List ℕ)
    → contains k frozen ≡ true
    → contains k (delete_nodes ns now vs qs frozen).2 ≡ true
unfolding delete_nodes
frozen_kept [] now k vs qs frozen h = h
frozen_kept (n ∷ ns) now k vs qs frozen h =
    frozen_kept ns now k (map (λ v. if v.node_id == n then delete_version now v else v) vs)
      (delete_quizzes n now qs) (frozen ++ frozen_ids n qs)
      (ground (arith, contains-append k frozen (frozen_ids n qs)))

-- The quizzes of one round.
freezes_now : ℕ → ℕ → Quiz → Bool
freezes_now n k q = (q.node_id == n && is_frozen_by_delete q) && k == q.quiz_id

contains-frozen_ids :
    (n k : ℕ) (qs : List Quiz) → contains k (frozen_ids n qs) ≡ any (freezes_now n k) qs
unfolding freezes_now
contains-frozen_ids n k qs =
    contains-archived_ids (λ q. q.node_id == n && is_frozen_by_delete q) k qs

round_test :
    (at idle fits rest x : Bool)
    → (fits && ((at || rest) && idle)) ≡ true
    → (at ≡ false → x ≡ (fits && (rest && idle)))
    → (((at && idle) && fits) || x) ≡ true
round_test true idle fits rest x h e = ground arith
round_test false idle fits rest x h e = ground (arith, e refl)

freezes_row :
    (n now k : ℕ) (ns : List ℕ) (q : Quiz)
    → freezes (n ∷ ns) k q ≡ true
    → (freezes_now n k q || freezes ns k (if q.node_id == n then delete_quiz now q else q)) ≡ true
unfolding freezes freezes_now
freezes_row n now k ns q h =
    round_test (q.node_id == n) (is_frozen_by_delete q) (k == q.quiz_id) (contains q.node_id ns)
      (unfold freezes in freezes ns k (if q.node_id == n then delete_quiz now q else q)) h
      (λ e. rw e)

freezes_rows :
    (n now k : ℕ) (ns : List ℕ) (qs : List Quiz)
    → any (freezes (n ∷ ns) k) qs ≡ true
    → (any (freezes_now n k) qs || any (freezes ns k) (delete_quizzes n now qs)) ≡ true
freezes_rows n now k ns [] h = absurd (ground arith)
freezes_rows n now k ns (q ∷ qs) h =
    ground (arith, freezes_row n now k ns q, freezes_rows n now k ns qs)

frozen_round :
    (n now k : ℕ) (ns : List ℕ) (qs : List Quiz)
    → any (freezes (n ∷ ns) k) qs ≡ true
    → (contains k (frozen_ids n qs) || any (freezes ns k) (delete_quizzes n now qs)) ≡ true
frozen_round n now k ns qs h = rw (contains-frozen_ids n k qs) (freezes_rows n now k ns qs h)

no_quiz_freezes : (k : ℕ) (l : List Quiz) → any (freezes [] k) l ≡ true → ⊥
unfolding freezes
no_quiz_freezes k [] e = ground arith
no_quiz_freezes k (q ∷ l) e = ground (arith, no_quiz_freezes k l)

frozen_found :
    (ns : List ℕ) (now k : ℕ) (vs : List StudyMaterialVersion) (qs : List Quiz) (frozen : List ℕ)
    → any (freezes ns k) qs ≡ true
    → contains k (delete_nodes ns now vs qs frozen).2 ≡ true
unfolding delete_nodes
frozen_found [] now k vs qs frozen h = absurd (no_quiz_freezes k qs h)
frozen_found (n ∷ ns) now k vs qs frozen h =
    let vs' = map (λ v. if v.node_id == n then delete_version now v else v) vs in
    let qs' = delete_quizzes n now qs in
    let frozen' = frozen ++ frozen_ids n qs in
    elim (Bool-cases (contains k (frozen_ids n qs))) [
      | inl added ↦
          frozen_kept ns now k vs' qs' frozen'
            (ground (arith, contains-append k frozen (frozen_ids n qs)))
      | inr later ↦
          frozen_found ns now k vs' qs' frozen' (ground (arith, frozen_round n now k ns qs))
    ]

-- After the deletion of some nodes none of them has a live version or a live quiz, and no attempt
-- is open any more at a quiz that was live on one of them, or hidden after it had been published.
pub cascade_node_delete-hides :
    (node_ids : List ℕ) (now node : ℕ) (versions : List StudyMaterialVersion) (quizzes : List Quiz)
    (attempts : List QuizAttempt)
    → contains node node_ids ≡ true
    → let (vs, qs, remaining) =
        cascade_node_delete_content node_ids now versions quizzes attempts in
      (any (live_version_in (node ∷ [])) vs ≡ false)
      × (any (live_quiz_in (node ∷ [])) qs ≡ false)
      × ((k : ℕ) → any (freezes node_ids k) quizzes ≡ true → any (open_at k) remaining ≡ false)
unfolding cascade_node_delete_content
cascade_node_delete-hides node_ids now node versions quizzes attempts at =
    let (v, q) =
      delete_nodes_live node_ids now [] versions quizzes [] (none_v versions) (none_q quizzes) node
        (ground arith) in
    (
      v,
      q,
      λ k h. ground (
        arith,
        frozen_found node_ids now k versions quizzes [] h,
        abandon-open_at (delete_nodes node_ids now versions quizzes []).2 now k attempts,
      ),
    )
  where
    none_v : (l : List StudyMaterialVersion) → any (live_version_in []) l ≡ false
    none_v [] = refl
    none_v (x ∷ l) = none_v l

    none_q : (l : List Quiz) → any (live_quiz_in []) l ≡ false
    none_q [] = refl
    none_q (x ∷ l) = none_q l
